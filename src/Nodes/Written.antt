-- ===== src/Nodes/Written.antt =====
-- What `write_node` of fs/agfs_adapter/agfs_context_fs.py leaves, and what `read_node` makes of it.
use rtc_retrieval_token_cutt.Base.{
  ℕ, ◌≡◌, ◌≢◌, refl, ap, ◌∙◌, Bool, true, false, Option, none, some, [], ◌∷◌, ◌++◌, Text, codes,
  text_eq, text_eq_iff, starts_with, arith, if◌then◌else◌, Result, Error, ok, raised,
}
use rtc_retrieval_token_cutt.Json.{Json, num, Fields, lookup_field, lookup_field-set_field}
use rtc_retrieval_token_cutt.Nodes.Files.{
  Codec, found, NodeClient, NodeLaws, content_path, relations_path, abstract_path, overview_path,
  meta_path,
}
use rtc_retrieval_token_cutt.Nodes.Meta.{
  ContextNode, base_meta, update_meta, meta_of, or_else, last_value, lookup_field-update_meta,
  with_expected,
}
use rtc_retrieval_token_cutt.Nodes.Methods.{◌then_on◌, mkdir_p, write_file, write_body, write_at}

text_eq-append : (p a b : Text) → text_eq (p ++ a) (p ++ b) ≡ text_eq a b
unfolding text_eq
text_eq-append [] a b = refl
text_eq-append (x ∷ p) a b = ground (arith, text_eq-append p a b)

pub files_apart : (p a b : Text) → text_eq a b ≡ false → p ++ a ≢ p ++ b
files_apart p a b h e =
    let same : text_eq (p ++ a) (p ++ b) ≡ true = (text_eq_iff (p ++ a) (p ++ b)).1 e in
    absurd (cc (same, text_eq-append p a b, h))

-- A key of the metadata file that does not begin with an underscore, unless it is the expected version
pub lookup_field-meta_of :
    (node : ContextNode) (now k : Text)
    → starts_with k (codes "_") ≡ false
    → text_eq (codes "expected_version") k ≡ false
    → lookup_field k (meta_of node now)
      ≡ or_else (last_value k node.metadata) (lookup_field k (base_meta node now))
unfolding meta_of
lookup_field-meta_of node now k h e = through node.expected_version
  where
    meta : Fields
    meta = update_meta (base_meta node now) node.metadata

    through :
        (o : Option ℕ)
        → lookup_field k (with_expected o (update_meta (base_meta node now) node.metadata))
          ≡ or_else (last_value k node.metadata) (lookup_field k (base_meta node now))
    through none = lookup_field-update_meta k (base_meta node now) node.metadata h
    through (some n) =
        lookup_field-set_field (codes "expected_version") k (num n)
          (update_meta (base_meta node now) node.metadata)
        ∙ rw e (lookup_field-update_meta k (base_meta node now) node.metadata h)

-- Such a key has a value if the base has one for it.
pub has_value :
    (node : ContextNode) (now k : Text) (w : Json)
    → starts_with k (codes "_") ≡ false
    → text_eq (codes "expected_version") k ≡ false
    → lookup_field k (base_meta node now) ≡ some w
    → (v : Json) × (lookup_field k (meta_of node now) ≡ some v)
has_value node now k w h e b =
    let (v, o) = either (last_value k node.metadata) in
    (v, lookup_field-meta_of node now k h e ∙ ap (or_else (last_value k node.metadata)) b ∙ o)
  where
    either : (o : Option Json) → (v : Json) × (or_else o (some w) ≡ some v)
    either none = (w, refl)
    either (some v) = (v, refl)

module _ (unquote : Text → Text) (mount_prefix : Text) (j : Codec) (c : NodeClient j.Bytes)
    (laws : NodeLaws c) where
  abbrev Step : Type 0
  Step = Result (Unit {0}) × c.Files

  abbrev step : Text → j.Bytes → c.Files → Step
  step p x f = write_file unquote mount_prefix j c p x f

  abbrev after : Step → (c.Files → Step) → Step
  after s next = ◌then_on◌ unquote mount_prefix j c s next

  pub write_file-ne :
      (p q : Text) (x : j.Bytes) (f : c.Files)
      → p ≢ q
      → c.read (write_file unquote mount_prefix j c p x f).1 q ≡ c.read f q
  write_file-ne p q x f h = laws.read-write_ne f p q x h

  write_file-read :
      (p : Text) (x : j.Bytes) (f : c.Files)
      → (write_file unquote mount_prefix j c p x f).0 ≡ ok tt
      → c.read (write_file unquote mount_prefix j c p x f).1 p ≡ found x
  write_file-read p x f h = laws.read-write f p x (written (c.write f p x).0 h)
    where
      written :
          (b : Bool)
          → (let r : Result (Unit {0}) = if b then ok tt else raised Error.client_error in r)
            ≡ ok tt
          → b ≡ true
      written true e = refl
      written false e = absurd (cc)

  pub then_on-keeps :
      (q : Text) (s : Step) (next : c.Files → Step) (f : c.Files)
      → c.read s.1 q ≡ c.read f q
      → ((g : c.Files) → c.read (next g).1 q ≡ c.read g q)
      → c.read (◌then_on◌ unquote mount_prefix j c s next).1 q ≡ c.read f q
  then_on-keeps q (ok _, g) next f h k = k g ∙ h
  then_on-keeps q (raised e, g) next f h k = h

  -- None of the four writes of the body touches the metadata file.
  pub write_body-keeps :
      (node : ContextNode) (path : Text) (f : c.Files)
      → c.read (write_body unquote mount_prefix j c node path f).1 (meta_path path)
        ≡ c.read f (meta_path path)
  unfolding write_body text_eq
  write_body-keeps node path f =
      let s₁ = step (content_path path) (j.encode node.content) f in
      let s₂ = after s₁ (step (relations_path path) (j.dump_relations node.relations)) in
      let s₃ = after s₂ (step (abstract_path path) (j.encode node.abstract)) in
      let m = meta_path path in
      let k₁ =
        write_file-ne (content_path path) m (j.encode node.content) f
          (files_apart path (codes "content.md") (codes ".meta.json") refl) in
      let k₂ =
        then_on-keeps m s₁ (step (relations_path path) (j.dump_relations node.relations)) f k₁ (λ g.
          write_file-ne (relations_path path) m (j.dump_relations node.relations) g
            (files_apart path (codes ".relations.json") (codes ".meta.json") refl)) in
      let k₃ = then_on-keeps m s₂ (step (abstract_path path) (j.encode node.abstract)) f k₂ (λ g.
        write_file-ne (abstract_path path) m (j.encode node.abstract) g
          (files_apart path (codes ".abstract.md") (codes ".meta.json") refl)) in
      then_on-keeps m s₃ (step (overview_path path) (j.encode node.overview)) f k₃ (λ g.
        write_file-ne (overview_path path) m (j.encode node.overview) g
          (files_apart path (codes ".overview.md") (codes ".meta.json") refl))

  -- What the five files of a node hold behind a write.
  pub record Written (node : ContextNode) (now path : Text) (f : c.Files) : Type 0 where
    pub content : c.read f (content_path path) ≡ found (j.encode node.content)
    pub relations : c.read f (relations_path path) ≡ found (j.dump_relations node.relations)
    pub abstract : c.read f (abstract_path path) ≡ found (j.encode node.abstract)
    pub overview : c.read f (overview_path path) ≡ found (j.encode node.overview)
    pub meta : c.read f (meta_path path) ≡ found (j.dump_meta (meta_of node now))

  pub after-ok :
      (s : Step) (next : c.Files → Step)
      → (after s next).0 ≡ ok tt
      → (s.0 ≡ ok tt) × ((next s.1).0 ≡ ok tt) × ((after s next).1 ≡ (next s.1).1)
  after-ok (ok _, f) next h = (refl, h, refl)
  after-ok (raised e, f) next h = absurd (cc)

  -- A write behind other steps leaves another file alone, and its own file is what it wrote.
  passes :
      (p q : Text) (x : j.Bytes) (s : Step)
      → p ≢ q
      → (after s (step p x)).0 ≡ ok tt
      → c.read (after s (step p x)).1 q ≡ c.read s.1 q
  passes p q x s h o =
      let (_, _, e) = after-ok s (step p x) o in ap (λ g. c.read g q) e ∙ write_file-ne p q x s.1 h

  lands :
      (p : Text) (x : j.Bytes) (s : Step)
      → (after s (step p x)).0 ≡ ok tt
      → c.read (after s (step p x)).1 p ≡ found x
  lands p x s o =
      let (_, w, e) = after-ok s (step p x) o in ap (λ g. c.read g p) e ∙ write_file-read p x s.1 w

  -- The files of the body, behind `write_body`.
  pub record Body (node : ContextNode) (path : Text) (f : c.Files) : Type 0 where
    pub content : c.read f (content_path path) ≡ found (j.encode node.content)
    pub relations : c.read f (relations_path path) ≡ found (j.dump_relations node.relations)
    pub abstract : c.read f (abstract_path path) ≡ found (j.encode node.abstract)
    pub overview : c.read f (overview_path path) ≡ found (j.encode node.overview)

  pub write_body-Body :
      (node : ContextNode) (path : Text) (f : c.Files)
      → (write_body unquote mount_prefix j c node path f).0 ≡ ok tt
      → Body node path (write_body unquote mount_prefix j c node path f).1
  unfolding write_body text_eq
  write_body-Body node path f o₄ =
      let apart = files_apart path in
      let s₁ = step (content_path path) (j.encode node.content) f in
      let s₂ = after s₁ (step (relations_path path) (j.dump_relations node.relations)) in
      let s₃ = after s₂ (step (abstract_path path) (j.encode node.abstract)) in
      let o₃ = (after-ok s₃ (step (overview_path path) (j.encode node.overview)) o₄).0 in
      let o₂ = (after-ok s₂ (step (abstract_path path) (j.encode node.abstract)) o₃).0 in
      let o₁ = (after-ok s₁ (step (relations_path path) (j.dump_relations node.relations)) o₂).0 in
      record {
        content =
            passes (overview_path path) (content_path path) (j.encode node.overview) s₃
              (apart (codes ".overview.md") (codes "content.md") refl) o₄
            ∙ passes (abstract_path path) (content_path path) (j.encode node.abstract) s₂
                (apart (codes ".abstract.md") (codes "content.md") refl) o₃
            ∙ passes (relations_path path) (content_path path) (j.dump_relations node.relations) s₁
                (apart (codes ".relations.json") (codes "content.md") refl) o₂
            ∙ write_file-read (content_path path) (j.encode node.content) f o₁;
        relations =
            passes (overview_path path) (relations_path path) (j.encode node.overview) s₃
              (apart (codes ".overview.md") (codes ".relations.json") refl) o₄
            ∙ passes (abstract_path path) (relations_path path) (j.encode node.abstract) s₂
                (apart (codes ".abstract.md") (codes ".relations.json") refl) o₃
            ∙ lands (relations_path path) (j.dump_relations node.relations) s₁ o₂;
        abstract =
            passes (overview_path path) (abstract_path path) (j.encode node.overview) s₃
              (apart (codes ".overview.md") (codes ".abstract.md") refl) o₄
            ∙ lands (abstract_path path) (j.encode node.abstract) s₂ o₃;
        overview = lands (overview_path path) (j.encode node.overview) s₃ o₄;
      }

  pub write_at-Written :
      (node : ContextNode) (now path : Text) (f : c.Files)
      → (write_at unquote mount_prefix j c node now path f).0 ≡ ok tt
      → Written node now path (write_at unquote mount_prefix j c node now path f).1
  unfolding write_at text_eq
  write_at-Written node now path f o =
      let apart = files_apart path in
      let s₀ = mkdir_p unquote mount_prefix j c path f in
      let s₁ = after s₀ (write_body unquote mount_prefix j c node path) in
      let m = j.dump_meta (meta_of node now) in
      let o₁ = (after-ok s₁ (step (meta_path path) m) o).0 in
      let (_, w, e) = after-ok s₀ (write_body unquote mount_prefix j c node path) o₁ in
      let b = write_body-Body node path s₀.1 w in
      record {
        content =
            passes (meta_path path) (content_path path) m s₁
              (apart (codes ".meta.json") (codes "content.md") refl) o
            ∙ ap (λ g. c.read g (content_path path)) e
            ∙ b.content;
        relations =
            passes (meta_path path) (relations_path path) m s₁
              (apart (codes ".meta.json") (codes ".relations.json") refl) o
            ∙ ap (λ g. c.read g (relations_path path)) e
            ∙ b.relations;
        abstract =
            passes (meta_path path) (abstract_path path) m s₁
              (apart (codes ".meta.json") (codes ".abstract.md") refl) o
            ∙ ap (λ g. c.read g (abstract_path path)) e
            ∙ b.abstract;
        overview =
            passes (meta_path path) (overview_path path) m s₁
              (apart (codes ".meta.json") (codes ".overview.md") refl) o
            ∙ ap (λ g. c.read g (overview_path path)) e
            ∙ b.overview;
        meta = lands (meta_path path) m s₁ o;
      }
