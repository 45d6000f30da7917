-- ===== src/Nodes/Present.antt =====
-- fs/agfs_adapter/agfs_context_fs.py: which nodes `exists`, `list_children` and `read_node` show
-- before and after `delete_node` and `move_node`.
use rtc_retrieval_token_cutt.Base.{
  ◌≡◌, refl, sym, ap, ◌∙◌, subst, Bool, true, false, ◌&&◌, Option, none, some, List, [], ◌∷◌, ◌++◌,
  Text, codes, All, arith, Bool-cases, both_true, inl, inr, Error, Result, ok, raised,
  node_not_found, ◌>>=◌, >>=-eq-ok, if◌then◌else◌,
}
use rtc_retrieval_token_cutt.Json.{Fields}
use rtc_retrieval_token_cutt.Outbox.Client.{Entry}
use rtc_retrieval_token_cutt.Nodes.Files.{Codec, missing, NodeClient, meta_path}
use rtc_retrieval_token_cutt.Nodes.Methods.{
  Caller, ReadNode, is_accessible, node_path, read_bytes, read_meta, status_of, read_at, read_node,
}
use rtc_retrieval_token_cutt.Nodes.Tree.{
  Removed, removed, no_such_file, not_removed, TreeClient, child_uri, or_absent, is_active,
  is_listed, exists, children, listing, list_children, removal, delete_at, moved, delete_node,
  both_paths, move_at, move_node,
}

-- What AGFS documents of a removal and of a move that succeed: nothing is left below the removed
-- directory, and a file below the new directory is the one that was below the old.
pub record TreeLaws {B : Type 0} {c : NodeClient B} (t : TreeClient c) : Type 0 where
  pub read-rm :
      (f : c.Files) (p s : Text) → (t.rm f p).0 ≡ removed → c.read (t.rm f p).1 (p ++ s) ≡ missing
  pub read-mv :
      (f : c.Files) (p q s : Text)
      → (t.mv f p q).0 ≡ true
      → c.read (t.mv f p q).1 (q ++ s) ≡ c.read f (p ++ s)

bind_raised {ℓ κ} :
    {A : Type ℓ} {B : Type κ} {m : Result A} {e : Error} (next : A → Result B)
    → m ≡ raised e
    → (m >>= next) ≡ raised e
bind_raised next e = ap (λ r. r >>= next) e

abbrev paired : Result Text → Result Text → Result (Text × Text)
paired r s = do a ← r; b ← s; ok (a, b)

both_ok : {p q : Text} (r s : Result Text) → paired r s ≡ ok (p, q) → (r ≡ ok p) × (s ≡ ok q)
both_ok (raised e) s h = absurd (cc)
both_ok (ok a) (raised e) h = absurd (cc)
both_ok (ok a) (ok b) h = (cc, cc)

module _ (unquote : Text → Text) (mount_prefix : Text) (j : Codec) (c : NodeClient j.Bytes) where
  abbrev shows : Text → Caller → c.Files → Result Bool
  shows uri ctx f = exists unquote mount_prefix j c uri ctx f

  abbrev may : Text → Caller → Bool
  may uri ctx = is_accessible unquote mount_prefix j c uri ctx

  abbrev path_of : Text → Result Text
  path_of uri = node_path unquote mount_prefix j c uri

  abbrev exists_at : Text → c.Files → Result Bool
  exists_at path f =
      or_absent
        (read_meta unquote mount_prefix j c (meta_path path) f >>= λ meta. ok (is_active meta))

  exists-path :
      (uri path : Text) (ctx : Caller) (f : c.Files)
      → may uri ctx ≡ true
      → path_of uri ≡ ok path
      → shows uri ctx f ≡ exists_at path f
  unfolding exists
  exists-path uri path ctx f a e = rw (a, e) refl

  module _ (t : TreeClient c) where
    children-Exist :
        (uri : Text) (ctx : Caller) (f : c.Files) (es : List Entry) (cs : List Text)
        → children unquote mount_prefix j c t uri ctx f es ≡ ok cs
        → All (λ child. shows child ctx f ≡ ok true) cs
    unfolding children
    children-Exist uri ctx f [] [] h = tt
    children-Exist uri ctx f [] (x ∷ cs) h = absurd (cc)
    children-Exist uri ctx f (e ∷ es) cs h = elim (Bool-cases (is_listed e)) [
      | inl l ↦
          let (b, s, more) = >>=-eq-ok (shows child ctx f) _ (rw l at h) in
          let (ds, r, k) = >>=-eq-ok (children unquote mount_prefix j c t uri ctx f es) _ more in
          kept b ds s (children-Exist uri ctx f es ds r) k
      | inr l ↦ children-Exist uri ctx f es cs (rw l at h)
    ]
      where
        child : Text
        child = child_uri uri e.name

        AllShown : Result (List Text) → Type 0
        AllShown r = elim r [ raised e ↦ Unit {0} | ok xs ↦ All (λ d. shows d ctx f ≡ ok true) xs ]

        kept :
            (b : Bool) (ds : List Text)
            → shows (child_uri uri e.name) ctx f ≡ ok b
            → All (λ d. shows d ctx f ≡ ok true) ds
            → (let r : Result (List Text) = ok (if b then child_uri uri e.name ∷ ds else ds) in r)
              ≡ ok cs
            → All (λ d. shows d ctx f ≡ ok true) cs
        kept true ds s a k = subst AllShown k (s, a)
        kept false ds s a k = subst AllShown k a

    -- Each child that a listing shows is a node that exists for the caller.
    pub list_children-Exist :
        (uri : Text) (ctx : Caller) (f : c.Files) (cs : List Text)
        → list_children unquote mount_prefix j c t uri ctx f ≡ ok cs
        → All (λ child. exists unquote mount_prefix j c child ctx f ≡ ok true) cs
    unfolding list_children
    list_children-Exist uri ctx f cs h = elim (Bool-cases (may uri ctx)) [
      | inl a ↦ let (path, _, l) = >>=-eq-ok (path_of uri) _ (rw a at h) in listed (t.ls f path) l
      | inr denied ↦ absurd (cc (rw denied at h))
    ]
      where
        listed :
            (o : Option (List Entry))
            → listing unquote mount_prefix j c t o (children unquote mount_prefix j c t uri ctx f)
              ≡ ok cs
            → All (λ child. exists unquote mount_prefix j c child ctx f ≡ ok true) cs
        listed none k = children-Exist uri ctx f [] cs k
        listed (some es) k = children-Exist uri ctx f es cs k

  read-path :
      (uri path : Text) (ctx : Caller) (f : c.Files)
      → may uri ctx ≡ true
      → path_of uri ≡ ok path
      → read_node unquote mount_prefix j c uri ctx f ≡ read_at unquote mount_prefix j c path f
  unfolding read_node
  read-path uri path ctx f a e = rw (a, e) refl

  status_of-is_active :
      (meta : Fields) → status_of unquote mount_prefix j c meta ≡ ok tt → is_active meta ≡ true
  unfolding is_active
  status_of-is_active meta h = ground (arith, h)

  -- A node that can be read exists for the same caller.
  pub read_node-exists :
      (uri : Text) (ctx : Caller) (f : c.Files) (r : ReadNode)
      → read_node unquote mount_prefix j c uri ctx f ≡ ok r
      → exists unquote mount_prefix j c uri ctx f ≡ ok true
  unfolding read_node read_at
  read_node-exists uri ctx f r h = elim (Bool-cases (may uri ctx)) [
    | inl a ↦
        let (path, e, l) = >>=-eq-ok (path_of uri) _ (rw a at h) in
        let (meta, m, k) = >>=-eq-ok (read_meta unquote mount_prefix j c (meta_path path) f) _ l in
        let (_, s, _) = >>=-eq-ok (status_of unquote mount_prefix j c meta) _ k in
        exists-path uri path ctx f a e ∙ rw (m, status_of-is_active meta s) refl
    | inr denied ↦ absurd (cc (rw denied at h))
  ]

  read_bytes-eq :
      (p q : Text) (f g : c.Files)
      → c.read f p ≡ c.read g q
      → read_bytes unquote mount_prefix j c p f ≡ read_bytes unquote mount_prefix j c q g
  read_bytes-eq p q f g e = rw (e, read_bytes) refl

  read_meta-missing :
      (p : Text) (f : c.Files)
      → c.read f p ≡ missing
      → read_meta unquote mount_prefix j c p f ≡ raised node_not_found
  read_meta-missing p f e = ap (λ r. r >>= j.load_meta) absent
    where
      absent : read_bytes unquote mount_prefix j c p f ≡ raised node_not_found
      absent = rw (e, read_bytes) refl

  read_at-raised :
      {e : Error} (path : Text) (f : c.Files)
      → read_meta unquote mount_prefix j c (meta_path path) f ≡ raised e
      → read_at unquote mount_prefix j c path f ≡ raised e
  unfolding read_at
  read_at-raised path f m = bind_raised _ m

  read_meta-eq :
      (p q : Text) (f g : c.Files)
      → c.read f p ≡ c.read g q
      → read_meta unquote mount_prefix j c p f ≡ read_meta unquote mount_prefix j c q g
  read_meta-eq p q f g e = ap (λ r. r >>= j.load_meta) (read_bytes-eq p q f g e)

  module _ (t : TreeClient c) (laws : TreeLaws t) where
    rm_done :
        (s : Removed × c.Files) (g : c.Files)
        → removal unquote mount_prefix j c t s ≡ (ok tt, g)
        → (s.0 ≡ removed) × (s.1 ≡ g)
    rm_done (removed, f) g h = (refl, ap (λ x. x.1) h)
    rm_done (no_such_file, f) g h = absurd (cc)
    rm_done (not_removed, f) g h = absurd (cc)

    -- A node that was deleted is gone: it does not exist, and to read it raises NodeNotFoundError.
    pub delete_node-exists :
        (uri : Text) (ctx : Caller) (f g : c.Files)
        → delete_node unquote mount_prefix j c t uri ctx f ≡ (ok tt, g)
        → (exists unquote mount_prefix j c uri ctx g ≡ ok false)
          × (read_node unquote mount_prefix j c uri ctx g ≡ raised node_not_found)
    unfolding delete_node
    delete_node-exists uri ctx f g h = elim (Bool-cases (may uri ctx)) [
      | inl a ↦ gone a (path_of uri) refl (rw a at h)
      | inr denied ↦ absurd (cc (rw denied at h))
    ]
      where
        gone :
            may uri ctx ≡ true
            → (r : Result Text) → path_of uri ≡ r
            → delete_at unquote mount_prefix j c t r f ≡ (ok tt, g)
            → (shows uri ctx g ≡ ok false)
              × (read_node unquote mount_prefix j c uri ctx g ≡ raised node_not_found)
        gone a (raised e) k d = absurd (cc)
        gone a (ok path) k d =
            let (r, e) = rm_done (t.rm f path) g d in
            let m = read_meta-missing (meta_path path) g (
              ap (λ x. c.read x (meta_path path)) (sym e)
              ∙ laws.read-rm f path (codes ".meta.json") r) in
            (
              exists-path uri path ctx g a k
                  ∙ ap (λ x. or_absent (x >>= λ meta. ok (is_active meta))) m,
              read-path uri path ctx g a k ∙ read_at-raised path g m,
            )

    mv_done :
        (s : Bool × c.Files) (g : c.Files)
        → moved unquote mount_prefix j c t s ≡ (ok tt, g)
        → (s.0 ≡ true) × (s.1 ≡ g)
    mv_done (true, f) g h = (refl, ap (λ x. x.1) h)
    mv_done (false, f) g h = absurd (cc)

    -- A node moves only if both URIs are the caller's and it exists; then it exists under the new URI.
    pub move_node-exists :
        (from_uri to_uri : Text) (ctx : Caller) (f g : c.Files)
        → move_node unquote mount_prefix j c t from_uri to_uri ctx f ≡ (ok tt, g)
        → (exists unquote mount_prefix j c from_uri ctx f ≡ ok true)
          × (exists unquote mount_prefix j c to_uri ctx g ≡ ok true)
    unfolding move_node
    move_node-exists from_uri to_uri ctx f g h =
        elim (Bool-cases (may from_uri ctx && may to_uri ctx)) [
          | inl a ↦
              let (a₁, a₂) = both_true (may from_uri ctx) (may to_uri ctx) a in
              let (there, ((p, q), ps, d)) =
                arrive (shows from_uri ctx f)
                  (both_paths unquote mount_prefix j c t from_uri to_uri) (rw a at h) in
              let (k, l) = both_ok (path_of from_uri) (path_of to_uri) ps in
              let (m, e) = mv_done (t.mv f p q) g d in
              let same = read_meta-eq (meta_path q) (meta_path p) g f (
                ap (λ x. c.read x (meta_path q)) (sym e)
                ∙ laws.read-mv f p q (codes ".meta.json") m) in
              (
                there,
                exists-path to_uri q ctx g a₂ l
                    ∙ ap (λ x. or_absent (x >>= λ meta. ok (is_active meta))) same
                    ∙ sym (exists-path from_uri p ctx f a₁ k)
                    ∙ there,
              )
          | inr denied ↦ absurd (cc (rw denied at h))
        ]
      where
        arrive :
            (o : Result Bool) (r : Result (Text × Text))
            → move_at unquote mount_prefix j c t o r f ≡ (ok tt, g)
            → (o ≡ ok true)
              × ((ps : Text × Text) × (r ≡ ok ps)
                  × (moved unquote mount_prefix j c t (t.mv f ps.0 ps.1) ≡ (ok tt, g)))
        arrive o (raised e) d = absurd (cc)
        arrive (raised e) (ok ps) d = absurd (cc)
        arrive (ok false) (ok ps) d = absurd (cc)
        arrive (ok true) (ok ps) d = (refl, (ps, refl, d))
