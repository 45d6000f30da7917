-- ===== src/Nodes/Ordered.antt =====
-- fs/agfs_adapter/agfs_context_fs.py: the order in which `write_node` writes the files of a node.
use rtc_retrieval_token_cutt.Base.{
  ℕ, zero, suc, ◌≡◌, refl, sym, ◌∙◌, false, not, ◌⊎◌, inl, inr, List, [], ◌∷◌, ◌++◌, Text, codes,
  is_empty, text_eq, keep_if, split_on, rstrip, Bool-cases, Result, ok, raised, client_error,
  length, subst,
}
use rtc_retrieval_token_cutt.Nodes.Files.{
  Codec, Made, made, exists_already, not_made, NodeClient, NodeLaws, meta_path,
}
use rtc_retrieval_token_cutt.Nodes.Meta.{ContextNode, meta_of}
use rtc_retrieval_token_cutt.Nodes.Methods.{
  make_dirs, mkdir_p, prefix_parts, write_file, write_body, write_at, ◌then_on◌,
}
use rtc_retrieval_token_cutt.Nodes.Written.{
  files_apart, write_file-ne, then_on-keeps, write_body-keeps, Body, after-ok, write_body-Body,
}

module _ (unquote : Text → Text) (mount_prefix : Text) (j : Codec) (c : NodeClient j.Bytes)
    (laws : NodeLaws c) where
  make_dirs-keeps :
      (q : Text) (skip : ℕ) (current : Text) (ps : List Text) (f : c.Files)
      → c.read (make_dirs unquote mount_prefix j c skip current ps f).1 q ≡ c.read f q
  unfolding make_dirs
  make_dirs-keeps q skip current [] f = refl
  make_dirs-keeps q (suc skip) current (p ∷ ps) f =
      make_dirs-keeps q skip (current ++ codes "/" ++ p) ps f
  make_dirs-keeps q zero current (p ∷ ps) f =
      made_or_not (c.mkdir f path).0 (make_dirs-keeps q zero path ps g)
    where
      path : Text
      path = current ++ codes "/" ++ p

      g : c.Files
      g = (c.mkdir f path).1

      rest : Result (Unit {0}) × c.Files
      rest = make_dirs unquote mount_prefix j c zero path ps g

      made_or_not :
          (m : Made)
          → c.read rest.1 q ≡ c.read g q
          → c.read
              (let r : Result (Unit {0}) × c.Files = elim m [
                | made ↦ rest
                | exists_already ↦ rest
                | not_made ↦ (raised client_error, g)
              ] in
                r).1
              q
            ≡ c.read f q
      made_or_not made h = h ∙ laws.read-mkdir f path q
      made_or_not exists_already h = h ∙ laws.read-mkdir f path q
      made_or_not not_made h = laws.read-mkdir f path q

  mkdir_p-keeps :
      (q path : Text) (f : c.Files)
      → c.read (mkdir_p unquote mount_prefix j c path f).1 q ≡ c.read f q
  unfolding mkdir_p
  mkdir_p-keeps q path f = elim (Bool-cases (text_eq (rstrip b'/' path) mount_prefix)) [
    | inl e ↦ rw e refl
    | inr e ↦ rw e (
        make_dirs-keeps q (length (prefix_parts unquote mount_prefix j c)) []
          (keep_if (λ p. not (is_empty p)) (split_on b'/' (rstrip b'/' path))) f)
  ]

  abbrev Committed : ContextNode → (path : Text) → (f f' : c.Files) → Type 0
  Committed node path f f' =
      (c.read f' (meta_path path) ≡ c.read f (meta_path path))
      ⊎ Body unquote mount_prefix j c laws node path f'

  -- The write of the metadata, behind what leaves it alone and writes the body.
  meta-Committed :
      (node : ContextNode) (path : Text) (m : j.Bytes) (f : c.Files)
      (s : Result (Unit {0}) × c.Files)
      → c.read s.1 (meta_path path) ≡ c.read f (meta_path path)
      → (s.0 ≡ ok tt → Body unquote mount_prefix j c laws node path s.1)
      → Committed node path f
          (◌then_on◌ unquote mount_prefix j c s
            (write_file unquote mount_prefix j c (meta_path path) m)).1
  unfolding text_eq
  meta-Committed node path m f (raised x, g) keeps body = inl keeps
  meta-Committed node path m f (ok _, g) keeps body =
      let b = body refl in
      inr (record {
        content = other (codes "content.md") refl ∙ b.content;
        relations = other (codes ".relations.json") refl ∙ b.relations;
        abstract = other (codes ".abstract.md") refl ∙ b.abstract;
        overview = other (codes ".overview.md") refl ∙ b.overview;
      })
    where
      other :
          (name : Text)
          → text_eq (codes ".meta.json") name ≡ false
          → c.read (write_file unquote mount_prefix j c (meta_path path) m g).1 (path ++ name)
            ≡ c.read g (path ++ name)
      other name h =
          write_file-ne unquote mount_prefix j c laws (meta_path path) (path ++ name) m g
            (files_apart path (codes ".meta.json") name h)

  -- The metadata file is the commit point of a write, however the write ends: what is written changes
  -- it only where the four other files already hold the node.
  pub write_at-commits :
      (node : ContextNode) (now path : Text) (f : c.Files)
      → let f' = (write_at unquote mount_prefix j c node now path f).1 in
        (c.read f' (meta_path path) ≡ c.read f (meta_path path))
        ⊎ Body unquote mount_prefix j c laws node path f'
  unfolding write_at
  write_at-commits node now path f =
      let s₀ = mkdir_p unquote mount_prefix j c path f in
      let body = write_body unquote mount_prefix j c node path in
      meta-Committed node path (j.dump_meta (meta_of node now)) f
        (◌then_on◌ unquote mount_prefix j c s₀ body)
        (then_on-keeps unquote mount_prefix j c laws (meta_path path) s₀ body f
          (mkdir_p-keeps (meta_path path) path f)
          (λ g. write_body-keeps unquote mount_prefix j c laws node path g))
        (λ e.
          let (_, w, g) = after-ok unquote mount_prefix j c laws s₀ body e in
          subst (Body unquote mount_prefix j c laws node path) (sym g)
            (write_body-Body unquote mount_prefix j c laws node path s₀.1 w))
