-- ===== src/Directory/Flat.antt =====
-- index/directory_event_handler.py over the listings of fs/agfs_adapter/agfs_context_fs.py: which children
-- of a directory are taken for directories.
use rtc_retrieval_token_cutt.Base.{
  ◌≡◌, refl, subst, Bool, true, false, Option, none, some, List, [], ◌∷◌, ◌++◌, Text, codes,
  is_empty, text_eq, take, keep_if, ends_with, All, All-take, arith, Bool-cases, inl, inr, Result,
  ok, >>=-eq-ok, if◌then◌else◌, ℕ,
}
use rtc_retrieval_token_cutt.Outbox.Client.{Entry}
use rtc_retrieval_token_cutt.Nodes.Files.{Codec, NodeClient}
use rtc_retrieval_token_cutt.Nodes.Methods.{Caller, is_accessible, node_path}
use rtc_retrieval_token_cutt.Nodes.Tree.{
  TreeClient, child_uri, is_listed, exists, children, listing, list_children,
}
use rtc_retrieval_token_cutt.Directory.Summaries.{is_directory_uri}
use rtc_retrieval_token_cutt.Directory.Dag.{DagServices, new_dir}

-- The name of a file: not empty, and without a slash at its end.
pub record IsName (name : Text) : Type 0 where
  pub full : is_empty name ≡ false
  pub plain : ends_with name (codes "/") ≡ false

plain_behind : (s name : Text) → IsName name → ends_with (s ++ name) (codes "/") ≡ false
unfolding ends_with text_eq
plain_behind [] name h = h.plain
plain_behind (x ∷ []) [] h = absurd (cc (h.full))
plain_behind (x ∷ []) (y ∷ t) h = ground (arith, h.plain)
plain_behind (x ∷ z ∷ s) name h = ground (arith, plain_behind (z ∷ s) name h)

abbrev IsFlat : Text → Type 0
IsFlat uri = is_directory_uri uri ≡ false

child-IsFlat : (uri name : Text) → IsName name → IsFlat (child_uri uri name)
unfolding is_directory_uri
child-IsFlat uri name h = elim (Bool-cases (ends_with uri (codes "/"))) [
  | inl e ↦ rw e (plain_behind uri name h)
  | inr e ↦ rw e (plain_behind (uri ++ codes "/") name h)
]

none_kept : (us : List Text) → All IsFlat us → keep_if is_directory_uri us ≡ []
none_kept [] a = refl
none_kept (u ∷ us) a = rw (a.0) (none_kept us a.1)

module _ (unquote : Text → Text) (mount_prefix : Text) (j : Codec) (c : NodeClient j.Bytes)
    (t : TreeClient c) where
  children-IsFlat :
      (uri : Text) (ctx : Caller) (f : c.Files) (es : List Entry) (cs : List Text)
      → All (λ e. IsName e.name) es
      → children unquote mount_prefix j c t uri ctx f es ≡ ok cs
      → All IsFlat cs
  unfolding children
  children-IsFlat uri ctx f [] cs a h =
      let same : [] ≡ cs = cc in subst (λ us. All IsFlat us) same tt
  children-IsFlat uri ctx f (e ∷ es) cs a h = elim (Bool-cases (is_listed e)) [
    | inl l ↦
        let child = child_uri uri e.name in
        let (b, s, more) = >>=-eq-ok (exists unquote mount_prefix j c child ctx f) _ (rw l at h) in
        let (ds, r, k) = >>=-eq-ok (children unquote mount_prefix j c t uri ctx f es) _ more in
        kept child b ds (children-IsFlat uri ctx f es ds a.1 r) (child-IsFlat uri e.name a.0) k
    | inr l ↦ children-IsFlat uri ctx f es cs a.1 (rw l at h)
  ]
    where
      kept :
          (u : Text) (b : Bool) (ds : List Text)
          → All IsFlat ds
          → IsFlat u
          → (let r : Result (List Text) = ok (if b then u ∷ ds else ds) in r) ≡ ok cs
          → All IsFlat cs
      kept u true ds a p k =
          let same : (u ∷ ds) ≡ cs = cc in subst (λ us. All IsFlat us) same (p, a)
      kept u false ds a p k = let same : ds ≡ cs = cc in subst (λ us. All IsFlat us) same a

  -- If the names that the client lists are names of files, the handler takes no child that the context file
  -- system lists for a directory, so that it dispatches no directory below another.
  pub list_children-new_dir :
      (S : DagServices) (max_children : ℕ) (uri : Text) (ctx : Caller) (f : c.Files)
      (cs : List Text)
      → ((path : Text) (es : List Entry) → t.ls f path ≡ some es → All (λ e. IsName e.name) es)
      → list_children unquote mount_prefix j c t uri ctx f ≡ ok cs
      → (new_dir S (take max_children cs)).children_dirs ≡ []
  unfolding list_children new_dir
  list_children-new_dir S k uri ctx f cs names h =
      elim (Bool-cases (is_accessible unquote mount_prefix j c uri ctx)) [
        | inl a ↦
            let (path, _, l) = >>=-eq-ok (node_path unquote mount_prefix j c uri) _ (rw a at h) in
            none_kept (take k cs) (All-take IsFlat k cs (after_listing path (t.ls f path) refl l))
        | inr denied ↦ absurd (cc (rw denied at h))
      ]
    where
      after_listing :
          (path : Text) (o : Option (List Entry))
          → t.ls f path ≡ o
          → listing unquote mount_prefix j c t o (children unquote mount_prefix j c t uri ctx f)
            ≡ ok cs
          → All IsFlat cs
      after_listing path none e k = let same : [] ≡ cs = cc in subst (λ us. All IsFlat us) same tt
      after_listing path (some es) e k = children-IsFlat uri ctx f es cs (names path es e) k
