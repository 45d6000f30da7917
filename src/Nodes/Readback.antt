-- ===== src/Nodes/Readback.antt =====
-- Nodes of fs/agfs_adapter/agfs_context_fs.py that are written and read again: their contents, their
-- versions, and who may read them.
use rtc_retrieval_token_cutt.Base.{
  ℕ, ◌≡◌, refl, ap, ◌∙◌, subst, true, some, List, [], Text, codes, text_eq, text_eq_iff,
  starts_with, arith, Bool-cases, inl, inr, Result, ok, raised, ◌>>=◌, ==_iff,
}
use rtc_retrieval_token_cutt.Json.{Json, num, str, Fields, lookup_field}
use rtc_retrieval_token_cutt.Outbox.Event.{get_or}
use rtc_retrieval_token_cutt.Outbox.Uri.{Components, parse_uri}
use rtc_retrieval_token_cutt.Nodes.Files.{
  RelationEdge, found, Codec, CodecLaws, NodeClient, NodeLaws, content_path, relations_path,
  abstract_path, overview_path, meta_path,
}
use rtc_retrieval_token_cutt.Nodes.Meta.{ContextNode, base_meta, meta_of, last_value}
use rtc_retrieval_token_cutt.Nodes.Methods.{
  Caller, may_access, accessible_parts, ReadNode, is_accessible, node_path, check_expected,
  check_version, write_at, write_checked, write_node, item, status_of, relations_or_none, load_text,
  read_bytes, read_text, read_meta, read_relations, read_at, read_node,
}
use rtc_retrieval_token_cutt.Nodes.Written.{
  Written, write_at-Written, has_value, lookup_field-meta_of,
}

bind_ok {ℓ κ} :
    {A : Type ℓ} {B : Type κ} {m : Result A} {a : A} (next : A → Result B)
    → m ≡ ok a
    → (m >>= next) ≡ next a
bind_ok next e = ap (λ r. r >>= next) e

module _ (unquote : Text → Text) (mount_prefix : Text) (j : Codec) (codec : CodecLaws j)
    (c : NodeClient j.Bytes) (laws : NodeLaws c) where
  -- The node that was read has the texts and the relations of the one that was written.
  pub record Shows (node : ContextNode) (r : ReadNode) : Type 0 where
    pub content : r.content ≡ node.content
    pub abstract : r.abstract ≡ node.abstract
    pub overview : r.overview ≡ node.overview
    pub relations : r.relations ≡ node.relations

  abbrev IsActive : ContextNode → Text → Type 0
  IsActive node now = lookup_field (codes "status") (meta_of node now) ≡ some (str (codes "ACTIVE"))

  read_bytes-found :
      (p : Text) (x : j.Bytes) (f : c.Files)
      → c.read f p ≡ found x
      → read_bytes unquote mount_prefix j c p f ≡ ok x
  read_bytes-found p x f e = rw (e, read_bytes) refl

  read_text-found :
      (p x : Text) (f : c.Files)
      → c.read f p ≡ found (j.encode x)
      → read_text unquote mount_prefix j c p f ≡ ok x
  read_text-found p x f e =
      ap (λ r. r >>= j.decode) (read_bytes-found p (j.encode x) f e) ∙ codec.decode-encode x

  read_meta-found :
      (p : Text) (meta : Fields) (f : c.Files)
      → c.read f p ≡ found (j.dump_meta meta)
      → read_meta unquote mount_prefix j c p f ≡ ok meta
  read_meta-found p meta f e =
      ap (λ r. r >>= j.load_meta) (read_bytes-found p (j.dump_meta meta) f e)
      ∙ codec.load-dump_meta meta

  read_relations-found :
      (p : Text) (rs : List RelationEdge) (f : c.Files)
      → c.read f p ≡ found (j.dump_relations rs)
      → read_relations unquote mount_prefix j c p f ≡ ok rs
  read_relations-found p rs f e =
      ap
        (λ r. relations_or_none unquote mount_prefix j c (r >>= load_text unquote mount_prefix j c))
        (read_bytes-found p (j.dump_relations rs) f e)
      ∙ rw (codec.is_blank-dump_relations rs, codec.load-dump_relations rs) refl

  item-found :
      (k : Text) (meta : Fields) (v : Json)
      → lookup_field k meta ≡ some v
      → item unquote mount_prefix j c k meta ≡ ok v
  item-found k meta v e = rw (e, item) refl

  read_at-Written :
      (node : ContextNode) (now path : Text) (f : c.Files)
      → IsActive node now
      → Written unquote mount_prefix j c laws node now path f
      → (r : ReadNode) × (read_at unquote mount_prefix j c path f ≡ ok r) × Shows node r
  unfolding read_at base_meta text_eq starts_with
  read_at-Written node now path f active w =
      let (uri, u) = has_value node now (codes "uri") _ refl refl refl in
      let (context_type, t) = has_value node now (codes "context_type") _ refl refl refl in
      let (category, k) = has_value node now (codes "category") _ refl refl refl in
      let (level, l) = has_value node now (codes "level") _ refl refl refl in
      let (owner_space, o) = has_value node now (codes "owner_space") _ refl refl refl in
      let meta = meta_of node now in
      let is_active : status_of unquote mount_prefix j c meta ≡ ok tt =
        rw (active, status_of) refl in
      (
        record {
          uri = uri;
          context_type = context_type;
          category = category;
          level = level;
          owner_space = owner_space;
          abstract = node.abstract;
          overview = node.overview;
          content = node.content;
          created_at = get_or (lookup_field (codes "created_at") meta) (str []);
          updated_at = get_or (lookup_field (codes "updated_at") meta) (str []);
          version = get_or (lookup_field (codes "version") meta) (num 1);
          tags = lookup_field (codes "tags") meta;
          status = lookup_field (codes "status") meta;
          relations = node.relations;
        },
        bind_ok _ (read_meta-found (meta_path path) meta f w.meta)
            ∙ bind_ok _ is_active
            ∙ bind_ok _ (read_text-found (content_path path) node.content f w.content)
            ∙ bind_ok _ (read_text-found (abstract_path path) node.abstract f w.abstract)
            ∙ bind_ok _ (read_text-found (overview_path path) node.overview f w.overview)
            ∙ bind_ok _ (read_relations-found (relations_path path) node.relations f w.relations)
            ∙ bind_ok _ (item-found (codes "uri") meta uri u)
            ∙ bind_ok _ (item-found (codes "context_type") meta context_type t)
            ∙ bind_ok _ (item-found (codes "category") meta category k)
            ∙ bind_ok _ (item-found (codes "level") meta level l)
            ∙ bind_ok _ (item-found (codes "owner_space") meta owner_space o),
        record { content = refl; abstract = refl; overview = refl; relations = refl },
      )

  Written-path :
      (node : ContextNode) (now : Text) (f f' : c.Files) (r : Result Text)
      → write_checked unquote mount_prefix j c node now r f ≡ (ok tt, f')
      → (path : Text) × (r ≡ ok path) × Written unquote mount_prefix j c laws node now path f'
  Written-path node now f f' (raised e) h = absurd (cc)
  Written-path node now f f' (ok path) h =
      let e = passed (check_expected unquote mount_prefix j c node.expected_version path f) h in
      (
        path,
        refl,
        subst (Written unquote mount_prefix j c laws node now path) (ap (λ s. s.1) e)
            (write_at-Written unquote mount_prefix j c laws node now path f (ap (λ s. s.0) e)),
      )
    where
      passed :
          (r : Result (Unit {0}))
          → (let s : Result (Unit {0}) × c.Files = elim r [
            | raised e ↦ (raised e, f)
            | ok _ ↦ write_at unquote mount_prefix j c node now path f
          ] in
              s)
            ≡ (ok tt, f')
          → write_at unquote mount_prefix j c node now path f ≡ (ok tt, f')
      passed (ok _) h = h
      passed (raised e) h = absurd (cc)

  write_node-Written :
      (node : ContextNode) (ctx : Caller) (now : Text) (f f' : c.Files)
      → write_node unquote mount_prefix j c node ctx now f ≡ (ok tt, f')
      → (is_accessible unquote mount_prefix j c node.uri ctx ≡ true)
        × ((path : Text) × (node_path unquote mount_prefix j c node.uri ≡ ok path)
            × Written unquote mount_prefix j c laws node now path f')
  unfolding write_node
  write_node-Written node ctx now f f' h =
      elim (Bool-cases (is_accessible unquote mount_prefix j c node.uri ctx)) [
        | inl may ↦ (
          may,
          Written-path node now f f' (node_path unquote mount_prefix j c node.uri) (rw may at h),
        )
        | inr denied ↦ absurd (cc (rw denied at h))
      ]

  -- A node that was written is read back by the same caller with its texts and its relations, where
  -- the metadata does not itself set another status than ACTIVE.
  pub write_node-read :
      (node : ContextNode) (ctx : Caller) (now : Text) (f f' : c.Files)
      → lookup_field (codes "status") (meta_of node now) ≡ some (str (codes "ACTIVE"))
      → write_node unquote mount_prefix j c node ctx now f ≡ (ok tt, f')
      → (r : ReadNode) × (read_node unquote mount_prefix j c node.uri ctx f' ≡ ok r) × Shows node r
  unfolding read_node
  write_node-read node ctx now f f' active h =
      let (may, (path, there, w)) = write_node-Written node ctx now f f' h in
      let (r, e, s) = read_at-Written node now path f' active w in (r, rw (may, there) e, s)

  -- Where the metadata has a version of its own, as that of a node that was read has, a write does not
  -- advance the version: after it a writer that expects this version passes the check again.
  pub write_node-check_expected :
      (node : ContextNode) (ctx : Caller) (now : Text) (n : ℕ) (f f' : c.Files)
      → last_value (codes "version") node.metadata ≡ some (num n)
      → write_node unquote mount_prefix j c node ctx now f ≡ (ok tt, f')
      → (path : Text) × (node_path unquote mount_prefix j c node.uri ≡ ok path)
        × (check_expected unquote mount_prefix j c (some n) path f' ≡ ok tt)
  unfolding text_eq starts_with
  write_node-check_expected node ctx now n f f' stale h =
      let (_, (path, there, w)) = write_node-Written node ctx now f f' h in
      let version : lookup_field (codes "version") (meta_of node now) ≡ some (num n) =
        lookup_field-meta_of node now (codes "version") refl refl ∙ rw stale refl in
      (path, there, checked (meta_of node now) path f' w.meta version)
    where
      checked :
          (meta : Fields) (path : Text) (g : c.Files)
          → c.read g (meta_path path) ≡ found (j.dump_meta meta)
          → lookup_field (codes "version") meta ≡ some (num n)
          → check_expected unquote mount_prefix j c (some n) path g ≡ ok tt
      checked meta path g e v =
          ap (check_version unquote mount_prefix j c n) e
          ∙ bind_ok _ (codec.load-dump_meta meta)
          ∙ rw (v, (==_iff n n).1 refl) refl

  -- Whoever reads a node has named it by a URI of the own account.
  pub read_node-account :
      (uri : Text) (ctx : Caller) (f : c.Files) (r : ReadNode)
      → read_node unquote mount_prefix j c uri ctx f ≡ ok r
      → (parts : Components) × (parse_uri unquote uri ≡ ok parts) × (parts.account ≡ ctx.account_id)
  unfolding read_node is_accessible may_access
  read_node-account uri ctx f r h =
      elim (Bool-cases (is_accessible unquote mount_prefix j c uri ctx)) [
        | inl may ↦ owner (parse_uri unquote uri) may
        | inr denied ↦ absurd (cc (rw denied at h))
      ]
    where
      owner :
          (p : Result Components)
          → accessible_parts ctx p ≡ true
          → (parts : Components) × (p ≡ ok parts) × (parts.account ≡ ctx.account_id)
      owner (raised e) y = absurd (cc)
      owner (ok parts) y = elim (Bool-cases (text_eq parts.account ctx.account_id)) [
        | inl same ↦ (parts, refl, (text_eq_iff parts.account ctx.account_id).0 same)
        | inr other ↦ absurd (ground (arith, other, y))
      ]
