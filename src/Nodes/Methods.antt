-- ===== src/Nodes/Methods.antt =====
-- fs/agfs_adapter/agfs_context_fs.py: the methods of AGFSContextFS that read and write nodes. The
-- comparison of `expected_version` is of numbers.
use rtc_retrieval_token_cutt.Base.{
  ℕ, zero, suc, ◌==◌, Bool, false, not, ◌&&◌, Option, none, some, List, [], ◌∷◌, ◌++◌, Text, codes,
  text_eq, is_empty, keep_if, split_on, rstrip, length, if◌then◌else◌, Result, ok, raised,
  value_error, key_error, client_error, access_denied, node_not_found, node_broken,
  concurrent_modification, ◌>>=◌,
}
use rtc_retrieval_token_cutt.Json.{Json, num, str, Fields, lookup_field, is_text}
use rtc_retrieval_token_cutt.Outbox.Event.{get_or}
use rtc_retrieval_token_cutt.Outbox.Uri.{Components, parse_uri}
use rtc_retrieval_token_cutt.Outbox.Paths.{uri_to_path}
use rtc_retrieval_token_cutt.Nodes.Files.{
  RelationEdge, Codec, Read, found, missing, unread, made, exists_already, not_made, NodeClient,
  content_path, relations_path, abstract_path, overview_path, meta_path,
}
use rtc_retrieval_token_cutt.Nodes.Meta.{ContextNode, meta_of}

-- The part of RequestContext that the access check reads.
pub record Caller : Type 0 where
  pub account_id : Text
  pub user_id : Text
  pub agent_id : Text

unfoldable pub may_access : Caller → Components → Bool
unfolding text_eq
may_access ctx c =
    if not (text_eq c.account ctx.account_id)
    then false
    else if text_eq c.owner_type (codes "users") && not (text_eq c.owner_id ctx.user_id)
    then false
    else not (text_eq c.owner_type (codes "agents") && not (text_eq c.owner_id ctx.agent_id))

abbrev pub accessible_parts : Caller → Result Components → Bool
accessible_parts ctx (raised _) = false
accessible_parts ctx (ok c) = may_access ctx c

-- What `read_node` returns, with the values that the metadata file has.
pub record ReadNode : Type 0 where
  pub uri : Json
  pub context_type : Json
  pub category : Json
  pub level : Json
  pub owner_space : Json
  pub abstract : Text
  pub overview : Text
  pub content : Text
  pub created_at : Json
  pub updated_at : Json
  pub version : Json
  pub tags : Option Json
  pub status : Option Json
  pub relations : List RelationEdge

module _ (unquote : Text → Text) (mount_prefix : Text) (j : Codec) (c : NodeClient j.Bytes) where
  open c use {Files, read, write, mkdir}

  -- `_is_accessible`
  unfoldable pub is_accessible : Text → Caller → Bool
  unfolding may_access parse_uri
  is_accessible uri ctx = accessible_parts ctx (parse_uri unquote uri)

  -- `_uri_to_agfs_path` of this class, which raises for a URI that no pattern fits.
  unfoldable pub node_path : Text → Result Text
  unfolding uri_to_path
  node_path uri = uri_to_path unquote uri >>= λ p. ok (mount_prefix ++ p)

  abbrev Step : Type 0
  Step = Result (Unit {0}) × Files

  infixl 6 ◌then_on◌
  abbrev pub ◌then_on◌ : Step → (Files → Step) → Step
  s then_on next = elim s.0 [ ok _ ↦ next s.1 | raised e ↦ (raised e, s.1) ]

  -- The loop of `_mkdir_p` over the parts of the path; the first `skip` of them are the prefix's.
  unfoldable pub make_dirs : (skip : ℕ) → (current_path : Text) → List Text → Files → Step
  make_dirs skip current_path [] f = (ok tt, f)
  make_dirs (suc skip) current_path (p ∷ ps) f =
      make_dirs skip (current_path ++ codes "/" ++ p) ps f
  make_dirs zero current_path (p ∷ ps) f =
      let path = current_path ++ codes "/" ++ p in
      let (m, f') = mkdir f path in
      let rest = make_dirs zero path ps f' in
      elim m [ made ↦ rest | exists_already ↦ rest | not_made ↦ (raised client_error, f') ]

  abbrev pub prefix_parts : List Text
  prefix_parts = keep_if (λ p. not (is_empty p)) (split_on b'/' mount_prefix)

  unfoldable pub mkdir_p : Text → Files → Step
  unfolding make_dirs rstrip split_on text_eq
  mkdir_p path f =
      if text_eq (rstrip b'/' path) mount_prefix
      then (ok tt, f)
      else make_dirs (length prefix_parts) []
          (keep_if (λ p. not (is_empty p)) (split_on b'/' (rstrip b'/' path))) f

  abbrev pub write_file : Text → j.Bytes → Files → Step
  write_file p x f =
      let (written, f') = write f p x in (if written then ok tt else raised client_error, f')

  -- `existing_meta.get("version", 0)` against the expected version
  abbrev same_version : (expected : ℕ) → Json → Result (Unit {0})
  same_version n (num m) = if m == n then ok tt else raised concurrent_modification
  same_version n _ = raised concurrent_modification

  abbrev pub check_version : (expected : ℕ) → Read j.Bytes → Result (Unit {0})
  check_version n missing = ok tt
  check_version n unread = raised client_error
  check_version n (found text) =
      j.load_meta text >>= λ fs. same_version n (get_or (lookup_field (codes "version") fs) (num 0))

  abbrev pub check_expected : Option ℕ → Text → Files → Result (Unit {0})
  check_expected none path f = ok tt
  check_expected (some n) path f = check_version n (read f (meta_path path))

  -- The four writes before the commit point.
  unfoldable pub write_body : ContextNode → (path : Text) → Files → Step
  write_body node path f =
      write_file (content_path path) (j.encode node.content) f
      then_on write_file (relations_path path) (j.dump_relations node.relations)
      then_on write_file (abstract_path path) (j.encode node.abstract)
      then_on write_file (overview_path path) (j.encode node.overview)

  -- Everything behind the version check.
  unfoldable pub write_at : ContextNode → (now : Text) → (path : Text) → Files → Step
  unfolding write_body mkdir_p meta_of
  write_at node now path f =
      mkdir_p path f
      then_on write_body node path
      then_on write_file (meta_path path) (j.dump_meta (meta_of node now))

  abbrev pub write_checked : ContextNode → (now : Text) → Result Text → Files → Step
  write_checked node now (raised e) f = (raised e, f)
  write_checked node now (ok path) f = elim (check_expected node.expected_version path f) [
    | raised e ↦ (raised e, f)
    | ok _ ↦ write_at node now path f
  ]

  unfoldable pub write_node : ContextNode → Caller → (now : Text) → Files → Step
  unfolding is_accessible node_path write_at
  write_node node ctx now f =
      if is_accessible node.uri ctx
      then write_checked node now (node_path node.uri) f
      else (raised access_denied, f)

  -- `_read_file`, without the decoding
  abbrev pub read_bytes : Text → Files → Result j.Bytes
  read_bytes p f = elim (read f p) [
    | missing ↦ raised node_not_found
    | unread ↦ raised client_error
    | found text ↦ ok text
  ]

  abbrev pub read_text : Text → Files → Result Text
  read_text p f = read_bytes p f >>= j.decode

  abbrev pub read_meta : Text → Files → Result Fields
  read_meta p f = read_bytes p f >>= j.load_meta

  -- A missing file, an empty one, or one that is no JSON has no relations.
  abbrev pub relations_or_none : Result (List RelationEdge) → Result (List RelationEdge)
  relations_or_none (raised value_error) = ok []
  relations_or_none (raised node_not_found) = ok []
  relations_or_none r = r

  abbrev pub load_text : j.Bytes → Result (List RelationEdge)
  load_text text = if j.is_blank text then ok [] else j.load_relations text

  abbrev pub read_relations : Text → Files → Result (List RelationEdge)
  read_relations p f = relations_or_none (read_bytes p f >>= load_text)

  abbrev pub status_of : Fields → Result (Unit {0})
  status_of meta =
      let status = get_or (lookup_field (codes "status") meta) (str []) in
      if is_text (codes "BROKEN") status
      then raised node_broken
      else if is_text (codes "ACTIVE") status
      then ok tt
      else raised node_not_found

  abbrev pub item : Text → Fields → Result Json
  item k meta = elim (lookup_field k meta) [ none ↦ raised key_error | some v ↦ ok v ]

  unfoldable pub read_at : (path : Text) → Files → Result ReadNode
  unfolding lookup_field is_text
  read_at path f = do
    meta ← read_meta (meta_path path) f
    _ ← status_of meta
    content ← read_text (content_path path) f
    abstract ← read_text (abstract_path path) f
    overview ← read_text (overview_path path) f
    relations ← read_relations (relations_path path) f
    uri ← item (codes "uri") meta
    context_type ← item (codes "context_type") meta
    category ← item (codes "category") meta
    level ← item (codes "level") meta
    owner_space ← item (codes "owner_space") meta
    ok (record {
      uri = uri;
      context_type = context_type;
      category = category;
      level = level;
      owner_space = owner_space;
      abstract = abstract;
      overview = overview;
      content = content;
      created_at = get_or (lookup_field (codes "created_at") meta) (str []);
      updated_at = get_or (lookup_field (codes "updated_at") meta) (str []);
      version = get_or (lookup_field (codes "version") meta) (num 1);
      tags = lookup_field (codes "tags") meta;
      status = lookup_field (codes "status") meta;
      relations = relations;
    })

  unfoldable pub read_node : Text → Caller → Files → Result ReadNode
  unfolding is_accessible node_path read_at
  read_node uri ctx f =
      if is_accessible uri ctx
      then (node_path uri >>= λ path. read_at path f)
      else raised access_denied
