-- ===== src/Nodes/Tree.antt =====
-- fs/agfs_adapter/agfs_context_fs.py: `exists`, `list_children`, `delete_node`, `move_node`, the
-- directory of the mount prefix, and `build_uri`.
use rtc_retrieval_token_cutt.Base.{
  Bool, true, false, not, ◌&&◌, ◌||◌, Option, none, some, List, [], ◌∷◌, ◌++◌, Text, codes, text_eq,
  is_empty, keep_if, split_on, starts_with, ends_with, if◌then◌else◌, Result, ok, raised,
  value_error, client_error, access_denied, node_not_found, ◌>>=◌,
}
use rtc_retrieval_token_cutt.Json.{str, Fields, lookup_field, is_text}
use rtc_retrieval_token_cutt.Outbox.Client.{Entry}
use rtc_retrieval_token_cutt.Outbox.Event.{get_or}
use rtc_retrieval_token_cutt.Nodes.Files.{Codec, NodeClient, meta_path}
use rtc_retrieval_token_cutt.Nodes.Methods.{Caller, is_accessible, node_path, read_meta}

-- How `rm` ends: an error that says `no such file` or `not found` is apart from the others.
pub data Removed : Type 0 where
  removed no_such_file not_removed : Removed

-- The calls on whole directories; a listing that fails is `none`.
pub record TreeClient {B : Type 0} (c : NodeClient B) : Type 0 where
  pub ls : c.Files → Text → Option (List Entry)
  pub rm : c.Files → Text → Removed × c.Files
  pub mv : c.Files → Text → Text → Bool × c.Files

unfoldable pub build_uri : (account owner_type owner_id category slug : Text) → Text
unfolding text_eq
build_uri account owner_type owner_id category slug =
    let plural =
      if text_eq owner_type (codes "user") || text_eq owner_type (codes "agent")
      then owner_type ++ codes "s"
      else owner_type in
    let owner =
      codes "ctx://" ++ account ++ codes "/" ++ plural ++ codes "/" ++ owner_id ++ codes "/" in
    if text_eq category (codes "skills")
    then owner ++ codes "skills/" ++ slug
    else if text_eq category (codes "profile")
    then owner ++ codes "memories/profile"
    else owner ++ codes "memories/" ++ category ++ codes "/" ++ slug

-- The URI of a child of that name.
abbrev pub child_uri : (uri name : Text) → Text
child_uri uri name = if ends_with uri (codes "/") then uri ++ name else uri ++ codes "/" ++ name

-- `except (ValueError, NodeNotFoundError, json.JSONDecodeError)`
abbrev pub or_absent : Result Bool → Result Bool
or_absent (raised value_error) = ok false
or_absent (raised node_not_found) = ok false
or_absent r = r

unfoldable pub is_active : Fields → Bool
unfolding lookup_field is_text
is_active meta = is_text (codes "ACTIVE") (get_or (lookup_field (codes "status") meta) (str []))

-- `isDir` of an entry whose name is not hidden
unfoldable pub is_listed : Entry → Bool
unfolding starts_with
is_listed e = e.is_dir && not (starts_with e.name (codes "."))

module _ (unquote : Text → Text) (mount_prefix : Text) (j : Codec) (c : NodeClient j.Bytes) where
  unfoldable pub exists : Text → Caller → c.Files → Result Bool
  unfolding is_active
  exists uri ctx f =
      if is_accessible unquote mount_prefix j c uri ctx
      then or_absent (do
        path ← node_path unquote mount_prefix j c uri
        meta ← read_meta unquote mount_prefix j c (meta_path path) f
        ok (is_active meta))
      else ok false

  -- The directories of the prefix below the first one; an error is only logged.
  unfoldable pub make_prefix_dirs : (current : Text) → List Text → c.Files → c.Files
  make_prefix_dirs current [] f = f
  make_prefix_dirs current (part ∷ parts) f =
      let path = current ++ codes "/" ++ part in make_prefix_dirs path parts (c.mkdir f path).1

  abbrev prefix_dirs : List Text → c.Files → c.Files
  prefix_dirs [] f = f
  prefix_dirs (part ∷ parts) f = make_prefix_dirs (codes "/" ++ part) parts f

  unfoldable pub ensure_mount_prefix : c.Files → c.Files
  unfolding make_prefix_dirs split_on
  ensure_mount_prefix f =
      prefix_dirs (keep_if (λ p. not (is_empty p)) (split_on b'/' mount_prefix)) f

  module _ (t : TreeClient c) where
    -- The loop of `list_children`.
    unfoldable pub children : (uri : Text) → Caller → c.Files → List Entry → Result (List Text)
    unfolding exists is_listed ends_with
    children uri ctx f [] = ok []
    children uri ctx f (e ∷ es) =
        let rest = children uri ctx f es in
        let child = child_uri uri e.name in
        if is_listed e
        then (exists child ctx f >>= λ b. rest >>= λ cs. ok (if b then child ∷ cs else cs))
        else rest

    abbrev pub listing :
        Option (List Entry) → (List Entry → Result (List Text)) → Result (List Text)
    listing none each = ok []
    listing (some es) each = each es

    unfoldable pub list_children : Text → Caller → c.Files → Result (List Text)
    unfolding is_accessible node_path children
    list_children uri ctx f =
        if is_accessible unquote mount_prefix j c uri ctx
        then (node_path unquote mount_prefix j c uri >>= λ path.
            listing (t.ls f path) (children uri ctx f))
        else raised access_denied

    abbrev pub removal : Removed × c.Files → Result (Unit {0}) × c.Files
    removal (r, f) = elim r [
      | removed ↦ (ok tt, f)
      | no_such_file ↦ (raised node_not_found, f)
      | not_removed ↦ (raised client_error, f)
    ]

    abbrev pub delete_at : Result Text → c.Files → Result (Unit {0}) × c.Files
    delete_at (raised e) f = (raised e, f)
    delete_at (ok path) f = removal (t.rm f path)

    unfoldable pub delete_node : Text → Caller → c.Files → Result (Unit {0}) × c.Files
    unfolding is_accessible node_path
    delete_node uri ctx f =
        if is_accessible unquote mount_prefix j c uri ctx
        then delete_at (node_path unquote mount_prefix j c uri) f
        else (raised access_denied, f)

    abbrev pub both_paths : (from_uri to_uri : Text) → Result (Text × Text)
    both_paths from_uri to_uri = do
      from_path ← node_path unquote mount_prefix j c from_uri
      to_path ← node_path unquote mount_prefix j c to_uri
      ok (from_path, to_path)

    abbrev pub moved : Bool × c.Files → Result (Unit {0}) × c.Files
    moved (b, f) = (if b then ok tt else raised client_error, f)

    -- `if not self.exists(from_uri, ctx)`, and the move
    abbrev pub move_if : Result Bool → Text × Text → c.Files → Result (Unit {0}) × c.Files
    move_if (raised e) paths f = (raised e, f)
    move_if (ok false) paths f = (raised node_not_found, f)
    move_if (ok true) (from_path, to_path) f = moved (t.mv f from_path to_path)

    abbrev pub move_at : Result Bool → Result (Text × Text) → c.Files → Result (Unit {0}) × c.Files
    move_at there (raised e) f = (raised e, f)
    move_at there (ok paths) f = move_if there paths f

    unfoldable pub move_node :
        (from_uri to_uri : Text) → Caller → c.Files → Result (Unit {0}) × c.Files
    unfolding is_accessible node_path exists
    move_node from_uri to_uri ctx f =
        if is_accessible unquote mount_prefix j c from_uri ctx
          && is_accessible unquote mount_prefix j c to_uri ctx
        then move_at (exists from_uri ctx f) (both_paths from_uri to_uri) f
        else (raised access_denied, f)
