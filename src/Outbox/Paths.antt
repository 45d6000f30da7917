-- ===== src/Outbox/Paths.antt =====
-- Paths in AGFS: `uri_to_path` of fs/agfs_adapter/agfs_context_fs.py over the joins of
-- `pathlib.PurePosixPath`, and the paths that commit/outbox_store.py builds.
use rtc_retrieval_token_cutt.Base.{
  ℕ, zero, suc, ◌-◌, ◌≡◌, refl, not, ◌&&◌, ◌||◌, Option, none, some, List, [], ◌∷◌, ◌++◌, Text,
  codes, is_empty, text_eq, starts_with, contains, split_on, rstrip, keep_if, length, ◌==◌,
  if◌then◌else◌, Result, ok, raised, value_error,
}
use rtc_retrieval_token_cutt.Outbox.Uri.{
  Parsed, skill, profile, memory, category_dir, memories_root, archive, history, recognise,
}

pub record PosixPath : Type 0 where
  pub root : Text
  pub parts : List Text

-- A path begins at the root with one slash or with three or more; exactly two are kept as two.
unfoldable pub root_of : Text → Text
root_of s =
    if starts_with s (codes "//") && not (starts_with s (codes "///"))
    then codes "//"
    else if starts_with s (codes "/")
    then codes "/"
    else []

-- Parts that are empty or `.` are dropped, `..` is kept.
unfoldable pub posix_path : Text → PosixPath
unfolding root_of
posix_path s = record {
  root = root_of s;
  parts = keep_if (λ part. not (is_empty part || text_eq part (codes "."))) (split_on b'/' s);
}

-- `path / segment`: a segment that begins at the root takes the place of all before it.
unfoldable pub join_path : PosixPath → Text → PosixPath
unfolding posix_path
join_path p s =
    let q = posix_path s in
    if is_empty q.root then record { root = p.root; parts = p.parts ++ q.parts } else q

unfoldable pub join_parts : List Text → Text
join_parts [] = []
join_parts (s ∷ []) = s
join_parts (s ∷ t ∷ ss) = s ++ b'/' ∷ join_parts (t ∷ ss)

-- str(path)
unfoldable pub show_path : PosixPath → Text
unfolding join_parts
show_path p = let s = p.root ++ join_parts p.parts in if is_empty s then codes "." else s

-- PurePosixPath('/accounts') / s₁ / s₂ …
unfoldable pub under_accounts : List Text → PosixPath → PosixPath
unfolding join_path
under_accounts [] p = p
under_accounts (s ∷ ss) p = under_accounts ss (join_path p s)

abbrev pub accounts : PosixPath
accounts = record { root = codes "/"; parts = codes "accounts" ∷ [] }

abbrev pub segments : (unquote : Text → Text) → Parsed → List Text
segments unquote (skill a o n) = a ∷ codes "agents" ∷ o ∷ codes "skills" ∷ unquote n ∷ []
segments unquote (profile a o) = a ∷ codes "users" ∷ o ∷ codes "memories" ∷ codes "profile" ∷ []
segments unquote (memory a t o c s) = a ∷ t ∷ o ∷ codes "memories" ∷ c ∷ unquote s ∷ []
segments unquote (category_dir a t o c) = a ∷ t ∷ o ∷ codes "memories" ∷ c ∷ []
segments unquote (memories_root a t o) = a ∷ t ∷ o ∷ codes "memories" ∷ []
segments unquote (archive a i r) = a ∷ codes "sessions" ∷ i ∷ codes "history" ∷ r ∷ []
segments unquote (history a i) = a ∷ codes "sessions" ∷ i ∷ codes "history" ∷ []

abbrev pub path_or_error : (unquote : Text → Text) → Option Parsed → Result Text
path_or_error unquote none = raised value_error
path_or_error unquote (some p) =
    ok (show_path (under_accounts (segments unquote p) accounts) ++ codes "/")

unfoldable pub uri_to_path : (unquote : Text → Text) → Text → Result Text
unfolding recognise under_accounts show_path
uri_to_path unquote uri = path_or_error unquote (recognise uri)

pub uri_to_path-recognise :
    (unquote : Text → Text) (uri : Text)
    → uri_to_path unquote uri ≡ path_or_error unquote (recognise uri)
unfolding uri_to_path
uri_to_path-recognise unquote uri = refl

-- The characters that are still to be dropped, and the text.
unfoldable pub drop_found : Text → ℕ → Text → Text
drop_found p n [] = []
drop_found p (suc n) (x ∷ s) = drop_found p n s
drop_found p zero (x ∷ s) =
    let found = drop_found p (length p - 1) s in
    let other = drop_found p zero s in if starts_with (x ∷ s) p then found else x ∷ other

-- s.replace(p, ""), for a text that is not empty
unfoldable pub remove_all : Text → Text → Text
unfolding drop_found
remove_all p s = drop_found p zero s

-- `OutboxStore.__init__`: the mount prefix that it keeps.
unfoldable pub init_prefix : Text → Result Text
init_prefix mount_prefix =
    if contains mount_prefix (codes "..") || not (starts_with mount_prefix (codes "/"))
    then raised value_error
    else ok (rstrip b'/' mount_prefix)

-- The path of a URI that no pattern fits.
abbrev pub raw_path : Text → Text
raw_path uri = codes "/accounts/" ++ rstrip b'/' (remove_all (codes "ctx://") uri) ++ codes "/"

abbrev pub path_or_raw : Text → Result Text → Text
path_or_raw uri (ok p) = p
path_or_raw uri (raised _) = raw_path uri

-- `_uri_to_agfs_path`
unfoldable pub uri_to_agfs_path : (unquote : Text → Text) (mount_prefix : Text) → Text → Text
unfolding uri_to_path remove_all
uri_to_agfs_path unquote mount_prefix uri =
    mount_prefix ++ path_or_raw uri (uri_to_path unquote uri)

pub uri_to_agfs_path_lem :
    (unquote : Text → Text) (mount_prefix uri : Text)
    → uri_to_agfs_path unquote mount_prefix uri
      ≡ mount_prefix ++ path_or_raw uri (uri_to_path unquote uri)
unfolding uri_to_agfs_path
uri_to_agfs_path_lem unquote mount_prefix uri = refl

-- The files of an event, from the path of its node.
abbrev pub outbox_dir : Text → Text
outbox_dir node_path = node_path ++ codes ".outbox"

abbrev pub event_path : (node_path event_id : Text) → Text
event_path node_path event_id = outbox_dir node_path ++ codes "/" ++ event_id ++ codes ".json"

abbrev pub temp_path : (node_path event_id : Text) → Text
temp_path node_path event_id = outbox_dir node_path ++ codes "/.tmp_" ++ event_id ++ codes ".json"

abbrev pub lock_path : (node_path event_id : Text) → Text
lock_path node_path event_id = outbox_dir node_path ++ codes "/" ++ event_id ++ codes ".processing"

abbrev pub dlq_path : (node_path event_id : Text) → Text
dlq_path node_path event_id = outbox_dir node_path ++ codes "/dlq/" ++ event_id ++ codes ".json"

-- What stands before the last slash.
unfoldable pub before_last : ℕ → Text → Option Text
before_last c [] = none
before_last c (x ∷ s) = elim (before_last c s) [
  | some r ↦ some (x ∷ r)
  | none ↦ if x == c then some [] else none
]

-- `_node_uri_to_directory_uri`
unfoldable pub node_uri_to_directory_uri : Text → Text
unfolding before_last
node_uri_to_directory_uri uri =
    let stripped = rstrip b'/' uri in
    elim (before_last b'/' stripped) [ some d ↦ d | none ↦ stripped ] ++ codes "/"
