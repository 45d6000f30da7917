-- ===== src/Nodes/Samples.antt =====
-- A node over files in an association list, and the theorems about it there.
use rtc_retrieval_token_cutt.Base.{
  starts_with, ◌≡◌, ◌⊎◌, refl, true, false, All, node_not_found, some, List, [], ◌∷◌, Text, codes,
  text_eq, split_on, ok, raised,
}
use rtc_retrieval_token_cutt.Json.{num, str, end, field, lookup_field}
use rtc_retrieval_token_cutt.Outbox.Uri.{parse_uri}
use rtc_retrieval_token_cutt.Nodes.Files.{meta_path}
use rtc_retrieval_token_cutt.Nodes.Meta.{ContextNode, meta_of}
use rtc_retrieval_token_cutt.Nodes.Memory.{
  Stored, codec, codec-laws, files, files-laws, tree, tree-laws,
}
use rtc_retrieval_token_cutt.Nodes.Methods.{
  Caller, ReadNode, node_path, check_expected, write_at, write_node, read_node,
}
use rtc_retrieval_token_cutt.Outbox.Uri.{is_owner}
use rtc_retrieval_token_cutt.Nodes.Tree.{build_uri, exists, list_children, delete_node, move_node}
use rtc_retrieval_token_cutt.Nodes.Present.{
  list_children-Exist, delete_node-exists, move_node-exists,
}
use rtc_retrieval_token_cutt.Nodes.Segments.{IsSegment}
use rtc_retrieval_token_cutt.Nodes.Built.{build_uri-parse_uri}
use rtc_retrieval_token_cutt.Nodes.Written.{Body}
use rtc_retrieval_token_cutt.Nodes.Ordered.{write_at-commits}
use rtc_retrieval_token_cutt.Nodes.Readback.{Shows, write_node-read, write_node-check_expected}

abbrev plain : Text → Text
plain s = s

abbrev prefix : Text
prefix = codes "/local"

abbrev tea : ContextNode
tea = record {
  uri = codes "ctx://acme/users/u1/memories/cat/tea";
  context_type = codes "MEMORY";
  category = codes "cat";
  level = 2;
  owner_space = codes "user:u1";
  abstract = codes "tea";
  overview = codes "green tea";
  content = codes "green tea in the morning";
  metadata = field (codes "version") (num 3) end;
  relations = [];
  expected_version = some 3;
}

abbrev caller : Caller
caller = record { account_id = codes "acme"; user_id = codes "u1"; agent_id = codes "a1" }

abbrev written : List (Text × Stored)
written = (write_node plain prefix codec files tea caller (codes "now") []).1

write_node-tea : write_node plain prefix codec files tea caller (codes "now") [] ≡ (ok tt, written)
unfolding write_node split_on
write_node-tea = refl

tea_active : lookup_field (codes "status") (meta_of tea (codes "now")) ≡ some (str (codes "ACTIVE"))
unfolding meta_of lookup_field text_eq
tea_active = refl

abbrev half_written : List (Text × Stored)
half_written = (write_at plain prefix codec files tea (codes "now") (codes "/p/") []).1

write_at-commits_example :
    (files.read half_written (meta_path (codes "/p/")) ≡ files.read [] (meta_path (codes "/p/")))
    ⊎ Body plain prefix codec files files-laws tea (codes "/p/") half_written
write_at-commits_example =
    write_at-commits plain prefix codec files files-laws tea (codes "now") (codes "/p/") []

write_node-read_example :
    (r : ReadNode) × (read_node plain prefix codec files tea.uri caller written ≡ ok r)
    × Shows plain prefix codec codec-laws files files-laws tea r
write_node-read_example =
    write_node-read plain prefix codec codec-laws files files-laws tea caller (codes "now") []
      written tea_active write_node-tea

write_node-check_expected_example :
    (path : Text) × (node_path plain prefix codec files tea.uri ≡ ok path)
    × (check_expected plain prefix codec files (some 3) path written ≡ ok tt)
unfolding text_eq
write_node-check_expected_example =
    write_node-check_expected plain prefix codec codec-laws files files-laws tea caller
      (codes "now") 3 [] written refl write_node-tea

abbrev parent : Text
parent = codes "ctx://acme/users/u1/memories/cat"

list_children-parent :
    list_children plain prefix codec files tree parent caller written ≡ ok (tea.uri ∷ [])
unfolding list_children write_node split_on
list_children-parent = refl

list_children-Exist_example :
    All (λ child. exists plain prefix codec files child caller written ≡ ok true) (tea.uri ∷ [])
list_children-Exist_example =
    list_children-Exist plain prefix codec files tree parent caller written (tea.uri ∷ [])
      list_children-parent

abbrev emptied : List (Text × Stored)
emptied = (delete_node plain prefix codec files tree tea.uri caller written).1

delete_node-tea :
    delete_node plain prefix codec files tree tea.uri caller written ≡ (ok tt, emptied)
unfolding delete_node split_on starts_with
delete_node-tea = refl

delete_node-exists_example :
    (exists plain prefix codec files tea.uri caller emptied ≡ ok false)
    × (read_node plain prefix codec files tea.uri caller emptied ≡ raised node_not_found)
delete_node-exists_example =
    delete_node-exists plain prefix codec files tree tree-laws tea.uri caller written emptied
      delete_node-tea

abbrev mate : Text
mate = codes "ctx://acme/users/u1/memories/cat/mate"

abbrev shelved : List (Text × Stored)
shelved = (move_node plain prefix codec files tree tea.uri mate caller written).1

move_node-tea :
    move_node plain prefix codec files tree tea.uri mate caller written ≡ (ok tt, shelved)
unfolding move_node write_node split_on
move_node-tea = refl

move_node-exists_example :
    (exists plain prefix codec files tea.uri caller written ≡ ok true)
    × (exists plain prefix codec files mate caller shelved ≡ ok true)
move_node-exists_example =
    move_node-exists plain prefix codec files tree tree-laws tea.uri mate caller written shelved
      move_node-tea

acme-IsSegment : IsSegment (codes "acme")
unfolding split_on
acme-IsSegment = record { full = refl; single = refl }

users-IsSegment : IsSegment (codes "users")
unfolding split_on
users-IsSegment = record { full = refl; single = refl }

u1-IsSegment : IsSegment (codes "u1")
unfolding split_on
u1-IsSegment = record { full = refl; single = refl }

cat-IsSegment : IsSegment (codes "cat")
unfolding split_on
cat-IsSegment = record { full = refl; single = refl }

tea-IsSegment : IsSegment (codes "tea")
unfolding split_on
tea-IsSegment = record { full = refl; single = refl }

build_uri-parse_uri_example :
    parse_uri plain
      (build_uri (codes "acme") (codes "users") (codes "u1") (codes "cat") (codes "tea"))
    ≡ ok (record {
      account = codes "acme";
      owner_type = codes "users";
      owner_id = codes "u1";
      category = codes "cat";
      slug = codes "tea";
    })
unfolding is_owner text_eq
build_uri-parse_uri_example =
    build_uri-parse_uri plain (codes "acme") (codes "users") (codes "u1") (codes "cat")
      (codes "tea") refl refl refl acme-IsSegment users-IsSegment u1-IsSegment cat-IsSegment
      tea-IsSegment
