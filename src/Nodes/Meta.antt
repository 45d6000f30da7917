-- ===== src/Nodes/Meta.antt =====
-- fs/agfs_adapter/agfs_context_fs.py: a node, and the metadata file that `write_node` makes of it.
use rtc_retrieval_token_cutt.Base.{
  ℕ, ◌+◌, ◌≡◌, refl, Bool, true, false, Option, none, some, List, Text, codes, text_eq, text_eq_iff,
  starts_with, arith, ap, ◌∙◌, Bool-cases, inl, inr, if◌then◌else◌,
}
use rtc_retrieval_token_cutt.Json.{
  Json, num, str, Fields, end, field, lookup_field, set_field, lookup_field-set_field,
}
use rtc_retrieval_token_cutt.Outbox.Event.{get_or}
use rtc_retrieval_token_cutt.Nodes.Files.{RelationEdge}

-- ContextNode of code-version/core/models.py. `metadata` is without the two keys that `write_node` reads
-- for itself, "_relations" and "expected_version".
pub record ContextNode : Type 0 where
  pub uri : Text
  pub context_type : Text
  pub category : Text
  pub level : ℕ
  pub owner_space : Text
  pub abstract : Text
  pub overview : Text
  pub content : Text
  pub metadata : Fields
  pub relations : List RelationEdge
  pub expected_version : Option ℕ

-- `meta.update(extra_meta)`: every key of the metadata that does not begin with an underscore
unfoldable pub update_meta : Fields → (metadata : Fields) → Fields
unfolding set_field starts_with
update_meta meta end = meta
update_meta meta (field k v fs) =
    update_meta (if starts_with k (codes "_") then meta else set_field k v meta) fs

abbrev pub with_expected : Option ℕ → Fields → Fields
with_expected none fs = fs
with_expected (some n) fs = set_field (codes "expected_version") (num n) fs

abbrev pub new_version : ContextNode → Json
new_version node = elim node.expected_version [
  | some n ↦ num (n + 1)
  | none ↦ get_or (lookup_field (codes "version") node.metadata) (num 1)
]

unfoldable pub base_meta : ContextNode → (now : Text) → Fields
unfolding lookup_field
base_meta node now = field (codes "uri") (str node.uri) (
    field (codes "context_type") (str node.context_type) (
      field (codes "category") (str node.category) (
        field (codes "level") (num node.level) (
          field (codes "owner_space") (str node.owner_space) (
            field (codes "status") (str (codes "ACTIVE")) (
              field (codes "created_at")
                (get_or (lookup_field (codes "created_at") node.metadata) (str now))
                (field (codes "updated_at") (str now)
                  (field (codes "version") (new_version node) end))))))))

unfoldable pub meta_of : ContextNode → (now : Text) → Fields
unfolding base_meta update_meta set_field
meta_of node now =
    with_expected node.expected_version (update_meta (base_meta node now) node.metadata)

abbrev pub or_else : Option Json → Option Json → Option Json
or_else none o = o
or_else (some v) o = some v

-- The last value of a key
abbrev pub last_value : Text → Fields → Option Json
last_value k end = none
last_value k (field j v fs) = or_else (last_value k fs) (if text_eq j k then some v else none)

pub lookup_field-update_meta :
    (k : Text) (meta metadata : Fields)
    → starts_with k (codes "_") ≡ false
    → lookup_field k (update_meta meta metadata)
      ≡ or_else (last_value k metadata) (lookup_field k meta)
unfolding update_meta
lookup_field-update_meta k meta end h = refl
lookup_field-update_meta k meta (field j v fs) h =
    lookup_field-update_meta k (if starts_with j (codes "_") then meta else set_field j v meta) fs h
    ∙ ap (or_else (last_value k fs)) (one_key (starts_with j (codes "_")) refl)
    ∙ pick (last_value k fs)
  where
    one_key :
        (hidden : Bool)
        → starts_with j (codes "_") ≡ hidden
        → lookup_field k (if hidden then meta else set_field j v meta)
          ≡ (if text_eq j k then some v else lookup_field k meta)
    one_key true e = elim (Bool-cases (text_eq j k)) [
      | inl same ↦ let eq = (text_eq_iff j k).0 same in absurd (cc)
      | inr other ↦ rw other refl
    ]
    one_key false e = lookup_field-set_field j k v meta

    pick :
        (o : Option Json)
        → or_else o (if text_eq j k then some v else lookup_field k meta)
          ≡ or_else (or_else o (if text_eq j k then some v else none)) (lookup_field k meta)
    pick none = ground arith
    pick (some w) = refl
