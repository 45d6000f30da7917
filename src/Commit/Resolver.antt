-- ===== src/Commit/Resolver.antt =====
-- core/uri_resolver.py: the URIs that the templates of a schema give. Jinja's rendering and the
-- registry of schemas are parameters.
use rtc_retrieval_token_cutt.Base.{
  ℕ, ◌==◌, Bool, false, not, Option, none, some, List, [], ◌∷◌, ◌++◌, Text, codes, text_eq,
  starts_with, ends_with, contains, strip, rstrip, take, length, ◌-◌, keep_if, if◌then◌else◌,
  Result, ok, raised, value_error,
}
use rtc_retrieval_token_cutt.Outbox.Paths.{remove_all}
use rtc_retrieval_token_cutt.VectorIndex.Dict.{put}
use rtc_retrieval_token_cutt.Nodes.Methods.{Caller}
use rtc_retrieval_token_cutt.Commit.Keys.{replace_char}

-- What the resolver reads of a MemoryTypeSchema.
pub record Schema : Type 0 where
  pub memory_type : Text
  pub directory : Text
  pub filename_template : Text
  pub is_single_file : Bool
  pub operation_mode : Text
  pub owner_scope : Text

abbrev pub Vars : Type 0
Vars = List (Text × Text)

-- value.replace(c, ""), for one character
abbrev pub remove_char : ℕ → Text → Text
remove_char c s = keep_if (λ x. not (x == c)) s

abbrev pub without_md : Text → Text
without_md filename =
    if ends_with filename (codes ".md") then take (length filename - 3) filename else filename

-- d.update(fields)
abbrev pub put_fields : Vars → Vars → Vars
put_fields [] d = d
put_fields ((k, v) ∷ fields) d = put_fields fields (put k v d)

abbrev pub context_vars : Caller → Vars
context_vars ctx =
    (codes "account_id", ctx.account_id)
    ∷ (codes "user_id", ctx.user_id)
    ∷ (codes "agent_id", ctx.agent_id)
    ∷ []

module _ (lower : Text → Text) where
  -- `_sanitize`
  unfoldable pub sanitize : Text → Text
  unfolding remove_all strip
  sanitize value = lower (
      replace_char b' ' b'_'
        (strip (remove_char b'\\' (replace_char b'/' b'_' (remove_all (codes "..") value)))))

  abbrev pub sanitize_vars : Vars → Vars
  sanitize_vars [] = []
  sanitize_vars ((k, v) ∷ vars) = (k, sanitize v) ∷ sanitize_vars vars

  module _ (render : Text → Vars → Text) (registry : Text → Option Schema) where
    abbrev pub rendered : Schema → Vars → Text
    rendered schema vars =
        let dir_path = rstrip b'/' (render schema.directory vars) in
        if schema.is_single_file
        then dir_path
        else dir_path ++ codes "/" ++ without_md (render schema.filename_template vars)

    -- The fields that are not None.
    unfoldable pub resolve : (memory_type : Text) (fields : Vars) → Caller → Result Text
    unfolding text_eq sanitize rstrip ends_with
    resolve memory_type fields ctx = elim (registry memory_type) [
      | none ↦ raised value_error
      | some schema ↦ ok (rendered schema (sanitize_vars (put_fields fields (context_vars ctx))))
    ]

    unfoldable pub get_directory_uri : (memory_type : Text) → Caller → Result Text
    get_directory_uri memory_type ctx = elim (registry memory_type) [
      | none ↦ raised value_error
      | some schema ↦ ok (render schema.directory (context_vars ctx))
    ]

unfoldable pub validate_uri : Text → Caller → Bool
unfolding contains starts_with
validate_uri uri ctx =
    if contains uri (codes "..")
    then false
    else starts_with uri (codes "ctx://" ++ ctx.account_id ++ codes "/")
