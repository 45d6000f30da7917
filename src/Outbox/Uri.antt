-- ===== src/Outbox/Uri.antt =====
-- fs/agfs_adapter/agfs_context_fs.py: the seven URI patterns, `parse_uri` and `uri_to_path`.
-- `urllib.parse.unquote` is a parameter: the theorems hold for any function in its place.
use rtc_retrieval_token_cutt.Base.{
  ◌≡◌, refl, Bool, not, ◌&&◌, ◌||◌, Option, none, some, List, [], ◌∷◌, ◌++◌, Text, codes, is_empty,
  text_eq, starts_with, split_on, rstrip, drop, if◌then◌else◌, Result, ok, raised, value_error,
}

-- What a pattern's groups hold.
pub data Parsed : Type 0 where
  skill : (account owner_id skill_name : Text) → Parsed
  profile : (account owner_id : Text) → Parsed
  memory : (account owner_type owner_id category slug : Text) → Parsed
  category_dir : (account owner_type owner_id category : Text) → Parsed
  memories_root : (account owner_type owner_id : Text) → Parsed
  archive : (account session_id archive_id : Text) → Parsed
  history : (account session_id : Text) → Parsed

abbrev full : Text → Bool
full s = not (is_empty s)

-- `users|agents`
unfoldable pub is_owner : Text → Bool
is_owner t = text_eq t (codes "users") || text_eq t (codes "agents")

-- `$` also stands before a line feed that ends the text.
unfoldable pub at_end : Text → Text → Bool
at_end word s = text_eq s word || text_eq s (word ++ codes "\n")

abbrev when : Bool → Parsed → Option Parsed
when b p = if b then some p else none

-- Each pattern, on the parts between the slashes that follow `ctx://`.
unfoldable pub match_skill : List Text → Option Parsed
match_skill (a ∷ k ∷ o ∷ s ∷ n ∷ []) =
    when (full a && text_eq k (codes "agents") && full o && text_eq s (codes "skills") && full n)
      (skill a o n)
match_skill _ = none

unfoldable pub match_profile : List Text → Option Parsed
unfolding at_end
match_profile (a ∷ k ∷ o ∷ m ∷ p ∷ []) =
    when
      (full a
        && text_eq k (codes "users")
        && full o
        && text_eq m (codes "memories")
        && at_end (codes "profile") p)
      (profile a o)
match_profile _ = none

unfoldable pub match_memory : List Text → Option Parsed
unfolding is_owner
match_memory (a ∷ k ∷ o ∷ m ∷ c ∷ s ∷ []) =
    when (full a && is_owner k && full o && text_eq m (codes "memories") && full c && full s)
      (memory a k o c s)
match_memory _ = none

unfoldable pub match_category : List Text → Option Parsed
unfolding is_owner at_end
match_category (a ∷ k ∷ o ∷ m ∷ c ∷ []) =
    when (full a && is_owner k && full o && text_eq m (codes "memories") && full c)
      (category_dir a k o c)
match_category (a ∷ k ∷ o ∷ m ∷ c ∷ z ∷ []) =
    when (full a && is_owner k && full o && text_eq m (codes "memories") && full c && at_end [] z)
      (category_dir a k o c)
match_category _ = none

unfoldable pub match_root : List Text → Option Parsed
unfolding is_owner at_end
match_root (a ∷ k ∷ o ∷ m ∷ []) =
    when (full a && is_owner k && full o && at_end (codes "memories") m) (memories_root a k o)
match_root (a ∷ k ∷ o ∷ m ∷ z ∷ []) =
    when (full a && is_owner k && full o && text_eq m (codes "memories") && at_end [] z)
      (memories_root a k o)
match_root _ = none

unfoldable pub match_archive : List Text → Option Parsed
match_archive (a ∷ k ∷ i ∷ h ∷ r ∷ []) =
    when (full a && text_eq k (codes "sessions") && full i && text_eq h (codes "history") && full r)
      (archive a i r)
match_archive _ = none

unfoldable pub match_history : List Text → Option Parsed
unfolding at_end
match_history (a ∷ k ∷ i ∷ h ∷ []) =
    when (full a && text_eq k (codes "sessions") && full i && at_end (codes "history") h)
      (history a i)
match_history (a ∷ k ∷ i ∷ h ∷ z ∷ []) =
    when
      (full a
        && text_eq k (codes "sessions")
        && full i
        && text_eq h (codes "history")
        && at_end [] z)
      (history a i)
match_history _ = none

abbrev scheme : Text
scheme = codes "ctx://"

unfoldable pub match_parts : (List Text → Option Parsed) → Text → Option Parsed
match_parts pattern uri =
    if starts_with uri scheme then pattern (split_on b'/' (drop 6 uri)) else none

abbrev first_of_two : Option Parsed → Option Parsed → Option Parsed
first_of_two (some p) _ = some p
first_of_two none q = q

-- The row of `match` calls that `parse_uri` and `uri_to_path` share.
unfoldable pub recognise : Text → Option Parsed
unfolding match_parts match_skill match_profile match_memory match_category match_root match_archive
    match_history
recognise uri =
    let stripped = rstrip b'/' uri in
    first_of_two (match_parts match_skill uri) (
      first_of_two (match_parts match_profile uri) (
        first_of_two (match_parts match_memory uri) (
          first_of_two (match_parts match_category stripped) (
            first_of_two (match_parts match_root stripped) (
              first_of_two (match_parts match_archive uri) (match_parts match_history stripped))))))

-- The dictionary that `parse_uri` returns.
pub record Components : Type 0 where
  pub account : Text
  pub owner_type : Text
  pub owner_id : Text
  pub category : Text
  pub slug : Text

abbrev components : (account owner_type owner_id category slug : Text) → Components
components a t o c s = record { account = a; owner_type = t; owner_id = o; category = c; slug = s }

unfoldable pub parts_of : (unquote : Text → Text) → Parsed → Components
parts_of unquote (skill a o n) = components a (codes "agents") o (codes "skills") (unquote n)
parts_of unquote (profile a o) = components a (codes "users") o (codes "profile") (codes "profile")
parts_of unquote (memory a t o c s) = components a t o c (unquote s)
parts_of unquote (category_dir a t o c) = components a t o c []
parts_of unquote (memories_root a t o) = components a t o [] []
parts_of unquote (archive a i r) = components a (codes "sessions") i (codes "history") r
parts_of unquote (history a i) = components a (codes "sessions") i (codes "history") []

abbrev pub components_or_error : (unquote : Text → Text) → Option Parsed → Result Components
components_or_error unquote none = raised value_error
components_or_error unquote (some p) = ok (parts_of unquote p)

unfoldable pub parse_uri : (unquote : Text → Text) → Text → Result Components
unfolding recognise parts_of
parse_uri unquote uri = components_or_error unquote (recognise uri)

pub parse_uri-recognise :
    (unquote : Text → Text) (uri : Text)
    → parse_uri unquote uri ≡ components_or_error unquote (recognise uri)
unfolding parse_uri
parse_uri-recognise unquote uri = refl
