-- ===== src/Commit/Keys.antt =====
-- commit/routing_key.py: `normalize_routing_key` and its table of synonyms. `str.lower` is a
-- parameter, since the letters of all scripts have a lower case.
use rtc_retrieval_token_cutt.Base.{
  ℕ, zero, suc, ◌-◌, ◌==◌, Option, none, some, List, [], ◌∷◌, ◌++◌, map, Text, codes, is_empty,
  text_eq, starts_with, contains, strip, length, if◌then◌else◌,
}
use rtc_retrieval_token_cutt.VectorIndex.Dict.{get, put}

-- s.replace(c, d), for one character each
abbrev pub replace_char : (c d : ℕ) → Text → Text
replace_char c d s = map (λ x. if x == c then d else x) s

-- The characters of a match that are still to be passed over, and the text.
unfoldable pub replace_found : (old new : Text) → ℕ → Text → Text
replace_found old new n [] = []
replace_found old new (suc n) (x ∷ s) = replace_found old new n s
replace_found old new zero (x ∷ s) =
    let found = replace_found old new (length old - 1) s in
    let other = replace_found old new zero s in
    if starts_with (x ∷ s) old then new ++ found else x ∷ other

-- s.replace(old, new), for a text that is not empty
unfoldable pub replace : (old new : Text) → Text → Text
unfolding replace_found
replace old new s = replace_found old new zero s

abbrev pub synonym_groups : List (List Text)
synonym_groups =
    (codes "beverage" ∷ codes "coffee" ∷ codes "tea" ∷ codes "drink" ∷ [])
    ∷ (codes "commute" ∷ codes "transport" ∷ codes "transportation" ∷ codes "travel_to_work" ∷ [])
    ∷ (codes "note_taking" ∷ codes "notes" ∷ codes "note_tool" ∷ [])
    ∷ (codes "coding_style"
        ∷ codes "code_style"
        ∷ codes "programming_style"
        ∷ codes "coding_preference"
        ∷ [])
    ∷ (codes "music" ∷ codes "music_taste" ∷ codes "music_preference" ∷ [])
    ∷ (codes "food" ∷ codes "food_preference" ∷ codes "diet" ∷ codes "eating" ∷ [])
    ∷ (codes "exercise" ∷ codes "workout" ∷ codes "fitness" ∷ codes "gym" ∷ [])
    ∷ (codes "reading" ∷ codes "books" ∷ codes "reading_preference" ∷ [])
    ∷ (codes "sleep" ∷ codes "sleep_habit" ∷ codes "sleep_schedule" ∷ [])
    ∷ (codes "weather" ∷ codes "weather_preference" ∷ [])
    ∷ (codes "pets" ∷ codes "pet" ∷ codes "animals" ∷ [])
    ∷ []

-- One group's entries in the reverse lookup: each name leads to the first.
abbrev put_all : (canonical : Text) → List Text → List (Text × Text) → List (Text × Text)
put_all canonical [] d = d
put_all canonical (synonym ∷ group) d = put_all canonical group (put synonym canonical d)

abbrev put_group : List Text → List (Text × Text) → List (Text × Text)
put_group [] d = d
put_group (canonical ∷ synonyms) d = put_all canonical (canonical ∷ synonyms) d

abbrev put_groups : List (List Text) → List (Text × Text) → List (Text × Text)
put_groups [] d = d
put_groups (group ∷ groups) d = put_groups groups (put_group group d)

unfoldable pub synonym_map : List (Text × Text)
unfolding text_eq
synonym_map = put_groups synonym_groups []

-- `if key in _SYNONYM_MAP: return _SYNONYM_MAP[key]`, else the key
abbrev pub canonical_or : Text → Option Text → Text
canonical_or key none = key
canonical_or key (some canonical) = canonical

unfoldable pub canonical : Text → Text
unfolding text_eq synonym_map
canonical key = canonical_or key (get key synonym_map)

-- The loop over consecutive underscores.
unfoldable pub collapse : (fuel : ℕ) → Text → Text
unfolding contains replace
collapse zero key = key
collapse (suc n) key =
    let rest = collapse n (replace (codes "__") (codes "_") key) in
    if contains key (codes "__") then rest else key

module _ (lower : Text → Text) where
  -- Steps 1 and 2.
  unfoldable pub basic_key : Text → Text
  unfolding strip
  basic_key raw_key = replace_char b'-' b'_' (replace_char b' ' b'_' (strip (lower raw_key)))

  unfoldable pub normalize_routing_key : (raw_key category : Text) → Text
  unfolding basic_key collapse canonical
  normalize_routing_key raw_key category =
      if is_empty raw_key
      then category
      else canonical (collapse (length (basic_key raw_key)) (basic_key raw_key))
