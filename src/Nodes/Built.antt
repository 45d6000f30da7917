-- ===== src/Nodes/Built.antt =====
-- fs/agfs_adapter/agfs_context_fs.py: the URIs of `build_uri`, as `parse_uri` reads them.
use rtc_retrieval_token_cutt.Base.{
  ◌≡◌, refl, sym, ap, ◌∙◌, true, false, ◌||◌, [], ◌∷◌, ◌++◌, append_assoc, Text, codes, text_eq,
  text_eq_sound, rstrip, split_on, starts_with, none, some, Bool-cases, inl, inr, ok, raised,
  value_error,
}
use rtc_retrieval_token_cutt.Outbox.Uri.{
  memory, components_or_error, parse_uri, recognise, is_owner, match_memory, match_skill,
  match_profile, match_category, match_root, match_archive, match_history,
}
use rtc_retrieval_token_cutt.Nodes.Segments.{
  IsSegment, split_on-append, rstrip-segment, rstrip-append,
}
use rtc_retrieval_token_cutt.Nodes.Tree.{build_uri}

is_owner-plural :
    (t : Text) → is_owner t ≡ true → (text_eq t (codes "user") || text_eq t (codes "agent")) ≡ false
unfolding is_owner text_eq
is_owner-plural t w = elim (Bool-cases (text_eq t (codes "users"))) [
  | inl u ↦ rw (text_eq_sound t (codes "users") u) refl
  | inr u ↦ rw (text_eq_sound t (codes "agents") (rw u at w)) refl
]

build_uri-memory :
    (a t o k s : Text)
    → is_owner t ≡ true
    → text_eq k (codes "skills") ≡ false
    → text_eq k (codes "profile") ≡ false
    → build_uri a t o k s
      ≡ codes "ctx://"
        ++ (a ++ b'/' ∷ (t ++ b'/' ∷ (o ++ b'/' ∷ (codes "memories" ++ b'/' ∷ (k ++ b'/' ∷ s)))))
unfolding build_uri
build_uri-memory a t o k s w n m = rw (is_owner-plural t w, n, m) (simp append_assoc)

-- The parts of such a text.
split_on-six :
    (a t o m k s : Text)
    → IsSegment a
    → IsSegment t
    → IsSegment o
    → IsSegment m
    → IsSegment k
    → IsSegment s
    → split_on b'/' (a ++ b'/' ∷ (t ++ b'/' ∷ (o ++ b'/' ∷ (m ++ b'/' ∷ (k ++ b'/' ∷ s)))))
      ≡ a ∷ t ∷ o ∷ m ∷ k ∷ s ∷ []
split_on-six a t o m k s a' t' o' m' k' s' =
    let k₁ = split_on-append b'/' k s k'.single ∙ ap (λ r. k ∷ r) s'.single in
    let m₁ = split_on-append b'/' m _ m'.single ∙ ap (λ r. m ∷ r) k₁ in
    let o₁ = split_on-append b'/' o _ o'.single ∙ ap (λ r. o ∷ r) m₁ in
    let t₁ = split_on-append b'/' t _ t'.single ∙ ap (λ r. t ∷ r) o₁ in
    split_on-append b'/' a _ a'.single ∙ ap (λ r. a ∷ r) t₁

abbrev rest_uri : (a t o m k s : Text) → Text
rest_uri a t o m k s = a ++ b'/' ∷ (t ++ b'/' ∷ (o ++ b'/' ∷ (m ++ b'/' ∷ (k ++ b'/' ∷ s))))

match_memory-full :
    (a t o k s : Text)
    → is_owner t ≡ true
    → IsSegment a
    → IsSegment o
    → IsSegment k
    → IsSegment s
    → match_memory (a ∷ t ∷ o ∷ codes "memories" ∷ k ∷ s ∷ []) ≡ some (memory a t o k s)
unfolding match_memory text_eq
match_memory-full a t o k s w a' o' k' s' = rw (w, a'.full, o'.full, k'.full, s'.full) refl

memories-IsSegment : IsSegment (codes "memories")
unfolding split_on
memories-IsSegment = record { full = refl; single = refl }

recognise-memory :
    (a t o k s : Text)
    → is_owner t ≡ true
    → IsSegment a
    → IsSegment t
    → IsSegment o
    → IsSegment k
    → IsSegment s
    → recognise (codes "ctx://" ++ rest_uri a t o (codes "memories") k s) ≡ some (memory a t o k s)
unfolding recognise starts_with match_skill match_profile
recognise-memory a t o k s w a' t' o' k' s' =
    rw
      (
        split_on-six a t o (codes "memories") k s a' t' o' memories-IsSegment k' s',
        match_memory-full a t o k s w a' o' k' s',
      )
      refl

-- A memory URI that `build_uri` makes of segments is read back into the same parts, the slug
-- percent-decoded.
pub build_uri-parse_uri :
    (unquote : Text → Text) (a t o k s : Text)
    → is_owner t ≡ true
    → text_eq k (codes "skills") ≡ false
    → text_eq k (codes "profile") ≡ false
    → IsSegment a
    → IsSegment t
    → IsSegment o
    → IsSegment k
    → IsSegment s
    → parse_uri unquote (build_uri a t o k s)
      ≡ ok (record { account = a; owner_type = t; owner_id = o; category = k; slug = unquote s })
unfolding parse_uri
build_uri-parse_uri unquote a t o k s w n m a' t' o' k' s' =
    ap (parse_uri unquote) (build_uri-memory a t o k s w n m)
    ∙ ap (components_or_error unquote) (recognise-memory a t o k s w a' t' o' k' s')

abbrev skill_uri : (a o s : Text) → Text
skill_uri a o s = a ++ b'/' ∷ (codes "users/" ++ (o ++ b'/' ∷ (codes "skills/" ++ s)))

build_uri-skill :
    (a o s : Text)
    → build_uri a (codes "users") o (codes "skills") s ≡ codes "ctx://" ++ skill_uri a o s
unfolding build_uri text_eq
build_uri-skill a o s = simp append_assoc

split_on-skill :
    (a o s : Text)
    → IsSegment a
    → IsSegment o
    → IsSegment s
    → split_on b'/' (skill_uri a o s) ≡ a ∷ codes "users" ∷ o ∷ codes "skills" ∷ s ∷ []
unfolding split_on
split_on-skill a o s a' o' s' =
    let o₁ = split_on-append b'/' o _ o'.single ∙ ap (λ r. o ∷ codes "skills" ∷ r) s'.single in
    split_on-append b'/' a _ a'.single ∙ ap (λ r. a ∷ codes "users" ∷ r) o₁

rstrip-skill :
    (a o s : Text)
    → IsSegment s
    → rstrip b'/' (codes "ctx://" ++ skill_uri a o s) ≡ codes "ctx://" ++ skill_uri a o s
rstrip-skill a o s s' =
    let front : Text =
      codes "ctx://" ++ (a ++ b'/' ∷ (codes "users/" ++ (o ++ codes "/skills/"))) in
    let e : front ++ s ≡ codes "ctx://" ++ skill_uri a o s = simp append_assoc in
    ap (rstrip b'/') (sym e)
    ∙ rstrip-append b'/' front s s'.full (rstrip-segment b'/' s s'.single)
    ∙ e

recognise-skill :
    (a o s : Text)
    → IsSegment a
    → IsSegment o
    → IsSegment s
    → recognise (codes "ctx://" ++ skill_uri a o s) ≡ none
unfolding recognise starts_with match_skill match_profile match_memory match_category match_root
    match_archive match_history text_eq
recognise-skill a o s a' o' s' =
    rw (rstrip-skill a o s s', split_on-skill a o s a' o' s', a'.full, o'.full) refl

-- The URI that `build_uri` makes for a skill of a user fits no pattern: `parse_uri` raises ValueError.
pub build_uri-user_skill :
    (unquote : Text → Text) (a o s : Text)
    → IsSegment a
    → IsSegment o
    → IsSegment s
    → parse_uri unquote (build_uri a (codes "users") o (codes "skills") s) ≡ raised value_error
unfolding parse_uri
build_uri-user_skill unquote a o s a' o' s' =
    ap (parse_uri unquote) (build_uri-skill a o s)
    ∙ ap (components_or_error unquote) (recognise-skill a o s a' o' s')
