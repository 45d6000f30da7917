-- ===== src/Retrieval/Visits.antt =====
-- retrieval/hierarchical_searcher.py: the directories that the search has not visited yet.
use rtc_retrieval_token_cutt.Base.{
  ℕ, suc, ◌+◌, ◌*◌, ◌≤◌, ◌<◌, ◌≡◌, refl, sym, ap, ◌∙◌, true, false, List, [], ◌∷◌, Text, text_eq,
  text_eq_iff, length, arith, Bool-cases, inl, inr, if◌then◌else◌,
}
use native.Mathlib.Nat.{mul-le-mul_left, mul-add}
use rtc_retrieval_token_cutt.Retrieval.Walk.{is_among}

-- The URIs of a list that were not visited.
unfoldable pub unvisited : (us visited : List Text) → ℕ
unvisited [] visited = 0
unvisited (u ∷ us) visited =
    let rest = unvisited us visited in if is_among u visited then rest else suc rest

unvisited-le : (x : Text) (us vs : List Text) → unvisited us (x ∷ vs) ≤ unvisited us vs
unfolding unvisited is_among
unvisited-le x [] vs = omega arith
unvisited-le x (u ∷ us) vs = ground (arith, unvisited-le x us vs)

pub unvisited-lt :
    (x : Text) (us vs : List Text)
    → is_among x us ≡ true
    → is_among x vs ≡ false
    → unvisited us (x ∷ vs) < unvisited us vs
unfolding unvisited is_among
unvisited-lt x [] vs h n = absurd (cc)
unvisited-lt x (u ∷ us) vs h n = elim (Bool-cases (text_eq u x)) [
  | inl e ↦
      let same = (text_eq_iff u x).0 e in
      let seen : is_among u vs ≡ false = ap (λ t. is_among t vs) same ∙ n in
      let again : text_eq x u ≡ true = (text_eq_iff x u).1 (sym same) in
      rw (seen, again) (omega (arith, unvisited-le x us vs))
  | inr e ↦ ground (arith, unvisited-lt x us vs (ground (arith, e, h)) n)
]

pub product_lt : (k a b : ℕ) → a < b → k + (k + 1) * a < (k + 1) * b
product_lt k a b h =
    let above : (k + 1) * (a + 1) ≤ (k + 1) * b = mul-le-mul_left (k + 1) (omega (arith, h)) in
    omega (arith, above, mul-add (k + 1) a 1)

pub unvisited-nothing : (vs : List Text) → unvisited vs [] ≡ length vs
unfolding unvisited is_among
unvisited-nothing [] = refl
unvisited-nothing (v ∷ vs) = ap suc (unvisited-nothing vs)
