-- ===== src/Retrieval/Samples.antt =====
-- A tree of two directories and a leaf, searched with whole numbers for scores.
use rtc_retrieval_token_cutt.Base.{
  ℕ, ◌+◌, ◌*◌, ◌/◌, ◌==◌, ◌≤◌, ◌<◌, ◌≡◌, refl, false, some, List, [], ◌∷◌, Text, codes, text_eq,
  length, arith, leb, ltb, All, Result, ok, if◌then◌else◌, Bool-cases, inl, inr, subst,
}
use rtc_retrieval_token_cutt.Json.{null, bool, num, str}
use rtc_retrieval_token_cutt.VectorIndex.Index.{FloatOps}
use rtc_retrieval_token_cutt.VectorIndex.Search.{SeedHit}
use rtc_retrieval_token_cutt.Retrieval.Walk.{Settings, is_among, recursive_search}
use rtc_retrieval_token_cutt.Retrieval.Ends.{KnownHit, AreFew, recursive_search-ends}
use rtc_retrieval_token_cutt.Retrieval.Origin.{AllPass, IsGood, recursive_search-All}

abbrev whole : FloatOps
whole = record {
  zero_float = 0;
  add = λ a b. a + b;
  mul = λ a b. a * b;
  div = λ a b. a / b;
  sqrt = λ a. a;
  is_zero = λ a. a == 0;
  below = λ a b. ltb a b;
  at_most = λ a b. leb a b;
  scaled = λ a. a;
}

abbrev settings : Settings
settings = record {
  alpha = 1;
  one_minus_alpha = 1;
  threshold = 3;
  max_convergence_rounds = 3;
  limit = 2;
}

abbrev hit : Text → (score level : ℕ) → SeedHit
hit t s l = record {
  uri = t;
  score = s;
  level = l;
  parent_uri = null;
  context_type = str [];
  category = str [];
  owner_space = str [];
  abstract = [];
  has_overview = bool false;
  has_content = bool false;
  active_count = num 0;
  updated_at = null;
}

abbrev root : SeedHit
root = hit (codes "r") 2 1

abbrev sub : SeedHit
sub = hit (codes "r/s") 2 1

abbrev leaf : SeedHit
leaf = hit (codes "r/s/l") 4 2

abbrev seed_leaf : SeedHit
seed_leaf = hit (codes "x") 9 2

abbrev tree : Text → Result (List SeedHit)
tree t =
    if text_eq t (codes "r")
    then ok (sub ∷ leaf ∷ [])
    else if text_eq t (codes "r/s")
    then ok (leaf ∷ [])
    else ok []

abbrev known : List Text
known = codes "r" ∷ codes "r/s" ∷ codes "r/s/l" ∷ []

searched :
    recursive_search whole settings tree 20 (root ∷ []) (root ∷ seed_leaf ∷ [])
    ≡ some (ok (seed_leaf ∷ hit (codes "r/s/l") 8 2 ∷ []))
unfolding recursive_search
searched = refl

tree-cases :
    (P : List SeedHit → Type 0) (t : Text) (cs : List SeedHit)
    → P (sub ∷ leaf ∷ [])
    → P (leaf ∷ [])
    → P []
    → tree t ≡ ok cs
    → P cs
unfolding text_eq
tree-cases P t cs a b c h = elim (Bool-cases (text_eq t (codes "r"))) [
  | inl e ↦ let same : (sub ∷ leaf ∷ []) ≡ cs = ok_inj (rw e at h) in subst P same a
  | inr e ↦ elim (Bool-cases (text_eq t (codes "r/s"))) [
    | inl f ↦ let same : (leaf ∷ []) ≡ cs = ok_inj (rw (e, f) at h) in subst P same b
    | inr f ↦ let same : [] ≡ cs = ok_inj (rw (e, f) at h) in subst P same c
  ]
]
  where
    ok_inj : {u v : List SeedHit} → ok u ≡ ok v → u ≡ v
    ok_inj e = cc

few : AreFew whole settings known tree 2
unfolding is_among text_eq
few t cs h =
    tree-cases (λ cs. length cs ≤ 2 × All (KnownHit whole settings known) cs) t cs
      (omega arith, (refl, (refl, tt))) (omega arith, (refl, tt)) (omega arith, tt) h

root-Known : All (KnownHit whole settings known) (root ∷ [])
unfolding is_among text_eq
root-Known = (refl, tt)

recursive_search-ends_example :
    (r : Result (List SeedHit)) × (recursive_search whole settings tree 20
        (root ∷ [])
        (root ∷ seed_leaf ∷ [])
      ≡ some r)
recursive_search-ends_example =
    recursive_search-ends whole settings known tree 2 20 (root ∷ []) (root ∷ seed_leaf ∷ []) few
      root-Known (omega arith)

-- The score of the hit is above the threshold.
abbrev Strong : SeedHit → Type 0
Strong h = 3 < h.score

tree-AllPass : AllPass whole settings Strong tree
tree-AllPass t cs h =
    let above : (s : ℕ) → leb s 3 ≡ false → 3 < s = λ s b. ground (arith, b) in
    tree-cases (λ cs. All (IsGood whole settings Strong) cs) t cs (above, (above, tt)) (above, tt)
      tt h

recursive_search-All_example :
    (length (seed_leaf ∷ hit (codes "r/s/l") 8 2 ∷ []) ≤ settings.limit)
    × All Strong (seed_leaf ∷ hit (codes "r/s/l") 8 2 ∷ [])
recursive_search-All_example =
    recursive_search-All whole settings Strong tree 20 (root ∷ []) (root ∷ seed_leaf ∷ [])
      (seed_leaf ∷ hit (codes "r/s/l") 8 2 ∷ []) tree-AllPass
      (λ e. absurd (omega (arith, e)), (λ e. omega arith, tt)) searched
