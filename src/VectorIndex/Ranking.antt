-- ===== src/VectorIndex/Ranking.antt =====
-- The order of the hits in providers/vector_index/in_memory_index.py, and which of them are left out.
use mathlib.Core.List.{Perm}
use mathlib.Core.List.Perm
use rtc_retrieval_token_cutt.Base.{
  ℕ, ◌≡◌, min, true, false, List, [], ◌∷◌, ◌++◌, length, take, drop, take-append-drop, length-take,
  arith, All, All-take, subst, sym, Bool-cases, inl, inr, Result, ok, >>=-eq-ok, suc,
}
use rtc_retrieval_token_cutt.Worker.Tenancy.{ok-injective}
use rtc_retrieval_token_cutt.VectorIndex.Index.{FloatOps}
use rtc_retrieval_token_cutt.VectorIndex.Search.{SeedHit, insert_hit, sort_hits, ranked}

-- What holds of `<` on floats that are numbers; a NaN is none.
pub record FloatOrder (ops : FloatOps) : Type 1 where
  pub IsNumber : ℕ → Type 0
  pub asymmetric :
      (a b : ℕ) → IsNumber a → IsNumber b → ops.below a b ≡ true → ops.below b a ≡ false
  pub transitive :
      (a b c : ℕ)
      → IsNumber a
      → IsNumber b
      → IsNumber c
      → ops.below a b ≡ false
      → ops.below b c ≡ false
      → ops.below a c ≡ false

All-map₂ {ℓ} :
    {A : Type ℓ} {P Q R : A → Type 0}
    → ((a : A) → P a → Q a → R a)
    → (xs : List A) → All P xs
    → All Q xs
    → All R xs
All-map₂ f [] h k = tt
All-map₂ f (x ∷ xs) h k = (f x h.0 k.0, All-map₂ f xs h.1 k.1)

module _ (ops : FloatOps) where
  -- No hit has a higher score than one before it.
  abbrev pub IsRanked : List SeedHit → Type 0
  IsRanked [] = Unit
  IsRanked (h ∷ hs) = All (λ g. ops.below h.score g.score ≡ false) hs × IsRanked hs

  insert_hit-All :
      (P : SeedHit → Type 0) (h : SeedHit) (hs : List SeedHit)
      → P h
      → All P hs
      → All P (insert_hit ops h hs)
  insert_hit-All P h [] p q = (p, tt)
  insert_hit-All P h (g ∷ gs) p q = elim (Bool-cases (ops.below h.score g.score)) [
    | inl above ↦ rw above (q.0, insert_hit-All P h gs p q.1)
    | inr first ↦ rw first (p, q)
  ]

  pub sort_hits-All :
      (P : SeedHit → Type 0) (hs : List SeedHit) → All P hs → All P (sort_hits ops hs)
  sort_hits-All P [] h = tt
  sort_hits-All P (x ∷ xs) h = insert_hit-All P x (sort_hits ops xs) h.0 (sort_hits-All P xs h.1)

  insert_hit-Perm : (h : SeedHit) (hs : List SeedHit) → Perm (insert_hit ops h hs) (h ∷ hs)
  insert_hit-Perm h [] = Perm.refl _
  insert_hit-Perm h (g ∷ gs) = elim (Bool-cases (ops.below h.score g.score)) [
    | inl above ↦ rw above (Perm.trans (Perm.cons g (insert_hit-Perm h gs)) (Perm.swap h g gs))
    | inr first ↦ rw first (Perm.refl _)
  ]

  sort_hits-Perm : (hs : List SeedHit) → Perm (sort_hits ops hs) hs
  sort_hits-Perm [] = Perm.refl _
  sort_hits-Perm (h ∷ hs) =
      Perm.trans (insert_hit-Perm h (sort_hits ops hs)) (Perm.cons h (sort_hits-Perm hs))

  length-insert_hit :
      (h : SeedHit) (hs : List SeedHit) → length (insert_hit ops h hs) ≡ suc (length hs)
  length-insert_hit h [] = omega arith
  length-insert_hit h (g ∷ gs) = ground (arith, length-insert_hit h gs)

  length-sort_hits : (hs : List SeedHit) → length (sort_hits ops hs) ≡ length hs
  length-sort_hits [] = omega arith
  length-sort_hits (h ∷ hs) =
      omega (arith, length-insert_hit h (sort_hits ops hs), length-sort_hits hs)

  module _ (order : FloatOrder ops) where
    -- The score of the hit is a number.
    abbrev pub IsScored : SeedHit → Type 0
    IsScored h = order.IsNumber h.score

    insert_hit-IsRanked :
        (h : SeedHit) (hs : List SeedHit)
        → IsScored h
        → All IsScored hs
        → IsRanked hs
        → IsRanked (insert_hit ops h hs)
    insert_hit-IsRanked h [] n ns r = (tt, tt)
    insert_hit-IsRanked h (g ∷ gs) n ns r = elim (Bool-cases (ops.below h.score g.score)) [
      | inl above ↦ rw above (
        insert_hit-All (λ k. ops.below g.score k.score ≡ false) h gs
            (order.asymmetric h.score g.score n ns.0 above) r.0,
        insert_hit-IsRanked h gs n ns.1 r.1,
      )
      | inr first ↦ rw first (
        (
          first,
          All-map₂ (λ k m b. order.transitive h.score g.score k.score n ns.0 m first b) gs ns.1 r.0,
        ),
        r,
      )
    ]

    sort_hits-IsRanked : (hs : List SeedHit) → All IsScored hs → IsRanked (sort_hits ops hs)
    sort_hits-IsRanked [] ns = tt
    sort_hits-IsRanked (h ∷ hs) ns =
        insert_hit-IsRanked h (sort_hits ops hs) ns.0 (sort_hits-All IsScored hs ns.1)
          (sort_hits-IsRanked hs ns.1)

    -- The best `top_k` of a list of hits: with those left out they are all of its hits, ranked.
    pub record Best (top_k : ℕ) (all hits : List SeedHit) : Type 0 where
      pub rest : List SeedHit
      pub complete : Perm (hits ++ rest) all
      pub in_order : IsRanked (hits ++ rest)
      pub bounded : length hits ≡ min top_k (length all)

    pub take-Best :
        (top_k : ℕ) (all : List SeedHit)
        → All IsScored all
        → Best top_k all (take top_k (sort_hits ops all))
    take-Best top_k all ns =
        let whole = take-append-drop top_k (sort_hits ops all) in
        record {
          rest = drop top_k (sort_hits ops all);
          complete = subst (λ hs. Perm hs all) (sym whole) (sort_hits-Perm all);
          in_order = subst IsRanked (sym whole) (sort_hits-IsRanked all ns);
          bounded = omega (arith, length-take top_k (sort_hits ops all), length-sort_hits all);
        }

    pub ranked-Best :
        (top_k : ℕ) (r : Result (List SeedHit)) (hits : List SeedHit)
        → ranked ops top_k r ≡ ok hits
        → ((all : List SeedHit) → r ≡ ok all → All IsScored all)
        → (all : List SeedHit) × (r ≡ ok all) × Best top_k all hits
    ranked-Best top_k r hits h ns =
        let (all, found, e) = >>=-eq-ok r _ h in
        (all, found, subst (Best top_k all) (ok-injective e) (take-Best top_k all (ns all found)))

  pub ranked-All :
      (P : SeedHit → Type 0) (top_k : ℕ) (r : Result (List SeedHit)) (hits : List SeedHit)
      → ranked ops top_k r ≡ ok hits
      → ((all : List SeedHit) → r ≡ ok all → All P all)
      → All P hits
  ranked-All P top_k r hits h p =
      let (all, found, e) = >>=-eq-ok r _ h in
      subst (All P) (ok-injective e)
        (All-take P top_k (sort_hits ops all) (sort_hits-All P all (p all found)))
