-- ===== src/Retrieval/Origin.antt =====
-- retrieval/hierarchical_searcher.py: the hits that the recursive search collects and answers.
use rtc_retrieval_token_cutt.Base.{
  ℕ, zero, suc, ◌==◌, ◌≤◌, ◌≡◌, refl, subst, Bool, true, false, not, ◌&&◌, Option, none, some, List,
  [], ◌∷◌, Text, All, All-take, length-take, text_eq, is_empty, length, arith, Bool-cases, inl, inr,
  if◌then◌else◌, Result, ok, raised, >>=-eq-ok, Result-cases,
}
use rtc_retrieval_token_cutt.VectorIndex.Dict.{get, put}
use rtc_retrieval_token_cutt.VectorIndex.Index.{FloatOps}
use rtc_retrieval_token_cutt.VectorIndex.Search.{SeedHit, sort_hits}
use rtc_retrieval_token_cutt.VectorIndex.Ranking.{sort_hits-All}
use rtc_retrieval_token_cutt.Retrieval.Walk.{
  Settings, Walk, is_among, pop_min, final_score, is_weak, is_better, collect_child, visit_children,
  converge, is_stable, expand_with, expand_dir, expand_entry, walk, collect_leaves, start_walk,
  values, best, bests, recursive_search,
}

-- A property of the hits of a dictionary.
module _ (P : SeedHit → Type 0) where
  abbrev Values : List (Text × SeedHit) → Type 0
  Values d = All (λ e. P e.1) d

  put-Values :
      (k : Text) (h : SeedHit) (d : List (Text × SeedHit)) → P h → Values d → Values (put k h d)
  put-Values k h [] p a = (p, tt)
  put-Values k h ((j, w) ∷ d) p a = elim (Bool-cases (text_eq j k)) [
    | inl e ↦ rw e (p, a.1)
    | inr e ↦ rw e (a.0, put-Values k h d p a.1)
  ]

  values-All : (d : List (Text × SeedHit)) → Values d → All P (values d)
  values-All [] a = tt
  values-All ((k, h) ∷ d) a = (a.0, values-All d a.1)

  collect_leaves-Values :
      (ops : FloatOps) (g : Settings) (search_children : Text → Result (List SeedHit))
      (hs : List SeedHit) (d : List (Text × SeedHit))
      → All (λ h. h.level ≡ 2 → P h) hs
      → Values d
      → Values (collect_leaves ops g search_children hs d)
  unfolding collect_leaves
  collect_leaves-Values ops g s [] d a v = v
  collect_leaves-Values ops g s (h ∷ hs) d a v =
      elim (Bool-cases (h.level == 2 && not (is_empty h.uri))) [
        | inl e ↦ rw e (
            collect_leaves-Values ops g s hs (put h.uri h d) a.1
              (put-Values h.uri h d (a.0 (ground (arith, e))) v))
        | inr e ↦ rw e (collect_leaves-Values ops g s hs d a.1 v)
      ]

module _ (ops : FloatOps) (g : Settings) (P : SeedHit → Type 0) where
  -- The property is of the child with each score that is not at most the threshold.
  abbrev pub IsGood : SeedHit → Type 0
  IsGood child = (s : ℕ) → ops.at_most s g.threshold ≡ false → P (record child { score = s })

  abbrev Collects : Walk → Type 0
  Collects w = Values P w.collected

  collect_child-Collects :
      (score : ℕ) (child : SeedHit) (w : Walk)
      → IsGood child
      → ops.at_most score g.threshold ≡ false
      → Collects w
      → Collects (collect_child ops g score child w)
  unfolding collect_child
  collect_child-Collects score child w p h c =
      elim (Bool-cases (is_better ops g score (get child.uri w.collected))) [
        | inl e ↦
            rw e (put-Values P child.uri (record child { score = score }) w.collected (p score h) c)
        | inr e ↦ rw e c
      ]

  visit_children-Collects :
      (current : ℕ) (cs : List SeedHit) (w : Walk)
      → All IsGood cs
      → Collects w
      → Collects (visit_children ops g current cs w)
  unfolding visit_children
  visit_children-Collects current [] w a c = c
  visit_children-Collects current (child ∷ cs) w a c =
      let score = final_score ops g current child.score in
      let next = if is_weak ops g score then w else collect_child ops g score child w in
      let kept : Collects next = elim (Bool-cases (is_weak ops g score)) [
        | inl e ↦ rw e c
        | inr e ↦ rw e (collect_child-Collects score child w a.0 e c)
      ] in
      visit_children-Collects current cs next a.1 kept

  converge-Collects : (w : Walk) → Collects w → Collects (converge ops g w).1
  unfolding converge
  converge-Collects w c = elim (Bool-cases (is_stable ops g w)) [ inl e ↦ rw e c | inr e ↦ rw e c ]

  module _ (search_children : Text → Result (List SeedHit)) where
    abbrev pub AllPass : Type 0
    AllPass = (t : Text) (cs : List SeedHit) → search_children t ≡ ok cs → All IsGood cs

    expand_with-Collects :
        (current : ℕ) (cs : List SeedHit) (w : Walk)
        → All IsGood cs
        → Collects w
        → Collects (expand_with ops g search_children current cs w).1
    expand_with-Collects current [] w a c = c
    expand_with-Collects current (child ∷ cs) w a c =
        converge-Collects (visit_children ops g current (child ∷ cs) w)
          (visit_children-Collects current (child ∷ cs) w a c)

    expand_entry-Collects :
        (e : ℕ × Text) (w : Walk) (stop : Bool) (w' : Walk)
        → AllPass
        → Collects w
        → expand_entry ops g search_children e w ≡ ok (stop, w')
        → Collects w'
    unfolding expand_entry expand_dir
    expand_entry-Collects (current, uri) w stop w' a c h =
        elim (Bool-cases (is_among uri w.visited)) [
          | inl e ↦ let same : w ≡ w' = cc in subst Collects same c
          | inr e ↦
              let current_w = record w { visited = uri ∷ w.visited } in
              let (cs, found, end) =
                >>=-eq-ok (search_children uri)
                  (λ children. ok (expand_with ops g search_children current children current_w))
                  (rw e at h) in
              let same : (expand_with ops g search_children current cs current_w).1 ≡ w' = cc in
              subst Collects same (expand_with-Collects current cs current_w (a uri cs found) c)
        ]

    walk-Collects :
        (n : ℕ) (w w' : Walk)
        → AllPass
        → Collects w
        → walk ops g search_children n w ≡ some (ok w')
        → Collects w'
    unfolding walk
    walk-Collects zero w w' a c h = absurd (cc)
    walk-Collects (suc n) w w' a c h = from (λ v c h. walk-Collects n v w' a c h) w.queue w c h
      where
        from :
            ((v : Walk) → Collects v → walk ops g search_children n v ≡ some (ok w') → Collects w')
            → (q : List (ℕ × Text)) (v : Walk) → Collects v
            → walk ops g search_children (suc n) (record v { queue = q }) ≡ some (ok w')
            → Collects w'
        from again [] v c h = let same : record v { queue = [] } ≡ w' = cc in subst Collects same c
        from again (e ∷ es) v c h =
            let v₁ = record v { queue = (pop_min ops g e es).1 } in
            elim (Result-cases (expand_entry ops g search_children (pop_min ops g e es).0 v₁)) [
              | inl (x, r) ↦ absurd (ground (arith, r, h))
              | inr ((true, v₂), r) ↦
                  let same : v₂ ≡ w' = ground (arith, r, h) in
                  subst Collects same
                    (expand_entry-Collects (pop_min ops g e es).0 v₁ true v₂ a c r)
              | inr ((false, v₂), r) ↦
                  again v₂ (expand_entry-Collects (pop_min ops g e es).0 v₁ false v₂ a c r)
                    (rw (walk, r) at h)
            ]

    -- Where the recursive search answers, there are at most as many hits as the limit says, and a property
    -- holds of all of them if it holds of the leaves among the seed's hits and, with each score that is not
    -- at most the threshold, of the children that the searches below the directories find.
    pub recursive_search-All :
        (fuel : ℕ) (points candidates hits : List SeedHit)
        → AllPass
        → All (λ h. h.level ≡ 2 → P h) candidates
        → recursive_search ops g search_children fuel points candidates ≡ some (ok hits)
        → (length hits ≤ g.limit) × All P hits
    unfolding recursive_search
    recursive_search-All fuel points candidates hits a leaves h =
        let w = start_walk ops g search_children points candidates in
        let (w', found, end) = answered (walk ops g search_children fuel w) h in
        let c =
          walk-Collects fuel w w' a
            (collect_leaves-Values P ops g search_children candidates [] leaves tt) found in
        let sorted = sort_hits ops (values w'.collected) in
        subst (λ hs. (length hs ≤ g.limit) × All P hs) end
          (
            ground (arith, length-take g.limit sorted),
            All-take P g.limit sorted
                (sort_hits-All ops P (values w'.collected) (values-All P w'.collected c)),
          )
      where
        answered :
            (r : Option (Result Walk))
            → bests ops g search_children r ≡ some (ok hits)
            → (w' : Walk) × (r ≡ some (ok w')) × (best ops g search_children w' ≡ hits)
        answered none e = absurd (cc)
        answered (some (raised x)) e = absurd (cc)
        answered (some (ok w')) e = (w', refl, cc)
