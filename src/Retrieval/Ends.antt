-- ===== src/Retrieval/Ends.antt =====
-- retrieval/hierarchical_searcher.py: how many rounds the loop over the queue of directories can take.
use rtc_retrieval_token_cutt.Base.{
  ℕ, zero, suc, ◌+◌, ◌*◌, ◌≤◌, ◌<◌, ◌==◌, ◌≡◌, refl, ap, ◌∙◌, subst, Bool, true, false, not, ◌&&◌,
  some, List, [], ◌∷◌, Text, All, length, arith, Bool-cases, inl, inr, Result, ok, raised, ◌>>=◌,
  >>=-eq-ok, Result-cases,
}
use rtc_retrieval_token_cutt.VectorIndex.Index.{FloatOps}
use rtc_retrieval_token_cutt.VectorIndex.Search.{SeedHit}
use rtc_retrieval_token_cutt.Retrieval.Walk.{
  Settings, Queued, Walk, is_among, before, pop_min, final_score, is_weak, collect_child,
  visit_children, converge, is_stable, expand_with, expand_dir, expand_entry, walk, entries,
  start_walk, bests, recursive_search, best,
}
use rtc_retrieval_token_cutt.Retrieval.Visits.{
  unvisited, unvisited-lt, product_lt, unvisited-nothing,
}

module _ (ops : FloatOps) (g : Settings) where
  length-pop_min : (e : Queued) (es : List Queued) → length (pop_min ops g e es).1 ≡ length es
  unfolding pop_min
  length-pop_min e [] = refl
  length-pop_min e (d ∷ es) = elim (Bool-cases (before ops g (pop_min ops g d es).0 e)) [
    | inl h ↦ rw h (omega (arith, length-pop_min d es))
    | inr h ↦ rw h (omega (arith, length-pop_min d es))
  ]

  pop_min-All :
      (P : Queued → Type 0) (e : Queued) (es : List Queued)
      → All P (e ∷ es)
      → P (pop_min ops g e es).0 × All P (pop_min ops g e es).1
  unfolding pop_min
  pop_min-All P e [] h = h
  pop_min-All P e (d ∷ es) h =
      let (p, ps) = pop_min-All P d es h.1 in
      elim (Bool-cases (before ops g (pop_min ops g d es).0 e)) [
        | inl b ↦ rw b (p, (h.0, ps))
        | inr b ↦ rw b (h.0, (p, ps))
      ]

  -- The URIs below which the search can come.
  module _ (us : List Text) where
    abbrev Known : Queued → Type 0
    Known e = is_among e.1 us ≡ true

    abbrev pub KnownHit : SeedHit → Type 0
    KnownHit h = is_among h.uri us ≡ true

    -- What the visit of one child, and of more, does to the queue and to the record of visits.
    record Enqueues (k : ℕ) (w w' : Walk) : Type 0 where
      queue : length w'.queue ≤ length w.queue + k
      known : All Known w.queue → All Known w'.queue
      visited : w'.visited ≡ w.visited

    collect_child-Enqueues :
        (score : ℕ) (child : SeedHit) (w : Walk)
        → KnownHit child
        → Enqueues 1 w (collect_child ops g score child w)
    unfolding collect_child
    collect_child-Enqueues score child w h =
        elim (Bool-cases (not (is_among child.uri w.visited) && not (child.level == 2))) [
          | inl e ↦ record { queue = rw e (omega arith); known = λ a. rw e (h, a); visited = refl }
          | inr e ↦ record { queue = rw e (omega arith); known = λ a. rw e a; visited = refl }
        ]

    visit_children-Enqueues :
        (current : ℕ) (cs : List SeedHit) (w : Walk)
        → All KnownHit cs
        → Enqueues (length cs) w (visit_children ops g current cs w)
    unfolding visit_children
    visit_children-Enqueues current [] w h = record {
      queue = omega arith;
      known = λ a. a;
      visited = refl;
    }
    visit_children-Enqueues current (c ∷ cs) w h =
        let score = final_score ops g current c.score in
        elim (Bool-cases (is_weak ops g score)) [
          | inl e ↦ rw e (
              let r = visit_children-Enqueues current cs w h.1 in
              record { queue = omega (arith, r.queue); known = r.known; visited = r.visited })
          | inr e ↦ rw e (
              let p = collect_child-Enqueues score c w h.0 in
              let q = visit_children-Enqueues current cs (collect_child ops g score c w) h.1 in
              record {
                queue = omega (arith, p.queue, q.queue);
                known = λ a. q.known (p.known a);
                visited = q.visited ∙ p.visited;
              })
        ]

    converge-Enqueues : (w : Walk) → Enqueues 0 w (converge ops g w).1
    unfolding converge
    converge-Enqueues w = elim (Bool-cases (is_stable ops g w)) [
      | inl e ↦ rw e (record { queue = omega arith; known = λ a. a; visited = refl })
      | inr e ↦ rw e (record { queue = omega arith; known = λ a. a; visited = refl })
    ]

    -- The directories that are waiting, and those that are not visited, k + 1 times.
    abbrev measure : (k : ℕ) → Walk → ℕ
    measure k w = length w.queue + (k + 1) * unvisited us w.visited

    module _ (search_children : Text → Result (List SeedHit)) (k : ℕ) where
      -- A search for children answers at most k, of the list.
      abbrev pub AreFew : Type 0
      AreFew =
          (t : Text) (cs : List SeedHit)
          → search_children t ≡ ok cs
          → length cs ≤ k × All KnownHit cs

      -- What a round leaves behind.
      abbrev Comes : (e : Queued) (w w' : Walk) → Type 0
      Comes e w w' = (measure k w' ≤ measure k w) × All Known w'.queue

      expand_with-Enqueues :
          (current : ℕ) (cs : List SeedHit) (w : Walk)
          → length cs ≤ k
          → All KnownHit cs
          → Enqueues k w (expand_with ops g search_children current cs w).1
      expand_with-Enqueues current [] w h a = record {
        queue = omega arith;
        known = λ a. a;
        visited = refl;
      }
      expand_with-Enqueues current (c ∷ cs) w h a =
          let p = visit_children-Enqueues current (c ∷ cs) w a in
          let q = converge-Enqueues (visit_children ops g current (c ∷ cs) w) in
          record {
            queue = omega (arith, p.queue, q.queue, h);
            known = λ a. q.known (p.known a);
            visited = q.visited ∙ p.visited;
          }

      expand_dir-Comes :
          (e : Queued) (w : Walk) (stop : Bool) (w' : Walk)
          → AreFew
          → Known e
          → All Known w.queue
          → is_among e.1 w.visited ≡ false
          → expand_dir ops g search_children e w ≡ ok (stop, w')
          → Comes e w w'
      unfolding expand_dir
      expand_dir-Comes (current, uri) w stop w' few known all n h =
          let current_w = record w { visited = uri ∷ w.visited } in
          let (cs, found, same) =
            >>=-eq-ok (search_children uri)
              (λ children. ok (expand_with ops g search_children current children current_w)) h in
          let (short, inside) = few uri cs found in
          let p = expand_with-Enqueues current cs current_w short inside in
          let same_w : (expand_with ops g search_children current cs current_w).1 ≡ w' = cc in
          let fresh = unvisited-lt uri us w.visited known n in
          let budget =
            product_lt k (unvisited us (uri ∷ w.visited)) (unvisited us w.visited) fresh in
          subst (λ v. Comes (current, uri) w v) same_w
            (let seen = ap (λ v. (k + 1) * unvisited us v) p.visited in
              (omega (arith, p.queue, seen, budget), p.known all))

      expand_entry-Comes :
          (e : Queued) (w : Walk) (stop : Bool) (w' : Walk)
          → AreFew
          → Known e
          → All Known w.queue
          → expand_entry ops g search_children e w ≡ ok (stop, w')
          → Comes e w w'
      unfolding expand_entry
      expand_entry-Comes (current, uri) w stop w' few known all h =
          elim (Bool-cases (is_among uri w.visited)) [
            | inl e ↦
                let same : w ≡ w' = cc in
                subst (λ v. Comes (current, uri) w v) same (omega arith, all)
            | inr e ↦ expand_dir-Comes (current, uri) w stop w' few known all e (cc)
          ]

      abbrev Ends : (n : ℕ) → Walk → Type 0
      Ends n w = (r : Result Walk) × (walk ops g search_children n w ≡ some r)

      walk_from-Ends :
          (n : ℕ) (q : List Queued) (w : Walk)
          → AreFew
          → ((w' : Walk) → All Known w'.queue → measure k w' < n → Ends n w')
          → All Known q
          → measure k (record w { queue = q }) < suc n
          → Ends (suc n) (record w { queue = q })
      unfolding walk
      walk_from-Ends n [] w few again all h = (ok (record w { queue = [] }), refl)
      walk_from-Ends n (e ∷ es) w few again all h =
          let w₁ = record w { queue = (pop_min ops g e es).1 } in
          let (known, others) = pop_min-All Known e es all in
          elim (Result-cases (expand_entry ops g search_children (pop_min ops g e es).0 w₁)) [
            | inl (x, r) ↦ (raised x, rw (walk, r) refl)
            | inr ((true, w'), r) ↦ (ok w', rw (walk, r) refl)
            | inr ((false, w'), r) ↦
                let (bound, inside) =
                  expand_entry-Comes (pop_min ops g e es).0 w₁ false w' few known others r in
                let (end, found) = again w' inside (omega (arith, bound, h, length-pop_min e es)) in
                (end, rw (walk, r) found)
          ]

      walk-Ends : (n : ℕ) (w : Walk) → AreFew → All Known w.queue → measure k w < n → Ends n w
      unfolding walk
      walk-Ends zero w few all h = absurd (omega (arith, h))
      walk-Ends (suc n) w few all h =
          walk_from-Ends n w.queue w few (λ w' a m. walk-Ends n w' few a m) all h

      entries-Known :
          (hits : List SeedHit) → All KnownHit hits → All Known (entries ops g search_children hits)
      entries-Known [] a = a
      entries-Known (h ∷ hs) a = (a.0, entries-Known hs a.1)

      length-entries :
          (hits : List SeedHit) → length (entries ops g search_children hits) ≡ length hits
      length-entries [] = refl
      length-entries (h ∷ hs) = ap suc (length-entries hs)

      -- Where each search for children answers with at most k children, all of them of the list us, and
      -- the starting points are of us as well, the recursive search produces a result, the hits or what a
      -- search has raised, in at most as many rounds as there are starting points and k + 1 times the
      -- length of us.
      pub recursive_search-ends :
          (fuel : ℕ) (points candidates : List SeedHit)
          → AreFew
          → All KnownHit points
          → length points + (k + 1) * length us < fuel
          → (r : Result (List SeedHit)) × (recursive_search ops g search_children fuel points
                candidates
              ≡ some r)
      unfolding recursive_search
      recursive_search-ends fuel points candidates few inside h =
          let w = start_walk ops g search_children points candidates in
          let size = ap (λ n. (k + 1) * n) (unvisited-nothing us) in
          let (r, e) =
            walk-Ends fuel w few (entries-Known points inside)
              (omega (arith, h, size, length-entries points)) in
          (r >>= λ w'. ok (best ops g search_children w'), ap (bests ops g search_children) e)
