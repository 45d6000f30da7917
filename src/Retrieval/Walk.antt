-- ===== src/Retrieval/Walk.antt =====
-- retrieval/hierarchical_searcher.py: HierarchicalSearcher. The searches for the children of a directory
-- and the hotness of a hit are parameters; the dictionary of a hit is the hit with its final score.
use rtc_retrieval_token_cutt.Base.{
  ℕ, zero, suc, ◌+◌, ◌==◌, leb, ltb, Bool, true, false, not, ◌&&◌, ◌||◌, Option, none, some, List,
  [], ◌∷◌, ◌++◌, ◌*◌, max, Text, codes, is_empty, text_eq, take, length, if◌then◌else◌, Result, ok,
  raised, ◌>>=◌,
}
use rtc_retrieval_token_cutt.VectorIndex.Dict.{get, put}
use rtc_retrieval_token_cutt.VectorIndex.Index.{Vector, FloatOps}
use rtc_retrieval_token_cutt.VectorIndex.Search.{
  SeedHit, Expected, text, is_given, filter_if, sort_hits,
}

-- What the search reads of its configuration, and of the call.
pub record Settings : Type 0 where
  pub alpha : ℕ
  pub one_minus_alpha : ℕ
  pub threshold : ℕ
  pub max_convergence_rounds : ℕ
  pub limit : ℕ

abbrev pub Queued : Type 0
Queued = ℕ × Text

pub record Walk : Type 0 where
  pub collected : List (Text × SeedHit)
  pub queue : List Queued
  pub visited : List Text
  pub prev_topk : List Text
  pub rounds : ℕ

-- `uri in visited`
unfoldable pub is_among : Text → List Text → Bool
unfolding text_eq
is_among t [] = false
is_among t (u ∷ us) = let rest = is_among t us in text_eq u t || rest

abbrev pub all_in : List Text → List Text → Bool
all_in [] us = true
all_in (t ∷ ts) us = let rest = all_in ts us in is_among t us && rest

-- The order of texts.
unfoldable pub text_before : Text → Text → Bool
text_before s [] = false
text_before [] (y ∷ t) = true
text_before (x ∷ s) (y ∷ t) = let rest = text_before s t in if ltb x y then true else x == y && rest

abbrev pub values : List (Text × SeedHit) → List SeedHit
values [] = []
values ((_, h) ∷ d) = h ∷ values d

abbrev pub uris : List SeedHit → List Text
uris [] = []
uris (h ∷ hs) = h.uri ∷ uris hs

module _ (ops : FloatOps) (g : Settings) where
  -- The tuples of the negated score and the URI, compared.
  abbrev pub before : Queued → Queued → Bool
  before (s, u) (r, v) =
      if ops.below r s then true else if ops.below s r then false else text_before u v

  -- `heapq.heappop`: the least of the entries, and the others.
  unfoldable pub pop_min : Queued → List Queued → Queued × List Queued
  unfolding text_before
  pop_min e [] = (e, [])
  pop_min e (d ∷ es) =
      let (least, others) = pop_min d es in
      if before least e then (least, e ∷ others) else (e, least ∷ others)

  abbrev pub final_score : (current child : ℕ) → ℕ
  final_score current child =
      if ops.is_zero current
      then child
      else ops.add (ops.mul g.alpha child) (ops.mul g.one_minus_alpha current)

  -- `final_score <= effective_threshold`
  abbrev pub is_weak : ℕ → Bool
  is_weak score = ops.at_most score g.threshold

  abbrev pub is_better : ℕ → Option SeedHit → Bool
  is_better score none = true
  is_better score (some prev) = ops.below prev.score score

  unfoldable pub collect_child : (score : ℕ) → SeedHit → Walk → Walk
  unfolding text_eq is_among
  collect_child score child w =
      let kept =
        if is_better score (get child.uri w.collected)
        then put child.uri (record child { score = score }) w.collected
        else w.collected in
      let queue =
        if not (is_among child.uri w.visited) && not (child.level == 2)
        then (score, child.uri) ∷ w.queue
        else w.queue in
      record w { collected = kept; queue = queue }

  -- The loop over the children of a directory.
  unfoldable pub visit_children : (current : ℕ) → List SeedHit → Walk → Walk
  unfolding collect_child
  visit_children current [] w = w
  visit_children current (child ∷ children) w =
      let score = final_score current child.score in
      let next = if is_weak score then w else collect_child score child w in
      visit_children current children next

  abbrev pub top_uris : Walk → List Text
  top_uris w = uris (take g.limit (sort_hits ops (values w.collected)))

  -- What follows the children: whether the loop breaks.
  abbrev pub is_stable : Walk → Bool
  is_stable w =
      let top = top_uris w in
      all_in top w.prev_topk && all_in w.prev_topk top && leb g.limit (length top)

  unfoldable pub converge : Walk → Bool × Walk
  unfolding is_among
  converge w =
      if is_stable w
      then (leb g.max_convergence_rounds (w.rounds + 1), record w { rounds = w.rounds + 1 })
      else (false, record w { rounds = 0; prev_topk = top_uris w })

  module _ (search_children : Text → Result (List SeedHit)) where
    -- A directory that was not visited before.
    abbrev pub expand_with : (current : ℕ) → List SeedHit → Walk → Bool × Walk
    expand_with current [] w = (false, w)
    expand_with current (c ∷ cs) w = converge (visit_children current (c ∷ cs) w)

    unfoldable pub expand_dir : Queued → Walk → Result (Bool × Walk)
    unfolding converge visit_children
    expand_dir (current, uri) w = search_children uri >>= λ children.
        ok (expand_with current children (record w { visited = uri ∷ w.visited }))

    -- One round of the loop, from the entry that was popped.
    unfoldable pub expand_entry : Queued → Walk → Result (Bool × Walk)
    unfolding expand_dir is_among
    expand_entry (current, uri) w =
        if is_among uri w.visited then ok (false, w) else expand_dir (current, uri) w

    -- `while dir_queue`; none where the fuel is spent.
    unfoldable pub walk : (fuel : ℕ) → Walk → Option (Result Walk)
    unfolding expand_entry pop_min
    walk zero w = none
    walk (suc n) w = elim w.queue [
      | [] ↦ some (ok w)
      | ◌∷◌ e es ↦
          let (least, others) = pop_min e es in
          elim (expand_entry least (record w { queue = others })) [
            | raised x ↦ some (raised x)
            | ok (stop, w') ↦ let rest = walk n w' in if stop then some (ok w') else rest
          ]
    ]

    -- The leaves of the seed's hits.
    unfoldable pub collect_leaves : List SeedHit → List (Text × SeedHit) → List (Text × SeedHit)
    unfolding text_eq
    collect_leaves [] d = d
    collect_leaves (h ∷ hs) d =
        collect_leaves hs (if h.level == 2 && not (is_empty h.uri) then put h.uri h d else d)

    abbrev pub entries : List SeedHit → List Queued
    entries [] = []
    entries (h ∷ hs) = (h.score, h.uri) ∷ entries hs

    abbrev pub start_walk : (starting_points initial_candidates : List SeedHit) → Walk
    start_walk points candidates = record {
      collected = collect_leaves candidates [];
      queue = entries points;
      visited = [];
      prev_topk = [];
      rounds = 0;
    }

    abbrev pub best : Walk → List SeedHit
    best w = take g.limit (sort_hits ops (values w.collected))

    abbrev pub bests : Option (Result Walk) → Option (Result (List SeedHit))
    bests none = none
    bests (some r) = some (r >>= λ w. ok (best w))

    -- `_recursive_search`
    unfoldable pub recursive_search :
        (fuel : ℕ)
        → (starting_points initial_candidates : List SeedHit) → Option (Result (List SeedHit))
    unfolding walk collect_leaves
    recursive_search fuel points candidates = bests (walk fuel (start_walk points candidates))

  -- `_convert_results`, with the hotness of a hit.
  abbrev pub blended : (hotness : SeedHit → ℕ) (hotness_alpha one_minus : ℕ) → SeedHit → SeedHit
  blended hotness hotness_alpha one_minus h = record h {
    score = ops.add (ops.mul one_minus h.score) (ops.mul hotness_alpha (hotness h));
  }

  abbrev pub blend_all :
      (hotness : SeedHit → ℕ) (hotness_alpha one_minus : ℕ) → List SeedHit → List SeedHit
  blend_all hotness a b [] = []
  blend_all hotness a b (h ∷ hs) = blended hotness a b h ∷ blend_all hotness a b hs

  unfoldable pub convert_results :
      (hotness : SeedHit → ℕ) (hotness_alpha one_minus : ℕ) → List SeedHit → List SeedHit
  convert_results hotness a b hits = take g.limit (sort_hits ops (blend_all hotness a b hits))

  -- The filters of the searches for children, and the number of children that each may answer.
  abbrev pub base_filters : (context_type account_id : Text) → Expected → List (Text × Expected)
  base_filters context_type account_id owner_space =
      (codes "account_id", text account_id)
        ∷ filter_if (not (is_empty context_type)) (codes "context_type") (text context_type)
      ++ filter_if (is_given owner_space) (codes "owner_space") owner_space

  abbrev pub pre_filter_limit : ℕ
  pre_filter_limit = max (g.limit * 2) 20

  -- `expand` over the `search_children` of an index, for the query's vector, context type and owner space.
  unfoldable pub expand :
      (search_children : Text → Vector → List (Text × Expected) → ℕ → Result (List SeedHit))
      (hotness : SeedHit → ℕ) (hotness_alpha one_minus fuel : ℕ) (query_vector : Vector)
      (context_type account_id : Text) (owner_space : Expected)
      (starting_points initial_candidates : List SeedHit)
      → Option (Result (List SeedHit))
  unfolding recursive_search convert_results
  expand search_children hotness a b fuel query_vector context_type account_id owner_space points
        candidates =
      let children : Text → Result (List SeedHit) = λ uri.
        search_children uri query_vector (base_filters context_type account_id owner_space)
          pre_filter_limit in
      elim (recursive_search children fuel points candidates) [
        | none ↦ none
        | some r ↦ some (r >>= λ hits. ok (convert_results hotness a b hits))
      ]
