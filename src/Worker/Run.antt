-- ===== src/Worker/Run.antt =====
-- index/outbox_worker.py: `run_once`, one polling cycle. The batch keeps the event objects, so what
-- `_handle_processing_result` does to one of them is seen when the batch is walked again.
-- The clock is read where the source reads it: `now` tells the time from what the store is then.
use rtc_retrieval_token_cutt.Base.{
  ℕ, ◌+◌, Bool, true, false, none, some, List, [], ◌∷◌, ◌++◌, map, Text, codes, text_eq, take, drop,
  length, if◌then◌else◌, Result, ok, raised,
}
use rtc_retrieval_token_cutt.Outbox.Event.{OutboxEvent}
use rtc_retrieval_token_cutt.Outbox.Register.{IndexRecord}
use rtc_retrieval_token_cutt.Worker.Result.{
  WorkerResult, Stats, no_stats, success_result, failure_result,
}
use rtc_retrieval_token_cutt.Worker.Extract.{Vector, extract_records, augment_with_embeddings}
use rtc_retrieval_token_cutt.Worker.Services.{Services}
use rtc_retrieval_token_cutt.Worker.Process.{
  Setup, Settled, process_event, build_request_context, handle_processing_result,
}

pub record Item : Type 0 where
  pub event : OutboxEvent
  pub node_uri : Text
  pub records : List IndexRecord

module _ (v : Services) (setup : Setup) (now : v.Store → ℕ) where
  open v use {Store, Index, list_pending, try_acquire, mark_done, embed_texts, upsert}

  -- What one cycle works on.
  pub record Cycle : Type 0 where
    pub store : Store
    pub index : Index
    pub stats : Stats
    pub batch : List Item
    pub others : List (OutboxEvent × Text)

  -- A statement of the cycle that may raise.
  abbrev pub Stepped : Type 0
  Stepped = Result (Unit {0}) × Cycle

  abbrev pub count_processed : Stats → Stats
  count_processed s = record s { processed = s.processed + 1 }

  -- `_handle_processing_result` on the state of the cycle, and the event object behind it.
  abbrev pub settle : OutboxEvent → Text → WorkerResult → Cycle → Settled v
  settle event node_uri result y =
      handle_processing_result v setup.config (now y.store) event node_uri result y.store y.stats

  abbrev pub settled_cycle : Settled v → Cycle → Cycle
  settled_cycle s y = record y { store = s.store; stats = s.stats }

  -- The first loop, for a claimed event of type UPSERT_CONTEXT whose records were read.
  abbrev pub queue_records : OutboxEvent → Text → Result (List IndexRecord) → Cycle → Stepped
  queue_records event node_uri (ok []) y =
      let s = y.stats in
      (
        ok tt,
        record y {
          store = mark_done event node_uri y.store;
          stats = record s { processed = s.processed + 1; succeeded = s.succeeded + 1 };
        },
      )
  queue_records event node_uri (ok (r ∷ rs)) y =
      let item : Item = record { event = event; node_uri = node_uri; records = r ∷ rs } in
      (ok tt, record y { batch = y.batch ++ item ∷ [] })
  queue_records event node_uri (raised _) y =
      let s = settle event node_uri (failure_result event) y in (s.outcome, settled_cycle s y)

  unfoldable pub queue_event : Text → OutboxEvent → Cycle → Stepped
  unfolding extract_records handle_processing_result
  queue_event node_uri event y =
      if text_eq event.event_type (codes "UPSERT_CONTEXT")
      then queue_records event node_uri (extract_records event) y
      else (ok tt, record y { others = y.others ++ (event, node_uri) ∷ [] })

  abbrev pub after_claim : Text → OutboxEvent → Result Bool → Cycle → Stepped
  after_claim node_uri event (raised e) y = (raised e, y)
  after_claim node_uri event (ok false) y =
      let s = y.stats in (ok tt, record y { stats = record s { skipped = s.skipped + 1 } })
  after_claim node_uri event (ok true) y = queue_event node_uri event y

  unfoldable pub claim : (worker_id : Text) → Text × OutboxEvent → Cycle → Stepped
  unfolding queue_event
  claim worker_id (node_uri, event) y =
      let (claimed, store') = try_acquire event node_uri worker_id y.store in
      after_claim node_uri event claimed (record y { store = store' })

  unfoldable pub claim_all : (worker_id : Text) → List (Text × OutboxEvent) → Cycle → Stepped
  unfolding claim
  claim_all worker_id [] y = (ok tt, y)
  claim_all worker_id (p ∷ ps) y =
      let (r, y') = claim worker_id p y in
      elim r [ ok _ ↦ claim_all worker_id ps y' | raised e ↦ (raised e, y') ]

  -- What the batch loop leaves: the outcome, the items with their event objects as they are now, and
  -- the cycle.
  pub record Batched : Type 0 where
    pub outcome : Result (Unit {0})
    pub items : List Item
    pub cycle : Cycle

  abbrev pub with_event : Item → OutboxEvent → Item
  with_event i e = record i { event = e }

  -- The inner `try`: the upsert, and what is done with its outcome.
  abbrev pub settle_upsert : Item → Result (Unit {0}) × Index → Cycle → Settled v
  settle_upsert i (ok _, index) y =
      settle i.event i.node_uri (success_result i.event (length i.records)) y
  settle_upsert i (raised _, index) y = settle i.event i.node_uri (failure_result i.event) y

  abbrev pub upsert_item : Item → Result (List IndexRecord) → Cycle → Batched
  upsert_item i (raised e) y = record { outcome = raised e; items = i ∷ []; cycle = y }
  upsert_item i (ok augmented) y =
      let u = upsert augmented y.index in
      let s = settle_upsert i u y in
      record {
        outcome = s.outcome;
        items = with_event i s.event ∷ [];
        cycle = record (settled_cycle s y) { index = u.1 };
      }

  -- One round of the batch loop; `start` is the item's entry of `boundaries`.
  unfoldable pub distribute_item : List Vector → (start : ℕ) → Item → Cycle → Batched
  unfolding augment_with_embeddings handle_processing_result
  distribute_item embeddings start i y =
      upsert_item i
        (augment_with_embeddings i.records (take (length i.records) (drop start embeddings)))
        (record y { stats = count_processed y.stats })

  unfoldable pub distribute : List Vector → (start : ℕ) → List Item → Cycle → Batched
  unfolding distribute_item
  distribute embeddings start [] y = record { outcome = ok tt; items = []; cycle = y }
  distribute embeddings start (i ∷ is) y =
      let b = distribute_item embeddings start i y in
      let rest = distribute embeddings (start + length i.records) is b.cycle in
      elim b.outcome [
        | ok _ ↦ record rest { items = b.items ++ rest.items }
        | raised e ↦ record b { items = b.items ++ is }
      ]

  -- The outer `except`: every item of the batch is a failure.
  unfoldable pub fail_all : List Item → Cycle → Stepped
  unfolding handle_processing_result
  fail_all [] y = (ok tt, y)
  fail_all (i ∷ is) y =
      let y₁ : Cycle = record y { stats = count_processed y.stats } in
      let s = settle i.event i.node_uri (failure_result i.event) y₁ in
      let rest = fail_all is (settled_cycle s y₁) in
      elim s.outcome [ ok _ ↦ rest | raised e ↦ (raised e, settled_cycle s y₁) ]

  abbrev pub all_texts : List Item → List IndexRecord
  all_texts [] = []
  all_texts (i ∷ is) = i.records ++ all_texts is

  abbrev pub recover : Batched → Stepped
  recover b = elim b.outcome [ ok _ ↦ (ok tt, b.cycle) | raised _ ↦ fail_all b.items b.cycle ]

  abbrev pub distribute_embedded : Result (List Vector) → List Item → Cycle → Stepped
  distribute_embedded (raised _) batch y = fail_all batch y
  distribute_embedded (ok embeddings) batch y = recover (distribute embeddings 0 batch y)

  -- `if upsert_batch:`
  abbrev pub process_items : List Item → Cycle → Stepped
  process_items [] y = (ok tt, y)
  process_items (i ∷ is) y =
      let texts = map (λ r. r.text) (all_texts (i ∷ is)) in
      distribute_embedded (embed_texts texts) (i ∷ is) y

  unfoldable pub process_batch : Cycle → Stepped
  unfolding distribute fail_all
  process_batch y = process_items y.batch y

  -- The second loop, with its `except`, on the outcome of the first `_handle_processing_result`.
  abbrev pub after_settle : Result (Unit {0}) → Settled v → Text → Cycle → Stepped
  after_settle (ok _) s node_uri y = (ok tt, settled_cycle s y)
  after_settle (raised _) s node_uri y =
      let s' = settle s.event node_uri (failure_result s.event) (settled_cycle s y) in
      (s'.outcome, settled_cycle s' y)

  abbrev pub retry_settle : Settled v → Text → Cycle → Stepped
  retry_settle s node_uri y = after_settle s.outcome s node_uri y

  unfoldable pub process_other : OutboxEvent × Text → Cycle → Stepped
  unfolding build_request_context process_event handle_processing_result
  process_other (event, node_uri) y =
      let (result, index') = process_event v setup event (build_request_context event) y.index in
      let y₁ : Cycle = record y { stats = count_processed y.stats; index = index' } in
      retry_settle (settle event node_uri result y₁) node_uri y₁

  unfoldable pub process_others : List (OutboxEvent × Text) → Cycle → Stepped
  unfolding process_other
  process_others [] y = (ok tt, y)
  process_others (p ∷ ps) y =
      let (r, y') = process_other p y in
      elim r [ ok _ ↦ process_others ps y' | raised e ↦ (raised e, y') ]

  -- The events of all accounts; an account whose listing raises adds none.
  unfoldable pub all_pending : Store → List Text → List (Text × OutboxEvent)
  all_pending store [] = []
  all_pending store (a ∷ as') =
      let rest = all_pending store as' in
      elim (list_pending store a) [ none ↦ rest | some pending ↦ pending ++ rest ]

  infixl 6 ◌then_do◌
  abbrev pub ◌then_do◌ : Stepped → (Cycle → Stepped) → Stepped
  s then_do next = elim s.0 [ ok _ ↦ next s.1 | raised e ↦ (raised e, s.1) ]

  abbrev pub fresh_cycle : Store → Index → Cycle
  fresh_cycle store index = record {
    store = store;
    index = index;
    stats = no_stats;
    batch = [];
    others = [];
  }

  -- The cycle that `run_once` ends in; its statistics are what it returns.
  unfoldable pub run_once : (account_ids : List Text) (worker_id : Text) → Store → Index → Stepped
  unfolding all_pending claim_all process_batch process_others
  run_once account_ids worker_id store index =
      claim_all worker_id (all_pending store account_ids) (fresh_cycle store index)
      then_do process_batch
      then_do (λ y. process_others y.others y)
