-- ===== src/Worker/Accounting.antt =====
-- The books of a cycle of index/outbox_worker.py: what `run_once` counts, against what was pending.
use rtc_retrieval_token_cutt.Base.{
  ℕ, ◌+◌, ◌*◌, ◌≡◌, refl, ◌∙◌, Bool, true, false, Option, some, List, [], ◌∷◌, map, Text, codes,
  text_eq, take, drop, length, length-append, arith, Result, ok, raised, All, All-append,
  Bool-cases, inl, inr,
}
use rtc_retrieval_token_cutt.Json.{Fields, obj, arr, float, set_field, to_items}
use rtc_retrieval_token_cutt.Outbox.Event.{OutboxEvent}
use rtc_retrieval_token_cutt.Outbox.Register.{IndexRecord}
use rtc_retrieval_token_cutt.Worker.Result.{WorkerResult, Stats, calculate_backoff, failure_result}
use rtc_retrieval_token_cutt.Worker.Extract.{
  Vector, as_dict, with_embedding, augment_with_embeddings, extract_records,
}
use rtc_retrieval_token_cutt.Worker.Services.{Services}
use rtc_retrieval_token_cutt.Worker.Process.{Setup, handle_processing_result}
use rtc_retrieval_token_cutt.Worker.Run.{
  Item, Cycle, Stepped, settle, settled_cycle, queue_records, queue_event, after_claim, claim,
  claim_all, distribute_item, settle_upsert, distribute, fail_all, count_processed,
}

-- No method of the store raises.
pub record StoreAnswers (v : Services) : Type 0 where
  pub claims :
      (e : OutboxEvent) (uri w : Text) (s : v.Store)
      → (b : Bool) × ((v.try_acquire e uri w s).0 ≡ ok b)
  pub buries : (e : OutboxEvent) (uri : Text) (s : v.Store) → (v.move_to_dlq e uri s).0 ≡ ok tt
  pub retries :
      (e : OutboxEvent) (uri : Text) (t : Option ℕ) (s : v.Store)
      → (v.increment_retry e uri t s).0 ≡ ok tt

-- The metadata of a record is what `dict` accepts.
abbrev pub HasDict : IndexRecord → Type 0
HasDict r = (fs : Fields) × (as_dict r.metadata ≡ ok fs)

-- The metadata of all records that are read from the event are dictionaries.
abbrev pub IsReadable : Text × OutboxEvent → Type 0
IsReadable (uri, e) = (rs : List IndexRecord) → extract_records e ≡ ok rs → All HasDict rs

with_embedding-total :
    (r : IndexRecord) (v : Vector) → HasDict r → (a : IndexRecord) × (with_embedding r v ≡ ok a)
unfolding with_embedding
with_embedding-total r v (fs, e) = (
  record r { metadata = obj (set_field (codes "_embedding") (arr (to_items (map float v))) fs) },
  rw e,
)

augment-total :
    (rs : List IndexRecord) (vs : List Vector)
    → All HasDict rs
    → (as' : List IndexRecord) × (augment_with_embeddings rs vs ≡ ok as')
unfolding augment_with_embeddings
augment-total [] vs h = ([], refl)
augment-total (r ∷ rs) [] h = ([], refl)
augment-total (r ∷ rs) (v ∷ vs) h =
    let (a, e) = with_embedding-total r v h.0 in
    let (as', e') = augment-total rs vs h.1 in (a ∷ as', rw (e, e'))

-- Every event that was dealt with, however that went.
abbrev pub settled_count : Stats → ℕ
settled_count s = s.succeeded + s.failed + s.moved_to_dlq + s.skipped

module _ (v : Services) (setup : Setup) (now : v.Store → ℕ) (answers : StoreAnswers v) where
  pub settle_lem :
      (e : OutboxEvent) (uri : Text) (r : WorkerResult) (y : Cycle v setup now)
      → ((settle v setup now e uri r y).outcome ≡ ok tt)
        × (settled_count (settle v setup now e uri r y).stats ≡ settled_count y.stats + 1)
  unfolding handle_processing_result
  settle_lem e uri r y = ground (
    arith,
    answers.buries e uri y.store,
    answers.retries e uri (some (now y.store + calculate_backoff setup.config e.retry_count * 1000))
        y.store,
  )

  abbrev pub weight : Cycle v setup now → ℕ
  weight y = settled_count y.stats + length y.batch + length y.others

  abbrev pub HasDicts : Item → Type 0
  HasDicts i = All HasDict i.records

  -- What a step of the first loop keeps: it returns, `n` more events are settled or queued, and the
  -- queued records can be augmented.
  pub record Queues (n : ℕ) (y : Cycle v setup now) (s : Stepped v setup now) : Type 0 where
    pub returns : s.0 ≡ ok tt
    pub counts : weight s.1 ≡ weight y + n
    pub readable : All HasDicts s.1.batch

  queue_records-Queues :
      (e : OutboxEvent) (uri : Text) (r : Result (List IndexRecord)) (y : Cycle v setup now)
      → ((rs : List IndexRecord) → r ≡ ok rs → All HasDict rs)
      → All HasDicts y.batch
      → Queues 1 y (queue_records v setup now e uri r y)
  queue_records-Queues e uri (ok []) y d b = record {
    returns = refl;
    counts = omega arith;
    readable = b;
  }
  queue_records-Queues e uri (ok (r ∷ rs)) y d b =
      let item : Item = record { event = e; node_uri = uri; records = r ∷ rs } in
      record {
        returns = refl;
        counts = omega (arith, length-append y.batch (item ∷ []));
        readable = All-append HasDicts y.batch (item ∷ []) b (d (r ∷ rs) refl, tt);
      }
  queue_records-Queues e uri (raised x) y d b =
      let s = settle_lem e uri (failure_result e) y in
      record { returns = s.0; counts = omega (arith, s.1); readable = b }

  queue_event-Queues :
      (e : OutboxEvent) (uri : Text) (y : Cycle v setup now)
      → IsReadable (uri, e)
      → All HasDicts y.batch
      → Queues 1 y (queue_event v setup now uri e y)
  unfolding queue_event
  queue_event-Queues e uri y d b =
      elim (Bool-cases (text_eq e.event_type (codes "UPSERT_CONTEXT"))) [
        | inl upsert ↦ rw upsert (queue_records-Queues e uri (extract_records e) y d b)
        | inr other ↦ rw other (record {
          returns = refl;
          counts = omega (arith, length-append y.others ((e, uri) ∷ []));
          readable = b;
        })
      ]

  after_claim-Queues :
      (b : Bool) (e : OutboxEvent) (uri : Text) (y : Cycle v setup now)
      → IsReadable (uri, e)
      → All HasDicts y.batch
      → Queues 1 y (after_claim v setup now uri e (ok b) y)
  after_claim-Queues true e uri y d b = queue_event-Queues e uri y d b
  after_claim-Queues false e uri y d b = record {
    returns = refl;
    counts = omega arith;
    readable = b;
  }

  claim-Queues :
      (w : Text) (p : Text × OutboxEvent) (y : Cycle v setup now)
      → IsReadable p
      → All HasDicts y.batch
      → Queues 1 y (claim v setup now w p y)
  unfolding claim
  claim-Queues w (uri, e) y d b =
      let (claimed, answer) = answers.claims e uri w y.store in
      let q =
        after_claim-Queues claimed e uri (record y { store = (v.try_acquire e uri w y.store).1 }) d
          b in
      rw answer (record { returns = q.returns; counts = q.counts; readable = q.readable })

  pub claim_all-Queues :
      (w : Text) (ps : List (Text × OutboxEvent)) (y : Cycle v setup now)
      → All IsReadable ps
      → All HasDicts y.batch
      → Queues (length ps) y (claim_all v setup now w ps y)
  unfolding claim_all
  claim_all-Queues w [] y d b = record { returns = refl; counts = omega arith; readable = b }
  claim_all-Queues w (p ∷ ps) y d b =
      let first = claim-Queues w p y d.0 b in
      let rest = claim_all-Queues w ps (claim v setup now w p y).1 d.1 first.readable in
      rw (first.returns, claim_all)
        (record {
          returns = rest.returns;
          counts = omega (arith, rest.counts, first.counts);
          readable = rest.readable;
        })

  -- What a later step keeps: it returns, `n` more events are settled, and what is queued behind it
  -- stays.
  pub record Settles (n : ℕ) (y : Cycle v setup now) (s : Stepped v setup now) : Type 0 where
    pub returns : s.0 ≡ ok tt
    pub counts : settled_count s.1.stats ≡ settled_count y.stats + n
    pub queue : s.1.others ≡ y.others

  settle_upsert-counts :
      (i : Item) (u : Result (Unit {0}) × v.Index) (y : Cycle v setup now)
      → ((settle_upsert v setup now i u y).outcome ≡ ok tt)
        × (settled_count (settle_upsert v setup now i u y).stats ≡ settled_count y.stats + 1)
  settle_upsert-counts i (ok _, index) y = settle_lem i.event i.node_uri _ y
  settle_upsert-counts i (raised _, index) y = settle_lem i.event i.node_uri _ y

  distribute_item-counts :
      (es : List Vector) (start : ℕ) (i : Item) (y : Cycle v setup now)
      → HasDicts i
      → ((distribute_item v setup now es start i y).outcome ≡ ok tt)
        × (settled_count (distribute_item v setup now es start i y).cycle.stats
            ≡ settled_count y.stats + 1)
        × ((distribute_item v setup now es start i y).cycle.others ≡ y.others)
  unfolding distribute_item
  distribute_item-counts es start i y d =
      let (as', e) = augment-total i.records (take (length i.records) (drop start es)) d in
      let y₁ : Cycle v setup now = record y { stats = count_processed v setup now y.stats } in
      let s = settle_upsert-counts i (v.upsert as' y.index) y₁ in rw e (s.0, s.1, refl)

  pub distribute-counts :
      (es : List Vector) (start : ℕ) (is : List Item) (y : Cycle v setup now)
      → All HasDicts is
      → ((distribute v setup now es start is y).outcome ≡ ok tt)
        × (settled_count (distribute v setup now es start is y).cycle.stats
            ≡ settled_count y.stats + length is)
        × ((distribute v setup now es start is y).cycle.others ≡ y.others)
  unfolding distribute
  distribute-counts es start [] y d = (refl, omega arith, refl)
  distribute-counts es start (i ∷ is) y d =
      let first = distribute_item-counts es start i y d.0 in
      let rest =
        distribute-counts es (start + length i.records) is
          (distribute_item v setup now es start i y).cycle d.1 in
      rw (first.0, distribute) (rest.0, omega (arith, rest.1, first.1), rest.2 ∙ first.2)

  pub fail_all-Settles :
      (is : List Item) (y : Cycle v setup now) → Settles (length is) y (fail_all v setup now is y)
  unfolding fail_all
  fail_all-Settles [] y = record { returns = refl; counts = omega arith; queue = refl }
  fail_all-Settles (i ∷ is) y =
      let y₁ : Cycle v setup now = record y { stats = count_processed v setup now y.stats } in
      let s = settle v setup now i.event i.node_uri (failure_result i.event) y₁ in
      let first = settle_lem i.event i.node_uri (failure_result i.event) y₁ in
      let rest = fail_all-Settles is (settled_cycle v setup now s y₁) in
      rw (first.0, fail_all)
        (record {
          returns = rest.returns;
          counts = omega (arith, rest.counts, first.1);
          queue = rest.queue;
        })
