-- ===== src/Worker/Twice.antt =====
-- The batch of `run_once` (index/outbox_worker.py) when its loop is left by an exception.
use rtc_retrieval_token_cutt.Base.{
  ℕ, ◌+◌, ◌≡◌, refl, List, [], ◌∷◌, map, Text, length, take, drop, arith, Error, ok, raised,
  length-append, subst, ◌++◌,
}
use rtc_retrieval_token_cutt.Outbox.Event.{OutboxEvent}
use rtc_retrieval_token_cutt.Outbox.Register.{IndexRecord}
use rtc_retrieval_token_cutt.Worker.Result.{Stats, failure_result}
use rtc_retrieval_token_cutt.Worker.Extract.{Vector, augment_with_embeddings}
use rtc_retrieval_token_cutt.Worker.Services.{Services}
use rtc_retrieval_token_cutt.Worker.Process.{Setup, handle_processing_result}
use rtc_retrieval_token_cutt.Worker.Run.{
  Item, Cycle, Batched, settle, settled_cycle, count_processed, distribute_item, distribute,
  fail_all, process_items, all_texts, recover,
}
use rtc_retrieval_token_cutt.Worker.Accounting.{
  StoreAnswers, settled_count, settle_lem, fail_all-Settles,
}

module _ (v : Services) (setup : Setup) (now : v.Store → ℕ) (answers : StoreAnswers v) where
  -- How far the three counters of interest go up.
  record Grows (settled processed succeeded : ℕ) (s t : Stats) : Type 0 where
    settled_by : settled_count t ≡ settled_count s + settled
    processed_by : t.processed ≡ s.processed + processed
    succeeded_by : t.succeeded ≡ s.succeeded + succeeded

  settle_failure-Grows :
      (e : OutboxEvent) (uri : Text) (y : Cycle v setup now)
      → Grows 1 0 0 y.stats (settle v setup now e uri (failure_result e) y).stats
  settle_failure-Grows e uri y = record {
    settled_by = (settle_lem v setup now answers e uri (failure_result e) y).1;
    processed_by = unfold handle_processing_result in ground arith;
    succeeded_by = unfold handle_processing_result in ground arith;
  }

  fail_all-Grows :
      (is : List Item) (y : Cycle v setup now)
      → Grows (length is) (length is) 0 y.stats (fail_all v setup now is y).1.stats
  unfolding fail_all
  fail_all-Grows [] y = record {
    settled_by = omega arith;
    processed_by = omega arith;
    succeeded_by = omega arith;
  }
  fail_all-Grows (i ∷ is) y =
      let y₁ : Cycle v setup now = record y { stats = count_processed v setup now y.stats } in
      let s = settle v setup now i.event i.node_uri (failure_result i.event) y₁ in
      let done = settle_lem v setup now answers i.event i.node_uri (failure_result i.event) y₁ in
      let g = settle_failure-Grows i.event i.node_uri y₁ in
      let h = fail_all-Grows is (settled_cycle v setup now s y₁) in
      rw (done.0, fail_all)
        (record {
          settled_by = omega (arith, g.settled_by, h.settled_by);
          processed_by = omega (arith, g.processed_by, h.processed_by);
          succeeded_by = omega (arith, g.succeeded_by, h.succeeded_by);
        })

  record Done (i : Item) (y : Cycle v setup now) (b : Batched v setup now) : Type 0 where
    outcome : b.outcome ≡ ok tt
    one_item : length b.items ≡ 1
    grows : Grows 1 1 1 y.stats b.cycle.stats

  first_item :
      (es : List Vector) (start : ℕ) (i : Item) (y : Cycle v setup now) (as' : List IndexRecord)
      → augment_with_embeddings i.records (take (length i.records) (drop start es)) ≡ ok as'
      → (v.upsert as' y.index).0 ≡ ok tt
      → Done i y (distribute_item v setup now es start i y)
  unfolding distribute_item handle_processing_result
  first_item es start i y as' augmented upserted = rw augmented (record {
    outcome = rw upserted;
    one_item = refl;
    grows = rw upserted (record {
      settled_by = omega arith;
      processed_by = omega arith;
      succeeded_by = omega arith;
    });
  })

  record Stops (x : Error) (y : Cycle v setup now) (b : Batched v setup now) : Type 0 where
    outcome : b.outcome ≡ raised x
    one_item : length b.items ≡ 1
    grows : Grows 0 1 0 y.stats b.cycle.stats

  second_item :
      (es : List Vector) (start : ℕ) (i : Item) (y : Cycle v setup now) (x : Error)
      → augment_with_embeddings i.records (take (length i.records) (drop start es)) ≡ raised x
      → Stops x y (distribute_item v setup now es start i y)
  unfolding distribute_item
  second_item es start i y x refused = rw refused (record {
    outcome = refl;
    one_item = refl;
    grows = record {
      settled_by = omega arith;
      processed_by = omega arith;
      succeeded_by = omega arith;
    };
  })

  -- What the loop leaves when the first item is done and the second one raises.
  record Left (x : Error) (y : Cycle v setup now) (b : Batched v setup now) : Type 0 where
    outcome : b.outcome ≡ raised x
    two_items : length b.items ≡ 2
    grows : Grows 1 2 1 y.stats b.cycle.stats

  two_rounds :
      (es : List Vector) (a b : Item) (y : Cycle v setup now) (as' : List IndexRecord) (x : Error)
      → augment_with_embeddings a.records (take (length a.records) (drop 0 es)) ≡ ok as'
      → (v.upsert as' y.index).0 ≡ ok tt
      → augment_with_embeddings b.records (take (length b.records) (drop (length a.records) es))
        ≡ raised x
      → Left x y (distribute v setup now es 0 (a ∷ b ∷ []) y)
  unfolding distribute
  two_rounds es a b y as' x augmented upserted refused =
      let f = first_item es 0 a y as' augmented upserted in
      let s =
        second_item es (0 + length a.records) b (distribute_item v setup now es 0 a y).cycle x (
          subst
            (λ n.
              augment_with_embeddings b.records (take (length b.records) (drop n es)) ≡ raised x)
            (omega arith) refused) in
      let g = f.grows in
      let h = s.grows in
      let first = distribute_item v setup now es 0 a y in
      let last = distribute_item v setup now es (0 + length a.records) b first.cycle in
      rw (f.outcome, distribute, s.outcome, distribute)
        (record {
          outcome = s.outcome;
          two_items = omega (
            arith,
            length-append first.items (last.items ++ []),
            length-append last.items [],
            f.one_item,
            s.one_item,
          );
          grows = record {
            settled_by = omega (arith, g.settled_by, h.settled_by);
            processed_by = omega (arith, g.processed_by, h.processed_by);
            succeeded_by = omega (arith, g.succeeded_by, h.succeeded_by);
          };
        })

  recover_raised :
      (b : Batched v setup now) (x : Error)
      → b.outcome ≡ raised x
      → recover v setup now b ≡ fail_all v setup now b.items b.cycle
  recover_raised b x eq = rw eq refl

  -- When the embedder answers, the first of two events is upserted and the second one's records make
  -- `_augment_with_embeddings` raise, and the store does not raise, the batch is left regularly with
  -- three outcomes counted for the two events: `processed` is up by four, `succeeded` by one.
  pub process_items_twice :
      (a b : Item) (y : Cycle v setup now) (es : List Vector) (as' : List IndexRecord) (x : Error)
      → v.embed_texts (map (λ r. r.text) (all_texts v setup now (a ∷ b ∷ []))) ≡ ok es
      → augment_with_embeddings a.records (take (length a.records) (drop 0 es)) ≡ ok as'
      → (v.upsert as' y.index).0 ≡ ok tt
      → augment_with_embeddings b.records (take (length b.records) (drop (length a.records) es))
        ≡ raised x
      → let r = process_items v setup now (a ∷ b ∷ []) y in
        (r.0 ≡ ok tt)
        × (settled_count r.1.stats ≡ settled_count y.stats + 3)
        × (r.1.stats.processed ≡ y.stats.processed + 4)
        × (r.1.stats.succeeded ≡ y.stats.succeeded + 1)
  process_items_twice a b y es as' x embedded augmented upserted refused =
      let l = two_rounds es a b y as' x augmented upserted refused in
      let d = distribute v setup now es 0 (a ∷ b ∷ []) y in
      let f = fail_all-Grows d.items d.cycle in
      let g = l.grows in
      rw (embedded, recover_raised d x l.outcome)
        (
          (fail_all-Settles v setup now answers d.items d.cycle).returns,
          omega (arith, g.settled_by, f.settled_by, l.two_items),
          omega (arith, g.processed_by, f.processed_by, l.two_items),
          omega (arith, g.succeeded_by, f.succeeded_by),
        )
