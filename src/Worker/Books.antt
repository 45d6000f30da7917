-- ===== src/Worker/Books.antt =====
-- The books of `run_once` of index/outbox_worker.py: its counts, against the pending events.
use rtc_retrieval_token_cutt.Base.{
  ℕ, ◌≡◌, refl, ap, ◌∙◌, List, [], ◌∷◌, Text, length, arith, Result, ok, raised, All,
}
use rtc_retrieval_token_cutt.Outbox.Event.{OutboxEvent}
use rtc_retrieval_token_cutt.Worker.Extract.{Vector}
use rtc_retrieval_token_cutt.Worker.Services.{Services}
use rtc_retrieval_token_cutt.Worker.Process.{Setup, process_event, build_request_context}
use rtc_retrieval_token_cutt.Worker.Run.{
  Item, Cycle, Stepped, claim_all, process_items, process_batch, process_other, process_others,
  all_pending, fresh_cycle, run_once, distribute_embedded, recover, count_processed, ◌then_do◌,
}
use rtc_retrieval_token_cutt.Worker.Accounting.{
  StoreAnswers, IsReadable, settled_count, settle_lem, HasDicts, claim_all-Queues, Settles,
  distribute-counts, fail_all-Settles,
}

module _ (v : Services) (setup : Setup) (now : v.Store → ℕ) (answers : StoreAnswers v) where
  distribute_embedded-Settles :
      (r : Result (List Vector)) (is : List Item) (y : Cycle v setup now)
      → All (HasDicts v setup now answers) is
      → Settles v setup now answers (length is) y (distribute_embedded v setup now r is y)
  distribute_embedded-Settles (raised e) is y d = fail_all-Settles v setup now answers is y
  distribute_embedded-Settles (ok es) is y d =
      let (done, counts, queue) = distribute-counts v setup now answers es 0 is y d in
      rw (done, recover) (record { returns = refl; counts = counts; queue = queue })

  process_items-Settles :
      (is : List Item) (y : Cycle v setup now)
      → All (HasDicts v setup now answers) is
      → Settles v setup now answers (length is) y (process_items v setup now is y)
  process_items-Settles [] y d = record { returns = refl; counts = omega arith; queue = refl }
  process_items-Settles (i ∷ is) y d = distribute_embedded-Settles _ (i ∷ is) y d

  process_other-Settles :
      (p : OutboxEvent × Text) (y : Cycle v setup now)
      → Settles v setup now answers 1 y (process_other v setup now p y)
  unfolding process_other
  process_other-Settles (e, uri) y =
      let (result, index') = process_event v setup e (build_request_context e) y.index in
      let y₁ : Cycle v setup now = record y {
        stats = count_processed v setup now y.stats;
        index = index';
      } in
      let s = settle_lem v setup now answers e uri result y₁ in
      rw s.0 (record { returns = refl; counts = s.1; queue = refl })

  process_others-Settles :
      (ps : List (OutboxEvent × Text)) (y : Cycle v setup now)
      → Settles v setup now answers (length ps) y (process_others v setup now ps y)
  unfolding process_others
  process_others-Settles [] y = record { returns = refl; counts = omega arith; queue = refl }
  process_others-Settles (p ∷ ps) y =
      let first = process_other-Settles p y in
      let rest = process_others-Settles ps (process_other v setup now p y).1 in
      rw (first.returns, process_others)
        (record {
          returns = rest.returns;
          counts = omega (arith, rest.counts, first.counts);
          queue = rest.queue ∙ first.queue;
        })

  then_do_ok :
      (s : Stepped v setup now) (next : Cycle v setup now → Stepped v setup now)
      → s.0 ≡ ok tt
      → ◌then_do◌ v setup now s next ≡ next s.1
  then_do_ok s next h = rw (h, ◌then_do◌)

  -- If the store does not raise and the records that are read have dictionaries for metadata, then
  -- `run_once` returns, whatever the embedder, the index and the directory handler do, and its counts
  -- of skipped, succeeded, failed and dead events add up to the number of pending events.
  pub run_once_accounts :
      (account_ids : List Text) (w : Text) (store : v.Store) (index : v.Index)
      → All IsReadable (all_pending v setup now store account_ids)
      → ((run_once v setup now account_ids w store index).0 ≡ ok tt)
        × (settled_count (run_once v setup now account_ids w store index).1.stats
            ≡ length (all_pending v setup now store account_ids))
  unfolding run_once
  run_once_accounts account_ids w store index d =
      let pending = all_pending v setup now store account_ids in
      let y₀ = fresh_cycle v setup now store index in
      let q = claim_all-Queues v setup now answers w pending y₀ d tt in
      let y₁ = (claim_all v setup now w pending y₀).1 in
      let b = process_items-Settles y₁.batch y₁ q.readable in
      let y₂ = (process_batch v setup now y₁).1 in
      let o = process_others-Settles y₂.others y₂ in
      rw
        (
          then_do_ok (claim_all v setup now w pending y₀) (process_batch v setup now) q.returns,
          then_do_ok (process_items v setup now y₁.batch y₁)
              (λ y. process_others v setup now y.others y) b.returns,
        )
        (o.returns, omega (arith, o.counts, b.counts, q.counts, ap length b.queue))
