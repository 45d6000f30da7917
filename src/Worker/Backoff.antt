-- ===== src/Worker/Backoff.antt =====
-- The delays between the tries of an event (`calculate_backoff` of index/outbox_worker.py), and how
-- often an event is tried (`_handle_processing_result`).
use native.Mathlib.Nat.{pow-suc}
use rtc_retrieval_token_cutt.Base.{
  ℕ, zero, suc, ◌+◌, ◌*◌, ◌≤◌, ◌<◌, ◌≡◌, min, some, Text, arith, ok, refl,
}
use rtc_retrieval_token_cutt.Outbox.Event.{OutboxEvent}
use rtc_retrieval_token_cutt.Worker.Result.{WorkerConfig, Stats, calculate_backoff, failure_result}
use rtc_retrieval_token_cutt.Worker.Services.{Services, CountsRetries}
use rtc_retrieval_token_cutt.Worker.Process.{Settled, handle_processing_result}

-- The delays double up to the limit: the first is the base delay, and each next one is twice the
-- delay before it, neither ever above `max_delay_ms`.
pub calculate_backoff_doubles :
    (config : WorkerConfig) (n : ℕ)
    → (calculate_backoff config 0 ≡ min config.base_delay_ms config.max_delay_ms)
      × (calculate_backoff config (suc n)
          ≡ min (2 * calculate_backoff config n) config.max_delay_ms)
unfolding calculate_backoff
calculate_backoff_doubles config n = (omega arith, simp pow-suc (omega arith))

module _ (v : Services) (counts : CountsRetries v) (config : WorkerConfig) (node_uri : Text) where
  abbrev pub settle_failure : (now : ℕ) → OutboxEvent → v.Store → Stats → Settled v
  settle_failure now event store stats =
      handle_processing_result v config now event node_uri (failure_result event) store stats

  -- The event, the store and the statistics behind `n` failed tries in a row, at the times of a list.
  abbrev pub fail_times : (ℕ → ℕ) → ℕ → OutboxEvent → v.Store → Stats → Settled v
  fail_times clock zero event store stats = record {
    outcome = ok tt;
    event = event;
    store = store;
    stats = stats;
  }
  fail_times clock (suc n) event store stats =
      let s = settle_failure (clock n) event store stats in
      fail_times clock n s.event s.store s.stats

  settle_failure_retry :
      (now : ℕ) (event : OutboxEvent) (store : v.Store) (stats : Stats)
      → event.retry_count < config.max_retry
      → ((settle_failure now event store stats).event.retry_count ≡ event.retry_count + 1)
        × ((settle_failure now event store stats).stats.moved_to_dlq ≡ stats.moved_to_dlq)
  unfolding handle_processing_result
  settle_failure_retry now event store stats h = ground (
    arith,
    counts.incremented event node_uri
        (some (now + calculate_backoff config event.retry_count * 1000)) store,
  )

  fail_times-counts :
      (clock : ℕ → ℕ) (n : ℕ) (event : OutboxEvent) (store : v.Store) (stats : Stats)
      → event.retry_count + n ≡ config.max_retry
      → ((fail_times clock n event store stats).event.retry_count ≡ config.max_retry)
        × ((fail_times clock n event store stats).stats.moved_to_dlq ≡ stats.moved_to_dlq)
  fail_times-counts clock zero event store stats h = (omega arith, refl)
  fail_times-counts clock (suc n) event store stats h =
      let s = settle_failure (clock n) event store stats in
      let step = settle_failure_retry (clock n) event store stats (omega arith) in
      let rest = fail_times-counts clock n s.event s.store s.stats (omega arith) in
      (rest.0, omega arith)

  -- The failure of an event whose retries have reached `max_retry` comes to the move to the dead
  -- letter queue: the outcome and the store are those of the move, and nothing is counted as failed.
  pub settle_failure-buries :
      (now : ℕ) (event : OutboxEvent) (store : v.Store) (stats : Stats)
      → config.max_retry ≤ event.retry_count
      → ((settle_failure now event store stats).outcome ≡ (v.move_to_dlq event node_uri store).0)
        × ((settle_failure now event store stats).store ≡ (v.move_to_dlq event node_uri store).2)
        × ((settle_failure now event store stats).stats.failed ≡ stats.failed)
  unfolding handle_processing_result
  settle_failure-buries now event store stats h = (ground arith, ground arith, ground arith)

  -- If the store counts retries, then an event fails exactly `max_retry` less its count of times, at
  -- whatever times, before it is buried: behind that many failures in a row its count is `max_retry` and
  -- no move to the dead letter queue has been counted, and the next failure comes to such a move, with
  -- the outcome and the store of the move and nothing counted as failed.
  pub fail_times-retry_count :
      (clock : ℕ → ℕ) (now n : ℕ) (event : OutboxEvent) (store : v.Store) (stats : Stats)
      → event.retry_count + n ≡ config.max_retry
      → let s = fail_times clock n event store stats in
        let last = settle_failure now s.event s.store s.stats in
        (s.event.retry_count ≡ config.max_retry)
        × (s.stats.moved_to_dlq ≡ stats.moved_to_dlq)
        × (last.outcome ≡ (v.move_to_dlq s.event node_uri s.store).0)
        × (last.store ≡ (v.move_to_dlq s.event node_uri s.store).2)
        × (last.stats.failed ≡ s.stats.failed)
  fail_times-retry_count clock now n event store stats h =
      let s = fail_times clock n event store stats in
      let (count, moved) = fail_times-counts clock n event store stats h in
      let (outcome, left, failed) =
        settle_failure-buries now s.event s.store s.stats (omega (arith, count)) in
      (count, moved, outcome, left, failed)
