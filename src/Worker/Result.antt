-- ===== src/Worker/Result.antt =====
-- index/outbox_worker.py: WorkerResult, WorkerConfig, the statistics of a cycle, the backoff and the
-- decision to retry. The text of `error_message` is not modelled.
use rtc_retrieval_token_cutt.Base.{ℕ, ◌*◌, ◌^◌, min, Bool, true, false, Text, leb, if◌then◌else◌}
use rtc_retrieval_token_cutt.Outbox.Event.{OutboxEvent}

pub record WorkerResult : Type 0 where
  pub event_id : Text
  pub success : Bool
  pub records_upserted : ℕ
  pub moved_to_dlq : Bool

pub record WorkerConfig : Type 0 where
  pub max_retry : ℕ
  pub base_delay_ms : ℕ
  pub max_delay_ms : ℕ

abbrev pub default_config : WorkerConfig
default_config = record { max_retry = 5; base_delay_ms = 1000; max_delay_ms = 60000 }

-- The dictionary that `run_once` returns.
pub record Stats : Type 0 where
  pub processed : ℕ
  pub succeeded : ℕ
  pub failed : ℕ
  pub moved_to_dlq : ℕ
  pub skipped : ℕ

abbrev pub no_stats : Stats
no_stats = record { processed = 0; succeeded = 0; failed = 0; moved_to_dlq = 0; skipped = 0 }

abbrev pub success_result : OutboxEvent → ℕ → WorkerResult
success_result event n = record {
  event_id = event.event_id;
  success = true;
  records_upserted = n;
  moved_to_dlq = false;
}

abbrev pub failure_result : OutboxEvent → WorkerResult
failure_result event = record {
  event_id = event.event_id;
  success = false;
  records_upserted = 0;
  moved_to_dlq = false;
}

-- `_handle_max_retry_exceeded`
abbrev pub max_retry_exceeded : OutboxEvent → WorkerResult
max_retry_exceeded event = record {
  event_id = event.event_id;
  success = false;
  records_upserted = 0;
  moved_to_dlq = true;
}

-- The delay before the next try, in milliseconds.
unfoldable pub calculate_backoff : WorkerConfig → (retry_count : ℕ) → ℕ
calculate_backoff config retry_count =
    min (config.base_delay_ms * 2 ^ retry_count) config.max_delay_ms

unfoldable pub should_retry : WorkerConfig → OutboxEvent → WorkerResult → Bool
should_retry config event result =
    if result.success then false else if leb config.max_retry event.retry_count then false else true
