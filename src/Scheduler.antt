-- ===== src/Scheduler.antt =====
-- index/scheduler.py: OutboxScheduler, which polls the worker, and its metrics. The scheduler of
-- APScheduler is a parameter. `_on_job_error` only logs.
mod Metrics
mod Samples
use rtc_retrieval_token_cutt.Base.{
  ℕ, zero, ◌+◌, Bool, true, false, Option, none, some, List, Text, Result, ok, raised,
  if◌then◌else◌, ◌>>=◌,
}
use rtc_retrieval_token_cutt.Worker.Result.{Stats}

pub record SchedulerMetrics : Type 0 where
  pub worker_id : Text
  pub last_run_time : Option ℕ
  pub last_run_stats : Option Stats
  pub total_processed : ℕ
  pub total_succeeded : ℕ
  pub total_failed : ℕ
  pub total_dlq : ℕ
  pub consecutive_errors : ℕ
  pub is_running : Bool

-- What `BackgroundScheduler` does with its state; each call may raise.
pub record Background : Type 1 where
  pub Jobs : Type 0
  pub add_job : (seconds misfire_grace_time : ℕ) → (name : Text) → Jobs → Result (Unit {0}) × Jobs
  pub add_listener : Jobs → Result (Unit {0}) × Jobs
  pub start : Jobs → Result (Unit {0}) × Jobs
  pub shutdown : (wait : Bool) → Jobs → Result (Unit {0}) × Jobs

module _ (b : Background) where
  open b use {Jobs}

  pub record OutboxScheduler : Type 0 where
    pub worker_id : Text
    pub interval : ℕ
    pub misfire_grace_time : ℕ
    pub scheduler : Jobs
    pub running : Bool
    pub metrics : SchedulerMetrics

  abbrev pub new_metrics : Text → SchedulerMetrics
  new_metrics worker_id = record {
    worker_id = worker_id;
    last_run_time = none;
    last_run_stats = none;
    total_processed = 0;
    total_succeeded = 0;
    total_failed = 0;
    total_dlq = 0;
    consecutive_errors = 0;
    is_running = false;
  }

  -- `__init__`, on a new BackgroundScheduler
  abbrev pub new_scheduler :
      Text → (interval_seconds misfire_grace_time : ℕ) → Jobs → OutboxScheduler
  new_scheduler worker_id interval_seconds misfire_grace_time jobs = record {
    worker_id = worker_id;
    interval = interval_seconds;
    misfire_grace_time = misfire_grace_time;
    scheduler = jobs;
    running = false;
    metrics = new_metrics worker_id;
  }

  abbrev Called : Type 0
  Called = Result (Unit {0}) × OutboxScheduler

  abbrev with_running : Bool → OutboxScheduler → OutboxScheduler
  with_running r s =
      let m = s.metrics in record s { running = r; metrics = record m { is_running = r } }

  -- The next call on the background scheduler, unless one before it has raised.
  abbrev and_then :
      Result (Unit {0}) × Jobs → (Jobs → Result (Unit {0}) × Jobs) → Result (Unit {0}) × Jobs
  and_then (ok _, jobs) next = next jobs
  and_then (raised e, jobs) next = (raised e, jobs)

  -- Sets the flags when the calls have not raised.
  abbrev flagged : Bool → OutboxScheduler → Result (Unit {0}) × Jobs → Called
  flagged r s (ok _, jobs) = (ok tt, with_running r (record s { scheduler = jobs }))
  flagged r s (raised e, jobs) = (raised e, record s { scheduler = jobs })

  unfoldable pub start : (name : Text) → OutboxScheduler → Called
  start name s =
      if s.running
      then (ok tt, s)
      else flagged true s (
          and_then
            (and_then (b.add_job s.interval s.misfire_grace_time name s.scheduler) b.add_listener)
            b.start)

  unfoldable pub stop : (wait : Bool) → OutboxScheduler → Called
  stop wait s = if s.running then flagged false s (b.shutdown wait s.scheduler) else (ok tt, s)

  -- `_run_once_wrapped`, for what `get_account_ids` and `run_once` come to at an instant.
  unfoldable pub run_once_wrapped :
      (now : ℕ) → Result Stats → OutboxScheduler → Result Stats × OutboxScheduler
  run_once_wrapped now (ok stats) s =
      let m = s.metrics in
      (
        ok stats,
        record s {
          metrics = record m {
            last_run_time = some now;
            last_run_stats = some stats;
            total_processed = m.total_processed + stats.processed;
            total_succeeded = m.total_succeeded + stats.succeeded;
            total_failed = m.total_failed + stats.failed;
            total_dlq = m.total_dlq + stats.moved_to_dlq;
            consecutive_errors = 0;
          };
        },
      )
  run_once_wrapped now (raised e) s =
      let m = s.metrics in
      (
        raised e,
        record s {
          metrics = record m {
            last_run_time = some now;
            consecutive_errors = m.consecutive_errors + 1;
          };
        },
      )
