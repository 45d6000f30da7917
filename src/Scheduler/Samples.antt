-- ===== src/Scheduler/Samples.antt =====
-- The scheduler over a background scheduler that keeps nothing.
use rtc_retrieval_token_cutt.Base.{refl, true, List, [], ◌∷◌, codes, ok, raised, type_error}
use rtc_retrieval_token_cutt.Worker.Result.{no_stats}
use rtc_retrieval_token_cutt.Scheduler.{Background, OutboxScheduler, new_scheduler}
use rtc_retrieval_token_cutt.Scheduler.Metrics.{
  Call, started, stopped, ticked, calls, Adds, calls-Adds,
}

abbrev background : Background
background = record {
  Jobs = Unit {0};
  add_job = λ seconds grace name j. (ok tt, j);
  add_listener = λ j. (ok tt, j);
  start = λ j. (ok tt, j);
  shutdown = λ wait j. (ok tt, j);
}

abbrev scheduler : OutboxScheduler background
scheduler = new_scheduler background (codes "worker-1") 30 10 tt

abbrev day : List Call
day =
    started (codes "outbox_worker")
    ∷ ticked 30 (ok (record no_stats { processed = 3; succeeded = 2; failed = 1 }))
    ∷ ticked 60 (raised type_error)
    ∷ stopped true
    ∷ []

calls-Adds_example : Adds background day scheduler (calls background day scheduler)
calls-Adds_example = calls-Adds background day scheduler refl
