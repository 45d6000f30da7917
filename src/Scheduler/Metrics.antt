-- ===== src/Scheduler/Metrics.antt =====
-- The metrics of OutboxScheduler (index/scheduler.py) over any sequence of calls.
use rtc_retrieval_token_cutt.Base.{
  ℕ, ◌+◌, ◌≡◌, refl, Bool, true, false, List, [], ◌∷◌, Text, arith, Result, ok, raised,
  if◌then◌else◌,
}
use rtc_retrieval_token_cutt.Worker.Result.{Stats}
use rtc_retrieval_token_cutt.Scheduler.{
  Background, OutboxScheduler, start, stop, run_once_wrapped, flagged,
}

-- A call of the scheduler: from its user, or from the job.
pub data Call : Type 0 where
  started : (name : Text) → Call
  stopped : (wait : Bool) → Call
  ticked : (now : ℕ) → Result Stats → Call

module _ (b : Background) where
  abbrev pub call : Call → OutboxScheduler b → OutboxScheduler b
  call (started name) s = (start b name s).1
  call (stopped wait) s = (stop b wait s).1
  call (ticked now r) s = (run_once_wrapped b now r s).1

  abbrev pub calls : List Call → OutboxScheduler b → OutboxScheduler b
  calls [] s = s
  calls (c ∷ cs) s = calls cs (call c s)

-- The sum of a count over the cycles that returned.
abbrev pub total : (Stats → ℕ) → List Call → ℕ
total f [] = 0
total f (ticked now (ok stats) ∷ cs) = f stats + total f cs
total f (c ∷ cs) = total f cs

module _ (b : Background) where
  -- The flags agree, and no total has changed.
  record KeepsTotals (s t : OutboxScheduler b) : Type 0 where
    flags : t.running ≡ t.metrics.is_running
    processed : t.metrics.total_processed ≡ s.metrics.total_processed
    succeeded : t.metrics.total_succeeded ≡ s.metrics.total_succeeded
    failed : t.metrics.total_failed ≡ s.metrics.total_failed
    dlq : t.metrics.total_dlq ≡ s.metrics.total_dlq

  same-KeepsTotals : (s : OutboxScheduler b) → s.running ≡ s.metrics.is_running → KeepsTotals s s
  same-KeepsTotals s h = record {
    flags = h;
    processed = refl;
    succeeded = refl;
    failed = refl;
    dlq = refl;
  }

  flagged-KeepsTotals :
      (r : Bool) (s : OutboxScheduler b) (j : Result (Unit {0}) × b.Jobs)
      → s.running ≡ s.metrics.is_running
      → KeepsTotals s (flagged b r s j).1
  flagged-KeepsTotals r s (ok _, jobs) h = record {
    flags = refl;
    processed = refl;
    succeeded = refl;
    failed = refl;
    dlq = refl;
  }
  flagged-KeepsTotals r s (raised e, jobs) h = record {
    flags = h;
    processed = refl;
    succeeded = refl;
    failed = refl;
    dlq = refl;
  }

  either-KeepsTotals :
      (c : Bool) (s : OutboxScheduler b) (x y : Result (Unit {0}) × OutboxScheduler b)
      → KeepsTotals s x.1
      → KeepsTotals s y.1
      → KeepsTotals s (if c then x else y).1
  either-KeepsTotals true s x y h k = h
  either-KeepsTotals false s x y h k = k

  -- What a sequence of calls adds to the metrics.
  pub record Adds (cs : List Call) (s t : OutboxScheduler b) : Type 0 where
    pub flags : t.running ≡ t.metrics.is_running
    pub processed :
        t.metrics.total_processed ≡ s.metrics.total_processed + total (λ x. x.processed) cs
    pub succeeded :
        t.metrics.total_succeeded ≡ s.metrics.total_succeeded + total (λ x. x.succeeded) cs
    pub failed : t.metrics.total_failed ≡ s.metrics.total_failed + total (λ x. x.failed) cs
    pub dlq : t.metrics.total_dlq ≡ s.metrics.total_dlq + total (λ x. x.moved_to_dlq) cs

  KeepsTotals-Adds :
      (c : Call) (s t : OutboxScheduler b)
      → ((f : Stats → ℕ) → total f (c ∷ []) ≡ 0)
      → KeepsTotals s t
      → Adds (c ∷ []) s t
  KeepsTotals-Adds c s t z k = record {
    flags = k.flags;
    processed = omega (arith, k.processed, z (λ x. x.processed));
    succeeded = omega (arith, k.succeeded, z (λ x. x.succeeded));
    failed = omega (arith, k.failed, z (λ x. x.failed));
    dlq = omega (arith, k.dlq, z (λ x. x.moved_to_dlq));
  }

  call-Adds :
      (c : Call) (s : OutboxScheduler b)
      → s.running ≡ s.metrics.is_running
      → Adds (c ∷ []) s (call b c s)
  unfolding start stop run_once_wrapped
  call-Adds (started name) s h =
      KeepsTotals-Adds (started name) s _ (λ f. refl)
        (either-KeepsTotals s.running s _ _ (same-KeepsTotals s h) (flagged-KeepsTotals true s _ h))
  call-Adds (stopped wait) s h =
      KeepsTotals-Adds (stopped wait) s _ (λ f. refl)
        (either-KeepsTotals s.running s _ _ (flagged-KeepsTotals false s _ h)
          (same-KeepsTotals s h))
  call-Adds (ticked now (ok stats)) s h = record {
    flags = h;
    processed = omega arith;
    succeeded = omega arith;
    failed = omega arith;
    dlq = omega arith;
  }
  call-Adds (ticked now (raised e)) s h = record {
    flags = h;
    processed = omega arith;
    succeeded = omega arith;
    failed = omega arith;
    dlq = omega arith;
  }

  total-cons :
      (f : Stats → ℕ) (c : Call) (cs : List Call) → total f (c ∷ cs) ≡ total f (c ∷ []) + total f cs
  total-cons f (started _) cs = omega arith
  total-cons f (stopped _) cs = omega arith
  total-cons f (ticked _ (ok _)) cs = omega arith
  total-cons f (ticked _ (raised _)) cs = omega arith

  -- After any sequence of calls, on a background scheduler that may raise at any of them, the flag of
  -- the metrics agrees with the scheduler's own, and each total has grown by the sum of its count over
  -- the cycles that returned.
  pub calls-Adds :
      (cs : List Call) (s : OutboxScheduler b)
      → s.running ≡ s.metrics.is_running
      → Adds cs s (calls b cs s)
  calls-Adds [] s h = record {
    flags = h;
    processed = omega arith;
    succeeded = omega arith;
    failed = omega arith;
    dlq = omega arith;
  }
  calls-Adds (c ∷ cs) s h =
      let first = call-Adds c s h in
      let rest = calls-Adds cs (call b c s) first.flags in
      record {
        flags = rest.flags;
        processed =
            omega (arith, first.processed, rest.processed, total-cons (λ x. x.processed) c cs);
        succeeded =
            omega (arith, first.succeeded, rest.succeeded, total-cons (λ x. x.succeeded) c cs);
        failed = omega (arith, first.failed, rest.failed, total-cons (λ x. x.failed) c cs);
        dlq = omega (arith, first.dlq, rest.dlq, total-cons (λ x. x.moved_to_dlq) c cs);
      }
