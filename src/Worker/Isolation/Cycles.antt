-- ===== src/Worker/Isolation/Cycles.antt =====
-- What a whole cycle of index/outbox_worker.py does to the index.
use rtc_retrieval_token_cutt.Base.{ℕ, List, [], ◌∷◌, Text, Result, ok, raised}
use rtc_retrieval_token_cutt.Outbox.Event.{OutboxEvent}
use rtc_retrieval_token_cutt.Worker.Services.{Services}
use rtc_retrieval_token_cutt.Worker.Process.{Setup, Settled, process_event, build_request_context}
use rtc_retrieval_token_cutt.Worker.Run.{
  Cycle, Stepped, settle, claim_all, process_batch, process_other, process_others, after_settle,
  all_pending, fresh_cycle, run_once, count_processed, ◌then_do◌,
}
use rtc_retrieval_token_cutt.Worker.Isolation.{TenantInvariant, continue_keeps}
use rtc_retrieval_token_cutt.Worker.Isolation.Claims.{claim_all-Queued}
use rtc_retrieval_token_cutt.Worker.Isolation.Batch.{process_items-keeps}
use rtc_retrieval_token_cutt.Worker.Isolation.Dispatch.{process_event-keeps}

module _ (v : Services) (setup : Setup) (now : v.Store → ℕ) (P : v.Index → Type 0)
    (inv : TenantInvariant v P) where
  after_settle-keeps :
      (r : Result (Unit {0})) (s : Settled v) (uri : Text) (y : Cycle v setup now)
      → P y.index
      → P (after_settle v setup now r s uri y).1.index
  after_settle-keeps (ok _) s uri y h = h
  after_settle-keeps (raised _) s uri y h = h

  process_other-keeps :
      (p : OutboxEvent × Text) (y : Cycle v setup now)
      → P y.index
      → P (process_other v setup now p y).1.index
  unfolding process_other
  process_other-keeps (e, uri) y h =
      let (result, index') = process_event v setup e (build_request_context e) y.index in
      let y₁ : Cycle v setup now = record y {
        stats = count_processed v setup now y.stats;
        index = index';
      } in
      let s = settle v setup now e uri result y₁ in
      after_settle-keeps s.outcome s uri y₁
        (process_event-keeps v setup now P inv e (build_request_context e) y.index h)

  process_others-keeps :
      (ps : List (OutboxEvent × Text)) (y : Cycle v setup now)
      → P y.index
      → P (process_others v setup now ps y).1.index
  unfolding process_others
  process_others-keeps [] y h = h
  process_others-keeps (p ∷ ps) y h =
      let (r, y') = process_other v setup now p y in
      let first = process_other-keeps p y h in
      continue_keeps v setup now (λ z. P z.index) r y' (process_others v setup now ps y') first
        (process_others-keeps ps y' first)

  then_do_keeps :
      (Q : Cycle v setup now → Type 0) (s : Stepped v setup now)
      (next : Cycle v setup now → Stepped v setup now)
      → Q s.1
      → Q (next s.1).1
      → Q (◌then_do◌ v setup now s next).1
  then_do_keeps Q s next h k = continue_keeps v setup now Q s.0 s.1 (next s.1) h k

  -- Whatever is pending, whatever payloads say, and whether the cycle returns or raises: a property of
  -- the index that upserts of records of a single account keep, and deletes and directory events
  -- keep, holds of the index behind the cycle if it held before.
  pub run_once-keeps :
      (account_ids : List Text) (w : Text) (store : v.Store) (index : v.Index)
      → P index
      → P (run_once v setup now account_ids w store index).1.index
  unfolding run_once
  run_once-keeps account_ids w store index h =
      let y₀ = fresh_cycle v setup now store index in
      let pending = all_pending v setup now store account_ids in
      let s₁ = claim_all v setup now w pending y₀ in
      let q = claim_all-Queued v setup now P inv w pending y₀ (record { index = h; batch = tt }) in
      let s₂ = ◌then_do◌ v setup now s₁ (process_batch v setup now) in
      let h₂ : P s₂.1.index =
        then_do_keeps (λ y. P y.index) s₁ (process_batch v setup now) q.index
          (process_items-keeps v setup now P inv s₁.1.batch s₁.1 q.batch q.index) in
      then_do_keeps (λ y. P y.index) s₂ (λ y. process_others v setup now y.others y) h₂
        (process_others-keeps s₂.1.others s₂.1 h₂)
