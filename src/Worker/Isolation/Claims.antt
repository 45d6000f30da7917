-- ===== src/Worker/Isolation/Claims.antt =====
-- The records that the first loop of `run_once` (index/outbox_worker.py) queues, and the index.
use rtc_retrieval_token_cutt.Base.{
  ℕ, ◌≡◌, refl, Bool, true, false, List, [], ◌∷◌, Text, codes, text_eq, Result, ok, raised, All,
  All-append, Bool-cases, inl, inr,
}
use rtc_retrieval_token_cutt.Outbox.Event.{OutboxEvent}
use rtc_retrieval_token_cutt.Outbox.Register.{IndexRecord}
use rtc_retrieval_token_cutt.Worker.Extract.{extract_records}
use rtc_retrieval_token_cutt.Worker.Tenancy.{extract_records-BelongsTo}
use rtc_retrieval_token_cutt.Worker.Services.{Services}
use rtc_retrieval_token_cutt.Worker.Process.{Setup}
use rtc_retrieval_token_cutt.Worker.Run.{
  Cycle, queue_records, queue_event, after_claim, claim, claim_all,
}
use rtc_retrieval_token_cutt.Worker.Isolation.{
  OneTenant, TenantItem, TenantInvariant, continue_keeps,
}

module _ (v : Services) (setup : Setup) (now : v.Store → ℕ) (P : v.Index → Type 0)
    (inv : TenantInvariant v P) where
  -- The first loop leaves the index alone and queues records of one account for each event.
  pub record Queued (y : Cycle v setup now) : Type 0 where
    pub index : P y.index
    pub batch : All TenantItem y.batch

  queue_records-Queued :
      (e : OutboxEvent) (uri : Text) (r : Result (List IndexRecord)) (y : Cycle v setup now)
      → ((rs : List IndexRecord) → r ≡ ok rs → OneTenant rs)
      → Queued y
      → Queued (queue_records v setup now e uri r y).1
  queue_records-Queued e uri (ok []) y t q = record { index = q.index; batch = q.batch }
  queue_records-Queued e uri (ok (r ∷ rs)) y t q = record {
    index = q.index;
    batch = All-append TenantItem y.batch _ q.batch (t (r ∷ rs) refl, tt);
  }
  queue_records-Queued e uri (raised x) y t q = record { index = q.index; batch = q.batch }

  pub extracted-OneTenant :
      (e : OutboxEvent) (rs : List IndexRecord) → extract_records e ≡ ok rs → OneTenant rs
  extracted-OneTenant e rs h =
      let (account, _, all) = extract_records-BelongsTo e rs h in (account, all)

  after_claim-Queued :
      (e : OutboxEvent) (uri : Text) (r : Result Bool) (y : Cycle v setup now)
      → Queued y
      → Queued (after_claim v setup now uri e r y).1
  unfolding queue_event
  after_claim-Queued e uri (raised x) y q = q
  after_claim-Queued e uri (ok false) y q = record { index = q.index; batch = q.batch }
  after_claim-Queued e uri (ok true) y q =
      elim (Bool-cases (text_eq e.event_type (codes "UPSERT_CONTEXT"))) [
        | inl upsert ↦
            rw upsert (queue_records-Queued e uri (extract_records e) y (extracted-OneTenant e) q)
        | inr other ↦ rw other (record { index = q.index; batch = q.batch })
      ]

  claim-Queued :
      (w : Text) (p : Text × OutboxEvent) (y : Cycle v setup now)
      → Queued y
      → Queued (claim v setup now w p y).1
  unfolding claim
  claim-Queued w (uri, e) y q =
      let claimed = v.try_acquire e uri w y.store in
      after_claim-Queued e uri claimed.0 (record y { store = claimed.1 })
        (record { index = q.index; batch = q.batch })

  pub claim_all-Queued :
      (w : Text) (ps : List (Text × OutboxEvent)) (y : Cycle v setup now)
      → Queued y
      → Queued (claim_all v setup now w ps y).1
  unfolding claim_all
  claim_all-Queued w [] y q = q
  claim_all-Queued w (p ∷ ps) y q =
      let first = claim-Queued w p y q in
      let y' = (claim v setup now w p y).1 in
      continue_keeps v setup now Queued (claim v setup now w p y).0 y'
        (claim_all v setup now w ps y') first (claim_all-Queued w ps y' first)
