-- ===== src/Worker/Isolation/Batch.antt =====
-- What the batch of `run_once` (index/outbox_worker.py) does to the index.
use rtc_retrieval_token_cutt.Base.{
  ℕ, ◌+◌, ◌≡◌, refl, List, [], ◌∷◌, ◌++◌, take, drop, length, Result, ok, raised, All,
}
use rtc_retrieval_token_cutt.Outbox.Register.{IndexRecord}
use rtc_retrieval_token_cutt.Worker.Result.{failure_result}
use rtc_retrieval_token_cutt.Worker.Extract.{Vector, augment_with_embeddings}
use rtc_retrieval_token_cutt.Worker.Services.{Services}
use rtc_retrieval_token_cutt.Worker.Process.{Setup}
use rtc_retrieval_token_cutt.Worker.Run.{
  Item, Cycle, Stepped, Batched, settle, settled_cycle, upsert_item, distribute_item, distribute,
  fail_all, process_items, distribute_embedded, count_processed,
}
use rtc_retrieval_token_cutt.Worker.Isolation.{
  OneTenant, TenantItem, TenantInvariant, continue_keeps, augment-BelongsTo,
}

module _ (v : Services) (setup : Setup) (now : v.Store → ℕ) (P : v.Index → Type 0)
    (inv : TenantInvariant v P) where
  -- The batch changes the index by upserts of records of one account.
  upsert_item-keeps :
      (i : Item) (r : Result (List IndexRecord)) (y : Cycle v setup now)
      → ((as' : List IndexRecord) → r ≡ ok as' → OneTenant as')
      → P y.index
      → P (upsert_item v setup now i r y).cycle.index
  upsert_item-keeps i (raised e) y t h = h
  upsert_item-keeps i (ok as') y t h = inv.upserts as' y.index (t as' refl) h

  distribute_item-keeps :
      (es : List Vector) (start : ℕ) (i : Item) (y : Cycle v setup now)
      → TenantItem i
      → P y.index
      → P (distribute_item v setup now es start i y).cycle.index
  unfolding distribute_item
  distribute_item-keeps es start i y (account, all) h =
      let part = take (length i.records) (drop start es) in
      upsert_item-keeps i (augment_with_embeddings i.records part) _
        (λ as' e. (account, augment-BelongsTo account i.records part as' e all)) h

  distribute-keeps :
      (es : List Vector) (start : ℕ) (is : List Item) (y : Cycle v setup now)
      → All TenantItem is
      → P y.index
      → P (distribute v setup now es start is y).cycle.index
  unfolding distribute
  distribute-keeps es start [] y t h = h
  distribute-keeps es start (i ∷ is) y t h =
      let first = distribute_item-keeps es start i y t.0 h in
      let b = distribute_item v setup now es start i y in
      let rest = distribute-keeps es (start + length i.records) is b.cycle t.1 first in
      batched_keeps b.outcome b (distribute v setup now es (start + length i.records) is b.cycle)
        first rest
    where
      batched_keeps :
          (r : Result (Unit {0})) (b rest : Batched v setup now)
          → P b.cycle.index
          → P rest.cycle.index
          → P
              (let z : Batched v setup now = elim r [
                | ok _ ↦ record rest { items = b.items ++ rest.items }
                | raised e ↦ record b { items = b.items ++ is }
              ] in
                z).cycle.index
      batched_keeps (ok _) b rest h k = k
      batched_keeps (raised e) b rest h k = h

  fail_all-index :
      (is : List Item) (y : Cycle v setup now) → P y.index → P (fail_all v setup now is y).1.index
  unfolding fail_all
  fail_all-index [] y h = h
  fail_all-index (i ∷ is) y h =
      let y₁ : Cycle v setup now = record y { stats = count_processed v setup now y.stats } in
      let s = settle v setup now i.event i.node_uri (failure_result i.event) y₁ in
      let y₂ = settled_cycle v setup now s y₁ in
      continue_keeps v setup now (λ z. P z.index) s.outcome y₂ (fail_all v setup now is y₂) h
        (fail_all-index is y₂ h)

  embedded-keeps :
      (r : Result (List Vector)) (is : List Item) (y : Cycle v setup now)
      → All TenantItem is
      → P y.index
      → P (distribute_embedded v setup now r is y).1.index
  embedded-keeps (raised e) is y t h = fail_all-index is y h
  embedded-keeps (ok es) is y t h =
      let b = distribute v setup now es 0 is y in
      let k = distribute-keeps es 0 is y t h in
      recovered b.outcome b k (fail_all-index b.items b.cycle k)
    where
      recovered :
          (r : Result (Unit {0})) (b : Batched v setup now)
          → P b.cycle.index
          → P (fail_all v setup now b.items b.cycle).1.index
          → P
              (let z : Stepped v setup now = elim r [
                | ok _ ↦ (ok tt, b.cycle)
                | raised _ ↦ fail_all v setup now b.items b.cycle
              ] in
                z).1.index
      recovered (ok _) b k f = k
      recovered (raised _) b k f = f

  pub process_items-keeps :
      (is : List Item) (y : Cycle v setup now)
      → All TenantItem is
      → P y.index
      → P (process_items v setup now is y).1.index
  process_items-keeps [] y t h = h
  process_items-keeps (i ∷ is) y t h = embedded-keeps _ (i ∷ is) y t h
