-- ===== src/Worker/Isolation.antt =====
-- What reaches the vector index in a cycle of index/outbox_worker.py, and whose records they are.
pub mod Claims
pub mod Batch
pub mod Dispatch
pub mod Cycles
use rtc_retrieval_token_cutt.Base.{
  ℕ, ◌+◌, ◌≡◌, refl, Bool, true, false, Option, none, some, List, [], ◌∷◌, ◌++◌, map, Text, codes,
  text_eq, take, drop, length, leb, arith, Result, ok, raised, All, All-append, Bool-cases, inl,
  inr, if◌then◌else◌, ◌>>=◌, >>=-eq-ok, subst, ap,
}
use rtc_retrieval_token_cutt.Outbox.Event.{OutboxEvent}
use rtc_retrieval_token_cutt.Outbox.Register.{IndexRecord}
use rtc_retrieval_token_cutt.Worker.Result.{failure_result}
use rtc_retrieval_token_cutt.Worker.Extract.{
  Vector, as_dict, with_embedding, augment_with_embeddings, extract_records, expected_account,
}
use rtc_retrieval_token_cutt.Worker.Tenancy.{BelongsTo, extract_records-BelongsTo, ok-injective}
use rtc_retrieval_token_cutt.Worker.Services.{Services, RequestContext, DirectoryResult}
use rtc_retrieval_token_cutt.Worker.Process.{
  Setup, Settled, process_event, dispatch, upsert_extracted, upsert_embedded, upsert_augmented,
  process_upsert_directory, upserted, directory_handled, directory_context, build_request_context,
}
use rtc_retrieval_token_cutt.Worker.Run.{
  Item, Cycle, Stepped, Batched, settle, settled_cycle, queue_records, queue_event, after_claim,
  claim, claim_all, upsert_item, distribute_item, distribute, fail_all, process_items,
  process_batch, recover, distribute_embedded, process_other, process_others, after_settle,
  all_pending, fresh_cycle, run_once, count_processed, ◌then_do◌,
}

-- All records belong to one account.
abbrev pub OneTenant : List IndexRecord → Type 0
OneTenant rs = (account : Text) × All (BelongsTo account) rs

with_embedding-BelongsTo :
    (account : Text) (r : IndexRecord) (x : Vector) {a : IndexRecord}
    → with_embedding r x ≡ ok a
    → BelongsTo account r
    → BelongsTo account a
unfolding with_embedding
with_embedding-BelongsTo account r x h b =
    let (fs, _, h') = >>=-eq-ok (as_dict r.metadata) _ h in
    subst (BelongsTo account) (ok-injective h') (record {
      fields = b.fields;
      is_dict = b.is_dict;
      account_id = b.account_id;
      owner_space = b.owner_space;
    })

pub augment-BelongsTo :
    (account : Text) (rs : List IndexRecord) (xs : List Vector) (as' : List IndexRecord)
    → augment_with_embeddings rs xs ≡ ok as'
    → All (BelongsTo account) rs
    → All (BelongsTo account) as'
unfolding augment_with_embeddings
augment-BelongsTo account [] xs as' h b = subst (All (BelongsTo account)) (ok-injective h) tt
augment-BelongsTo account (r ∷ rs) [] as' h b = subst (All (BelongsTo account)) (ok-injective h) tt
augment-BelongsTo account (r ∷ rs) (x ∷ xs) as' h b =
    let (a, first, h₁) = >>=-eq-ok (with_embedding r x) _ h in
    let (rest, later, h₂) = >>=-eq-ok (augment_with_embeddings rs xs) _ h₁ in
    subst (All (BelongsTo account)) (ok-injective h₂) (
      with_embedding-BelongsTo account r x first b.0,
      augment-BelongsTo account rs xs rest later b.1,
    )

-- A property of the index that every upsert of records of one account keeps, every delete, and
-- every directory event.
pub record TenantInvariant (v : Services) (P : v.Index → Type 0) : Type 0 where
  pub upserts : (rs : List IndexRecord) (x : v.Index) → OneTenant rs → P x → P (v.upsert rs x).1
  pub deletes : (ids : List Text) (x : v.Index) → P x → P (v.delete ids x).1
  pub directories :
      (e : OutboxEvent) (c : RequestContext) (x : v.Index)
      → P x
      → P (v.process_directory_event e c x).1

abbrev pub TenantItem : Item → Type 0
TenantItem i = OneTenant i.records

module _ (v : Services) (setup : Setup) (now : v.Store → ℕ) where
  -- A step that may raise, and what comes next.
  pub continue_keeps :
      (Q : Cycle v setup now → Type 0) (r : Result (Unit {0})) (y : Cycle v setup now)
      (rest : Stepped v setup now)
      → Q y
      → Q rest.1
      → Q (let z : Stepped v setup now = elim r [ ok _ ↦ rest | raised e ↦ (raised e, y) ] in z).1
  continue_keeps Q (ok _) y rest h k = k
  continue_keeps Q (raised e) y rest h k = h
