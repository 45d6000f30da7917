-- ===== src/Worker/Isolation/Dispatch.antt =====
-- What `process_event` of index/outbox_worker.py does to the index.
use rtc_retrieval_token_cutt.Base.{
  ℕ, ◌≡◌, refl, Option, none, some, List, [], ◌∷◌, codes, text_eq, length, leb, Result, ok, raised,
  Bool-cases, inl, inr,
}
use rtc_retrieval_token_cutt.Outbox.Event.{OutboxEvent}
use rtc_retrieval_token_cutt.Outbox.Register.{IndexRecord}
use rtc_retrieval_token_cutt.Worker.Extract.{Vector, augment_with_embeddings, extract_records}
use rtc_retrieval_token_cutt.Worker.Services.{Services, RequestContext, DirectoryResult}
use rtc_retrieval_token_cutt.Worker.Process.{
  Setup, process_event, dispatch, upsert_extracted, upsert_embedded, upsert_augmented,
  process_upsert_directory, upserted, directory_handled, directory_context,
}
use rtc_retrieval_token_cutt.Worker.Isolation.{OneTenant, TenantInvariant, augment-BelongsTo}
use rtc_retrieval_token_cutt.Worker.Isolation.Claims.{extracted-OneTenant}

module _ (v : Services) (setup : Setup) (now : v.Store → ℕ) (P : v.Index → Type 0)
    (inv : TenantInvariant v P) where
  upserted-keeps :
      (e : OutboxEvent) (n : ℕ) (r : Result (Unit {0}) × v.Index) → P r.1 → P (upserted v e n r).1
  upserted-keeps e n (ok _, x) h = h
  upserted-keeps e n (raised _, x) h = h

  upsert_augmented-keeps :
      (e : OutboxEvent) (n : ℕ) (r : Result (List IndexRecord)) (x : v.Index)
      → ((as' : List IndexRecord) → r ≡ ok as' → OneTenant as')
      → P x
      → P (upsert_augmented v e n r x).1
  upsert_augmented-keeps e n (raised _) x t h = h
  upsert_augmented-keeps e n (ok as') x t h =
      upserted-keeps e n (v.upsert as' x) (inv.upserts as' x (t as' refl) h)

  upsert_embedded-keeps :
      (e : OutboxEvent) (rs : List IndexRecord) (r : Result (List Vector)) (x : v.Index)
      → OneTenant rs
      → P x
      → P (upsert_embedded v e rs r x).1
  upsert_embedded-keeps e rs (raised _) x t h = h
  upsert_embedded-keeps e rs (ok es) x (account, all) h =
      upsert_augmented-keeps e (length rs) (augment_with_embeddings rs es) x
        (λ as' eq. (account, augment-BelongsTo account rs es as' eq all)) h

  upsert_extracted-keeps :
      (e : OutboxEvent) (r : Result (List IndexRecord)) (x : v.Index)
      → ((rs : List IndexRecord) → r ≡ ok rs → OneTenant rs)
      → P x
      → P (upsert_extracted v e r x).1
  upsert_extracted-keeps e (raised _) x t h = h
  upsert_extracted-keeps e (ok []) x t h = h
  upsert_extracted-keeps e (ok (r ∷ rs)) x t h =
      upsert_embedded-keeps e (r ∷ rs) _ x (t (r ∷ rs) refl) h

  directory_handled-keeps :
      (e : OutboxEvent) (r : Result DirectoryResult × v.Index)
      → P r.1
      → P (directory_handled v e r).1
  directory_handled-keeps e (ok _, x) h = h
  directory_handled-keeps e (raised _, x) h = h

  directory_context-keeps :
      (e : OutboxEvent) (c : Option RequestContext) (x : v.Index)
      → P x
      → P (directory_context v e c x).1
  directory_context-keeps e none x h = h
  directory_context-keeps e (some c) x h =
      directory_handled-keeps e (v.process_directory_event e c x) (inv.directories e c x h)

  directory-keeps :
      (e : OutboxEvent) (c : Option RequestContext) (x : v.Index)
      → P x
      → P (process_upsert_directory v setup e c x).1
  unfolding process_upsert_directory
  directory-keeps e c x h = elim (Bool-cases setup.directory_summary_enabled) [
    | inl on ↦ elim (Bool-cases setup.fs_and_llm) [
      | inl given ↦ rw (on, given) (directory_context-keeps e c x h)
      | inr missing ↦ rw (on, missing) h
    ]
    | inr off ↦ rw off h
  ]

  dispatch-keeps :
      (e : OutboxEvent) (c : Option RequestContext) (x : v.Index)
      → P x
      → P (dispatch v setup e c x).1
  unfolding dispatch
  dispatch-keeps e c x h = elim (Bool-cases (text_eq e.event_type (codes "UPSERT_CONTEXT"))) [
    | inl upsert ↦
        rw upsert (
          upsert_extracted-keeps e (extract_records e) x (extracted-OneTenant v setup now P inv e)
            h)
    | inr other ↦ elim (Bool-cases (text_eq e.event_type (codes "UPSERT_DIRECTORY"))) [
      | inl directory ↦ rw (other, directory) (directory-keeps e c x h)
      | inr rest ↦ elim (Bool-cases (text_eq e.event_type (codes "DELETE_CONTEXT"))) [
        | inl delete ↦
            rw (other, rest, delete) (upserted-keeps e 0 (v.delete _ x) (inv.deletes _ x h))
        | inr unknown ↦ rw (other, rest, unknown) h
      ]
    ]
  ]

  pub process_event-keeps :
      (e : OutboxEvent) (c : Option RequestContext) (x : v.Index)
      → P x
      → P (process_event v setup e c x).1
  unfolding process_event
  process_event-keeps e c x h = elim (Bool-cases (leb setup.config.max_retry e.retry_count)) [
    | inl exceeded ↦ rw exceeded h
    | inr live ↦ rw live (dispatch-keeps e c x h)
  ]
