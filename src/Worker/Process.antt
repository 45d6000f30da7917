-- ===== src/Worker/Process.antt =====
-- index/outbox_worker.py: `process_event` and its handlers, `_build_request_context` and
-- `_handle_processing_result`.
use rtc_retrieval_token_cutt.Base.{
  ℕ, ◌+◌, ◌*◌, Bool, not, ◌&&◌, ◌||◌, Option, none, some, List, [], ◌∷◌, ◌++◌, map, Text, codes,
  is_empty, text_eq, starts_with, split_on, drop, length, leb, if◌then◌else◌, Result, ok, raised,
  value_error,
}
use rtc_retrieval_token_cutt.Outbox.Event.{OutboxEvent}
use rtc_retrieval_token_cutt.Outbox.Register.{IndexRecord}
use rtc_retrieval_token_cutt.Worker.Result.{
  WorkerResult, WorkerConfig, Stats, success_result, failure_result, max_retry_exceeded,
  calculate_backoff, should_retry,
}
use rtc_retrieval_token_cutt.Worker.Extract.{Vector, extract_records, augment_with_embeddings}
use rtc_retrieval_token_cutt.Worker.Services.{Services, RequestContext, DirectoryResult}

-- `^ctx://account/(users|agents)/owner/`, on the parts behind the scheme: the owner is followed by a
-- slash, so one more part follows it, which may be empty.
unfoldable pub owner_context : (event_id : Text) → List Text → Option RequestContext
owner_context event_id (account ∷ owner_type ∷ owner_id ∷ next ∷ more) =
    let is_user = text_eq owner_type (codes "users") in
    let is_agent = text_eq owner_type (codes "agents") in
    if not (is_empty account) && (is_user || is_agent) && not (is_empty owner_id)
    then some (record {
      account_id = account;
      user_id = if is_user then owner_id else codes "outbox-worker";
      agent_id = if is_agent then owner_id else codes "outbox-worker";
      session_id = codes "outbox:" ++ event_id;
      trace_id = codes "outbox:" ++ event_id;
    })
    else none
owner_context event_id _ = none

unfoldable pub build_request_context : OutboxEvent → Option RequestContext
unfolding owner_context
build_request_context event =
    if starts_with event.uri (codes "ctx://")
    then owner_context event.event_id (split_on b'/' (drop 6 event.uri))
    else none

-- What the worker is built with: `fs_and_llm` says whether both are given.
pub record Setup : Type 0 where
  pub config : WorkerConfig
  pub fs_and_llm : Bool
  pub directory_summary_enabled : Bool

module _ (v : Services) where
  open v use {
    Store, Index, mark_done, move_to_dlq, increment_retry, release, embed_texts, upsert, delete,
    process_directory_event, build_record_id,
  }

  abbrev pub Handled : Type 0
  Handled = Result WorkerResult × Index

  abbrev pub upserted : OutboxEvent → ℕ → Result (Unit {0}) × Index → Handled
  upserted event n (ok _, index) = (ok (success_result event n), index)
  upserted event n (raised e, index) = (raised e, index)

  abbrev pub upsert_augmented : OutboxEvent → ℕ → Result (List IndexRecord) → Index → Handled
  upsert_augmented event n (raised e) index = (raised e, index)
  upsert_augmented event n (ok augmented) index = upserted event n (upsert augmented index)

  abbrev pub upsert_embedded :
      OutboxEvent → List IndexRecord → Result (List Vector) → Index → Handled
  upsert_embedded event records (raised e) index = (raised e, index)
  upsert_embedded event records (ok embeddings) index =
      upsert_augmented event (length records) (augment_with_embeddings records embeddings) index

  abbrev pub upsert_extracted : OutboxEvent → Result (List IndexRecord) → Index → Handled
  upsert_extracted event (raised e) index = (raised e, index)
  upsert_extracted event (ok []) index = (ok (success_result event 0), index)
  upsert_extracted event (ok (r ∷ rs)) index =
      upsert_embedded event (r ∷ rs) (embed_texts (map (λ x. x.text) (r ∷ rs))) index

  -- `_process_upsert_context`
  unfoldable pub process_upsert_context : OutboxEvent → Index → Handled
  unfolding extract_records augment_with_embeddings
  process_upsert_context event index = upsert_extracted event (extract_records event) index

  abbrev pub directory_handled : OutboxEvent → Result DirectoryResult × Index → Handled
  directory_handled event (raised e, index) = (raised e, index)
  directory_handled event (ok d, index) = (
    ok (if d.success then success_result event d.completed_dirs else failure_result event),
    index,
  )

  -- `if not ctx: raise`, and the handler
  abbrev pub directory_context : OutboxEvent → Option RequestContext → Index → Handled
  directory_context event none index = (raised value_error, index)
  directory_context event (some c) index =
      directory_handled event (process_directory_event event c index)

  -- `_process_upsert_directory`
  unfoldable pub process_upsert_directory :
      Setup → OutboxEvent → Option RequestContext → Index → Handled
  process_upsert_directory setup event ctx index =
      if not setup.directory_summary_enabled
      then (ok (success_result event 0), index)
      else if not setup.fs_and_llm
      then (raised value_error, index)
      else directory_context event ctx index

  -- `_process_delete_context`
  unfoldable pub process_delete_context : OutboxEvent → Index → Handled
  process_delete_context event index =
      let ids = map (build_record_id event.uri) (0 ∷ 1 ∷ 2 ∷ []) in
      upserted event 0 (delete ids index)

  -- The `try` of `process_event`
  unfoldable pub dispatch : Setup → OutboxEvent → Option RequestContext → Index → Handled
  unfolding process_upsert_context process_upsert_directory process_delete_context
  dispatch setup event ctx index =
      if text_eq event.event_type (codes "UPSERT_CONTEXT")
      then process_upsert_context event index
      else if text_eq event.event_type (codes "UPSERT_DIRECTORY")
      then process_upsert_directory setup event ctx index
      else if text_eq event.event_type (codes "DELETE_CONTEXT")
      then process_delete_context event index
      else (ok (success_result event 0), index)

  abbrev result_or_failure : OutboxEvent → Result WorkerResult → WorkerResult
  result_or_failure event (ok r) = r
  result_or_failure event (raised _) = failure_result event

  unfoldable pub process_event :
      Setup → OutboxEvent → Option RequestContext → Index → WorkerResult × Index
  unfolding dispatch
  process_event setup event ctx index =
      let (r, index') = dispatch setup event ctx index in
      if leb setup.config.max_retry event.retry_count
      then (max_retry_exceeded event, index)
      else (result_or_failure event r, index')

  pub record Settled : Type 0 where
    pub outcome : Result (Unit {0})
    pub event : OutboxEvent
    pub store : Store
    pub stats : Stats

  abbrev bury : OutboxEvent → Text → Store → Stats → Settled
  bury event node_uri store stats =
      let (r, event', store') = move_to_dlq event node_uri store in
      elim r [
        | ok _ ↦ record {
          outcome = ok tt;
          event = event';
          store = store';
          stats = record stats { moved_to_dlq = stats.moved_to_dlq + 1 };
        }
        | raised e ↦ record { outcome = raised e; event = event'; store = store'; stats = stats }
      ]

  abbrev put_back : WorkerConfig → (now : ℕ) → OutboxEvent → Text → Store → Stats → Settled
  put_back config now event node_uri store stats =
      let next_retry_at = now + calculate_backoff config event.retry_count * 1000 in
      let (r, event', store') = increment_retry event node_uri (some next_retry_at) store in
      elim r [
        | ok _ ↦ record {
          outcome = ok tt;
          event = event';
          store = release event' node_uri store';
          stats = record stats { failed = stats.failed + 1 };
        }
        | raised e ↦ record { outcome = raised e; event = event'; store = store'; stats = stats }
      ]

  -- `_handle_processing_result`
  unfoldable pub handle_processing_result :
      WorkerConfig → (now : ℕ) → OutboxEvent → Text → WorkerResult → Store → Stats → Settled
  unfolding calculate_backoff should_retry
  handle_processing_result config now event node_uri result store stats =
      if result.success
      then record {
        outcome = ok tt;
        event = event;
        store = mark_done event node_uri store;
        stats = record stats { succeeded = stats.succeeded + 1 };
      }
      else if result.moved_to_dlq || not (should_retry config event result)
      then bury event node_uri store stats
      else put_back config now event node_uri store stats
