-- ===== src/Worker/Wiring.antt =====
-- The OutboxStore of commit/outbox_store.py as the store of the worker of index/outbox_worker.py.
-- `now` tells the instant from the files as they are then, and 300 the timeout that `run_once` leaves at its default.
use rtc_retrieval_token_cutt.Base.{ℕ, some, List, Text, arith, Result}
use rtc_retrieval_token_cutt.Json.{Json}
use rtc_retrieval_token_cutt.Outbox.Event.{OutboxEvent}
use rtc_retrieval_token_cutt.Outbox.Register.{IndexRecord}
use rtc_retrieval_token_cutt.Outbox.Client.{AgfsClient}
use rtc_retrieval_token_cutt.Outbox.Store.{
  try_acquire, mark_done, move_to_dlq, increment_retry, release,
}
use rtc_retrieval_token_cutt.Outbox.Pending.{list_pending}
use rtc_retrieval_token_cutt.Worker.Extract.{Vector}
use rtc_retrieval_token_cutt.Worker.Services.{
  Services, RequestContext, DirectoryResult, CountsRetries,
}

-- The services that are not the store.
pub record Backends : Type 1 where
  pub Index : Type 0
  pub embed_texts : List Json → Result (List Vector)
  pub upsert : List IndexRecord → Index → Result (Unit {0}) × Index
  pub delete : List Text → Index → Result (Unit {0}) × Index
  pub process_directory_event :
      OutboxEvent → RequestContext → Index → Result DirectoryResult × Index
  pub build_record_id : Text → ℕ → Text

module _ (c : AgfsClient) (unquote : Text → Text) (mount_prefix : Text) (calls_left : ℕ)
    (now : c.Files → ℕ) where
  abbrev pub outbox_services : Backends → Services
  outbox_services b = record {
    Store = c.Files;
    Index = b.Index;
    list_pending =
        λ f account_id. some (list_pending c (now f) f calls_left mount_prefix account_id);
    try_acquire = λ e uri w f. try_acquire c unquote mount_prefix e uri w 300 (now f) f;
    mark_done = λ e uri f. mark_done c unquote mount_prefix e uri f;
    move_to_dlq = λ e uri f. move_to_dlq c unquote mount_prefix e uri f;
    increment_retry = λ e uri t f. increment_retry c unquote mount_prefix e uri t f;
    release = λ e uri f. release c unquote mount_prefix e uri f;
    embed_texts = b.embed_texts;
    upsert = b.upsert;
    delete = b.delete;
    process_directory_event = b.process_directory_event;
    build_record_id = b.build_record_id;
  }

  -- The store counts the retries of an event as the worker relies on.
  pub outbox_services-CountsRetries : (b : Backends) → CountsRetries (outbox_services b)
  unfolding increment_retry move_to_dlq
  outbox_services-CountsRetries b = record {
    incremented = λ e uri t f. ground arith;
    buried = λ e uri f. ground arith;
  }
