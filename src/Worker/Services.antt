-- ===== src/Worker/Services.antt =====
-- What the worker of index/outbox_worker.py calls: the outbox store, the embedder, the vector index
-- and the directory handler, as an interface.
use rtc_retrieval_token_cutt.Base.{ℕ, ◌+◌, ◌≡◌, Bool, Option, List, Text, Result}
use rtc_retrieval_token_cutt.Json.{Json}
use rtc_retrieval_token_cutt.Outbox.Event.{OutboxEvent}
use rtc_retrieval_token_cutt.Outbox.Register.{IndexRecord}
use rtc_retrieval_token_cutt.Worker.Extract.{Vector}

-- The part of RequestContext that `_build_request_context` fills.
pub record RequestContext : Type 0 where
  pub account_id : Text
  pub user_id : Text
  pub agent_id : Text
  pub session_id : Text
  pub trace_id : Text

pub record DirectoryResult : Type 0 where
  pub success : Bool
  pub completed_dirs : ℕ

-- Each method returns what it raises or returns, and the state that it leaves. The methods that
-- assign to the event object return it too.
pub record Services : Type 1 where
  pub Store : Type 0
  pub Index : Type 0
  pub list_pending : Store → Text → Option (List (Text × OutboxEvent))
  pub try_acquire : OutboxEvent → Text → (worker_id : Text) → Store → Result Bool × Store
  pub mark_done : OutboxEvent → Text → Store → Store
  pub move_to_dlq : OutboxEvent → Text → Store → Result (Unit {0}) × OutboxEvent × Store
  pub increment_retry :
      OutboxEvent
      → Text
      → (next_retry_at : Option ℕ) → Store
      → Result (Unit {0}) × OutboxEvent × Store
  pub release : OutboxEvent → Text → Store → Store
  pub embed_texts : List Json → Result (List Vector)
  pub upsert : List IndexRecord → Index → Result (Unit {0}) × Index
  pub delete : List Text → Index → Result (Unit {0}) × Index
  pub process_directory_event :
      OutboxEvent → RequestContext → Index → Result DirectoryResult × Index
  pub build_record_id : Text → ℕ → Text

-- What the worker's correctness rests on: the store counts retries in the event object.
pub record CountsRetries (v : Services) : Type 0 where
  pub incremented :
      (e : OutboxEvent) (uri : Text) (t : Option ℕ) (s : v.Store)
      → (v.increment_retry e uri t s).1.retry_count ≡ e.retry_count + 1
  pub buried :
      (e : OutboxEvent) (uri : Text) (s : v.Store)
      → (v.move_to_dlq e uri s).1.retry_count ≡ e.retry_count
