-- ===== src/Outbox/Event.antt =====
-- OutboxEvent (code-version/core/models.py), and the files of an outbox directory as
-- commit/outbox_store.py writes and reads them with `json.dumps` and `json.loads`.
use rtc_retrieval_token_cutt.Base.{ℕ, ◌+◌, ◌*◌, Bool, false, Option, none, some, Text, codes, ltb}
use rtc_retrieval_token_cutt.Json.{Json}

-- A text that `datetime.fromisoformat` may read, by what comes of it: the empty text, an instant
-- with a time zone or without one, in microseconds, or a text for which it raises ValueError.
pub data Stamp : Type 0 where
  blank : Stamp
  aware : ℕ → Stamp
  naive : ℕ → Stamp
  unreadable : Stamp

pub record OutboxEvent : Type 0 where
  pub event_id : Text
  pub event_type : Text
  pub uri : Text
  pub payload : Json
  pub status : Text
  pub retry_count : ℕ
  pub created_at : Stamp
  pub next_retry_at : Stamp

-- The JSON object of an event file: a key that may be missing is an option.
pub record EventDoc : Type 0 where
  pub event_id : Option Text
  pub event_type : Option Text
  pub uri : Option Text
  pub payload : Option Json
  pub status : Option Text
  pub retry_count : Option ℕ
  pub created_at : Option Stamp
  pub next_retry_at : Option Stamp

-- What a file holds. `other` is what `json.loads` refuses, or an object whose keys have values of
-- other types than the code writes.
pub data Content : Type 0 where
  event_file : EventDoc → Content
  lock_file : (worker_id : Text) (acquired_at : Stamp) → Content
  other : Content

-- `json.dumps` of all eight keys
unfoldable pub full_doc : OutboxEvent → EventDoc
full_doc e = record {
  event_id = some e.event_id;
  event_type = some e.event_type;
  uri = some e.uri;
  payload = some e.payload;
  status = some e.status;
  retry_count = some e.retry_count;
  created_at = some e.created_at;
  next_retry_at = some e.next_retry_at;
}

-- `json.dumps` of the seven keys that `mark_processing` and `register_directory` write
unfoldable pub short_doc : OutboxEvent → EventDoc
unfolding full_doc
short_doc e = record (full_doc e) { next_retry_at = none }

abbrev pub get_or {ℓ} : {A : Type ℓ} → Option A → A → A
get_or none d = d
get_or (some a) d = a

-- `__post_init__`: an empty `created_at` becomes the present time.
unfoldable pub created_or_now : ℕ → Stamp → Stamp
created_or_now now blank = aware now
created_or_now now s = s

-- The constructor call of the three `register_…` methods.
unfoldable pub new_event : (now : ℕ) (event_id event_type uri : Text) (payload : Json) → OutboxEvent
new_event now i t u p = record {
  event_id = i;
  event_type = t;
  uri = u;
  payload = p;
  status = codes "PENDING";
  retry_count = 0;
  created_at = aware now;
  next_retry_at = blank;
}

abbrev pub microseconds : ℕ → ℕ
microseconds seconds = seconds * 1000000

-- Whether a lock file keeps an event from being claimed: its `acquired_at` is an instant with a
-- zone, and fewer than `timeout` seconds have gone by. Every exception counts as no lock.
unfoldable pub holds : (now timeout : ℕ) → Option Content → Bool
holds now timeout (some (lock_file _ (aware t))) = ltb now (t + microseconds timeout)
holds now timeout _ = false
