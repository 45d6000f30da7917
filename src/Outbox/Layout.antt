-- ===== src/Outbox/Layout.antt =====
-- The paths of the four files of an event (commit/outbox_store.py), told apart.
use rtc_retrieval_token_cutt.Base.{◌+◌, ◌≡◌, ◌≢◌, ap, Text, length, length-append, arith}
use rtc_retrieval_token_cutt.Outbox.Paths.{event_path, temp_path, lock_path, dlq_path}

ne_of_length : (s t : Text) → length s ≢ length t → s ≢ t
ne_of_length s t h e = h (ap length e)

module _ (p i : Text) where
  pub length-event_path : length (event_path p i) ≡ length p + length i + 13
  length-event_path = simp length-append (omega arith)

  pub length-temp_path : length (temp_path p i) ≡ length p + length i + 18
  length-temp_path = simp length-append (omega arith)

  length-lock_path : length (lock_path p i) ≡ length p + length i + 19
  length-lock_path = simp length-append (omega arith)

  length-dlq_path : length (dlq_path p i) ≡ length p + length i + 17
  length-dlq_path = simp length-append (omega arith)

  pub temp-ne-event : temp_path p i ≢ event_path p i
  temp-ne-event = ne_of_length _ _ (rw (length-temp_path, length-event_path) (omega arith))

  pub event-ne-lock : event_path p i ≢ lock_path p i
  event-ne-lock = ne_of_length _ _ (rw (length-event_path, length-lock_path) (omega arith))

  pub lock-ne-event : lock_path p i ≢ event_path p i
  lock-ne-event = ne_of_length _ _ (rw (length-event_path, length-lock_path) (omega arith))

  pub event-ne-dlq : event_path p i ≢ dlq_path p i
  event-ne-dlq = ne_of_length _ _ (rw (length-event_path, length-dlq_path) (omega arith))

  pub dlq-ne-lock : dlq_path p i ≢ lock_path p i
  dlq-ne-lock = ne_of_length _ _ (rw (length-dlq_path, length-lock_path) (omega arith))
