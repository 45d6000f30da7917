-- ===== src/Outbox/Store.antt =====
-- commit/outbox_store.py: what a worker does with the files of one event. A method returns the
-- outcome, the event object, which it may have changed, and the files that it leaves, also when it
-- raises.
use rtc_retrieval_token_cutt.Base.{
  ℕ, ◌+◌, ◌≡◌, refl, arith, Bool-cases, inl, inr, Bool, true, false, not, ◌&&◌, ◌||◌, Option, none,
  some, ◌++◌, Text, codes, starts_with, contains, if◌then◌else◌, Result, ok, raised, value_error,
  client_error, ◌>>=◌,
}
use rtc_retrieval_token_cutt.Outbox.Event.{
  aware, OutboxEvent, Content, event_file, lock_file, full_doc, short_doc, holds,
}
use rtc_retrieval_token_cutt.Outbox.Client.{AgfsClient}
use rtc_retrieval_token_cutt.Outbox.Uri.{Components, parse_uri}
use rtc_retrieval_token_cutt.Outbox.Paths.{
  uri_to_agfs_path, outbox_dir, event_path, temp_path, lock_path, dlq_path,
}

-- A component of a URI may not hold `..` or begin with a slash.
unfoldable pub is_safe : Text → Bool
is_safe v = not (contains v (codes "..") || starts_with v (codes "/"))

unfoldable pub are_safe : Components → Bool
unfolding is_safe
are_safe c =
    is_safe c.account
    && is_safe c.owner_type
    && is_safe c.owner_id
    && is_safe c.category
    && is_safe c.slug

abbrev pub outcome : Bool → Result (Unit {0})
outcome true = ok tt
outcome false = raised client_error

module _ (c : AgfsClient) where
  open c use {Files, read, write, mkdir, rm, rename}

  -- The rename of the temporary file, and the direct write where that fails.
  unfoldable pub publish : (temp path : Text) → Content → Files → Result (Unit {0}) × Files
  publish temp path x f =
      let (renamed, f₁) = rename f temp path in
      let (written, f₃) = write (rm f₁ temp).1 path x in
      if renamed then (ok tt, f₁) else (outcome written, f₃)

  -- The part of `_write_event` behind its checks.
  unfoldable pub write_files :
      (node_path event_id : Text) → Content → Files → Result (Unit {0}) × Files
  unfolding publish
  write_files node_path event_id x f =
      let temp = temp_path node_path event_id in
      let (written, f₂) = write (mkdir f (outbox_dir node_path)).1 temp x in
      if written
      then publish temp (event_path node_path event_id) x f₂
      else (raised client_error, f₂)

  module _ (unquote : Text → Text) (mount_prefix : Text) where
    abbrev pub node_path : Text → Text
    node_path = uri_to_agfs_path unquote mount_prefix

    abbrev pub write_checked :
        OutboxEvent → Text → Files → Result Components → Result (Unit {0}) × Files
    write_checked event node_uri f (raised _) = (raised value_error, f)
    write_checked event node_uri f (ok parts) =
        if are_safe parts
        then write_files (node_path node_uri) event.event_id (event_file (full_doc event)) f
        else (raised value_error, f)

    -- `_write_event`
    unfoldable pub write_event : OutboxEvent → Text → Files → Result (Unit {0}) × Files
    unfolding write_files are_safe full_doc
    write_event event node_uri f = write_checked event node_uri f (parse_uri unquote node_uri)

    write_checked-safe :
        (event : OutboxEvent) (node_uri : Text) (f : Files) (r : Result Components) {f' : Files}
        → write_checked event node_uri f r ≡ (ok tt, f')
        → (parts : Components) × (r ≡ ok parts) × (are_safe parts ≡ true)
    write_checked-safe event node_uri f (raised e) h = absurd (cc)
    write_checked-safe event node_uri f (ok parts) h = (
      parts,
      refl,
      elim (Bool-cases (are_safe parts)) [ inl e ↦ e | inr e ↦ absurd (ground arith) ],
    )

    -- An event that was written has a URI whose components are safe.
    pub write_event-safe :
        (event : OutboxEvent) (node_uri : Text) (f : Files) {f' : Files}
        → write_event event node_uri f ≡ (ok tt, f')
        → (parts : Components) × (parse_uri unquote node_uri ≡ ok parts) × (are_safe parts ≡ true)
    unfolding write_event
    write_event-safe event node_uri f h =
        write_checked-safe event node_uri f (parse_uri unquote node_uri) h

    unfoldable pub mark_processing :
        OutboxEvent → Text → Files → Result (Unit {0}) × OutboxEvent × Files
    unfolding short_doc
    mark_processing event node_uri f =
        let event' = record event { status = codes "PROCESSING" } in
        let (written, f') =
          write f (event_path (node_path node_uri) event.event_id)
            (event_file (short_doc event')) in
        (outcome written, event', f')

    -- Both removals ignore their exceptions.
    unfoldable pub mark_done : OutboxEvent → Text → Files → Files
    mark_done event node_uri f =
        let p = node_path node_uri in
        (rm (rm f (event_path p event.event_id)).1 (lock_path p event.event_id)).1

    unfoldable pub move_to_dlq :
        OutboxEvent → Text → Files → Result (Unit {0}) × OutboxEvent × Files
    unfolding full_doc
    move_to_dlq event node_uri f =
        let p = node_path node_uri in
        let event' = record event { status = codes "FAILED" } in
        let (written, f₂) =
          write (mkdir f (outbox_dir p ++ codes "/dlq")).1 (dlq_path p event.event_id)
            (event_file (full_doc event')) in
        if written
        then (ok tt, event', (rm f₂ (event_path p event.event_id)).1)
        else (raised client_error, event', f₂)

    -- `next_retry_at` is None or the instant from which the event may be tried again.
    abbrev pub retried : OutboxEvent → Option ℕ → OutboxEvent
    retried event (some t) = record event {
      retry_count = event.retry_count + 1;
      status = codes "PENDING";
      next_retry_at = aware t;
    }
    retried event none = record event {
      retry_count = event.retry_count + 1;
      status = codes "PENDING";
    }

    unfoldable pub increment_retry :
        OutboxEvent → Text → Option ℕ → Files → Result (Unit {0}) × OutboxEvent × Files
    unfolding full_doc
    increment_retry event node_uri next_retry_at f =
        let event' = retried event next_retry_at in
        let (written, f') =
          write f (event_path (node_path node_uri) event.event_id) (event_file (full_doc event')) in
        (outcome written, event', f')

    unfoldable pub try_acquire :
        OutboxEvent
        → Text
        → (worker_id : Text) (timeout_seconds now : ℕ) → Files
        → Result Bool × Files
    unfolding holds
    try_acquire event node_uri worker_id timeout_seconds now f =
        let p = lock_path (node_path node_uri) event.event_id in
        let (written, f') = write f p (lock_file worker_id (aware now)) in
        if holds now timeout_seconds (read f p)
        then (ok false, f)
        else ((outcome written >>= λ _. ok true), f')

    unfoldable pub release : OutboxEvent → Text → Files → Files
    release event node_uri f = (rm f (lock_path (node_path node_uri) event.event_id)).1
