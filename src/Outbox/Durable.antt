-- ===== src/Outbox/Durable.antt =====
-- What the methods of commit/outbox_store.py leave in the files of an event.
use rtc_retrieval_token_cutt.Base.{
  ℕ, ◌≡◌, ◌≢◌, ◌∙◌, true, Option, none, some, Text, codes, arith, ok, ◌++◌,
}
use rtc_retrieval_token_cutt.Outbox.Event.{OutboxEvent, Content, event_file, full_doc}
use rtc_retrieval_token_cutt.Outbox.Client.{AgfsClient, AgfsLaws}
use rtc_retrieval_token_cutt.Outbox.Paths.{event_path, temp_path, lock_path, dlq_path, outbox_dir}
use rtc_retrieval_token_cutt.Outbox.Store.{
  node_path, publish, write_files, write_event, mark_done, move_to_dlq, retried, increment_retry,
}
use rtc_retrieval_token_cutt.Outbox.Layout.{event-ne-lock, lock-ne-event, event-ne-dlq, dlq-ne-lock}

module _ (c : AgfsClient) (laws : AgfsLaws c) where
  publish-read :
      (temp path : Text) (x : Content) (f f' : c.Files)
      → c.read f temp ≡ some x
      → publish c temp path x f ≡ (ok tt, f')
      → c.read f' path ≡ some x
  unfolding publish
  publish-read temp path x f f' t h = ground (
    arith,
    laws.read-rename f temp path,
    laws.read-write (c.rm (c.rename f temp path).1 temp).1 path x,
  )

  publish-frame :
      (temp path q : Text) (x : Content) (f : c.Files)
      → temp ≢ q
      → path ≢ q
      → c.read (publish c temp path x f).1 q ≡ c.read f q
  unfolding publish
  publish-frame temp path q x f t p =
      let f₁ = (c.rename f temp path).1 in
      ground (
        arith,
        laws.read-rename_ne f temp path q t p,
        laws.read-rm_ne f₁ temp q t,
        laws.read-write_ne (c.rm f₁ temp).1 path q x p,
      )

  write_files-read :
      (p i : Text) (x : Content) (f f' : c.Files)
      → write_files c p i x f ≡ (ok tt, f')
      → c.read f' (event_path p i) ≡ some x
  unfolding write_files
  write_files-read p i x f f' h =
      let f₁ = (c.mkdir f (outbox_dir p)).1 in
      ground (
        arith,
        laws.read-write f₁ (temp_path p i) x,
        publish-read (temp_path p i) (event_path p i) x (c.write f₁ (temp_path p i) x).1 f',
      )

  write_files-frame :
      (p i q : Text) (x : Content) (f : c.Files)
      → temp_path p i ≢ q
      → event_path p i ≢ q
      → c.read (write_files c p i x f).1 q ≡ c.read f q
  unfolding write_files
  write_files-frame p i q x f t e =
      let f₁ = (c.mkdir f (outbox_dir p)).1 in
      ground (
        arith,
        laws.read-mkdir f (outbox_dir p) q,
        laws.read-write_ne f₁ (temp_path p i) q x t,
        publish-frame (temp_path p i) (event_path p i) q x (c.write f₁ (temp_path p i) x).1 t e,
      )

  module _ (unquote : Text → Text) (mount_prefix : Text) (event : OutboxEvent)
      (node_uri : Text) where
    abbrev here : Text
    here = node_path c unquote mount_prefix node_uri

    -- When `_write_event` returns, by the rename or by the direct write, the event's file holds the
    -- whole event, whatever the temporary file went through.
    pub write_event-read :
        (f f' : c.Files)
        → write_event c unquote mount_prefix event node_uri f ≡ (ok tt, f')
        → c.read f' (event_path here event.event_id) ≡ some (event_file (full_doc event))
    unfolding write_event
    write_event-read f f' h =
        ground (arith, write_files-read here event.event_id (event_file (full_doc event)) f f')

    -- Whether it returns or raises, `_write_event` changes the content of no file but the event's
    -- own and its temporary file.
    pub write_event-frame :
        (q : Text) (f : c.Files)
        → temp_path here event.event_id ≢ q
        → event_path here event.event_id ≢ q
        → c.read (write_event c unquote mount_prefix event node_uri f).1 q ≡ c.read f q
    unfolding write_event
    write_event-frame q f t e =
        ground (arith, write_files-frame here event.event_id q (event_file (full_doc event)) f t e)

    -- When `increment_retry` returns, the event's file holds the event with one more retry, and the
    -- claim of the event is as it was.
    pub increment_retry-read :
        (next : Option ℕ) (f : c.Files)
        → (increment_retry c unquote mount_prefix event node_uri next f).0 ≡ ok tt
        → (c.read
              (increment_retry c unquote mount_prefix event node_uri next f).2
              (event_path here event.event_id)
            ≡ some (event_file (full_doc (retried c unquote mount_prefix event next))))
          × (c.read
                (increment_retry c unquote mount_prefix event node_uri next f).2
                (lock_path here event.event_id)
              ≡ c.read f (lock_path here event.event_id))
    unfolding increment_retry
    increment_retry-read next f h =
        let event' = retried c unquote mount_prefix event next in
        let path = event_path here event.event_id in
        let x = event_file (full_doc event') in
        (
          laws.read-write f path x (ground arith),
          laws.read-write_ne f path (lock_path here event.event_id) x
              (event-ne-lock here event.event_id),
        )

    -- When both removals of `mark_done` succeed, neither the event nor a claim of it is left.
    pub mark_done-removes :
        (f : c.Files)
        → (c.rm f (event_path here event.event_id)).0 ≡ true
        → (c.rm (c.rm f (event_path here event.event_id)).1 (lock_path here event.event_id)).0
          ≡ true
        → (c.read
              (mark_done c unquote mount_prefix event node_uri f)
              (event_path here event.event_id)
            ≡ none)
          × (c.read
                (mark_done c unquote mount_prefix event node_uri f)
                (lock_path here event.event_id)
              ≡ none)
    unfolding mark_done
    mark_done-removes f h k =
        let e = event_path here event.event_id in
        let l = lock_path here event.event_id in
        (
          laws.read-rm_ne (c.rm f e).1 l e (lock-ne-event here event.event_id) ∙ laws.read-rm f e h,
          laws.read-rm (c.rm f e).1 l k,
        )

    -- When `move_to_dlq` returns, the dead letter queue holds the event, marked as failed. The
    -- claim of the event is still in place: only its timeout ends it.
    pub move_to_dlq-read :
        (f : c.Files)
        → (move_to_dlq c unquote mount_prefix event node_uri f).0 ≡ ok tt
        → (c.read
              (move_to_dlq c unquote mount_prefix event node_uri f).2
              (dlq_path here event.event_id)
            ≡ some (event_file (full_doc (record event { status = codes "FAILED" }))))
          × (c.read
                (move_to_dlq c unquote mount_prefix event node_uri f).2
                (lock_path here event.event_id)
              ≡ c.read f (lock_path here event.event_id))
    unfolding move_to_dlq
    move_to_dlq-read f h =
        let i = event.event_id in
        let x = event_file (full_doc (record event { status = codes "FAILED" })) in
        let f₁ = (c.mkdir f (outbox_dir here ++ codes "/dlq")).1 in
        let f₂ = (c.write f₁ (dlq_path here i) x).1 in
        (
          ground (
            arith,
            laws.read-write f₁ (dlq_path here i) x,
            laws.read-rm_ne f₂ (event_path here i) (dlq_path here i) (event-ne-dlq here i),
          ),
          ground (
            arith,
            laws.read-rm_ne f₂ (event_path here i) (lock_path here i) (event-ne-lock here i),
            laws.read-write_ne f₁ (dlq_path here i) (lock_path here i) x (dlq-ne-lock here i),
            laws.read-mkdir f (outbox_dir here ++ codes "/dlq") (lock_path here i),
          ),
        )
