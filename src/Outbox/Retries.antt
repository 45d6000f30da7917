-- ===== src/Outbox/Retries.antt =====
-- An event that was put back for a retry (`increment_retry` and `release` of
-- commit/outbox_store.py), as the next scans of its directory see it (`_collect_outbox_events`).
use rtc_retrieval_token_cutt.Base.{
  ℕ, ◌≡◌, ◌≢◌, refl, sym, ◌∙◌, true, false, some, List, [], ap, ◌∷◌, ◌++◌, Text, codes, is_empty,
  text_eq_refl, starts_with, ends_with, contains, rstrip, arith, ok, ltb, if◌then◌else◌,
  append_assoc,
}
use rtc_retrieval_token_cutt.Outbox.Event.{
  Stamp, blank, aware, OutboxEvent, event_file, full_doc, created_or_now, holds,
}
use rtc_retrieval_token_cutt.Outbox.Client.{AgfsClient, AgfsLaws, Entry}
use rtc_retrieval_token_cutt.Outbox.Paths.{outbox_dir, event_path, lock_path}
use rtc_retrieval_token_cutt.Outbox.Store.{node_path, increment_retry, release, retried}
use rtc_retrieval_token_cutt.Outbox.Pending.{
  event_of, pending_event, collect_entry, collect_outbox_events,
}
use rtc_retrieval_token_cutt.Outbox.Layout.{lock-ne-event}
use rtc_retrieval_token_cutt.Outbox.Durable.{increment_retry-read}

is_empty-append_cons : (s : Text) (x : ℕ) (t : Text) → is_empty (s ++ x ∷ t) ≡ false
is_empty-append_cons [] x t = refl
is_empty-append_cons (y ∷ s) x t = refl

rstrip-outbox_dir : (p : Text) → rstrip b'/' (outbox_dir p) ≡ outbox_dir p
unfolding rstrip
rstrip-outbox_dir [] = refl
rstrip-outbox_dir (x ∷ p) = rw (rstrip-outbox_dir p, is_empty-append_cons p b'.' (codes "outbox"))

ends_with-append : (s t : Text) → ends_with (s ++ t) t ≡ true
unfolding ends_with
ends_with-append [] [] = refl
ends_with-append [] (x ∷ t) = rw (text_eq_refl (x ∷ t))
ends_with-append (x ∷ s) t = ground (arith, ends_with-append s t)

created_or_now_set : (now : ℕ) (s : Stamp) → s ≢ blank → created_or_now now s ≡ s
unfolding created_or_now
created_or_now_set now blank h = absurd (h refl)
created_or_now_set now _ h = refl

event_of-full_doc :
    (now : ℕ) (e : OutboxEvent) → e.created_at ≢ blank → event_of now (full_doc e) ≡ some e
unfolding event_of full_doc
event_of-full_doc now e h = rw (created_or_now_set now e.created_at h)

abbrev pub file_entry : (event_id : Text) → Entry
file_entry event_id = record { name = event_id ++ codes ".json"; is_dir = false }

entry_path :
    (p i : Text) → rstrip b'/' (outbox_dir p) ++ codes "/" ++ (i ++ codes ".json") ≡ event_path p i
entry_path p i =
    rw rstrip-outbox_dir (sym (append_assoc (outbox_dir p ++ codes "/") i (codes ".json")))

module _ (c : AgfsClient) (p : Text) (e : OutboxEvent) (now t : ℕ) (f : c.Files) where
  pending_waiting :
      e.created_at ≢ blank
      → e.next_retry_at ≡ aware t
      → holds now 300 (c.read f (lock_path p e.event_id)) ≡ false
      → pending_event c now f (outbox_dir p) (full_doc e)
        ≡ (if ltb now t then [] else (e.uri, e) ∷ [])
  unfolding pending_event full_doc
  pending_waiting created due free =
      ground (arith, created_or_now_set now e.created_at created, rstrip-outbox_dir p)

  -- The file of an event that waits for `t` and that nobody holds.
  collect_waiting :
      e.created_at ≢ blank
      → e.next_retry_at ≡ aware t
      → starts_with (e.event_id ++ codes ".json") (codes ".") ≡ false
      → contains (event_path p e.event_id) (codes "/dlq/") ≡ false
      → c.read f (event_path p e.event_id) ≡ some (event_file (full_doc e))
      → holds now 300 (c.read f (lock_path p e.event_id)) ≡ false
      → collect_entry c now f (outbox_dir p) (file_entry e.event_id)
        ≡ (if ltb now t then [] else (e.uri, e) ∷ [])
  unfolding collect_entry
  collect_waiting created due dot dlq stored free = ground (
    arith,
    entry_path p e.event_id,
    ends_with-append e.event_id (codes ".json"),
    pending_waiting created due free,
  )

collect_outbox_events-append :
    (c : AgfsClient) (now : ℕ) (f : c.Files) (path : Text) (xs ys : List Entry)
    → collect_outbox_events c now f path (xs ++ ys)
      ≡ collect_outbox_events c now f path xs ++ collect_outbox_events c now f path ys
unfolding collect_outbox_events
collect_outbox_events-append c now f path [] ys = refl
collect_outbox_events-append c now f path (x ∷ xs) ys =
    ap (λ l. collect_entry c now f path x ++ l) (collect_outbox_events-append c now f path xs ys)
    ∙ sym (append_assoc (collect_entry c now f path x) _ _)

module _ (c : AgfsClient) (laws : AgfsLaws c) (unquote : Text → Text) (mount_prefix : Text)
    (event : OutboxEvent) (node_uri : Text) where
  abbrev here : Text
  here = node_path c unquote mount_prefix node_uri

  -- The files behind `increment_retry` to the instant `t`, and `release`.
  abbrev pub put_back : ℕ → c.Files → c.Files
  put_back t f =
      release c unquote mount_prefix event node_uri
        (increment_retry c unquote mount_prefix event node_uri (some t) f).2

  put_back-collect_entry :
      (f : c.Files) (t now : ℕ)
      → event.created_at ≢ blank
      → starts_with (event.event_id ++ codes ".json") (codes ".") ≡ false
      → contains (event_path here event.event_id) (codes "/dlq/") ≡ false
      → (increment_retry c unquote mount_prefix event node_uri (some t) f).0 ≡ ok tt
      → (c.rm
          (increment_retry c unquote mount_prefix event node_uri (some t) f).2
          (lock_path here event.event_id)).0
        ≡ true
      → collect_entry c now (put_back t f) (outbox_dir here) (file_entry event.event_id) ≡ (
          if ltb now t then [] else (event.uri, retried c unquote mount_prefix event (some t)) ∷ [])
  unfolding release
  put_back-collect_entry f t now created dot dlq written removed =
      let f₁ = (increment_retry c unquote mount_prefix event node_uri (some t) f).2 in
      let lock = lock_path here event.event_id in
      collect_waiting c here (retried c unquote mount_prefix event (some t)) now t (c.rm f₁ lock).1
        created refl dot dlq
        (laws.read-rm_ne f₁ lock (event_path here event.event_id)
            (lock-ne-event here event.event_id)
          ∙ (increment_retry-read c laws unquote mount_prefix event node_uri (some t) f written).0)
        (rw (laws.read-rm f₁ lock removed) (unfold holds in refl))

  -- An event that is put back to wait until `t`, its file written and its lock removed, is passed over by
  -- every scan of its outbox directory before `t`, and every scan from `t` on finds it with one more
  -- retry, in the place of its file, whatever other files the directory lists: where the event has the
  -- time of its creation, the name of its file does not begin with a dot, and no directory above is dlq.
  pub put_back_waits :
      (f : c.Files) (t now : ℕ) (before behind : List Entry)
      → event.created_at ≢ blank
      → starts_with (event.event_id ++ codes ".json") (codes ".") ≡ false
      → contains (event_path here event.event_id) (codes "/dlq/") ≡ false
      → (increment_retry c unquote mount_prefix event node_uri (some t) f).0 ≡ ok tt
      → (c.rm
          (increment_retry c unquote mount_prefix event node_uri (some t) f).2
          (lock_path here event.event_id)).0
        ≡ true
      → collect_outbox_events c now
          (put_back t f)
          (outbox_dir here)
          (before ++ file_entry event.event_id ∷ behind)
        ≡ collect_outbox_events c now (put_back t f) (outbox_dir here) before
          ++ ((if ltb now t
                then []
                else (event.uri, retried c unquote mount_prefix event (some t)) ∷ [])
              ++ collect_outbox_events c now (put_back t f) (outbox_dir here) behind)
  unfolding collect_outbox_events
  put_back_waits f t now before behind created dot dlq written removed =
      let g = put_back t f in
      let rest = collect_outbox_events c now g (outbox_dir here) behind in
      collect_outbox_events-append c now g (outbox_dir here) before
        (file_entry event.event_id ∷ behind)
      ∙ ap (λ l. collect_outbox_events c now g (outbox_dir here) before ++ (l ++ rest))
          (put_back-collect_entry f t now created dot dlq written removed)
