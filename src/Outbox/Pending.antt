-- ===== src/Outbox/Pending.antt =====
-- commit/outbox_store.py: `list_pending`, the scan for events that may be processed.
use rtc_retrieval_token_cutt.Base.{
  ℕ, zero, suc, Bool, true, false, not, ◌&&◌, ◌||◌, Option, none, some, List, [], ◌∷◌, ◌++◌, Text,
  codes, starts_with, ends_with, contains, text_eq, rstrip, ltb, if◌then◌else◌,
}
use rtc_retrieval_token_cutt.Json.{obj, end}
use rtc_retrieval_token_cutt.Outbox.Event.{
  Stamp, blank, aware, naive, unreadable, OutboxEvent, EventDoc, event_file, get_or, created_or_now,
  holds,
}
use rtc_retrieval_token_cutt.Outbox.Client.{AgfsClient, Entry}

-- The event that an event file stands for, with the defaults of `data.get`; a missing id, type or
-- URI is a KeyError.
abbrev event_with :
    (now : ℕ) → EventDoc → Option Text → Option Text → Option Text → Option OutboxEvent
event_with now d (some i) (some t) (some u) = some (record {
  event_id = i;
  event_type = t;
  uri = u;
  payload = get_or d.payload (obj end);
  status = get_or d.status (codes "PENDING");
  retry_count = get_or d.retry_count 0;
  created_at = created_or_now now (get_or d.created_at blank);
  next_retry_at = get_or d.next_retry_at blank;
})
event_with now d _ _ _ = none

unfoldable pub event_of : (now : ℕ) → EventDoc → Option OutboxEvent
unfolding created_or_now
event_of now d = event_with now d d.event_id d.event_type d.uri

-- Whether the test of `next_retry_at` lets an event through. The comparison with an instant that
-- has no time zone is a TypeError, which drops the event.
unfoldable pub is_due : (now : ℕ) → Stamp → Bool
is_due now blank = true
is_due now (aware t) = not (ltb now t)
is_due now (naive t) = false
is_due now unreadable = true

module _ (c : AgfsClient) (now : ℕ) (f : c.Files) where
  -- The lock that counts in a scan: 300 seconds, whatever timeout the workers use.
  unfoldable pub is_locked : (outbox_path event_id : Text) → Bool
  unfolding holds
  is_locked outbox_path event_id =
      holds now 300
        (c.read f (rstrip b'/' outbox_path ++ codes "/" ++ event_id ++ codes ".processing"))

  abbrev listed : OutboxEvent → List (Text × OutboxEvent)
  listed event = (event.uri, event) ∷ []

  unfoldable pub pending_event : (outbox_path : Text) → EventDoc → List (Text × OutboxEvent)
  unfolding event_of is_due is_locked
  pending_event outbox_path d = elim (event_of now d) [
    | none ↦ []
    | some event ↦
        if is_locked outbox_path event.event_id || not (is_due now event.next_retry_at)
        then []
        else listed event
  ]

  -- One round of the loop of `_collect_outbox_events`.
  unfoldable pub collect_entry : (outbox_path : Text) → Entry → List (Text × OutboxEvent)
  unfolding pending_event
  collect_entry outbox_path entry =
      let ev_path = rstrip b'/' outbox_path ++ codes "/" ++ entry.name in
      if entry.is_dir || not (ends_with entry.name (codes ".json"))
      then []
      else if starts_with entry.name (codes ".")
      then []
      else elim (c.read f ev_path) [
        | some (event_file d) ↦
            if contains ev_path (codes "/dlq/") then [] else pending_event outbox_path d
        | _ ↦ []
      ]

  -- `_collect_outbox_events`
  unfoldable pub collect_outbox_events :
      (outbox_path : Text) → List Entry → List (Text × OutboxEvent)
  unfolding collect_entry
  collect_outbox_events outbox_path [] = []
  collect_outbox_events outbox_path (e ∷ es) =
      collect_entry outbox_path e ++ collect_outbox_events outbox_path es

  -- What a scan has found, and whether it went to its end: a scan that nests too deep raises
  -- RecursionError, which `list_pending` catches.
  abbrev pub Found : Type 0
  Found = Bool × List (Text × OutboxEvent)

  unfoldable pub scan_entry :
      (Text → List (Text × OutboxEvent) → Found) → Text → Entry → List (Text × OutboxEvent) → Found
  unfolding collect_outbox_events
  scan_entry scan path entry results =
      let child_path = rstrip b'/' path ++ codes "/" ++ entry.name in
      if entry.is_dir && text_eq entry.name (codes ".outbox")
      then elim (c.ls f (child_path ++ codes "/")) [
        | none ↦ (true, results)
        | some ev_entries ↦ (true, results ++ collect_outbox_events child_path ev_entries)
      ]
      else if entry.is_dir && not (text_eq entry.name (codes "dlq"))
      then scan (child_path ++ codes "/") results
      else (true, results)

  unfoldable pub scan_entries :
      (Text → List (Text × OutboxEvent) → Found)
      → Text
      → List Entry
      → List (Text × OutboxEvent)
      → Found
  unfolding scan_entry
  scan_entries scan path [] results = (true, results)
  scan_entries scan path (e ∷ es) results =
      let (done, results') = scan_entry scan path e results in
      elim done [ true ↦ scan_entries scan path es results' | false ↦ (false, results') ]

  -- `_scan_outbox_recursive`, with the calls that the interpreter's recursion limit leaves.
  unfoldable pub scan_outbox_recursive : (calls_left : ℕ) → Text → List (Text × OutboxEvent) → Found
  unfolding scan_entries
  scan_outbox_recursive zero path results = (false, results)
  scan_outbox_recursive (suc n) path results =
      if contains path (codes "..") then (true, results) else elim (c.ls f path) [
        | none ↦ (true, results)
        | some entries ↦ scan_entries (scan_outbox_recursive n) path entries results
      ]

  unfoldable pub list_pending :
      (calls_left : ℕ) (mount_prefix account_id : Text) → List (Text × OutboxEvent)
  unfolding scan_outbox_recursive
  list_pending calls_left mount_prefix account_id =
      (scan_outbox_recursive calls_left
        (mount_prefix ++ codes "/accounts/" ++ account_id ++ codes "/") []).1
