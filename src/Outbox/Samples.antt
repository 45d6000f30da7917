-- ===== src/Outbox/Samples.antt =====
-- Small runs of the outbox, and the theorems about it at concrete events.
use rtc_retrieval_token_cutt.Base.{
  arith, ◌+◌, ◌≡◌, ◌↔◌, ◌<◌, refl, true, false, some, List, [], ◌∷◌, ◌++◌, Text, codes, ok,
  starts_with, contains, text_eq, split_on, rstrip, All,
}
use rtc_retrieval_token_cutt.Json.{obj, end}
use rtc_retrieval_token_cutt.Outbox.Event.{
  aware, blank, OutboxEvent, lock_file, event_file, full_doc, microseconds, holds,
}
use rtc_retrieval_token_cutt.Outbox.Memory.{Disk, memory, memory-laws}
use rtc_retrieval_token_cutt.Outbox.Uri.{parse_uri}
use rtc_retrieval_token_cutt.Outbox.Paths.{
  uri_to_agfs_path, event_path, lock_path, outbox_dir, node_uri_to_directory_uri,
}
use rtc_retrieval_token_cutt.Outbox.Store.{node_path, try_acquire, write_event, increment_retry}
use rtc_retrieval_token_cutt.Outbox.Client.{Entry}
use rtc_retrieval_token_cutt.Outbox.Pending.{collect_outbox_events}
use rtc_retrieval_token_cutt.Outbox.Locks.{second_claim}
use rtc_retrieval_token_cutt.Outbox.Race.{
  Phase, start, advance, System, returned, Reach, both_at_start, both_claim,
}
use rtc_retrieval_token_cutt.Outbox.Durable.{write_event-read}
use rtc_retrieval_token_cutt.Outbox.Retries.{file_entry, put_back, put_back_waits}
use rtc_retrieval_token_cutt.Outbox.Confined.{StaysDown, below_accounts, write_event_confined}

abbrev plain : Text → Text
plain s = s

abbrev prefix : Text
prefix = codes "/local"

abbrev tea : Text
tea = codes "ctx://acme/users/u1/memories/cat/tea"

abbrev event : OutboxEvent
event = record {
  event_id = codes "e1";
  event_type = codes "DELETE_CONTEXT";
  uri = tea;
  payload = obj end;
  status = codes "PENDING";
  retry_count = 0;
  created_at = aware 7;
  next_retry_at = blank;
}

abbrev empty_disk : Disk
empty_disk = record { contents = []; listings = [] }

path_of_tea :
    uri_to_agfs_path plain prefix tea ≡ codes "/local/accounts/acme/users/u1/memories/cat/tea/"
unfolding uri_to_agfs_path starts_with split_on text_eq
path_of_tea = refl

directory_of_tea : node_uri_to_directory_uri tea ≡ codes "ctx://acme/users/u1/memories/cat/"
unfolding node_uri_to_directory_uri rstrip
directory_of_tea = refl

abbrev claimed : Disk
claimed = record {
  contents =
      (
        lock_path (node_path memory plain prefix tea) (codes "e1"),
        lock_file (codes "w1") (aware 1000000),
      )
      ∷ [];
  listings = [];
}

first_claim :
    try_acquire memory plain prefix event tea (codes "w1") 300 1000000 empty_disk
    ≡ (ok true, claimed)
unfolding try_acquire
first_claim = refl

second_claim_example :
    ((try_acquire memory plain prefix event tea (codes "w2") 300 200000000 claimed).0 ≡ ok false)
    ↔ (200000000 < 1000000 + microseconds 300)
second_claim_example =
    second_claim memory memory-laws plain prefix event tea (codes "w1") (codes "w2") 300 1000000
      200000000 empty_disk claimed first_claim

claim_removed :
    (memory.rm claimed (lock_path (node_path memory plain prefix tea) (codes "e1"))).0 ≡ true
unfolding uri_to_agfs_path starts_with split_on text_eq
claim_removed = refl

abbrev tea_lock : Text
tea_lock = lock_path (node_path memory plain prefix tea) (codes "e1")

both_claim_example :
    ((w : Text) (g : Disk)
      → advance memory 300 5 tea_lock w
          (advance memory 300 5 tea_lock w start g).0
          (advance memory 300 5 tea_lock w start g).1
        ≡ (
          returned (try_acquire memory plain prefix event tea w 300 5 g).0,
          (try_acquire memory plain prefix event tea w 300 5 g).1,
        ))
    × ((try_acquire memory plain prefix event tea
          (codes "w2")
          300
          5
          (try_acquire memory plain prefix event tea (codes "w1") 300 5 empty_disk).1).0
        ≡ ok false)
    × ((s : System memory 300 5 tea_lock) × Reach memory 300 5 tea_lock
          (codes "w1")
          (codes "w2")
          (both_at_start memory 300 5 tea_lock empty_disk)
          s
        × (s.left ≡ returned (ok true))
        × (s.right ≡ returned (ok true)))
unfolding holds
both_claim_example =
    both_claim memory memory-laws plain prefix event tea 300 5 (codes "w1") (codes "w2") empty_disk
      (omega arith) refl (λ g w. refl)

abbrev stored : Disk
stored = record {
  contents =
      (event_path (node_path memory plain prefix tea) (codes "e1"), event_file (full_doc event))
      ∷ [];
  listings = [];
}

event_written : write_event memory plain prefix event tea empty_disk ≡ (ok tt, stored)
unfolding write_event parse_uri uri_to_agfs_path starts_with split_on text_eq contains
event_written = refl

write_event-read_example :
    memory.read stored (event_path (node_path memory plain prefix tea) (codes "e1"))
    ≡ some (event_file (full_doc event))
write_event-read_example =
    write_event-read memory memory-laws plain prefix event tea empty_disk stored event_written

write_event_confined_example :
    (q : List Text) × (node_path memory plain prefix tea ≡ prefix ++ below_accounts q)
    × All StaysDown q
write_event_confined_example =
    write_event_confined memory plain prefix event tea empty_disk stored event_written

abbrev working : Disk
working = record {
  contents =
      (event_path (node_path memory plain prefix tea) (codes "e1"), event_file (full_doc event))
      ∷ claimed.contents;
  listings = [];
}

abbrev behind : List Entry
behind = record { name = codes "old"; is_dir = true } ∷ []

put_back_waits_example :
    collect_outbox_events memory 8
      (put_back memory memory-laws plain prefix event tea 9 claimed)
      (outbox_dir (node_path memory plain prefix tea))
      ([] ++ file_entry (codes "e1") ∷ behind)
    ≡ []
unfolding increment_retry uri_to_agfs_path starts_with split_on text_eq contains
    collect_outbox_events
put_back_waits_example =
    put_back_waits memory memory-laws plain prefix event tea claimed 9 8 [] behind (λ e. cc) refl
      refl refl refl

-- A slug that decodes to a path at the root.
abbrev root_slug : Text → Text
root_slug _ = codes "/accounts/other"

abbrev step_of_w1 : Phase → Disk → Phase × Disk
step_of_w1 =
    advance memory 300 1000000 (lock_path (node_path memory plain prefix tea) (codes "e1"))
      (codes "w1")
