-- ===== src/Worker/Samples.antt =====
-- Small cycles of the worker over a store that lists two events, and the theorems about it there.
use rtc_retrieval_token_cutt.Base.{
  ◌+◌, ◌≡◌, refl, true, false, some, List, [], ◌∷◌, ◌++◌, map, Text, codes, text_eq, starts_with,
  length, ok, raised, type_error, All, All-append, subst,
}
use rtc_retrieval_token_cutt.Json.{
  Json, num, str, arr, obj, nil, cons, end, field, Fields, set_field,
}
use rtc_retrieval_token_cutt.Outbox.Event.{OutboxEvent, aware, blank}
use rtc_retrieval_token_cutt.Outbox.Register.{IndexRecord}
use rtc_retrieval_token_cutt.Worker.Result.{default_config, no_stats}
use rtc_retrieval_token_cutt.Worker.Extract.{
  extract_records, as_dict, augment_with_embeddings, expected_account,
}
use rtc_retrieval_token_cutt.Worker.Services.{Services, CountsRetries}
use rtc_retrieval_token_cutt.Worker.Process.{Settled, Setup}
use rtc_retrieval_token_cutt.Worker.Run.{
  Item, Cycle, fresh_cycle, run_once, process_items, all_pending,
}
use rtc_retrieval_token_cutt.Worker.Tenancy.{BelongsTo, extract_records-BelongsTo, ok-injective}
use rtc_retrieval_token_cutt.Worker.Backoff.{fail_times, settle_failure, fail_times-retry_count}
use rtc_retrieval_token_cutt.Worker.Accounting.{StoreAnswers, HasDict, IsReadable, settled_count}
use rtc_retrieval_token_cutt.Worker.Books.{run_once_accounts}
use rtc_retrieval_token_cutt.Worker.Isolation.{TenantInvariant}
use rtc_retrieval_token_cutt.Worker.Isolation.Cycles.{run_once-keeps}
use rtc_retrieval_token_cutt.Worker.Twice.{process_items_twice}
use rtc_retrieval_token_cutt.Worker.Wiring.{Backends}

abbrev tea : Text
tea = codes "ctx://acme/users/u1/memories/cat/tea"

abbrev tea_filters : Fields
tea_filters =
    field (codes "account_id") (str (codes "acme"))
      (field (codes "owner_space") (str (codes "user:u1")) end)

abbrev tea_dict : Json
tea_dict = obj (
    field (codes "id") (str (codes "r0")) (
      field (codes "uri") (str tea) (
        field (codes "level") (num 0) (
          field (codes "text") (str (codes "tea"))
            (field (codes "filters") (obj tea_filters) end)))))

abbrev tea_record : IndexRecord
tea_record = record {
  id = str (codes "r0");
  uri = str tea;
  level = num 0;
  text = str (codes "tea");
  filters = obj tea_filters;
  metadata = obj end;
}

abbrev event_of_records : Json → OutboxEvent
event_of_records records = record {
  event_id = codes "e1";
  event_type = codes "UPSERT_CONTEXT";
  uri = tea;
  payload = obj (field (codes "records") records end);
  status = codes "PENDING";
  retry_count = 0;
  created_at = aware 7;
  next_retry_at = blank;
}

abbrev tea_event : OutboxEvent
tea_event = event_of_records (arr (cons tea_dict nil))

tea_extracted : extract_records tea_event ≡ ok (tea_record ∷ [])
unfolding extract_records starts_with text_eq
tea_extracted = refl

extract_records-BelongsTo_example :
    (account : Text) × (expected_account tea_event.uri ≡ ok account)
    × All (BelongsTo account) (tea_record ∷ [])
extract_records-BelongsTo_example =
    extract_records-BelongsTo tea_event (tea_record ∷ []) tea_extracted

-- A store that lists what it holds, an embedder that answers with empty vectors, and an index that
-- keeps every record.
abbrev services : Services
services = record {
  Store = List (Text × OutboxEvent);
  Index = List IndexRecord;
  list_pending = λ s account_id. some s;
  try_acquire = λ e uri w s. (ok true, s);
  mark_done = λ e uri s. [];
  move_to_dlq = λ e uri s. (ok tt, e, []);
  increment_retry = λ e uri t s. (ok tt, record e { retry_count = e.retry_count + 1 }, s);
  release = λ e uri s. s;
  embed_texts = λ ts. ok (map (λ _. []) ts);
  upsert = λ rs x. (ok tt, x ++ rs);
  delete = λ ids x. (ok tt, []);
  process_directory_event = λ e c x. (raised type_error, x);
  build_record_id = λ uri n. uri;
}

abbrev setup : Setup
setup = record { config = default_config; fs_and_llm = false; directory_summary_enabled = true }

services-answers : StoreAnswers services
services-answers = record {
  claims = λ e uri w s. (true, refl);
  buries = λ e uri s. refl;
  retries = λ e uri t s. refl;
}

services-counts : CountsRetries services
services-counts = record { incremented = λ e uri t s. refl; buried = λ e uri s. refl }

abbrev worn : Settled services
worn = fail_times services services-counts default_config tea (λ n. n) 5 tea_event [] no_stats

abbrev last : Settled services
last = settle_failure services services-counts default_config tea 9 worn.event worn.store worn.stats

fail_times-retry_count_example :
    (worn.event.retry_count ≡ 5)
    × (worn.stats.moved_to_dlq ≡ 0)
    × (last.outcome ≡ (services.move_to_dlq worn.event tea worn.store).0)
    × (last.store ≡ (services.move_to_dlq worn.event tea worn.store).2)
    × (last.stats.failed ≡ worn.stats.failed)
fail_times-retry_count_example =
    fail_times-retry_count services services-counts default_config tea (λ n. n) 9 5 tea_event []
      no_stats refl

abbrev tired : OutboxEvent
tired = record tea_event { retry_count = 5 }

abbrev pending : List (Text × OutboxEvent)
pending = (tea, tea_event) ∷ (tea, record tea_event { event_type = codes "DELETE_CONTEXT" }) ∷ []

tea_readable : (rs : List IndexRecord) → extract_records tea_event ≡ ok rs → All HasDict rs
unfolding extract_records starts_with text_eq as_dict
tea_readable rs h = subst (All HasDict) (ok-injective h) ((end, refl), tt)

pending-IsReadable :
    All IsReadable (all_pending services setup (λ s. 9) pending (codes "acme" ∷ []))
unfolding all_pending extract_records
pending-IsReadable = (tea_readable, (tea_readable, tt))

run_once_accounts_example :
    ((run_once services setup (λ s. 9) (codes "acme" ∷ []) (codes "w1") pending []).0 ≡ ok tt)
    × (settled_count
          (run_once services setup (λ s. 9) (codes "acme" ∷ []) (codes "w1") pending []).1.stats
        ≡ length (all_pending services setup (λ s. 9) pending (codes "acme" ∷ [])))
run_once_accounts_example =
    run_once_accounts services setup (λ s. 9) services-answers (codes "acme" ∷ []) (codes "w1")
      pending [] pending-IsReadable

abbrev HasAccount : IndexRecord → Type 0
HasAccount r = (account : Text) × BelongsTo account r

one_tenant-HasAccount :
    (account : Text) (rs : List IndexRecord) → All (BelongsTo account) rs → All HasAccount rs
one_tenant-HasAccount account [] h = tt
one_tenant-HasAccount account (r ∷ rs) h = ((account, h.0), one_tenant-HasAccount account rs h.1)

services-invariant : TenantInvariant services (All HasAccount)
services-invariant = record {
  upserts =
      λ rs x (account, all) h. All-append HasAccount x rs h (one_tenant-HasAccount account rs all);
  deletes = λ ids x h. tt;
  directories = λ e c x h. h;
}

run_once-keeps_example :
    All HasAccount
      (run_once services setup (λ s. 9) (codes "acme" ∷ []) (codes "w1") pending []).1.index
run_once-keeps_example =
    run_once-keeps services setup (λ s. 9) (All HasAccount) services-invariant (codes "acme" ∷ [])
      (codes "w1") pending [] tt

abbrev item_of : Json → Item
item_of metadata = record {
  event = tea_event;
  node_uri = tea;
  records = record tea_record { metadata = metadata } ∷ [];
}

abbrev idle : Cycle services setup (λ s. 9)
idle = fresh_cycle services setup (λ s. 9) [] []

abbrev embedded_record : IndexRecord
embedded_record = record tea_record { metadata = obj (field (codes "_embedding") (arr nil) end) }

process_items_twice_example :
    let r = process_items services setup (λ s. 9) (item_of (obj end) ∷ item_of (num 3) ∷ []) idle in
    (r.0 ≡ ok tt)
    × (settled_count r.1.stats ≡ settled_count idle.stats + 3)
    × (r.1.stats.processed ≡ idle.stats.processed + 4)
    × (r.1.stats.succeeded ≡ idle.stats.succeeded + 1)
unfolding augment_with_embeddings as_dict set_field
process_items_twice_example =
    process_items_twice services setup (λ s. 9) services-answers (item_of (obj end))
      (item_of (num 3)) idle ([] ∷ [] ∷ []) (embedded_record ∷ []) type_error refl refl refl refl

abbrev backends : Backends
backends = record {
  Index = List IndexRecord;
  embed_texts = services.embed_texts;
  upsert = services.upsert;
  delete = services.delete;
  process_directory_event = services.process_directory_event;
  build_record_id = services.build_record_id;
}
