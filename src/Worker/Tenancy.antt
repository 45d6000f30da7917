-- ===== src/Worker/Tenancy.antt =====
-- The accounts of the records that `_extract_records` of index/outbox_worker.py passes on.
use rtc_retrieval_token_cutt.Base.{
  ◌≡◌, refl, Bool, true, false, Option, none, some, List, [], ◌∷◌, Text, codes, arith, text_eq_iff,
  Result, Error, ok, value_error, ap, subst, guard, All, >>=-eq-ok,
}
use rtc_retrieval_token_cutt.Json.{Json, obj, str, Fields, lookup_field, is_text, is_some, has_key}
use rtc_retrieval_token_cutt.Outbox.Event.{OutboxEvent, get_or}
use rtc_retrieval_token_cutt.Outbox.Register.{IndexRecord}
use rtc_retrieval_token_cutt.Worker.Extract.{
  get_item, expected_account, read_record, read_records, check_account, check_accounts, as_list,
  extract_records,
}

-- The record's filters are a dictionary, and its account is the given one.
pub record BelongsTo (account : Text) (r : IndexRecord) : Type 0 where
  pub fields : Fields
  pub is_dict : r.filters ≡ obj fields
  pub account_id : lookup_field (codes "account_id") fields ≡ some (str account)
  pub owner_space : (v : Json) × (lookup_field (codes "owner_space") fields ≡ some v)

record HasKeys (r : IndexRecord) : Type 0 where
  account : has_key (codes "account_id") r.filters ≡ ok true
  owner : has_key (codes "owner_space") r.filters ≡ ok true

pub ok-injective {ℓ} : {A : Type ℓ} {a b : A} → Result.ok a ≡ ok b → a ≡ b
ok-injective h = cc

read_record-HasKeys : (v : Json) {r : IndexRecord} → read_record v ≡ ok r → HasKeys r
unfolding read_record
read_record-HasKeys (obj fs) h = record { account = ground arith; owner = ground arith }
read_record-HasKeys v h = absurd (cc)

read_records-HasKeys :
    (vs : List Json) (rs : List IndexRecord) → read_records vs ≡ ok rs → All HasKeys rs
unfolding read_records
read_records-HasKeys [] rs h = subst (All HasKeys) (ok-injective h) tt
read_records-HasKeys (v ∷ vs) rs h =
    let (r, first, h') = >>=-eq-ok (read_record v) _ h in
    let (rs', rest, h'') = >>=-eq-ok (read_records vs) _ h' in
    subst (All HasKeys) (ok-injective h'')
      (read_record-HasKeys v first, read_records-HasKeys vs rs' rest)

text_value :
    (account : Text) (o : Option Json)
    → is_some o ≡ true
    → is_text account (get_or o (str [])) ≡ true
    → o ≡ some (str account)
unfolding is_text
text_value account none h k = absurd (cc)
text_value account (some (str s)) h k = ap (λ t. some (str t)) ((text_eq_iff s account).0 k)
text_value account (some _) h k = absurd (cc)

is_some-value {ℓ} : {A : Type ℓ} (o : Option A) → is_some o ≡ true → (a : A) × (o ≡ some a)
is_some-value none h = absurd (cc)
is_some-value (some a) h = (a, refl)

guard-eq-ok : (e : Error) (b : Bool) → guard b e ≡ ok tt → b ≡ true
guard-eq-ok e true h = refl
guard-eq-ok e false h = absurd (cc)

filters_fields :
    (account : Text) (filters : Json)
    → has_key (codes "account_id") filters ≡ ok true
    → has_key (codes "owner_space") filters ≡ ok true
    → check_account account filters ≡ ok tt
    → (fields : Fields) × (filters ≡ obj fields)
      × (lookup_field (codes "account_id") fields ≡ some (str account))
      × ((v : Json) × (lookup_field (codes "owner_space") fields ≡ some v))
unfolding check_account has_key
filters_fields account (obj fs) a o h = (
  fs,
  refl,
  text_value account (lookup_field (codes "account_id") fs) (ok-injective a)
      (guard-eq-ok value_error _ h),
  is_some-value (lookup_field (codes "owner_space") fs) (ok-injective o),
)
filters_fields account _ a o h = absurd (cc)

check_account-BelongsTo :
    (account : Text) (r : IndexRecord)
    → HasKeys r
    → check_account account r.filters ≡ ok tt
    → BelongsTo account r
check_account-BelongsTo account r k h =
    let (fields, is_dict, account_id, owner) =
      filters_fields account r.filters k.account k.owner h in
    record { fields = fields; is_dict = is_dict; account_id = account_id; owner_space = owner }

check_accounts-BelongsTo :
    (account : Text) (rs : List IndexRecord)
    → All HasKeys rs
    → check_accounts account rs ≡ ok tt
    → All (BelongsTo account) rs
unfolding check_accounts
check_accounts-BelongsTo account [] k h = tt
check_accounts-BelongsTo account (r ∷ rs) k h =
    let (u, here, there) = >>=-eq-ok (check_account account r.filters) _ h in
    (check_account-BelongsTo account r k.0 here, check_accounts-BelongsTo account rs k.1 there)

-- If the records of an event are read, the event's URI names an account, and every record is a
-- record of that account with an owner.
pub extract_records-BelongsTo :
    (event : OutboxEvent) (records : List IndexRecord)
    → extract_records event ≡ ok records
    → (account : Text) × (expected_account event.uri ≡ ok account) × All (BelongsTo account) records
unfolding extract_records
extract_records-BelongsTo event records h =
    let (b, _, h₁) = >>=-eq-ok (has_key (codes "records") event.payload) _ h in
    let (_, _, h₂) = >>=-eq-ok (guard b value_error) _ h₁ in
    let (listed, _, h₃) = >>=-eq-ok (get_item (codes "records") event.payload) _ h₂ in
    let (dicts, _, h₄) = >>=-eq-ok (as_list listed) _ h₃ in
    let (read, all_read, h₅) = >>=-eq-ok (read_records dicts) _ h₄ in
    let (account, named, h₆) = >>=-eq-ok (expected_account event.uri) _ h₅ in
    let (_, checked, h₇) = >>=-eq-ok (check_accounts account read) _ h₆ in
    (
      account,
      named,
      subst (All (BelongsTo account)) (ok-injective h₇) (
          check_accounts-BelongsTo account read (read_records-HasKeys dicts read all_read) checked),
    )
