-- ===== src/VectorIndex/Records.antt =====
-- What the records of the index in providers/vector_index/in_memory_index.py are after upserts and
-- deletes.
use rtc_retrieval_token_cutt.Base.{
  ℕ, ◌+◌, ◌≡◌, refl, Bool, false, not, ◌||◌, Option, none, some, List, [], ◌∷◌, Text, text_eq,
  text_eq_iff, arith, length, keep_if, if◌then◌else◌, ap, ◌∙◌,
}
use rtc_retrieval_token_cutt.VectorIndex.Dict.{
  get, put, pop, HasDistinctKeys, get-put, get-pop, put-HasDistinctKeys, pop-HasDistinctKeys,
  SameKeys, put-SameKeys, pop-SameKeys,
}
use rtc_retrieval_token_cutt.VectorIndex.Index.{
  IndexRecord, FloatOps, VectorIndex, vector_of, upsert, delete, get_record, count, chosen_keys,
  delete_chosen, of_account, of_owner, delete_account_data, delete_by_owner_space,
}

-- No id stands twice, and each record has its vector.
pub record IsIndex (x : VectorIndex) : Type 0 where
  pub distinct : HasDistinctKeys x.records
  pub same_keys : SameKeys x.records x.vectors

abbrev pub or_else {ℓ} : {A : Type ℓ} → Option A → Option A → Option A
or_else none o = o
or_else (some a) o = some a

-- The last record of a list with an id.
abbrev pub newest : Text → List IndexRecord → Option IndexRecord
newest k [] = none
newest k (r ∷ rs) = or_else (newest k rs) (if text_eq r.id k then some r else none)

module _ (ops : FloatOps) (digest : Text → ℕ) where
  pub upsert-IsIndex :
      (rs : List IndexRecord) (x : VectorIndex) → IsIndex x → IsIndex (upsert ops digest rs x)
  unfolding upsert
  upsert-IsIndex [] x h = h
  upsert-IsIndex (r ∷ rs) x h = upsert-IsIndex rs _ (record {
    distinct = put-HasDistinctKeys r.id r x.records h.distinct;
    same_keys =
        put-SameKeys r.id r (vector_of ops digest x.dimension r) x.records x.vectors h.same_keys;
  })

  -- After an upsert an id leads to the last of the given records that has it, and to what it led to
  -- before where none has it.
  pub get_record-upsert :
      (k : Text) (rs : List IndexRecord) (x : VectorIndex)
      → get_record k (upsert ops digest rs x) ≡ or_else (newest k rs) (get_record k x)
  unfolding upsert
  get_record-upsert k [] x = refl
  get_record-upsert k (r ∷ rs) x =
      let x₁ : VectorIndex = record x {
        records = put r.id r x.records;
        vectors = put r.id (vector_of ops digest x.dimension r) x.vectors;
      } in
      get_record-upsert k rs x₁
      ∙ ap (or_else (newest k rs)) (get-put r.id k r x.records)
      ∙ pick (newest k rs)
    where
      pick :
          (o : Option IndexRecord)
          → or_else o (if text_eq r.id k then some r else get_record k x)
            ≡ or_else (or_else o (if text_eq r.id k then some r else none)) (get_record k x)
      pick none = ground arith
      pick (some s) = refl

  -- Upserting the same records again changes no record.
  pub upsert-upsert :
      (k : Text) (rs : List IndexRecord) (x : VectorIndex)
      → get_record k (upsert ops digest rs (upsert ops digest rs x))
        ≡ get_record k (upsert ops digest rs x)
  upsert-upsert k rs x =
      rw (get_record-upsert k rs (upsert ops digest rs x), get_record-upsert k rs x)
        (absorbed (newest k rs))
    where
      absorbed :
          (o : Option IndexRecord)
          → or_else o (or_else o (get_record k x)) ≡ or_else o (get_record k x)
      absorbed none = refl
      absorbed (some s) = refl

pub delete-IsIndex : (is : List Text) (x : VectorIndex) → IsIndex x → IsIndex (delete is x)
unfolding delete
delete-IsIndex [] x h = h
delete-IsIndex (i ∷ is) x h = delete-IsIndex is _ (record {
  distinct = pop-HasDistinctKeys i x.records h.distinct;
  same_keys = pop-SameKeys i x.records x.vectors h.same_keys;
})

abbrev pub is_listed : Text → List Text → Bool
is_listed k [] = false
is_listed k (i ∷ is) = text_eq i k || is_listed k is

-- In a well-formed index a delete removes exactly the records with the given ids.
pub get_record-delete :
    (k : Text) (is : List Text) (x : VectorIndex)
    → IsIndex x
    → get_record k (delete is x) ≡ (if is_listed k is then none else get_record k x)
unfolding delete
get_record-delete k [] x h = refl
get_record-delete k (i ∷ is) x h =
    let x₁ : VectorIndex = record x { records = pop i x.records; vectors = pop i x.vectors } in
    let rest = get_record-delete k is x₁ (record {
      distinct = pop-HasDistinctKeys i x.records h.distinct;
      same_keys = pop-SameKeys i x.records x.vectors h.same_keys;
    }) in
    rest ∙ ground (arith, get-pop i k x.records h.distinct)

delete-skips :
    (p : IndexRecord → Bool) (k : Text) (d : List (Text × IndexRecord))
    → get k d ≡ none
    → is_listed k (chosen_keys p d) ≡ false
delete-skips p k [] h = refl
delete-skips p k ((j, r) ∷ d) h = ground (arith, delete-skips p k d)

abbrev pops : List Text → List (Text × IndexRecord) → List (Text × IndexRecord)
pops [] d = d
pops (i ∷ is) d = pops is (pop i d)

delete-records : (is : List Text) (x : VectorIndex) → (delete is x).records ≡ pops is x.records
unfolding delete
delete-records [] x = refl
delete-records (i ∷ is) x = delete-records is _

pops-other :
    (is : List Text) (k : Text) (r : IndexRecord) (d : List (Text × IndexRecord))
    → is_listed k is ≡ false
    → pops is ((k, r) ∷ d) ≡ (k, r) ∷ pops is d
pops-other [] k r d h = refl
pops-other (i ∷ is) k r d h =
    ground (arith, text_eq_iff i k, text_eq_iff k i, pops-other is k r (pop i d))

abbrev pub unchosen : (IndexRecord → Bool) → Text × IndexRecord → Bool
unchosen p (k, r) = not (p r)

pops-chosen :
    (p : IndexRecord → Bool) (d : List (Text × IndexRecord))
    → HasDistinctKeys d
    → pops (chosen_keys p d) d ≡ keep_if (unchosen p) d
pops-chosen p [] h = refl
pops-chosen p ((k, r) ∷ d) h = ground (
  arith,
  h.0,
  text_eq_iff k k,
  pops-chosen p d h.1,
  pops-other (chosen_keys p d) k r d,
  delete-skips p k d h.0,
)

length-chosen :
    (p : IndexRecord → Bool) (d : List (Text × IndexRecord))
    → length (chosen_keys p d) + length (keep_if (unchosen p) d) ≡ length d
length-chosen p [] = omega arith
length-chosen p ((k, r) ∷ d) = ground (arith, length-chosen p d)

-- What a deletion of all records that pass a test leaves.
pub record Deletes (p : IndexRecord → Bool) (x : VectorIndex) (r : ℕ × VectorIndex) : Type 0 where
  pub records : r.1.records ≡ keep_if (unchosen p) x.records
  pub counted : r.0 + count r.1 ≡ count x
  pub index : IsIndex r.1

delete_chosen-Deletes :
    (p : IndexRecord → Bool) (x : VectorIndex) → IsIndex x → Deletes p x (delete_chosen p x)
unfolding delete_chosen
delete_chosen-Deletes p x h =
    let left = delete-records (chosen_keys p x.records) x ∙ pops-chosen p x.records h.distinct in
    record {
      records = left;
      counted = omega (arith, ap length left, length-chosen p x.records);
      index = delete-IsIndex (chosen_keys p x.records) x h;
    }

-- Deleting an account from a well-formed index keeps the records of the other accounts in their
-- order and no other, returns how many are gone, and leaves a well-formed index.
pub delete_account_data-Deletes :
    (account_id : Text) (x : VectorIndex)
    → IsIndex x
    → Deletes (of_account account_id) x (delete_account_data account_id x)
unfolding delete_account_data
delete_account_data-Deletes account_id x h = delete_chosen-Deletes (of_account account_id) x h

-- Deleting an owner's records does the same, for the records with both the account and the owner.
pub delete_by_owner_space-Deletes :
    (account_id owner_space : Text) (x : VectorIndex)
    → IsIndex x
    → Deletes (of_owner account_id owner_space) x (delete_by_owner_space account_id owner_space x)
unfolding delete_by_owner_space
delete_by_owner_space-Deletes account_id owner_space x h =
    delete_chosen-Deletes (of_owner account_id owner_space) x h
