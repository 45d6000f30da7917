-- ===== src/Outbox/Memory.antt =====
-- An AGFS client over an association list, as an instance of the laws of `AgfsClient`.
use rtc_retrieval_token_cutt.Base.{
  ◌≡◌, ◌≢◌, refl, Bool, true, false, Option, none, some, List, [], ◌∷◌, Text, text_eq, text_eq_iff,
  arith, if◌then◌else◌,
}
use rtc_retrieval_token_cutt.Json.{is_some}
use rtc_retrieval_token_cutt.Outbox.Event.{Content}
use rtc_retrieval_token_cutt.Outbox.Client.{Entry, AgfsClient, AgfsLaws}

module _ {ℓ} {V : Type ℓ} where
  abbrev pub find_file : Text → List (Text × V) → Option V
  find_file p [] = none
  find_file p ((q, x) ∷ f) = let rest = find_file p f in if text_eq q p then some x else rest

  abbrev pub remove_file : Text → List (Text × V) → List (Text × V)
  remove_file p [] = []
  remove_file p ((q, x) ∷ f) =
      let rest = remove_file p f in if text_eq q p then rest else (q, x) ∷ rest

  find-remove :
      (p q : Text) (f : List (Text × V))
      → find_file q (remove_file p f) ≡ (if text_eq p q then none else find_file q f)
  find-remove p q [] = ground arith
  find-remove p q ((r, x) ∷ f) =
      ground (arith, find-remove p q f, text_eq_iff r p, text_eq_iff r q, text_eq_iff p q)

-- The contents of the files, and the listings of the directories.
pub record Disk : Type 0 where
  pub contents : List (Text × Content)
  pub listings : List (Text × List Entry)

abbrev pub disk_rename : Disk → Text → Text → Option Content → Bool × Disk
disk_rename d p q none = (false, d)
disk_rename d p q (some x) = (true, record d { contents = (q, x) ∷ remove_file p d.contents })

abbrev pub memory : AgfsClient
memory = record {
  Files = Disk;
  read = λ d p. find_file p d.contents;
  ls = λ d p. find_file p d.listings;
  write = λ d p x. (true, record d { contents = (p, x) ∷ d.contents });
  mkdir = λ d p. (true, d);
  rm = λ d p. (is_some (find_file p d.contents), record d { contents = remove_file p d.contents });
  rename = λ d p q. disk_rename d p q (find_file p d.contents);
}

rename-read :
    (d : Disk) (p q : Text) (o : Option Content)
    → (disk_rename d p q o).0 ≡ true
    → find_file q (disk_rename d p q o).1.contents ≡ o
rename-read d p q none h = absurd (cc)
rename-read d p q (some x) h = ground (arith, text_eq_iff q q)

rename-read_ne :
    (d : Disk) (p q r : Text) (o : Option Content)
    → p ≢ r
    → q ≢ r
    → find_file r (disk_rename d p q o).1.contents ≡ find_file r d.contents
rename-read_ne d p q r none h k = refl
rename-read_ne d p q r (some x) h k =
    ground (arith, text_eq_iff q r, text_eq_iff p r, find-remove p r d.contents)

pub memory-laws : AgfsLaws memory
memory-laws = record {
  read-write = λ d p x h. ground (arith, text_eq_iff p p);
  read-write_ne = λ d p q x h. ground (arith, text_eq_iff p q);
  read-mkdir = λ d p q. refl;
  read-rm = λ d p h. ground (arith, find-remove p p d.contents, text_eq_iff p p);
  read-rm_ne = λ d p q h. ground (arith, find-remove p q d.contents, text_eq_iff p q);
  read-rename = λ d p q. rename-read d p q (find_file p d.contents);
  read-rename_ne = λ d p q r. rename-read_ne d p q r (find_file p d.contents);
}
