-- ===== src/Nodes/Memory.antt =====
-- Files of nodes in an association list, with bytes that say what they are the bytes of.
use rtc_retrieval_token_cutt.Base.{
  ◌≡◌, refl, true, false, Option, none, some, List, [], ◌∷◌, Text, codes, text_eq, text_eq_iff,
  starts_with, length, drop, if◌then◌else◌, ◌++◌, ==_iff, Bool-cases, inl, inr, ap, arith, Result,
  ok, raised, value_error,
}
use rtc_retrieval_token_cutt.Json.{Fields}
use rtc_retrieval_token_cutt.Outbox.Memory.{find_file}
use rtc_retrieval_token_cutt.Nodes.Tree.{removed, TreeClient}
use rtc_retrieval_token_cutt.Nodes.Present.{TreeLaws}
use rtc_retrieval_token_cutt.Nodes.Files.{
  RelationEdge, Codec, CodecLaws, Read, found, missing, made, NodeClient, NodeLaws,
}

-- Bytes that say what they are the bytes of.
pub data Stored : Type 0 where
  words : Text → Stored
  facts : Fields → Stored
  edges : List RelationEdge → Stored

abbrev pub words_of : Stored → Result Text
words_of (words t) = ok t
words_of _ = raised value_error

abbrev pub facts_of : Stored → Result Fields
facts_of (facts fs) = ok fs
facts_of _ = raised value_error

abbrev pub edges_of : Stored → Result (List RelationEdge)
edges_of (edges rs) = ok rs
edges_of _ = raised value_error

abbrev pub codec : Codec
codec = record {
  Bytes = Stored;
  encode = words;
  decode = words_of;
  is_blank = λ b. false;
  dump_meta = facts;
  load_meta = facts_of;
  dump_relations = edges;
  load_relations = edges_of;
}

pub codec-laws : CodecLaws codec
codec-laws = record {
  decode-encode = λ t. refl;
  load-dump_meta = λ fs. refl;
  is_blank-dump_relations = λ rs. refl;
  load-dump_relations = λ rs. refl;
}

abbrev pub read_of : Option Stored → Read Stored
read_of none = missing
read_of (some x) = found x

abbrev pub files : NodeClient Stored
files = record {
  Files = List (Text × Stored);
  read = λ f p. read_of (find_file p f);
  write = λ f p x. (true, (p, x) ∷ f);
  mkdir = λ f p. (made, f);
}

pub files-laws : NodeLaws files
files-laws = record {
  read-write = λ f p x h. ground (arith, text_eq_iff p p);
  read-write_ne = λ f p q x h. ground (arith, text_eq_iff p q);
  read-mkdir = λ f p q. refl;
}

abbrev pub below : Text → List (Text × Stored) → List (Text × Stored)
below p [] = []
below p ((r, x) ∷ f) = let rest = below p f in if starts_with r p then rest else (r, x) ∷ rest

abbrev pub renamed : (p q : Text) → List (Text × Stored) → List (Text × Stored)
renamed p q [] = []
renamed p q ((r, x) ∷ f) =
    let rest = renamed p q f in
    if starts_with r p
    then (q ++ drop (length p) r, x) ∷ rest
    else if starts_with r q
    then rest
    else (r, x) ∷ rest

abbrev pub tree : TreeClient files
tree = record {
  ls = λ f p. some (record { name = codes "tea"; is_dir = true } ∷ []);
  rm = λ f p. (removed, below p f);
  mv = λ f p q. (true, renamed p q f);
}

starts_with-append : (p s : Text) → starts_with (p ++ s) p ≡ true
unfolding starts_with
starts_with-append [] s = refl
starts_with-append (x ∷ p) s = ground (arith, starts_with-append p s)

append-drop : (r p : Text) → starts_with r p ≡ true → p ++ drop (length p) r ≡ r
unfolding starts_with
append-drop r [] h = refl
append-drop [] (y ∷ p) h = absurd (cc)
append-drop (x ∷ r) (y ∷ p) h = ground (arith, append-drop r p (ground arith), ==_iff x y)

text_eq-prefix : (p a b : Text) → text_eq (p ++ a) (p ++ b) ≡ text_eq a b
unfolding text_eq
text_eq-prefix [] a b = refl
text_eq-prefix (x ∷ p) a b = ground (arith, text_eq-prefix p a b)

-- A text that does not begin with the prefix is no text that does.
text_eq-apart : (r p s : Text) → starts_with r p ≡ false → text_eq r (p ++ s) ≡ false
unfolding text_eq starts_with
text_eq-apart r [] s h = absurd (cc)
text_eq-apart [] (y ∷ p) s h = refl
text_eq-apart (x ∷ r) (y ∷ p) s h = ground (arith, text_eq-apart r p s)

find-below : (p s : Text) (f : List (Text × Stored)) → find_file (p ++ s) (below p f) ≡ none
find-below p s [] = refl
find-below p s ((r, x) ∷ f) = ground (arith, find-below p s f, text_eq-apart r p s)

find-renamed :
    (p q s : Text) (f : List (Text × Stored))
    → find_file (q ++ s) (renamed p q f) ≡ find_file (p ++ s) f
find-renamed p q s [] = refl
find-renamed p q s ((r, x) ∷ f) = elim (Bool-cases (starts_with r p)) [
  | inl a ↦ rw a (
      ground (
        arith,
        find-renamed p q s f,
        text_eq-prefix q (drop (length p) r) s,
        text_eq-prefix p (drop (length p) r) s,
        append-drop r p a,
      ))
  | inr a ↦ ground (arith, a, find-renamed p q s f, text_eq-apart r p s, text_eq-apart r q s)
]

pub tree-laws : TreeLaws tree
tree-laws = record {
  read-rm = λ f p s h. ap read_of (find-below p s f);
  read-mv = λ f p q s h. ap read_of (find-renamed p q s f);
}
