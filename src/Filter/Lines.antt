-- ===== src/Filter/Lines.antt =====
-- What filter/core uses of Python's integers, slices and lines.
use rtc_retrieval_token_cutt.Base.{
  ℕ, zero, suc, ◌+◌, ◌-◌, ◌/◌, ◌%◌, Bool, false, ◌&&◌, ◌||◌, ◌==◌, leb, ltb, Option, none, some,
  List, [], ◌∷◌, ◌++◌, Text, push_front, length, take, drop, if◌then◌else◌,
}

pub data ℤ : Type 0 where
  pos : ℕ → ℤ
  negsuc : ℕ → ℤ

-- The difference of two natural numbers
abbrev pub minus_ℕ : ℕ → ℕ → ℤ
minus_ℕ a b = if leb b a then pos (a - b) else negsuc (b - a - 1)

infixl 6 ◌-ℤ◌
abbrev pub ◌-ℤ◌ : ℤ → ℤ → ℤ
pos a -ℤ pos b = minus_ℕ a b
pos a -ℤ negsuc b = pos (a + b + 1)
negsuc a -ℤ pos b = negsuc (a + b)
negsuc a -ℤ negsuc b = minus_ℕ b a

abbrev pub neg : ℤ → ℤ
neg z = pos 0 -ℤ z

abbrev pub min_ℤ : ℤ → ℤ → ℤ
min_ℤ (pos a) (pos b) = if leb a b then pos a else pos b
min_ℤ (pos a) (negsuc b) = negsuc b
min_ℤ (negsuc a) (pos b) = negsuc a
min_ℤ (negsuc a) (negsuc b) = if leb a b then negsuc b else negsuc a

abbrev pub is_positive : ℤ → Bool
is_positive (pos n) = ltb 0 n
is_positive (negsuc n) = false

module _ {ℓ} {A : Type ℓ} where
  -- xs[:n]
  abbrev pub slice_to : ℤ → List A → List A
  slice_to (pos n) xs = take n xs
  slice_to (negsuc n) xs = take (length xs - (n + 1)) xs

  -- xs[n:]
  abbrev pub slice_from : ℤ → List A → List A
  slice_from (pos n) xs = drop n xs
  slice_from (negsuc n) xs = drop (length xs - (n + 1)) xs

  abbrev pub last : List A → Option A
  last [] = none
  last (x ∷ xs) = let rest = last xs in elim rest [ none ↦ some x | some y ↦ some y ]

-- The characters that end a line for str.splitlines()
abbrev pub ends_line : ℕ → Bool
ends_line c = (leb 10 c && leb c 13) || (leb 28 c && leb c 30) || c == 133 || c == 8232 || c == 8233

-- s.splitlines(), on what follows a carriage return or not: a line feed behind one ends no line.
unfoldable pub lines_from : (after_cr : Bool) → Text → List Text
lines_from after_cr [] = []
lines_from after_cr (c ∷ s) =
    let rest = lines_from (c == 13) s in
    if after_cr && c == 10 then rest else if ends_line c then [] ∷ rest else push_front c rest

abbrev pub splitlines : Text → List Text
splitlines s = lines_from false s

-- "\n".join(lines)
unfoldable pub join_lines : List Text → Text
join_lines [] = []
join_lines (l ∷ []) = l
join_lines (l ∷ m ∷ ms) = l ++ 10 ∷ join_lines (m ∷ ms)

-- The digits of a number, which has fewer of them than `fuel`.
unfoldable pub digits : (fuel n : ℕ) → Text
digits zero n = []
digits (suc fuel) n =
    let rest = digits fuel (n / 10) in
    if ltb n 10 then (48 + n) ∷ [] else rest ++ (48 + n % 10) ∷ []

-- str(n)
abbrev pub decimal : ℕ → Text
decimal n = digits (suc n) n
