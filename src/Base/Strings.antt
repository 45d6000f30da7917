-- ===== src/Base/Strings.antt =====
-- Python's `str` as the list of its code points, and the methods of `str` that the program calls.
use Prim.Native.Nat.{ℕ}
use Prim.Native.Char.{code}
use Prim.Native.String.{String}
use mathlib.Core.Path.{◌≡◌, refl, ap₂}
use mathlib.Core.Bool.{Bool, true, false, ◌&&◌, ◌||◌}
use mathlib.Core.Logic.{◌↔◌}
use mathlib.Core.List.{List, [], ◌∷◌}
use native.Mathlib.Omega.{arith}
use rtc_retrieval_token_cutt.Base.Tests.{◌==◌, leb, if◌then◌else◌, ==_iff}

abbrev pub Text : Type 0
Text = List ℕ

-- A literal. `String` has its own `[]` and `∷`.
abbrev pub codes : String → Text
codes String.[] = []
codes (String.◌∷◌ c s) = code c ∷ codes s

abbrev pub is_empty {ℓ} : {A : Type ℓ} → List A → Bool
is_empty [] = true
is_empty (_ ∷ _) = false

-- s == t
unfoldable pub text_eq : Text → Text → Bool
text_eq [] [] = true
text_eq [] (y ∷ t) = false
text_eq (x ∷ s) [] = false
text_eq (x ∷ s) (y ∷ t) = x == y && text_eq s t

pub text_eq_sound : (s t : Text) → text_eq s t ≡ true → s ≡ t
unfolding text_eq
text_eq_sound [] [] h = refl
text_eq_sound [] (y ∷ t) h = cc
text_eq_sound (x ∷ s) [] h = cc
text_eq_sound (x ∷ s) (y ∷ t) h =
    ap₂ ◌∷◌ ((==_iff x y).0 (ground arith)) (text_eq_sound s t (ground arith))

pub text_eq_refl : (s : Text) → text_eq s s ≡ true
unfolding text_eq
text_eq_refl [] = refl
text_eq_refl (x ∷ s) = ground (arith, text_eq_refl s)

pub text_eq_iff : (s t : Text) → (text_eq s t ≡ true) ↔ (s ≡ t)
text_eq_iff s t = (text_eq_sound s t, λ e. rw e (text_eq_refl t))

-- s.startswith(p)
unfoldable pub starts_with : Text → Text → Bool
starts_with s [] = true
starts_with [] (y ∷ p) = false
starts_with (x ∷ s) (y ∷ p) = x == y && starts_with s p

-- p in s
unfoldable pub contains : Text → Text → Bool
unfolding starts_with
contains [] p = is_empty p
contains (x ∷ s) p = starts_with (x ∷ s) p || contains s p

-- s.endswith(p)
unfoldable pub ends_with : Text → Text → Bool
unfolding text_eq
ends_with [] p = is_empty p
ends_with (x ∷ s) p = text_eq (x ∷ s) p || ends_with s p

-- s.rstrip(c), for one character
unfoldable pub rstrip : ℕ → Text → Text
rstrip c [] = []
rstrip c (x ∷ s) = let rest = rstrip c s in if is_empty rest && x == c then [] else x ∷ rest

-- The head and the tail of what `split_at` leaves, with a character put in front of the head.
abbrev pub push_front : ℕ → List Text → List Text
push_front x [] = (x ∷ []) ∷ []
push_front x (s ∷ ss) = (x ∷ s) ∷ ss

-- s.split(c), for one character
unfoldable pub split_on : ℕ → Text → List Text
split_on c [] = [] ∷ []
split_on c (x ∷ s) = let rest = split_on c s in if x == c then [] ∷ rest else push_front x rest

-- The white space of str.strip() and str.isspace()
unfoldable pub is_space : ℕ → Bool
is_space c =
    (leb 9 c && leb c 13)
    || (leb 28 c && leb c 32)
    || c == 133
    || c == 160
    || c == 5760
    || (leb 8192 c && leb c 8202)
    || c == 8232
    || c == 8233
    || c == 8239
    || c == 8287
    || c == 12288

-- s.lstrip()
unfoldable pub lstrip_space : Text → Text
unfolding is_space
lstrip_space [] = []
lstrip_space (x ∷ s) = let rest = lstrip_space s in if is_space x then rest else x ∷ s

unfoldable pub rstrip_space : Text → Text
unfolding is_space
rstrip_space [] = []
rstrip_space (x ∷ s) =
    let rest = rstrip_space s in if is_empty rest && is_space x then [] else x ∷ rest

-- s.strip()
unfoldable pub strip : Text → Text
unfolding lstrip_space rstrip_space
strip s = lstrip_space (rstrip_space s)
