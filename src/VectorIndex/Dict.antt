-- ===== src/VectorIndex/Dict.antt =====
-- Python's `dict` with texts as keys, as the list of its items in their order.
use rtc_retrieval_token_cutt.Base.{
  ◌≡◌, refl, Option, none, some, List, [], ◌∷◌, Text, text_eq, text_eq_iff, arith, if◌then◌else◌,
  length, ◌+◌, Bool-cases, inl, inr,
}

module _ {ℓ} {V : Type ℓ} where
  -- d.get(k)
  abbrev pub get : Text → List (Text × V) → Option V
  get k [] = none
  get k ((j, v) ∷ d) = let rest = get k d in if text_eq j k then some v else rest

  -- d[k] = v: an old key keeps its place, a new one goes last.
  abbrev pub put : Text → V → List (Text × V) → List (Text × V)
  put k v [] = (k, v) ∷ []
  put k v ((j, w) ∷ d) = let rest = put k v d in if text_eq j k then (j, v) ∷ d else (j, w) ∷ rest

  -- d.pop(k, None)
  abbrev pub pop : Text → List (Text × V) → List (Text × V)
  pop k [] = []
  pop k ((j, w) ∷ d) = let rest = pop k d in if text_eq j k then d else (j, w) ∷ rest

  -- No key stands twice.
  abbrev pub HasDistinctKeys : List (Text × V) → Type ℓ
  HasDistinctKeys [] = Unit
  HasDistinctKeys ((k, v) ∷ d) = (get k d ≡ none) × HasDistinctKeys d

  pub get-put :
      (k j : Text) (v : V) (d : List (Text × V))
      → get j (put k v d) ≡ (if text_eq k j then some v else get j d)
  get-put k j v [] = refl
  get-put k j v ((i, w) ∷ d) =
      ground (arith, text_eq_iff k j, text_eq_iff i k, text_eq_iff i j, get-put k j v d)

  pub get-pop :
      (k j : Text) (d : List (Text × V))
      → HasDistinctKeys d
      → get j (pop k d) ≡ (if text_eq k j then none else get j d)
  get-pop k j [] h = ground arith
  get-pop k j ((i, w) ∷ d) h =
      ground (arith, h.0, text_eq_iff k j, text_eq_iff i k, text_eq_iff i j, get-pop k j d h.1)

  pub put-HasDistinctKeys :
      (k : Text) (v : V) (d : List (Text × V)) → HasDistinctKeys d → HasDistinctKeys (put k v d)
  put-HasDistinctKeys k v [] h = (refl, tt)
  put-HasDistinctKeys k v ((i, w) ∷ d) h = ground (
    arith,
    h.0,
    h.1,
    text_eq_iff i k,
    text_eq_iff k i,
    get-put k i v d,
    put-HasDistinctKeys k v d h.1,
  )

  pub pop-HasDistinctKeys :
      (k : Text) (d : List (Text × V)) → HasDistinctKeys d → HasDistinctKeys (pop k d)
  pop-HasDistinctKeys k [] h = tt
  pop-HasDistinctKeys k ((i, w) ∷ d) h =
      ground (arith, h.0, h.1, get-pop k i d h.1, pop-HasDistinctKeys k d h.1)

  pub length-pop :
      (k : Text) (v : V) (d : List (Text × V)) → get k d ≡ some v → length (pop k d) + 1 ≡ length d
  length-pop k v [] h = absurd (cc)
  length-pop k v ((i, w) ∷ d) h = ground (arith, length-pop k v d)

module _ {ℓ κ} {V : Type ℓ} {W : Type κ} where
  -- Two dictionaries with the same keys in the same order.
  abbrev pub SameKeys : List (Text × V) → List (Text × W) → Type 0
  SameKeys [] [] = Unit
  SameKeys [] (_ ∷ _) = ⊥
  SameKeys (_ ∷ _) [] = ⊥
  SameKeys ((j, _) ∷ d) ((k, _) ∷ e) = (j ≡ k) × SameKeys d e

  pub put-SameKeys :
      (k : Text) (v : V) (w : W) (d : List (Text × V)) (e : List (Text × W))
      → SameKeys d e
      → SameKeys (put k v d) (put k w e)
  put-SameKeys k v w [] [] h = (refl, tt)
  put-SameKeys k v w [] (_ ∷ _) h = absurd h
  put-SameKeys k v w (_ ∷ _) [] h = absurd h
  put-SameKeys k v w ((i, _) ∷ d) ((j, _) ∷ e) h =
      ground (arith, h.0, h.1, put-SameKeys k v w d e h.1)

  pub pop-SameKeys :
      (k : Text) (d : List (Text × V)) (e : List (Text × W))
      → SameKeys d e
      → SameKeys (pop k d) (pop k e)
  pop-SameKeys k [] [] h = tt
  pop-SameKeys k [] (_ ∷ _) h = absurd h
  pop-SameKeys k (_ ∷ _) [] h = absurd h
  pop-SameKeys k ((i, _) ∷ d) ((j, _) ∷ e) h = ground (arith, h.0, h.1, pop-SameKeys k d e h.1)

  pub get-SameKeys :
      (k : Text) (v : V) (d : List (Text × V)) (e : List (Text × W))
      → SameKeys d e
      → get k d ≡ some v
      → (w : W) × (get k e ≡ some w)
  get-SameKeys k v [] e h g = absurd (cc)
  get-SameKeys k v (_ ∷ _) [] h g = absurd h
  get-SameKeys k v ((i, _) ∷ d) ((j, w) ∷ e) h g = elim (Bool-cases (text_eq i k)) [
    | inl here ↦ (w, ground (arith, h.0, here))
    | inr there ↦
        let (w', eq) = get-SameKeys k v d e h.1 (ground (arith, there, g)) in
        (w', ground (arith, h.0, there, eq))
  ]
