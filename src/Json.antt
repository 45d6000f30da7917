-- ===== src/Json.antt =====
-- JSON documents as Python's `json.loads` returns them: the payloads of outbox events and the
-- dictionaries of index records. A float is the number that its 64 bits spell; no operation on
-- floats is modelled.
use rtc_retrieval_token_cutt.Base.{
  ℕ, ◌≡◌, refl, Bool, true, false, Option, none, some, List, [], ◌∷◌, arith, Text, text_eq,
  text_eq_iff, contains, Result, ok, raised, type_error, if◌then◌else◌,
}

mutual
  pub data Json : Type 0 where
    null : Json
    bool : Bool → Json
    num : ℕ → Json
    float : ℕ → Json
    str : Text → Json
    arr : Items → Json
    obj : Fields → Json

  pub data Items : Type 0 where
    nil : Items
    cons : Json → Items → Items

  pub data Fields : Type 0 where
    end : Fields
    field : Text → Json → Fields → Fields

-- d.get(key)
unfoldable pub lookup_field : Text → Fields → Option Json
lookup_field k end = none
lookup_field k (field j v fs) = let rest = lookup_field k fs in if text_eq j k then some v else rest

-- d[key] = value: an old key keeps its place, a new one goes last.
unfoldable pub set_field : Text → Json → Fields → Fields
set_field k v end = field k v end
set_field k v (field j w fs) =
    let rest = set_field k v fs in if text_eq j k then field j v fs else field j w rest

pub lookup_field-set_field :
    (k j : Text) (v : Json) (fs : Fields)
    → lookup_field j (set_field k v fs) ≡ (if text_eq k j then some v else lookup_field j fs)
unfolding lookup_field set_field
lookup_field-set_field k j v end = refl
lookup_field-set_field k j v (field i w fs) =
    ground
      (arith, text_eq_iff k j, text_eq_iff i k, text_eq_iff i j, lookup_field-set_field k j v fs)

-- v == text, for a text
unfoldable pub is_text : Text → Json → Bool
is_text t (str s) = text_eq s t
is_text t _ = false

unfoldable pub mem_items : Text → Items → Bool
unfolding is_text
mem_items t nil = false
mem_items t (cons v vs) = let rest = mem_items t vs in if is_text t v then true else rest

abbrev pub is_some {ℓ} : {A : Type ℓ} → Option A → Bool
is_some none = false
is_some (some _) = true

-- `key in value`, for whatever value stands there
unfoldable pub has_key : Text → Json → Result Bool
unfolding mem_items lookup_field
has_key k (obj fs) = ok (is_some (lookup_field k fs))
has_key k (arr vs) = ok (mem_items k vs)
has_key k (str s) = ok (contains s k)
has_key k _ = raised type_error

unfoldable pub items_list : Items → List Json
items_list nil = []
items_list (cons v vs) = v ∷ items_list vs

unfoldable pub to_items : List Json → Items
to_items [] = nil
to_items (v ∷ vs) = cons v (to_items vs)

pub items_list-to_items : (vs : List Json) → items_list (to_items vs) ≡ vs
unfolding items_list to_items
items_list-to_items [] = refl
items_list-to_items (v ∷ vs) = λ i. v ∷ items_list-to_items vs i
