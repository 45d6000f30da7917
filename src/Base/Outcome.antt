-- ===== src/Base/Outcome.antt =====
-- What a call that may raise comes to.
use mathlib.Core.Path.{◌≡◌, refl}
use mathlib.Core.Logic.{◌⊎◌, inl, inr}
use mathlib.Core.Bool.{Bool, true, false}

-- The exceptions that the modelled code raises itself or meets from the standard library.
pub data Error : Type 0 where
  value_error type_error attribute_error key_error index_error client_error access_denied
        node_not_found node_broken concurrent_modification validation_error :
      Error

pub data Result {ℓ} (A : Type ℓ) : Type ℓ where
  raised : (exception : Error) → Result A
  ok : (value : A) → Result A

-- `if not allowed: raise exception`
abbrev pub guard : (allowed : Bool) (exception : Error) → Result (Unit {0})
guard false exception = raised exception
guard true exception = ok tt

-- What follows a call runs on its value, unless the call has raised.
infixl 5 ◌>>=◌
abbrev pub ◌>>=◌ {ℓ κ} :
    {A : Type ℓ} {B : Type κ} (call : Result A) (next : A → Result B) → Result B
raised exception >>= next = raised exception
ok value >>= next = next value

infixl 5 ◌>>◌
abbrev pub ◌>>◌ {ℓ} : {B : Type ℓ} (call : Result (Unit {0})) (next : Result B) → Result B
call >> next = call >>= λ _. next

-- Where a call and what follows it return, the call has.
pub >>=-eq-ok {κ ℓ} :
    {B : Type ℓ} {A : Type κ} (call : Result A) (next : A → Result B) {end : B}
    → (call >>= next) ≡ ok end
    → (value : A) × (call ≡ ok value) × (next value ≡ ok end)
>>=-eq-ok (raised exception) next returned = cc
>>=-eq-ok (ok value) next returned = (value, refl, returned)

pub Result-cases {ℓ} :
    {A : Type ℓ} (call : Result A)
    → ((x : Error) × (call ≡ raised x)) ⊎ ((value : A) × (call ≡ ok value))
Result-cases (raised x) = inl (x, refl)
Result-cases (ok value) = inr (value, refl)

-- What holds of the value, where the call returns.
abbrev pub IfOk {ℓ κ} : {A : Type ℓ} (P : A → Type κ) → Result A → Type κ
IfOk P (raised exception) = Unit
IfOk P (ok value) = P value
