-- ===== src/Prelude/Results.antt =====
-- Fallible Python code: a value, or the exception that was raised. A message keeps the constant
-- part of the source's text.
use Prim.Native.String.{String}
use mathlib.Core.Path.{◌≡◌, refl, ap, ◌∙◌}
use mathlib.Core.Bool.{Bool, true, false}
use mathlib.Core.Logic.{◌⊎◌, inl, inr}
use mathlib.Core.Option.{Option, none, some}
use mathlib.Core.List.{List, [], ◌∷◌}
use doris_ducklake.Prelude.Lists.{All}

pub data Error : Type 0 where
  value_error : String → Error
  runtime_error : String → Error
  key_error : Error
  attribute_error : Error
  os_error : Error
  type_error : Error
  index_error : Error
  subprocess_error : Error

pub data Result {ℓ} (A : Type ℓ) : Type ℓ where
  err : Error → Result A
  ok : A → Result A

-- A statement that returns nothing, or raises.
abbrev pub Guard : Type 0
Guard = Result (Unit {0})

infixl 5 ◌>>=◌ ◌>>◌
abbrev pub ◌>>=◌ {ℓ κ} : {A : Type ℓ} {B : Type κ} → Result A → (A → Result B) → Result B
err raised >>= next = err raised
ok value >>= next = next value

abbrev pub ◌>>◌ {ℓ} : {B : Type ℓ} → Guard → Result B → Result B
guarded >> rest = guarded >>= λ _. rest

-- `require(condition, message)` of compose/plugin_preflight.py.
abbrev pub require : Bool → String → Guard
require true message = ok tt
require false message = err (value_error message)

-- `d[k]` on a key that may be missing.
abbrev pub or_key_error {ℓ} : {A : Type ℓ} → Option A → Result A
or_key_error none = err key_error
or_key_error (some a) = ok a

module _ {ℓ κ} {A : Type ℓ} {B : Type κ} where
  pub >>=-eq-ok :
      (first : Result A) (next : A → Result B) {result : B}
      → (first >>= next) ≡ ok result
      → (value : A) × (first ≡ ok value) × (next value ≡ ok result)
  >>=-eq-ok (err raised) next h = cc
  >>=-eq-ok (ok value) next h = (value, refl, h)

-- A `for` loop that only raises.
abbrev pub for_each {ℓ} : {A : Type ℓ} → (A → Guard) → List A → Guard
for_each f [] = ok tt
for_each f (x ∷ xs) = f x >> for_each f xs

pub require-eq-ok : (c : Bool) (m : String) {u : Unit {0}} → require c m ≡ ok u → c ≡ true
require-eq-ok true m h = refl
require-eq-ok false m h = cc

pub require->>-eq-ok {ℓ} :
    {B : Type ℓ} (c : Bool) (m : String) (k : Result B) {b : B}
    → (require c m >> k) ≡ ok b
    → (c ≡ true) × (k ≡ ok b)
require->>-eq-ok true m k h = (refl, h)
require->>-eq-ok false m k h = cc

pub ok_injective {ℓ} : {A : Type ℓ} {a b : A} → ok a ≡ ok b → a ≡ b
ok_injective h = cc

pub for_each-All {ℓ κ} :
    {A : Type ℓ} {f : A → Guard} {P : A → Type κ}
    → ((x : A) → f x ≡ ok tt → P x)
    → (xs : List A) → for_each f xs ≡ ok tt
    → All P xs
for_each-All rule [] h = tt
for_each-All {f = f} rule (x ∷ xs) h =
    let (_, now, later) = >>=-eq-ok (f x) _ h in (rule x now, for_each-All rule xs later)

pub Result-cases {ℓ} :
    {A : Type ℓ} (r : Result A) → ((e : Error) × (r ≡ err e)) ⊎ ((a : A) × (r ≡ ok a))
Result-cases (err e) = inl (e, refl)
Result-cases (ok a) = inr (a, refl)

-- The same steps forwards.
pub >>=-ok {ℓ κ} :
    {A : Type ℓ} {B : Type κ} {first : Result A} {value : A} (next : A → Result B)
    {result : Result B}
    → first ≡ ok value
    → next value ≡ result
    → (first >>= next) ≡ result
>>=-ok next e h = ap (λ r. r >>= next) e ∙ h

pub require->>-ok {ℓ} :
    {B : Type ℓ} {c : Bool} (m : String) {k result : Result B}
    → c ≡ true
    → k ≡ result
    → (require c m >> k) ≡ result
require->>-ok {c = true} m e h = h
require->>-ok {c = false} m e h = cc

pub or_key_error-eq-ok {ℓ} :
    {A : Type ℓ} (o : Option A) {a : A} → or_key_error o ≡ ok a → o ≡ some a
or_key_error-eq-ok none h = cc
or_key_error-eq-ok (some b) h = ap some (ok_injective h)

-- `a and b`, where the second is read only if the first holds.
abbrev pub and_then : Bool → Result Bool → Result Bool
and_then true later = later
and_then false later = ok false

pub and_then-eq-true :
    (b : Bool) (later : Result Bool) → and_then b later ≡ ok true → (b ≡ true) × (later ≡ ok true)
and_then-eq-true true later h = (refl, h)
and_then-eq-true false later h = cc
