-- ===== src/Python/Outcome.antt =====
-- Calls that may raise, and methods that also change an object. What was written before a raise
-- stays written, so the state comes back beside the exception too.
use mathlib.Core.Path.{◌≡◌, refl, subst}
use mathlib.Core.Logic.{◌⊎◌, inl, inr}
use mathlib.Core.Bool.{Bool, true}
use iox2_jsonrpc.Base.{String}

-- `is_exception` is `isinstance(e, Exception)`: it is false of `KeyboardInterrupt`, which a handler
-- `except Exception` lets pass. `message` is `str(e)`.
pub record Exception : Type 0 where
  pub type_name : String
  pub message : String
  pub is_exception : Bool

abbrev pub error : String → String → Exception
error name text = record { type_name = name; message = text; is_exception = true }

pub data Outcome {ℓ} (A : Type ℓ) : Type ℓ where
  returned : A → Outcome A
  raised : Exception → Outcome A

infixl 5 ◌>>=◌
abbrev pub ◌>>=◌ {ℓ κ} : {A : Type ℓ} {B : Type κ} → Outcome A → (A → Outcome B) → Outcome B
returned a >>= f = f a
raised e >>= f = raised e

pub >>=-returned {ℓ κ} :
    {A : Type ℓ} {B : Type κ} (m : Outcome A) (f : A → Outcome B) {b : B}
    → (m >>= f) ≡ returned b
    → (a : A) × (m ≡ returned a) × (f a ≡ returned b)
>>=-returned (returned a) f h = (a, refl, h)
>>=-returned (raised e) f h = cc

pub Outcome-cases {ℓ} :
    {A : Type ℓ} (m : Outcome A) → ((a : A) × (m ≡ returned a)) ⊎ ((e : Exception) × (m ≡ raised e))
Outcome-cases (returned a) = inl (a, refl)
Outcome-cases (raised e) = inr (e, refl)

-- What is returned, if something is, has the property.
abbrev pub IfReturned {ℓ κ} : {A : Type ℓ} → (A → Type κ) → Outcome A → Type κ
IfReturned P (returned a) = P a
IfReturned P (raised e) = Unit

pub IfReturned-at {ℓ κ} :
    {A : Type ℓ} (P : A → Type κ) (m : Outcome A) {a : A} → IfReturned P m → m ≡ returned a → P a
IfReturned-at P m h e = subst (IfReturned P) e h

-- A call on an object whose state is an `S`.
abbrev pub Action : Type 0 → Type 0 → Type 0
Action S A = S → Outcome A × S
