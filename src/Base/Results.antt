-- ===== src/Base/Results.antt =====
-- Results of fallible Go code: `(A, error)` with the error non-nil, or the value.
use Prim.Native.String.{String}
use mathlib.Core.Path.{◌≡◌, refl}
use mathlib.Core.Logic.{◌⊎◌, inl, inr}
use mathlib.Core.Bool.{Bool, true, false}
use mathlib.Core.Option.{Option, none, some}

-- What the code can learn from an error: the sentinels that it tests with `errors.Is`, the two
-- interfaces that it tests with `errors.As`, and else the message's fixed text.
pub data Error : Type 0 where
  not_found no_rows no_task_context checkpoint_not_found native_unavailable : Error
  admission_conflict direct_admission_conflict invalid_admission : Error
  constraint : String → Error
  message : String → Error
  external : (attention_needed artifact_unavailable : Bool) → Error
  joined : Error → Error → Error

pub data Result {ℓ} (A : Type ℓ) : Type ℓ where
  ok : A → Result A
  err : Error → Result A

abbrev pub Done : Type 0
Done = Unit {0}

infixl 5 ◌>>=◌ ◌>>◌
abbrev pub ◌>>=◌ {ℓ κ} : {A : Type ℓ} {B : Type κ} → Result A → (A → Result B) → Result B
ok a >>= f = f a
err e >>= f = err e

abbrev pub ◌>>◌ {ℓ} : {B : Type ℓ} → Result Done → Result B → Result B
m >> k = m >>= λ _. k

-- `if test { return err }`
abbrev pub refuse_if : Bool → Error → Result Done
refuse_if true e = err e
refuse_if false e = ok tt

abbrev pub or_error {ℓ} : {A : Type ℓ} → Option A → Error → Result A
or_error none e = err e
or_error (some a) e = ok a

pub Result-cases {ℓ} :
    {A : Type ℓ} (r : Result A) → ((a : A) × (r ≡ ok a)) ⊎ ((e : Error) × (r ≡ err e))
Result-cases (ok a) = inl (a, refl)
Result-cases (err e) = inr (e, refl)
