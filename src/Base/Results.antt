-- ===== src/Base/Results.antt =====
-- Results of the service layer: a value or one of the package's errors. A transaction whose body
-- ends in an error is rolled back, so an error carries no state.
use mathlib.Core.Path.{◌≡◌, refl, ap}
use mathlib.Core.Bool.{Bool, true, false}
use mathlib.Core.Option.{Option, none, some}

-- `ErrNotFound`, `ErrConflict`, `ErrInvalid`, `ErrForbidden`, `ErrDependency` of the service,
-- `ErrImportBlocked`, `ErrLeaseLost`, `ErrNativeFinancialDisabled`, `malformed` for a payload or answer that cannot be read, and
-- `storage` for an error that the database driver returns, and `panicked` for a run-time panic, which ends
-- the request.
pub data Error : Type 0 where
  not_found conflict invalid forbidden dependency import_blocked lease_lost native_disabled
        malformed storage panicked :
      Error

pub data Result {ℓ} (A : Type ℓ) : Type ℓ where
  err : Error → Result A
  ok : A → Result A

-- `sql.ErrNoRows` as the error that the caller makes of it.
abbrev pub or_error {ℓ} : {A : Type ℓ} → Option A → Error → Result A
or_error none e = err e
or_error (some row) e = ok row

-- An early return with an error, under a condition and unless one holds.
abbrev pub fail_if : Bool → Error → Result (Unit {0})
fail_if false e = ok tt
fail_if true e = err e

abbrev pub guard : Bool → Error → Result (Unit {0})
guard false e = err e
guard true e = ok tt

-- A step after a step: the first error ends the transaction.
infixl 5 ◌>>=◌
abbrev pub ◌>>=◌ {ℓ κ} : {A : Type ℓ} {B : Type κ} → Result A → (A → Result B) → Result B
err e >>= next = err e
ok value >>= next = next value

pub ok-injective {ℓ} : {A : Type ℓ} {a b : A} → ok a ≡ ok b → a ≡ b
ok-injective h = cc

infixl 5 ◌>>◌
abbrev pub ◌>>◌ {ℓ} : {B : Type ℓ} → Result (Unit {0}) → Result B → Result B
check >> rest = check >>= λ _. rest

pub or_error-eq-ok {ℓ} :
    {A : Type ℓ} (o : Option A) (e : Error) {a : A} → or_error o e ≡ ok a → o ≡ some a
or_error-eq-ok none e h = cc
or_error-eq-ok (some a) e h = ap some (ok-injective h)

-- Where two steps succeed, the first has a value and the second succeeds on it.
pub >>=-eq-ok {ℓ κ} :
    {A : Type ℓ} {B : Type κ} (first : Result A) (next : A → Result B) {result : B}
    → (first >>= next) ≡ ok result
    → (value : A) × (first ≡ ok value) × (next value ≡ ok result)
>>=-eq-ok (err e) next h = cc
>>=-eq-ok (ok value) next h = (value, refl, h)
