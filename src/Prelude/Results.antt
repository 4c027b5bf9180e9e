-- ===== src/Prelude/Results.antt =====
-- The exceptions that the addons raise, and the calls that may raise them. An exception ends the
-- transaction, so a failed call has no state to return.
use Prim.Native.Nat.{ℕ}
use mathlib.Core.Path.{◌≡◌, refl}
use mathlib.Core.Bool.{Bool, true, false}
use mathlib.Core.Option.{Option, none, some}

-- The first three are Odoo's `ValidationError`, `UserError` and `MissingError`; `sql_error` is a
-- refusal of the database, `http_error` the error of a status; the others are Python's own.
pub data Error : Type 0 where
  validation_error user_error missing_error assertion_error type_error : Error
  key_error index_error value_error name_error attribute_error connection_error : Error
  sql_error : Error
  http_error : ℕ → Error

pub data Result {ℓ} (V : Type ℓ) : Type ℓ where
  err : Error → Result V
  ok : V → Result V

-- a call that raises or returns nothing
abbrev pub Check : Type 0
Check = Result (Unit {0})

-- `if b: raise e`
abbrev pub raise_if : Bool → Error → Check
raise_if true e = err e
raise_if false e = ok tt

infixl 5 ◌>>=◌
abbrev pub ◌>>=◌ {κ ℓ} : {W : Type κ} {V : Type ℓ} → Result V → (V → Result W) → Result W
err e >>= next = err e
ok value >>= next = next value

infixl 5 ◌>>◌
abbrev pub ◌>>◌ {κ} : {W : Type κ} → Check → Result W → Result W
check >> next = check >>= λ done. next

-- What a successful chain ran: the value of its first call, and the rest from there.
pub record Ran {ℓ κ} {V : Type ℓ} {W : Type κ} (call : Result V) (next : V → Result W) (w : W)
    : Type (ℓ ⊔ κ) where
  pub value : V
  pub called : call ≡ ok value
  pub rest : next value ≡ ok w

pub ran {ℓ κ} :
    {V : Type ℓ} {W : Type κ} {w : W} (call : Result V) (next : V → Result W)
    → (call >>= next) ≡ ok w
    → Ran call next w
ran (err e) next h = cc
ran (ok v) next h = record { value = v; called = refl; rest = h }

pub check_ran {κ} :
    {W : Type κ} {w : W} (check : Check) (next : Result W)
    → (check >> next) ≡ ok w
    → (check ≡ ok tt) × (next ≡ ok w)
check_ran (err e) next h = cc
check_ran (ok tt) next h = (refl, h)

pub ok_inj {ℓ} : {A : Type ℓ} {a b : A} → ok a ≡ ok b → a ≡ b
ok_inj h = cc

abbrev pub returned {ℓ} : {A : Type ℓ} → Result A → Bool
returned (ok a) = true
returned (err e) = false

-- A record that is to be read.
abbrev pub or_missing {ℓ} : {A : Type ℓ} → Option A → Result A
or_missing none = err missing_error
or_missing (some a) = ok a

pub or_missing-found {ℓ} : {A : Type ℓ} (o : Option A) (a : A) → or_missing o ≡ ok a → o ≡ some a
or_missing-found none a h = cc
or_missing-found (some b) a h = cc
