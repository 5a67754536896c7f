-- ===== src/Common/Results.antt =====
-- Python's exceptions as values.
use Prim.Native.Nat.{ℕ}
use Prim.Native.String.{String}
use mathlib.Core.Path.{◌≡◌, refl, subst}
use mathlib.Core.Bool.{Bool, true, false}
use mathlib.Core.Option.{Option}

-- The exception classes that the modelled code raises or tells apart.
pub data Exc : Type 0 where
  value_error : String → Exc
  key_error type_error attribute_error os_error assertion_error : Exc
  recovery_required : String → Exc
  overflow_error : Exc
  git_error : String → Exc
  toolchain_unavailable : String → Exc
  gateway_error : Option ℕ → Option String → String → Exc

pub data Result {ℓ} (A : Type ℓ) : Type ℓ where
  ok : A → Result A
  err : Exc → Result A

-- `if not test: raise exc`
abbrev pub guard : (test : Bool) → (exc : Exc) → Result (Unit {0})
guard false exc = err exc
guard true exc = ok tt

-- The statements of a function: a call that binds what it returns, and a check.
infixl 5 ◌>>=◌ ◌>>◌
unfoldable pub ◌>>=◌ {ℓ κ} :
    {Found : Type ℓ} {Out : Type κ} → Result Found → (Found → Result Out) → Result Out
err exc >>= rest = err exc
ok found >>= rest = rest found

unfoldable pub ◌>>◌ {ℓ} : {Out : Type ℓ} → Result (Unit {0}) → Result Out → Result Out
err exc >> rest = err exc
ok passed >> rest = rest

pub guard_passed : (t : Bool) (e : Exc) → guard t e ≡ ok tt → t ≡ true
guard_passed true e h = refl
guard_passed false e h = cc

pub guard_holds : (t : Bool) (e : Exc) → t ≡ true → guard t e ≡ ok tt
guard_holds true e h = refl
guard_holds false e h = cc

-- `P` holds of the value, if there is one.
abbrev pub Ensures {ℓ κ} : {A : Type ℓ} → (A → Type κ) → Result A → Type κ
Ensures P (ok a) = P a
Ensures P (err e) = Unit

pub Ensures-eq-ok {ℓ κ} :
    {A : Type ℓ} (P : A → Type κ) (r : Result A) {a : A} → Ensures P r → r ≡ ok a → P a
Ensures-eq-ok P (ok b) h e = subst P (cc e) h
Ensures-eq-ok P (err x) h e = cc e

-- The rules for a chain: the rest may use that what stands before it returned.
pub Ensures-bind {ℓ κ μ} :
    {A : Type ℓ} {B : Type κ} (P : B → Type μ) (m : Result A) (f : A → Result B)
    → ((a : A) → m ≡ ok a → Ensures P (f a))
    → Ensures P (m >>= f)
unfolding ◌>>=◌
Ensures-bind P (ok a) f h = h a refl
Ensures-bind P (err e) f h = tt

pub Ensures-then {κ μ} :
    {B : Type κ} (P : B → Type μ) (m : Result (Unit {0})) (k : Result B)
    → (m ≡ ok tt → Ensures P k)
    → Ensures P (m >> k)
unfolding ◌>>◌
Ensures-then P (ok u) k h = h refl
Ensures-then P (err e) k h = tt

pub Ensures-map {ℓ κ μ} :
    {A : Type ℓ} (P : A → Type κ) (Q : A → Type μ) (r : Result A)
    → Ensures P r
    → ((a : A) → P a → Q a)
    → Ensures Q r
Ensures-map P Q (ok a) h k = k a h
Ensures-map P Q (err e) h k = tt

abbrev pub is_ok {ℓ} : {A : Type ℓ} → Result A → Bool
is_ok (ok a) = true
is_ok (err e) = false

pub is_ok-false {ℓ κ} :
    {A : Type ℓ} (P : A → Type κ) (r : Result A)
    → Ensures P r
    → ((a : A) → P a → true ≡ false)
    → is_ok r ≡ false
is_ok-false P (ok a) h k = k a h
is_ok-false P (err e) h k = refl

pub ok_injective {ℓ} : {A : Type ℓ} {a b : A} → ok a ≡ ok b → a ≡ b
ok_injective h = cc h

pub Ensures-guard {κ} :
    (P : Type κ) (t : Bool) (e : Exc) → (t ≡ true → P) → Ensures (λ u. P) (guard t e)
Ensures-guard P true e h = h refl
Ensures-guard P false e h = tt

pub ok_of {ℓ} : {A : Type ℓ} (r : Result A) → is_ok r ≡ true → (a : A) × (r ≡ ok a)
ok_of (ok a) h = (a, refl)
ok_of (err e) h = cc h
