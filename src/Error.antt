-- ===== src/Error.antt =====
-- bhwi-ffi/src/lib.rs: `HwiError`, the errors that cross the FFI, and the outcome of a call.
use bhwi_ffi.Prelude.{String, ◌≡◌, refl, Bool, true, false, Option, none, some}

pub data HwiError : Type 0 where
  device : String → HwiError
  user_refused auth_refused device_already_unlocked : HwiError
  invalid_input bad_state internal : String → HwiError

-- A Rust call returns `Ok` or `Err`, or it panics.
pub data Outcome {ℓ} (A : Type ℓ) : Type ℓ where
  ok : A → Outcome A
  err : HwiError → Outcome A
  panicked : Outcome A

infixl 5 ◌>>◌ ◌>>=◌
abbrev pub ◌>>=◌ {κ μ} : {R : Type κ} {S : Type μ} → Outcome R → (R → Outcome S) → Outcome S
panicked >>= next = panicked
err e >>= next = err e
ok r >>= next = next r

abbrev pub ◌>>◌ {κ μ} : {R : Type κ} {S : Type μ} → Outcome R → Outcome S → Outcome S
first >> second = first >>= λ r. second

-- `option.ok_or_else(|| e)?`, also for `map_err(|_| e)` on a result whose error is dropped.
abbrev pub or_err {ℓ} : {A : Type ℓ} → Option A → HwiError → Outcome A
or_err none e = err e
or_err (some a) e = ok a

-- `if !test { return Err(e) }`
abbrev pub require : Bool → HwiError → Outcome (Unit {0})
require true e = ok tt
require false e = err e

-- `if test { return Err(e) }`
abbrev pub reject_if : Bool → HwiError → Outcome (Unit {0})
reject_if true e = err e
reject_if false e = ok tt

abbrev pub is_bad_state : HwiError → Bool
is_bad_state (bad_state msg) = true
is_bad_state _ = false

-- Inversion of a bind that succeeds.
module _ {κ μ} {R : Type κ} {S : Type μ} where
  pub >>=-eq-ok :
      (step : Outcome R) (next : R → Outcome S) {s : S}
      → (step >>= next) ≡ ok s
      → (r : R) × (step ≡ ok r) × (next r ≡ ok s)
  >>=-eq-ok panicked next returns = cc
  >>=-eq-ok (err e) next returns = cc
  >>=-eq-ok (ok r) next returns = (r, refl, returns)

pub or_err-eq-ok {ℓ} :
    {A : Type ℓ} (o : Option A) (e : HwiError) {a : A} → or_err o e ≡ ok a → o ≡ some a
or_err-eq-ok none e h = cc
or_err-eq-ok (some a) e h = cc

pub reject_if-eq-ok : (b : Bool) (e : HwiError) {u : Unit {0}} → reject_if b e ≡ ok u → b ≡ false
reject_if-eq-ok true e h = cc
reject_if-eq-ok false e h = refl

pub require-eq-ok : (b : Bool) (e : HwiError) {u : Unit {0}} → require b e ≡ ok u → b ≡ true
require-eq-ok true e h = refl
require-eq-ok false e h = cc
