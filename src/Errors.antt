-- ===== src/Errors.antt =====
-- backend/internal/app/app.go: `AppError` by its constructors, and results that may be one. The
-- messages are left out.
use cpa_helper_s.Prelude.{◌≡◌, refl, if◌then◌else◌, Bool, true, false}

pub data AppError : Type 0 where
  authentication forbidden not_found conflict validation rate_limit : AppError
  gateway_timeout bad_gateway internal : AppError

-- What a Go function returns with an error: the error, or else its value.
pub data Result {κ} (V : Type κ) : Type κ where
  err : AppError → Result V
  ok : V → Result V

-- `if err != nil { return err }`.
abbrev pub then_do {κ ρ} : {V : Type κ} {W : Type ρ} → (V → Result W) → Result V → Result W
then_do next (err failure) = err failure
then_do next (ok value) = next value

infixl 5 ◌>>=◌ ◌>>◌
abbrev pub ◌>>=◌ {κ ρ} : {V : Type κ} {W : Type ρ} → Result V → (V → Result W) → Result W
result >>= next = then_do next result

abbrev pub ◌>>◌ {ρ} : {W : Type ρ} → Result (Unit {0}) → Result W → Result W
check >> rest = then_do (λ u. rest) check

-- An error unless the test holds.
abbrev pub require : Bool → AppError → Result (Unit {0})
require passed failure = if passed then ok tt else err failure

pub ok-injective {κ} : {V : Type κ} {x y : V} → ok x ≡ ok y → x ≡ y
ok-injective same = cc

-- What a bind and a test that succeed say of their parts.
pub >>=-eq-ok {κ ρ} :
    {V : Type κ} {W : Type ρ} {w : W} (r : Result V) (next : V → Result W)
    → then_do next r ≡ ok w
    → (v : V) × (r ≡ ok v) × (next v ≡ ok w)
>>=-eq-ok (err failure) next same = cc
>>=-eq-ok (ok v) next same = (v, refl, same)

pub require-eq-ok {ρ} :
    {W : Type ρ} {w : W} (passed : Bool) (failure : AppError) (rest : Result W)
    → (require passed failure >> rest) ≡ ok w
    → (passed ≡ true) × (rest ≡ ok w)
require-eq-ok false failure rest same = cc
require-eq-ok true failure rest same = (refl, same)
