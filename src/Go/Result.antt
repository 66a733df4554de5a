-- ===== src/Go/Result.antt =====
-- Errors as values. `database` is a failed database call, `library` an error that code outside the
-- repository returns; the other constructors but `message` are the program's sentinel errors.
use mathlib.Core.Path.{◌≡◌, refl}
use mosdns_controller.Base.{Bool, true, false, ◌||◌, ◌⊎◌, inl, inr, String, Option, none, some}

pub data Error : Type 0 where
  message : String → Error
  database : Error
  library : String → Error
  no_rows : Error
  rule_conflict : Error
  version_conflict : Error
  outcome_unknown : Error
  request_rejected : Error
  joined : Error → Error → Error

-- errors.Is(err, ErrUnknown)
abbrev pub is_unknown : Error → Bool
is_unknown (joined a b) = is_unknown a || is_unknown b
is_unknown outcome_unknown = true
is_unknown _ = false

pub data Result {ℓ} (V : Type ℓ) : Type ℓ where
  ok : V → Result V
  err : Error → Result V

abbrev pub or_fail {ℓ} : {V : Type ℓ} → Option V → Error → Result V
or_fail none e = err e
or_fail (some v) e = ok v

-- `if c { return errors.New(m) }`
abbrev pub reject_if : Bool → String → Result (Unit {0})
reject_if true m = err (message m)
reject_if false m = ok tt

-- `if err != nil { return err }` between two steps.
infixl 5 ◌>>=◌
abbrev pub ◌>>=◌ {ℓ₁ ℓ₂} : {V : Type ℓ₁} {W : Type ℓ₂} → Result V → (V → Result W) → Result W
err e >>= rest = err e
ok v >>= rest = rest v

infixl 5 ◌>>◌
abbrev pub ◌>>◌ {ℓ} : {W : Type ℓ} → Result (Unit {0}) → Result W → Result W
check >> rest = check >>= λ _. rest

pub reject_if-eq-ok : (b : Bool) (m : String) {u : Unit {0}} → reject_if b m ≡ ok u → b ≡ false
reject_if-eq-ok true m h = cc
reject_if-eq-ok false m h = refl

pub Result-cases {ℓ} :
    {V : Type ℓ} (m : Result V) → ((v : V) × (m ≡ ok v)) ⊎ ((e : Error) × (m ≡ err e))
Result-cases (ok v) = inl (v, refl)
Result-cases (err e) = inr (e, refl)
