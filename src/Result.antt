-- ===== src/Result.antt =====
-- Go's `error` results. An error is a value; the wording of the errors of Go's own packages and of
-- third-party code is not modelled, so those are constructors with no text of their own.
pub mod Laws
use ocpp_simulator.Base.{ℕ, String, Bool, true, false, if◌then◌else◌}

pub data Error : Type 0 where
  -- encoding/json: a text that is no JSON, a value of another type than the target
  json_syntax json_type : Error
  -- errors.New(text), and fmt.Errorf with the texts or numbers that it quotes
  msg : String → Error
  quoted : String → String → Error
  counted : String → ℕ → Error
  -- fmt.Errorf("text: %w", err)
  wrap : String → Error → Error
  -- sentinels of the services: ErrCoreUnavailable, ErrNoSuchChargePoint, db.ErrNotFound, and
  -- v201.ErrNotImplemented
  core_unavailable no_such_charge_point not_found not_implemented : Error
  -- fmt.Errorf("%w: %v", ErrCoreUnavailable, err)
  core_unavailable_by : Error → Error
  -- an error that a third-party package or a remote service reports
  external : String → Error

pub data Result {ℓ} (A : Type ℓ) : Type ℓ where
  err : Error → Result A
  ok : A → Result A

-- if !good { return err }
abbrev pub guard : Bool → Error → Result (Unit {0})
guard good e = if good then ok tt else err e

-- if err != nil { return fmt.Errorf("text: %w", err) }
abbrev pub wrapping {ℓ} : {A : Type ℓ} → String → Result A → Result A
wrapping s (err e) = err (wrap s e)
wrapping s (ok a) = ok a

-- The early return of each error.
infixl 5 ◌>>=◌
abbrev pub ◌>>=◌ {ℓ κ} : {A : Type ℓ} {B : Type κ} → Result A → (A → Result B) → Result B
err e >>= next = err e
ok a >>= next = next a

infixl 5 ◌>>◌
abbrev pub ◌>>◌ {ℓ} : {B : Type ℓ} → Result (Unit {0}) → Result B → Result B
check >> rest = check >>= λ done. rest
