-- ===== src/Model/Error.antt =====
-- The sentinel errors of internal/store, internal/service and internal/changegate. An error that
-- wraps a sentinel with a message is that sentinel.
use changeguard.Prelude.{◌≡◌, refl, ◌⊎◌, inl, inr, arith, Bool, true, false, if◌then◌else◌}

pub data Err : Type 0 where
  -- internal/store
  not_found conflict concurrent_write passport_expired passport_inactive passport_token_mismatch
        passport_change_invalid passport_replay idempotency_conflict idempotency_pending
        idempotency_claim_lost idempotency_result_conflict not_dead :
      Err
  -- the disk or the database refused the write; an index lies outside its slice (a panic in Go)
  save_failed index_out_of_range : Err
  -- internal/changegate
  signer_not_configured malformed_token invalid_signature : Err
  -- internal/service
  invalid_state forbidden validation gate_unavailable gate_invalid gate_expired gate_revoked
        gate_replay artifact_mismatch environment_mismatch rule_set_changed request_conflict
        request_in_progress malformed_json unauthorized :
      Err

-- what a Go function returns beside the new state: its error, or its value if the error is nil
pub data Result {ℓ} (T : Type ℓ) : Type ℓ where
  err : Err → Result T
  ok : T → Result T

-- `if err != nil { return err }`
infixl 10 ◌>>=◌ ◌>>◌
abbrev pub ◌>>=◌ {ℓ κ} : {T : Type ℓ} {U : Type κ} → Result T → (T → Result U) → Result U
◌>>=◌ r go_on = elim r [ err e ↦ err e | ok v ↦ go_on v ]

abbrev pub ◌>>◌ {κ} : {U : Type κ} → Result (Unit {0}) → Result U → Result U
◌>>◌ check rest = elim check [ err e ↦ err e | ok _ ↦ rest ]

-- `if !holds { return e }`
abbrev pub require : Err → Bool → Result (Unit {0})
require e holds = if holds then ok tt else err e

pub bind-ok {ℓ κ} :
    {T : Type ℓ} {U : Type κ} (r : Result T) (f : T → Result U) (v : U)
    → (r >>= f) ≡ ok v
    → (a : T) × (r ≡ ok a) × (f a ≡ ok v)
bind-ok (err e) f v h = absurd (ground arith)
bind-ok (ok a) f v h = (a, refl, h)

pub then-ok {κ} :
    {U : Type κ} (check : Result (Unit {0})) (rest : Result U) (v : U)
    → (check >> rest) ≡ ok v
    → (check ≡ ok tt) × (rest ≡ ok v)
then-ok (err e) rest v h = absurd (ground arith)
then-ok (ok tt) rest v h = (refl, h)

pub Result-cases {ℓ} :
    {T : Type ℓ} (r : Result T) → ((e : Err) × (r ≡ err e)) ⊎ ((a : T) × (r ≡ ok a))
Result-cases (err e) = inl (e, refl)
Result-cases (ok a) = inr (a, refl)

pub ok-injective {ℓ} : {T : Type ℓ} (a b : T) → ok a ≡ ok b → a ≡ b
ok-injective a b h = ground arith

pub require-then {κ} :
    {U : Type κ} (e : Err) (b : Bool) (rest : Result U) (v : U)
    → (require e b >> rest) ≡ ok v
    → (b ≡ true) × (rest ≡ ok v)
require-then e true rest v h = (refl, h)
require-then e false rest v h = absurd (ground arith)

pub require-true {κ} :
    {U : Type κ} (e : Err) (b : Bool) (rest : Result U) → b ≡ true → (require e b >> rest) ≡ rest
require-true e b rest h = rw h refl
