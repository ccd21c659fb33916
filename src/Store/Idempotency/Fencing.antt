-- ===== src/Store/Idempotency/Fencing.antt =====
-- Which executor may finish a request.
use changeguard.Prelude.{◌+◌, String, ◌≡◌, some, find, replace_first}
use changeguard.Model.Status.{pending}
use changeguard.Model.{IdempotencyRecord}
use changeguard.Crypto.{Crypto}
use changeguard.Store.Base.{State, Call}
use changeguard.Store.Idempotency.{same_request, taken_record}

-- What a takeover leaves: the request's record under the claim that is handed out.
pub record Taken (k : Crypto) (c : Call) (observed : IdempotencyRecord) (s t : State)
    (claim : IdempotencyRecord) : Type 0 where
  pub stands : find (same_request observed) t.idempotency_records ≡ some claim
  pub open_still : claim.status ≡ pending
  pub raised : claim.generation ≡ observed.generation + 1
  pub hashed : claim.claim_token_sha256 ≡ k.sha256 claim.claim_token

module _ (k : Crypto) (c : Call) (observed : IdempotencyRecord) where
  abbrev written : String → IdempotencyRecord → State → State
  written token item s = record s {
    idempotency_records =
        replace_first (same_request observed) (taken_record k c token item) s.idempotency_records;
  }
