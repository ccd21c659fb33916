-- ===== src/Service/Idempotent.antt =====
-- internal/service/idempotency.go: a request with an idempotency key is executed by the one that
-- claims the key; a repeat waits for the answer that was kept, and a claim that was left behind is
-- reconciled with what the store holds.
--
-- A wait polls the store every ten milliseconds until a deadline. A `World` has, for each poll, the
-- call of the store with its clock (which is read once in a poll), the outcome of `rand.Read`, and
-- what other requests do to the state before the next poll.

pub mod Ends
pub mod Begins
pub mod Completes
pub mod Again
pub mod Execute
pub mod Operations
pub mod Issue
use changeguard.Prelude.{
  ℕ, zero, suc, ◌+◌, ◌-◌, ◌*◌, String, Bool, true, false, ◌&&◌, Option, none, some, List, [], ◌∷◌,
  ltb, if◌then◌else◌,
}
use changeguard.Model.Status.{Time, second}
use changeguard.Model.{
  IdempotencyRecord, User, Err, concurrent_write, idempotency_conflict, idempotency_pending,
  idempotency_claim_lost, forbidden, request_conflict, request_in_progress, Result, ok, err,
}
use changeguard.Crypto.{Crypto}
use changeguard.Store.Base.{State, Call}
use changeguard.Store.Idempotency.{
  Begun, no_claim, begin_idempotency, complete_idempotency, abort_idempotency, takeover_idempotency,
}
use changeguard.Service.Access.{active_actor}

pub record World : Type 0 where
  pub call : ℕ → Call
  pub random : ℕ → Result String
  pub meanwhile : ℕ → State → State

-- what a wait with fuel answers
pub data Outcome {ℓ} (A : Type ℓ) : Type ℓ where
  ran_out : Outcome A
  done : Result A → Outcome A

abbrev pub wait_limit : Time
wait_limit = 5 * second

abbrev pub recovery_grace : Time
recovery_grace = 2 * second

abbrev pub is_concurrent : Err → Bool
is_concurrent concurrent_write = true
is_concurrent e = false

abbrev is_lost : Err → Bool
is_lost idempotency_claim_lost = true
is_lost e = false

abbrev pub now_of : World → ℕ → Time
now_of w i = (w.call i).now

-- what a wait does about an error: some it tries again until the deadline
unfoldable pub retry :
    {A : Type 0}
    → Bool
    → World
    → Time
    → ℕ
    → Err
    → State
    → (State → State × Outcome A)
    → State × Outcome A
retry transient w deadline i e s again = elim (transient && ltb (now_of w i) deadline) [
  | true ↦ again s
  | false ↦ (s, done (err e))
]

unfoldable pub on_completed :
    World
    → Time
    → ℕ
    → State × Result IdempotencyRecord
    → (State → State × Outcome IdempotencyRecord)
    → State × Outcome IdempotencyRecord
unfolding retry
on_completed w deadline i (s, ok kept) again = (s, done (ok kept))
on_completed w deadline i (s, err e) again = retry (is_concurrent e) w deadline i e s again

-- the loop of `completeIdempotency`
unfoldable pub complete_from :
    Crypto
    → World
    → IdempotencyRecord
    → Result String
    → String
    → ℕ
    → Time
    → ℕ
    → ℕ
    → State
    → State × Outcome IdempotencyRecord
unfolding complete_idempotency on_completed
complete_from k w r marshalled ref status deadline zero i s = (s, ran_out)
complete_from k w r marshalled ref status deadline (suc fuel) i s =
    on_completed w deadline i (complete_idempotency k (w.call i) r marshalled ref status s)
      (λ t. complete_from k w r marshalled ref status deadline fuel (suc i) (w.meanwhile i t))

-- polls enough for every wait, of which one takes ten milliseconds at least
abbrev pub polls : ℕ
polls = 501

-- `completeIdempotency`, from the poll of a number on
unfoldable pub complete_within :
    Crypto
    → World
    → IdempotencyRecord
    → Result String
    → String
    → ℕ
    → ℕ
    → State
    → State × Outcome IdempotencyRecord
unfolding complete_from
complete_within k w r marshalled ref status i s =
    complete_from k w r marshalled ref status (now_of w i + wait_limit) polls i s

-- the effect that a stale claim has left behind: its answer, marshalled, and the answer's reference
pub record Recovered : Type 0 where
  pub result : Result String
  pub response_ref : String
  pub status : ℕ

abbrev pub Reconcile : Type 0
Reconcile = IdempotencyRecord → State → Result (Option Recovered)

-- the claim, or the answer that was kept
pub record Claimed : Type 0 where
  pub claim : IdempotencyRecord
  pub fresh : Bool

abbrev pub replayed_claim : State × Outcome IdempotencyRecord → State × Outcome Claimed
replayed_claim (s, ran_out) = (s, ran_out)
replayed_claim (s, done (err e)) = (s, done (err e))
replayed_claim (s, done (ok r)) = (s, done (ok (record { claim = r; fresh = false })))

-- an effect that was found is taken over, and then completed; the last argument polls again
unfoldable pub on_taken :
    Crypto
    → World
    → Time
    → ℕ
    → Recovered
    → State × Result IdempotencyRecord
    → (State → State × Outcome Claimed)
    → State × Outcome Claimed
unfolding complete_within retry
on_taken k w deadline i found (s, ok taken) again =
    replayed_claim (complete_within k w taken found.result found.response_ref found.status i s)
on_taken k w deadline i found (s, err e) again = retry (is_lost e) w deadline i e s again

-- what a poll does about a claim that another request holds
unfoldable pub on_pending :
    Crypto
    → World
    → Reconcile
    → Time
    → ℕ
    → IdempotencyRecord
    → State
    → (State → State × Outcome Claimed)
    → State × Outcome Claimed
unfolding takeover_idempotency on_taken retry
on_pending k w reconcile deadline i existing s again =
    elim (ltb (now_of w i - existing.updated_at) recovery_grace) [
      | true ↦ retry true w deadline i request_in_progress s again
      | false ↦ elim (reconcile existing s) [
        | err e ↦ (s, done (err e))
        | ok found ↦ elim found [
          | none ↦ retry true w deadline i request_in_progress s again
          | some effect ↦
              on_taken k w deadline i effect
                (takeover_idempotency k (w.call i) (w.random i) existing s) again
        ]
      ]
    ]

abbrev is_conflict : Err → Bool
is_conflict idempotency_conflict = true
is_conflict e = false

abbrev is_pending_error : Err → Bool
is_pending_error idempotency_pending = true
is_pending_error e = false

-- the switch on what `BeginIdempotency` has answered
unfoldable pub on_begun :
    Crypto
    → World
    → Reconcile
    → Time
    → ℕ
    → State
    → Begun
    → (State → State × Outcome Claimed)
    → State × Outcome Claimed
unfolding on_pending retry
on_begun k w reconcile deadline i s b again = elim b.failure [
  | none ↦ (s, done (ok (record { claim = b.claim; fresh = b.created })))
  | some e ↦ elim (is_conflict e) [
    | true ↦ (s, done (err request_conflict))
    | false ↦ elim (is_pending_error e) [
      | true ↦ on_pending k w reconcile deadline i b.claim s again
      | false ↦ retry (is_concurrent e) w deadline i e s again
    ]
  ]
]

-- the loop of `claimIdempotency`
unfoldable pub claim_from :
    Crypto → World → Reconcile → IdempotencyRecord → Time → ℕ → ℕ → State → State × Outcome Claimed
unfolding begin_idempotency on_begun
claim_from k w reconcile r deadline zero i s = (s, ran_out)
claim_from k w reconcile r deadline (suc fuel) i s =
    let (t, b) = begin_idempotency k (w.call i) (w.random i) r s in
    on_begun k w reconcile deadline i t b
      (λ u. claim_from k w reconcile r deadline fuel (suc i) (w.meanwhile i u))

-- `claimIdempotency`
unfoldable pub claim_idempotency :
    Crypto → World → Reconcile → IdempotencyRecord → State → State × Outcome Claimed
unfolding claim_from
claim_idempotency k w reconcile r s = claim_from k w reconcile r (now_of w 0 + wait_limit) polls 0 s
