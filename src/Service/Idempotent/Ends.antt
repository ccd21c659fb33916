-- ===== src/Service/Idempotent/Ends.antt =====
-- The waits of internal/service/idempotency.go and their deadline.
use changeguard.Prelude.{
  ℕ, zero, suc, ◌+◌, ◌-◌, ◌*◌, ◌≤◌, String, ◌≡◌, refl, Bool, true, false, ◌&&◌, ltb, arith,
  Bool-cases, Option-cases, inl, inr,
}
use changeguard.Model.Status.{Time}
use changeguard.Model.{
  IdempotencyRecord, Err, Result, ok, err, request_in_progress, request_conflict, Result-cases,
}
use changeguard.Crypto.{Crypto}
use changeguard.Store.Base.{State}
use changeguard.Store.Idempotency.{
  Begun, begin_idempotency, complete_idempotency, takeover_idempotency,
}
use changeguard.Service.Idempotent.{
  World, Outcome, done, now_of, retry, is_concurrent, is_lost, is_conflict, is_pending_error,
  on_completed, complete_from, complete_within, wait_limit, recovery_grace, Recovered, Reconcile,
  Claimed, replayed_claim, on_taken, on_pending, on_begun, claim_from, claim_idempotency,
}

-- ten milliseconds
abbrev pub pause : Time
pause = 10_000_000

-- `time.Sleep` between two polls takes the pause at least
abbrev pub Paced : World → Type 0
Paced w = (i : ℕ) → now_of w i + pause ≤ now_of w (suc i)

abbrev pub Ended : {A : Type 0} → State × Outcome A → Type 0
Ended {A} x = (r : Result A) × (x.1 ≡ done r)

module _ (w : World) (deadline : Time) (i : ℕ) {A : Type 0} (again : State → State × Outcome A)
    (more : ltb (now_of w i) deadline ≡ true → (t : State) → Ended (again t)) where
  retry_ends :
      (transient : Bool) (e : Err) (s : State) → Ended (retry transient w deadline i e s again)
  unfolding retry
  retry_ends transient e s = elim (Bool-cases (transient && ltb (now_of w i) deadline)) [
    | inl h ↦ rw (h, retry) (more (ground arith) s)
    | inr h ↦ rw (h, retry) (err e, refl)
  ]

module _ (k : Crypto) (w : World) (paced : Paced w) where
  on_completed_ends :
      (deadline : Time) (i : ℕ) (again : State → State × Outcome IdempotencyRecord)
      (more : ltb (now_of w i) deadline ≡ true → (t : State) → Ended (again t))
      (x : State × Result IdempotencyRecord)
      → Ended (on_completed w deadline i x again)
  unfolding on_completed
  on_completed_ends deadline i again more (s, ok kept) = (ok kept, refl)
  on_completed_ends deadline i again more (s, err e) =
      retry_ends w deadline i again more (is_concurrent e) e s

  complete_from_ends :
      (r : IdempotencyRecord) (marshalled : Result String) (ref : String) (status : ℕ)
      (deadline : Time) (f i : ℕ) (s : State)
      → deadline ≤ now_of w i + f * pause
      → Ended (complete_from k w r marshalled ref status deadline (suc f) i s)
  unfolding complete_from
  complete_from_ends r marshalled ref status deadline zero i s h =
      on_completed_ends deadline i _ (λ l t. absurd (ground (arith, h, l)))
        (complete_idempotency k (w.call i) r marshalled ref status s)
  complete_from_ends r marshalled ref status deadline (suc f) i s h =
      on_completed_ends deadline i _
        (λ l t.
          complete_from_ends r marshalled ref status deadline f (suc i) (w.meanwhile i t)
            (omega (arith, h, paced i)))
        (complete_idempotency k (w.call i) r marshalled ref status s)

  pub complete_within_ends :
      (r : IdempotencyRecord) (marshalled : Result String) (ref : String) (status i : ℕ) (s : State)
      → Ended (complete_within k w r marshalled ref status i s)
  unfolding complete_within
  complete_within_ends r marshalled ref status i s =
      complete_from_ends r marshalled ref status (now_of w i + wait_limit) 500 i s (omega arith)

  replayed_claim_ends : (x : State × Outcome IdempotencyRecord) → Ended x → Ended (replayed_claim x)
  replayed_claim_ends (s, o) (err e, h) = rw h (err e, refl)
  replayed_claim_ends (s, o) (ok r, h) = rw h (ok (record { claim = r; fresh = false }), refl)

  -- one poll ends if the polls after it do
  module _ (reconcile : Reconcile) (deadline : Time) (i : ℕ)
      (again : State → State × Outcome Claimed)
      (more : ltb (now_of w i) deadline ≡ true → (t : State) → Ended (again t)) where
    on_taken_ends :
        (found : Recovered) (x : State × Result IdempotencyRecord)
        → Ended (on_taken k w deadline i found x again)
    unfolding on_taken
    on_taken_ends found (s, ok taken) =
        replayed_claim_ends
          (complete_within k w taken found.result found.response_ref found.status i s)
          (complete_within_ends taken found.result found.response_ref found.status i s)
    on_taken_ends found (s, err e) = retry_ends w deadline i again more (is_lost e) e s

    on_pending_ends :
        (existing : IdempotencyRecord) (s : State)
        → Ended (on_pending k w reconcile deadline i existing s again)
    unfolding on_pending
    on_pending_ends existing s =
        elim (Bool-cases (ltb (now_of w i - existing.updated_at) recovery_grace)) [
          | inl fresh ↦
              rw (fresh, on_pending) (retry_ends w deadline i again more true request_in_progress s)
          | inr stale ↦ elim (Result-cases (reconcile existing s)) [
            | inl (e, h) ↦ rw (stale, h, on_pending) (err e, refl)
            | inr (found, h) ↦ elim (Option-cases found) [
              | inl nothing ↦
                  rw (stale, h, nothing, on_pending)
                    (retry_ends w deadline i again more true request_in_progress s)
              | inr (effect, some_effect) ↦
                  rw (stale, h, some_effect, on_pending)
                    (on_taken_ends effect
                      (takeover_idempotency k (w.call i) (w.random i) existing s))
            ]
          ]
        ]

    on_begun_ends : (s : State) (b : Begun) → Ended (on_begun k w reconcile deadline i s b again)
    unfolding on_begun
    on_begun_ends s b = elim (Option-cases b.failure) [
      | inl clear ↦ rw (clear, on_begun) (ok (record { claim = b.claim; fresh = b.created }), refl)
      | inr (e, h) ↦ elim (Bool-cases (is_conflict e)) [
        | inl other ↦ rw (h, other, on_begun) (err request_conflict, refl)
        | inr same ↦ elim (Bool-cases (is_pending_error e)) [
          | inl held ↦ rw (h, same, held, on_begun) (on_pending_ends b.claim s)
          | inr free ↦
              rw (h, same, free, on_begun)
                (retry_ends w deadline i again more (is_concurrent e) e s)
        ]
      ]
    ]

  claim_from_ends :
      (reconcile : Reconcile) (r : IdempotencyRecord) (deadline : Time) (f i : ℕ) (s : State)
      → deadline ≤ now_of w i + f * pause
      → Ended (claim_from k w reconcile r deadline (suc f) i s)
  unfolding claim_from
  claim_from_ends reconcile r deadline zero i s h =
      let (t, b) = begin_idempotency k (w.call i) (w.random i) r s in
      on_begun_ends reconcile deadline i
        (λ u. claim_from k w reconcile r deadline zero (suc i) (w.meanwhile i u))
        (λ l u. absurd (ground (arith, h, l))) t b
  claim_from_ends reconcile r deadline (suc f) i s h =
      let (t, b) = begin_idempotency k (w.call i) (w.random i) r s in
      on_begun_ends reconcile deadline i
        (λ u. claim_from k w reconcile r deadline (suc f) (suc i) (w.meanwhile i u))
        (λ l u.
          claim_from_ends reconcile r deadline f (suc i) (w.meanwhile i u)
            (omega (arith, h, paced i)))
        t b

  -- If a pause between two polls takes ten milliseconds at least, then the 501 polls of a wait are
  -- enough: a claim comes to an answer, whatever other requests do, and so does the completion of an
  -- effect that was found.
  pub claim_idempotency_ends :
      (reconcile : Reconcile) (r : IdempotencyRecord) (s : State)
      → Ended (claim_idempotency k w reconcile r s)
  unfolding claim_idempotency
  claim_idempotency_ends reconcile r s =
      claim_from_ends reconcile r (now_of w 0 + wait_limit) 500 0 s (omega arith)
