-- ===== src/Service/Idempotent/Completes.antt =====
-- What `completeIdempotency` of internal/service/idempotency.go has completed.
use changeguard.Prelude.{
  ℕ, zero, suc, ◌+◌, String, ◌≡◌, refl, ◌∙◌, ◌&&◌, ltb, arith, Bool-cases, inl, inr,
}
use changeguard.Model.Status.{Time}
use changeguard.Model.{IdempotencyRecord, Result, ok, err}
use changeguard.Crypto.{Crypto}
use changeguard.Store.Base.{State}
use changeguard.Store.Idempotency.{complete_idempotency}
use changeguard.Service.Idempotent.{
  World, Outcome, done, retry, is_concurrent, on_completed, complete_from, complete_within, now_of,
  wait_limit, polls,
}

-- some poll of the wait was the completion
module _ (k : Crypto) (w : World) (r : IdempotencyRecord) (marshalled : Result String)
    (ref : String) (status : ℕ) (u : State) (kept : IdempotencyRecord) where
  abbrev pub Completed : Type 0
  Completed =
      (i : ℕ) × (s : State) × (complete_idempotency k (w.call i) r marshalled ref status s
        ≡ (u, ok kept))

  on_completed-Completed :
      (deadline : Time) (i : ℕ) (s : State) (again : State → State × Outcome IdempotencyRecord)
      → ((t : State) → again t ≡ (u, done (ok kept)) → Completed)
      → (x : State × Result IdempotencyRecord)
      → complete_idempotency k (w.call i) r marshalled ref status s ≡ x
      → on_completed w deadline i x again ≡ (u, done (ok kept))
      → Completed
  unfolding on_completed retry
  on_completed-Completed deadline i s again more (t, ok a) e h = (i, s, e ∙ ground arith)
  on_completed-Completed deadline i s again more (t, err x) e h =
      elim (Bool-cases (is_concurrent x && ltb (now_of w i) deadline)) [
        | inl c ↦ more t (rw (c, retry) at h)
        | inr c ↦
            let h' : ◌≡◌ {A = State × Outcome IdempotencyRecord} (t, done (err x))
                (u, done (ok kept)) =
              rw (c, retry) at h in
            absurd (ground arith)
      ]

  complete_from-Completed :
      (deadline : Time) (f i : ℕ) (s : State)
      → complete_from k w r marshalled ref status deadline f i s ≡ (u, done (ok kept))
      → Completed
  unfolding complete_from
  complete_from-Completed deadline zero i s h = absurd (ground arith)
  complete_from-Completed deadline (suc f) i s h =
      on_completed-Completed deadline i s
        (λ t. complete_from k w r marshalled ref status deadline f (suc i) (w.meanwhile i t))
        (λ t. complete_from-Completed deadline f (suc i) (w.meanwhile i t))
        (complete_idempotency k (w.call i) r marshalled ref status s) refl h

  pub complete_within-Completed :
      (i : ℕ) (s : State)
      → complete_within k w r marshalled ref status i s ≡ (u, done (ok kept))
      → Completed
  unfolding complete_within
  complete_within-Completed i s = complete_from-Completed (now_of w i + wait_limit) polls i s
