-- ===== src/Service/Idempotent/Execute/Total.antt =====
-- An idempotent request of internal/service/idempotency.go comes to an answer.
use changeguard.Prelude.{refl, false, Bool-cases, inl, inr}
use changeguard.Model.{IdempotencyRecord, forbidden, Result, ok, err, Result-cases}
use changeguard.Crypto.{Crypto}
use changeguard.Store.Base.{State, Call}
use changeguard.Service.Access.{active_actor}
use changeguard.Service.Idempotent.{
  World, Outcome, complete_within, Reconcile, Claimed, claim_idempotency,
}
use changeguard.Service.Idempotent.Ends.{Paced, Ended, complete_within_ends, claim_idempotency_ends}
use changeguard.Service.Idempotent.Execute.{
  Json, Request, request_record, change_ref, replay, answered, after_execute, on_claim,
  execute_idempotent,
}

module _ {A : Type 0} (json : Json A) (k : Crypto) (w : World) (c : Call) (w₁ : World)
    (reconcile : Reconcile) (execute : State → State × Result A) (paced : Paced w)
    (paced₁ : Paced w₁) where
  answered-Ended : (a : A) (x : State × Outcome IdempotencyRecord) → Ended x → Ended (answered a x)
  answered-Ended a (s, o) (err e, h) = rw h (err e, refl)
  answered-Ended a (s, o) (ok r, h) = rw h (ok (record { value = a; replayed = false }), refl)

  after_execute-Ended :
      (q : Request) (claim : IdempotencyRecord) (x : State × Result A)
      → Ended (after_execute json k c w₁ q claim x)
  unfolding after_execute
  after_execute-Ended q claim (s, err e) = (err e, refl)
  after_execute-Ended q claim (s, ok a) =
      answered-Ended a (complete_within k w₁ claim (json.encode a) (change_ref q) q.status 0 s)
        (complete_within_ends k w₁ paced₁ claim (json.encode a) (change_ref q) q.status 0 s)

  on_claim-Ended :
      (q : Request) (x : State × Outcome Claimed)
      → Ended x
      → Ended (on_claim json k c w₁ execute q x)
  unfolding on_claim
  on_claim-Ended q (s, o) (err e, h) = rw (h, on_claim) (err e, refl)
  on_claim-Ended q (s, o) (ok claimed, h) = elim (Bool-cases claimed.fresh) [
    | inl f ↦ rw (h, f, on_claim) (after_execute-Ended q claimed.claim (execute s))
    | inr f ↦ rw (h, f, on_claim) (replay json claimed.claim.result, refl)
  ]

  -- An idempotent request comes to an answer, whatever other requests do to the state between its
  -- polls and whatever its operation answers, if a pause between two polls takes ten milliseconds at
  -- least: neither the wait for the claim nor the wait for the completion runs out of its 501 polls.
  pub execute_idempotent-Ended :
      (q : Request) (s : State) → Ended (execute_idempotent json k w c w₁ reconcile execute q s)
  unfolding execute_idempotent
  execute_idempotent-Ended q s = elim (Result-cases (active_actor q.actor_id s)) [
    | inl (e, h) ↦ rw (h, execute_idempotent) (err forbidden, refl)
    | inr (actor, h) ↦
        rw (h, execute_idempotent)
          (on_claim-Ended q (claim_idempotency k w reconcile (request_record actor q) s)
            (claim_idempotency_ends k w paced reconcile (request_record actor q) s))
  ]
