-- ===== src/Service/Idempotent/Execute/Repeat.antt =====
-- A request of internal/service/idempotency.go that is made again after it was answered.
use changeguard.Prelude.{
  ℕ, String, ◌≡◌, ◌≢◌, refl, sym, ap, ◌∙◌, subst, Bool, true, false, some, arith, eq_iff, ◌==◌,
  if◌then◌else◌, Bool-cases, Option-cases, inl, inr,
}
use changeguard.Model.{
  IdempotencyRecord, User, malformed_json, request_conflict, Result, ok, err, Result-cases,
}
use changeguard.Crypto.{Crypto}
use changeguard.Store.Base.{State, Call}
use changeguard.Store.Idempotency.{
  complete_idempotency, result_digest, same_result, same_request, same_scope,
  public_idempotency_record,
}
use changeguard.Store.Idempotency.Unique.{Unique}
use changeguard.Store.Idempotency.Kept.{Done, Done-replay, Done-moved}
use changeguard.Store.Idempotency.Replay.{complete-Done}
use changeguard.Service.Access.{active_actor}
use changeguard.Service.Idempotent.{
  World, Outcome, ran_out, done, complete_within, Reconcile, Claimed, claim_idempotency,
}
use changeguard.Service.Idempotent.Begins.{IsOf, claim_idempotency-IsOf}
use changeguard.Store.Idempotency.Digested.{Digested, find-Digested}
use changeguard.Store.Idempotency.Unique.{same_scope_comm}
use changeguard.Service.Idempotent.Completes.{Completed, complete_within-Completed}
use changeguard.Service.Idempotent.Again.{claim_idempotency_again}
use changeguard.Service.Idempotent.Execute.{
  Json, Request, Replied, request_record, change_ref, replay, answered, after_execute, on_claim,
  execute_idempotent,
}

module _ {A : Type 0} (json : Json A) (k : Crypto) (w : World) (c : Call) (w₁ : World)
    (reconcile : Reconcile) (execute : State → State × Result A) (q : Request) (u : State)
    (a : A) where
  on_claim_again :
      (c' : Call) (w₁' : World) (execute' : State → State × Result A) (q' : Request) (v : State)
      (item : IdempotencyRecord)
      → json.decode item.result ≡ some a
      → (same : Bool)
      → on_claim json k c' w₁' execute' q' (
        v,
        done (
            if same
            then ok (record { claim = public_idempotency_record item; fresh = false })
            else err request_conflict),
      )
        ≡ (
          v,
          done (if same then ok (record { value = a; replayed = true }) else err request_conflict),
        )
  unfolding on_claim
  on_claim_again c' w₁' execute' q' v item reads true = rw (reads, replay) refl
  on_claim_again c' w₁' execute' q' v item reads false = refl

  -- what the execution for an actor has completed
  abbrev pub Finished : User → Type 0
  Finished actor =
      (claim : IdempotencyRecord) × IsOf (request_record actor q) claim
      × ((kept : IdempotencyRecord) × Completed k w₁ claim (json.encode a) (change_ref q) q.status u
            kept)

  abbrev reply : Outcome (Replied A)
  reply = done (ok (record { value = a; replayed = false }))

  answered-Finished :
      (claim : IdempotencyRecord) (b : A) (x : State × Outcome IdempotencyRecord)
      → answered b x ≡ (u, reply)
      → (a ≡ b) × ((kept : IdempotencyRecord) × (x ≡ (u, done (ok kept))))
  answered-Finished claim b (s, ran_out) h = absurd (ground arith)
  answered-Finished claim b (s, done (err e)) h = absurd (ground arith)
  answered-Finished claim b (s, done (ok r)) h = (ground arith, (r, ground arith))

  not_executed :
      (t : State) (text : String)
      → ◌≢◌ {A = State × Outcome (Replied A)} (t, done (replay json text)) (u, reply)
  not_executed t text h = elim (Option-cases (json.decode text)) [
    | inl d ↦
        let h' : ◌≡◌ {A = State × Outcome (Replied A)} (t, done (err malformed_json)) (u, reply) =
          rw (d, replay) at h in
        absurd (ground arith)
    | inr (b, d) ↦
        let h' : ◌≡◌ {A = State × Outcome (Replied A)}
            (t, done (ok (record { value = b; replayed = true }))) (u, reply) =
          rw (d, replay) at h in
        absurd (ground arith)
  ]

  after_execute-Finished :
      (actor : User) (claim : IdempotencyRecord) (x : State × Result A)
      → IsOf (request_record actor q) claim
      → after_execute json k c w₁ q claim x ≡ (u, reply)
      → Finished actor
  unfolding after_execute
  after_execute-Finished actor claim (s, err e) of h = absurd (ground arith)
  after_execute-Finished actor claim (s, ok b) of h =
      let (same, (kept, e)) =
        answered-Finished claim b
          (complete_within k w₁ claim (json.encode b) (change_ref q) q.status 0 s) h in
      (
        claim,
        of,
        (
          kept,
          complete_within-Completed k w₁ claim (json.encode a) (change_ref q) q.status u kept 0 s
              (rw same e),
        ),
      )

  on_claim-Finished :
      (actor : User) (s : State) (x : State × Outcome Claimed)
      → claim_idempotency k w reconcile (request_record actor q) s ≡ x
      → on_claim json k c w₁ execute q x ≡ (u, reply)
      → Finished actor
  unfolding on_claim
  on_claim-Finished actor s (t, ran_out) e h = absurd (ground arith)
  on_claim-Finished actor s (t, done (err x)) e h = absurd (ground arith)
  on_claim-Finished actor s (t, done (ok claimed)) e h = elim (Bool-cases claimed.fresh) [
    | inl f ↦
        after_execute-Finished actor claimed.claim (execute t)
          (claim_idempotency-IsOf k w reconcile (request_record actor q) s t claimed e f)
          (rw (f, on_claim) at h)
    | inr f ↦
        let h' : ◌≡◌ {A = State × Outcome (Replied A)} (t, done (replay json claimed.claim.result))
            (u, reply) =
          rw (f, on_claim) at h in
        absurd (not_executed t claimed.claim.result h')
  ]

  -- the answer of a replay
  abbrev again_or_conflict : Bool → Outcome (Replied A)
  again_or_conflict same =
      done (if same then ok (record { value = a; replayed = true }) else err request_conflict)

  -- a request of the scope of one that is done, with its digest or with another one
  repeated :
      (w' : World) (c' : Call) (w₁' : World) (reconcile' : Reconcile)
      (execute' : State → State × Result A) (q' : Request) (r : IdempotencyRecord) (v : State)
      (claim : IdempotencyRecord) (text ref : String) (status : ℕ) (item : IdempotencyRecord)
      → Done k claim text ref status v item
      → same_scope claim r ≡ true
      → Unique v.idempotency_records
      → json.decode item.result ≡ some a
      → on_claim json k c' w₁' execute' q' (claim_idempotency k w' reconcile' r v)
        ≡ (v, again_or_conflict (claim.request_digest == r.request_digest))
  repeated w' c' w₁' reconcile' execute' q' r v claim text ref status item d scope unique reads =
      rw
        (claim_idempotency_again k w' reconcile' r v (public_idempotency_record item)
          (claim.request_digest == r.request_digest)
          (Done-replay k claim text ref status v item d (w'.call 0) (w'.random 0) r scope unique))
        (on_claim_again c' w₁' execute' q' v item reads (claim.request_digest == r.request_digest))

  pub execute_idempotent-Finished :
      (actor : User) (s : State)
      → active_actor q.actor_id s ≡ ok actor
      → execute_idempotent json k w c w₁ reconcile execute q s ≡ (u, reply)
      → Finished actor
  unfolding execute_idempotent
  execute_idempotent-Finished actor s h e =
      on_claim-Finished actor s (claim_idempotency k w reconcile (request_record actor q) s) refl
        (rw (h, execute_idempotent) at e)

  -- what the completion has kept, of which the answer can be read again
  module _ (lossless : (text : String) → json.encode a ≡ ok text → json.decode text ≡ some a)
      (hashes : (x : String) → result_digest k x (change_ref q) q.status ≢ "")
      (faithful : (x y : String)
        → result_digest k x (change_ref q) q.status ≡ result_digest k y (change_ref q) q.status
        → x ≡ y)
      (digested : Digested k u.idempotency_records) where
    abbrev Kept : User → Type 0
    Kept actor =
        (claim : IdempotencyRecord) × IsOf (request_record actor q) claim
        × ((text : String) × (item : IdempotencyRecord) × (json.decode item.result ≡ some a)
            × Done k claim text (change_ref q) q.status u item)

    Kept-result :
        (claim item : IdempotencyRecord) (text : String)
        → Done k claim text (change_ref q) q.status u item
        → item.result ≡ text
    unfolding same_result
    Kept-result claim item text d =
        let kept = d.kept in
        let ref : item.response_ref ≡ change_ref q =
          ground (arith, eq_iff item.response_ref (change_ref q)) in
        let status : item.http_status ≡ q.status = ground arith in
        let same : item.result_digest ≡ result_digest k text (change_ref q) q.status =
          ground
            (arith, eq_iff item.result_digest (result_digest k text (change_ref q) q.status)) in
        let own =
          find-Digested k (same_request claim) u.idempotency_records item digested d.stands
            d.finished in
        faithful item.result text (
          ap (λ r. result_digest k item.result r q.status) (sym ref)
          ∙ ap (λ n. result_digest k item.result item.response_ref n) (sym status)
          ∙ sym own
          ∙ same)

    Finished-Kept : (actor : User) → Finished actor → Kept actor
    unfolding complete_idempotency
    Finished-Kept actor (claim, of, (kept, (i, s, e))) = elim (Result-cases (json.encode a)) [
      | inl (x, h) ↦ absurd (ground (arith, (rw (h, complete_idempotency) at e)))
      | inr (text, h) ↦
          let e' : complete_idempotency k (w₁.call i) claim (ok text) (change_ref q) q.status s
              ≡ (u, ok kept) =
            rw h at e in
          let (item, d, said) =
            complete-Done k (w₁.call i) claim text (change_ref q) q.status s u kept (hashes text)
              e' in
          (claim, of, (text, item, rw (Kept-result claim item text d) (lossless text h), d))
    ]

    -- After a request was executed and answered, every repeat of it by the same active user, in any
    -- state that still has the records of idempotency, executes nothing and changes nothing: it is
    -- given the same answer, as a replay, and if its digest is another one it is refused as a conflict.
    -- This is if the state has one record for each scope and each record that has succeeded carries
    -- the digest of its answer, if digests of answers are not empty and differ for different answers,
    -- and if an answer is read as it was written.
    pub execute_idempotent_repeat :
        (actor : User) (s : State)
        → active_actor q.actor_id s ≡ ok actor
        → execute_idempotent json k w c w₁ reconcile execute q s ≡ (u, reply)
        → (v : State) → v.idempotency_records ≡ u.idempotency_records
        → Unique u.idempotency_records
        → active_actor q.actor_id v ≡ ok actor
        → (w' : World) (c' : Call) (w₁' : World) (reconcile' : Reconcile)
          (execute' : State → State × Result A) (digest : String) (status : ℕ)
        → execute_idempotent json k w' c' w₁' reconcile' execute'
            (record q { digest = digest; status = status })
            v
          ≡ (
            v,
            done (
                if q.digest == digest
                then ok (record { value = a; replayed = true })
                else err request_conflict),
          )
    unfolding execute_idempotent
    execute_idempotent_repeat actor s h e v same unique h' w' c' w₁' reconcile' execute' digest
          status =
        let (claim, of, (text, item, reads, d)) =
          Finished-Kept actor (execute_idempotent-Finished actor s h e) in
        let again : Request = record q { digest = digest; status = status } in
        let d' = Done-moved k claim text (change_ref q) q.status u v item same d in
        let scope : same_scope claim (request_record actor again) ≡ true =
          unfold same_scope in same_scope_comm (request_record actor q) claim of.0 in
        rw (h', execute_idempotent)
          (subst
            (λ x.
              on_claim json k c' w₁' execute' again
                (claim_idempotency k w' reconcile' (request_record actor again) v)
              ≡ (v, again_or_conflict (x == digest)))
            of.1
            (repeated w' c' w₁' reconcile' execute' again (request_record actor again) v claim text
              (change_ref q) q.status item d' scope (rw same unique) reads))
