-- ===== src/Service/Idempotent/Operations/Requeue.antt =====
-- Queueing and approving of internal/service/idempotency.go, if the process stops before the answer is kept.
use changeguard.Prelude.{
  ◌≤◌, String, ◌≡◌, refl, sym, ap, ◌∙◌, Bool, true, ◌&&◌, some, List, [], ◌∷◌, ◌++◌, arith, eq_iff,
  find, any, any-sort_by, any-filter, find_holds, subst, Has, ◌⊎◌, inl, inr,
}
use changeguard.Model.Status.{
  ChangeStatus, experiment_queued, experiment_running, waiting_approval, approved, completed,
}
use changeguard.Model.{IdempotencyRecord, User, ChangeRequest, OutboxEvent, ok, ok-injective}
use changeguard.Crypto.{Crypto}
use changeguard.Store.Base.{State, Call, change}
use changeguard.Store.Experiments.{filled_event}
use changeguard.Store.Listing.{outbox_by_organization, listed_event, later_event}
use changeguard.Store.Idempotency.{public_idempotency_record, same_scope}
use changeguard.Service.Access.{active_actor}
use changeguard.Service.Queue.{queue_experiment, experiment_event}
use changeguard.Service.Queue.Queued.{IsQueued, queue_experiment-IsQueued}
use changeguard.Service.Idempotent.{World, done}
use changeguard.Service.Idempotent.Execute.{Json, request_record}
use changeguard.Service.Idempotent.Execute.Recover.{
  LeftBehind, Works, SameBut, execute_idempotent_recovers,
}
use changeguard.Service.Idempotent.Operations.{
  request_of, recovered_change, was_queued, requests_rehearsal, queue_found,
  queue_experiment_idempotent,
}

any-Has :
    {A : Type 0} (p : A → Bool) (x : A) (xs : List A) → p x ≡ true → Has x xs → any p xs ≡ true
unfolding any
any-Has p x [] h m = elim m [ ]
any-Has p x (y ∷ ys) h (inl e) = ground (arith, ap p e, h)
any-Has p x (y ∷ ys) h (inr m) = ground (arith, any-Has p x ys h m)

Has-last : {A : Type 0} (xs : List A) (x : A) → Has x (xs ++ x ∷ [])
Has-last [] x = inl refl
Has-last (y ∷ ys) x = inr (Has-last ys x)

-- an event at another time: what the rehearsal asked for is the same
pub record SameEvent (e f : OutboxEvent) : Type 0 where
  pub organization : f.organization_id ≡ e.organization_id
  pub aggregate : f.aggregate_id ≡ e.aggregate_id
  pub type : f.event_type ≡ e.event_type
  pub created : f.created_at ≡ e.created_at

-- each event of the first state is in the outbox of the second
abbrev pub KeepsEvents : State → State → Type 0
KeepsEvents t v =
    (e : OutboxEvent) → Has e t.outbox → (f : OutboxEvent) × Has f v.outbox × SameEvent e f

-- the change is queued for its rehearsal, or is past that
abbrev pub IsUnderWay : ChangeStatus → Type 0
IsUnderWay status =
    (status ≡ experiment_queued)
    ⊎ (status ≡ experiment_running)
    ⊎ (status ≡ waiting_approval)
    ⊎ (status ≡ approved)
    ⊎ (status ≡ completed)

IsUnderWay-was_queued : (x : ChangeRequest) → IsUnderWay x.status → was_queued x ≡ true
IsUnderWay-was_queued x (inl e) = rw e refl
IsUnderWay-was_queued x (inr (inl e)) = rw e refl
IsUnderWay-was_queued x (inr (inr (inl e))) = rw e refl
IsUnderWay-was_queued x (inr (inr (inr (inl e)))) = rw e refl
IsUnderWay-was_queued x (inr (inr (inr (inr e)))) = rw e refl

module _ (json : Json ChangeRequest) (k : Crypto) (c₀ c₁ : Call) (id actor_id : String)
    (s t v : State) (y x : ChangeRequest) (queued : IsQueued k c₀ c₁ id actor_id s t y)
    (keeps : KeepsEvents t v) (later : change id v ≡ ok x) (under_way : IsUnderWay x.status) where
  abbrev event : OutboxEvent
  event = filled_event c₁ (experiment_event id queued.actor queued.before)

  event-Has : Has event t.outbox
  event-Has = subst (Has event) (sym queued.requested) (Has-last s.outbox event)

  -- the event of the rehearsal is found
  listed :
      (r : IdempotencyRecord)
      → r.organization_id ≡ queued.actor.organization_id
      → r.created_at ≤ c₁.now
      → any (requests_rehearsal id r) (outbox_by_organization r.organization_id true 0 v) ≡ true
  unfolding outbox_by_organization filled_event
  listed r org at =
      let (f, there, same) = keeps event event-Has in
      any-sort_by (requests_rehearsal id r) later_event _
      ∙ any-filter (requests_rehearsal id r) (listed_event r.organization_id true) v.outbox
      ∙ any-Has (λ e. listed_event r.organization_id true e && requests_rehearsal id r e) f v.outbox
          (ground (
            arith,
            eq_iff f.organization_id r.organization_id,
            same.organization ∙ sym org,
            eq_iff f.aggregate_id id,
            same.aggregate,
            eq_iff f.event_type "experiment.requested",
            same.type,
            same.created,
            at,
          ))
          there

  found :
      (r : IdempotencyRecord)
      → r.organization_id ≡ queued.actor.organization_id
      → r.created_at ≤ c₁.now
      → queue_found json id r v ≡ ok (some (recovered_change json id x))
  unfolding queue_found
  found r org at =
      rw (later, queue_found) (rw (IsUnderWay-was_queued x under_way, listed r org at) refl)

same_scope-organization :
    (item r : IdempotencyRecord) (items : List IdempotencyRecord)
    → find (λ x. same_scope x r) items ≡ some item
    → item.organization_id ≡ r.organization_id
unfolding same_scope
same_scope-organization item r items f =
    let h = find_holds (λ x. same_scope x r) items item f in
    ground (arith, eq_iff item.organization_id r.organization_id)

-- If the process stops after a rehearsal was queued and before its answer was kept, a repeat of the
-- request, two seconds later at least and in any later state, is given the change as it then stands as
-- a replay: nothing is queued again, and only idempotency records are written. This is if the outbox
-- still has every event of the state after the queueing, the change is still queued or has gone on from
-- there to running, waiting for approval, approved or completed, the claim that was left behind is
-- still the first of its scope and was made before the rehearsal was queued, the user is active in the
-- same organization, the first poll draws a token and writes, and the change is read as it was written.
pub queue_experiment_idempotent_recovers :
    (json : Json ChangeRequest) (k : Crypto) (c₀ c₁ : Call) (id actor_id : String) (s t : State)
    (y : ChangeRequest)
    → queue_experiment k c₀ c₁ id actor_id s ≡ (t, ok y)
    → (actor : User) → active_actor actor_id s ≡ ok actor
    → (v : State) → KeepsEvents t v
    → (x : ChangeRequest) → change id v ≡ ok x
    → IsUnderWay x.status
    → (now_actor : User) → active_actor actor_id v ≡ ok now_actor
    → now_actor.organization_id ≡ actor.organization_id
    → (w : World) (c : Call) (w₁ : World) (c₂ c₃ : Call) (key digest token text : String)
      (item : IdempotencyRecord)
    → LeftBehind w
        (request_record now_actor (request_of actor_id "QUEUE_EXPERIMENT" id key digest))
        v
        item
    → item.created_at ≤ c₁.now
    → Works k w token
    → json.encode x ≡ ok text
    → json.decode text ≡ some x
    → (u : State) × SameBut u v
      × (queue_experiment_idempotent json k w c w₁ c₂ c₃ id actor_id key digest v
          ≡ (u, done (ok (record { value = x; replayed = true }))))
unfolding queue_experiment_idempotent
queue_experiment_idempotent_recovers json k c₀ c₁ id actor_id s t y h actor before v keeps x later
      under_way now_actor known home w c w₁ c₂ c₃ key digest token text item left at works encodes
      decodes =
    let queued = queue_experiment-IsQueued k c₀ c₁ id actor_id s t y h in
    let q = request_of actor_id "QUEUE_EXPERIMENT" id key digest in
    let same : queued.actor ≡ actor = ok-injective queued.actor actor (sym queued.known ∙ before) in
    let org : item.organization_id ≡ queued.actor.organization_id =
      same_scope-organization item (request_record now_actor q) v.idempotency_records left.first
      ∙ home
      ∙ ap (λ (z : User). z.organization_id) (sym same) in
    execute_idempotent_recovers json k w c w₁ (queue_found json id)
      (queue_experiment k c₂ c₃ id actor_id) q now_actor item v (recovered_change json id x) token
      text x known left works
      (found json k c₀ c₁ id actor_id s t v y x queued keeps later under_way
        (public_idempotency_record item) org at)
      encodes decodes
