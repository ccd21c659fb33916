-- ===== src/Service/Queue/Queued.antt =====
-- What a queued rehearsal rests on, and what has been stored of it.
use changeguard.Prelude.{
  String, ◌≡◌, ap, sym, ◌∙◌, subst, true, ◌||◌, ◌&&◌, some, [], ◌∷◌, ◌++◌, ◌==◌, eq_iff, arith,
  find, find_holds, find-replace_first, ◌⊎◌, inl, inr,
}
use changeguard.Model.Status.{ChangeStatus, ready_for_experiment, is_change}
use changeguard.Model.{
  User, ChangeRequest, invalid_state, forbidden, ok, ◌>>=◌, ◌>>◌, bind-ok, then-ok, require-then,
  Result-cases, ok-injective,
}
use changeguard.Crypto.{Crypto}
use changeguard.Store.Base.{State, Call, change, has_id}
use changeguard.Store.Base.Found.{change-found}
use changeguard.Store.Changes.{touched}
use changeguard.Store.Experiments.{filled_event}
use changeguard.Store.Experiments.Queued.{IsWritten, update_change_with_outbox-IsWritten}
use changeguard.Service.Access.{active_actor, can_use_application, submit, role_owner, audit}
use changeguard.Service.Review.{has_sql}
use changeguard.Service.Queue.{
  may_queue, queue_update, experiment_event, queue_checks, queue_experiment,
}

pub record IsQueued (k : Crypto) (c c₁ : Call) (id actor_id : String) (s t : State)
    (y : ChangeRequest) : Type 0 where
  pub actor : User
  pub before : ChangeRequest
  pub known : active_actor actor_id s ≡ ok actor
  pub found : change id s ≡ ok before
  pub organization : before.organization_id ≡ actor.organization_id
  pub access : can_use_application actor before.application_id submit s ≡ true
  pub ready : before.status ≡ ready_for_experiment
  pub sql : has_sql before ≡ true
  pub own : (before.submitter_id ≡ actor.id) ⊎ (actor.role ≡ role_owner)
  pub queued : y ≡ touched c₁ (queue_update c actor before).0
  pub stored : find (has_id id) t.changes ≡ some y
  pub requested : t.outbox ≡ s.outbox ++ filled_event c₁ (experiment_event id actor before) ∷ []

ready-eq : (s : ChangeStatus) → is_change s ready_for_experiment ≡ true → s ≡ ready_for_experiment
ready-eq s h = ground arith

may_queue-ok :
    (actor : User) (x : ChangeRequest) (s : State)
    → may_queue actor x s ≡ ok tt
    → (x.organization_id ≡ actor.organization_id)
      × (can_use_application actor x.application_id submit s ≡ true)
      × (x.status ≡ ready_for_experiment)
      × (has_sql x ≡ true)
      × ((x.submitter_id ≡ actor.id) ⊎ (actor.role ≡ role_owner))
unfolding may_queue
may_queue-ok actor x s h =
    let (a, h₁) =
      require-then forbidden
        (x.organization_id == actor.organization_id
          && can_use_application actor x.application_id submit s)
        _ tt h in
    let (b, h₂) = require-then invalid_state (is_change x.status ready_for_experiment) _ tt h₁ in
    let (d, h₃) = require-then invalid_state (has_sql x) _ tt h₂ in
    let e : (x.submitter_id == actor.id || actor.role == role_owner) ≡ true = ground (arith, h₃) in
    (
      ground (arith, eq_iff x.organization_id actor.organization_id),
      ground arith,
      ready-eq x.status b,
      d,
      ground (arith, eq_iff x.submitter_id actor.id, eq_iff actor.role role_owner),
    )

given : (a b : ChangeRequest) → some a ≡ some b → a ≡ b
given a b h = ground arith

module _ (k : Crypto) (c c₁ : Call) (id actor_id : String) (s t : State) (y : ChangeRequest) where
  stored_change :
      (actor : User) (x : ChangeRequest)
      (w : IsWritten k c₁ id (queue_update c actor) (experiment_event id actor x) s t y)
      → find (has_id id) t.changes ≡ some y
  stored_change actor x w =
      let kept : y.id ≡ w.before.id = ap (λ (z : ChangeRequest). z.id) w.answer in
      let same : w.before.id ≡ id =
        (eq_iff w.before.id id).0 (find_holds (has_id id) s.changes w.before w.found) in
      ap (find (has_id id)) w.changes
      ∙ find-replace_first (has_id id) s.changes y w.before w.found
          ((eq_iff y.id id).1 (kept ∙ same))

  abbrev Checked : User × ChangeRequest → Type 0
  Checked (actor, x) =
      (active_actor actor_id s ≡ ok actor) × (change id s ≡ ok x) × (may_queue actor x s ≡ ok tt)

  queue_checks-ok :
      (actor : User) (x : ChangeRequest)
      → queue_checks id actor_id s ≡ ok (actor, x)
      → Checked (actor, x)
  unfolding queue_checks
  queue_checks-ok actor x f =
      let (u, uh, h₁) =
        bind-ok (active_actor actor_id s) (λ u. change id s >>= (λ z. may_queue u z s >> ok (u, z)))
          (actor, x) f in
      let (z, zh, h₂) = bind-ok (change id s) (λ z. may_queue u z s >> ok (u, z)) (actor, x) h₁ in
      let (m, h₃) = then-ok (may_queue u z s) (ok (u, z)) (actor, x) h₂ in
      subst Checked (ok-injective (u, z) (actor, x) h₃) (uh, zh, m)

  written :
      (actor : User) (x : ChangeRequest)
      → active_actor actor_id s ≡ ok actor
      → change id s ≡ ok x
      → may_queue actor x s ≡ ok tt
      → IsWritten k c₁ id (queue_update c actor) (experiment_event id actor x) s t y
      → IsQueued k c c₁ id actor_id s t y
  written actor x known found allowed w =
      let (organization, access, ready, sql, own) = may_queue-ok actor x s allowed in
      let same : w.before ≡ x = given w.before x (sym w.found ∙ change-found id s x found) in
      record {
        actor = actor;
        before = x;
        known = known;
        found = found;
        organization = organization;
        access = access;
        ready = ready;
        sql = sql;
        own = own;
        queued = w.answer ∙ ap (λ z. touched c₁ (queue_update c actor z).0) same;
        stored = stored_change actor x w;
        requested = w.outbox;
      }

  -- A change is queued for its rehearsal only by an active user of its organization who may submit for
  -- its application and is the change's submitter or the technical owner, when the change has SQL and
  -- is ready for it; the change is then stored as queued, with the request of the rehearsal behind it
  -- in the outbox.
  pub queue_experiment-IsQueued :
      queue_experiment k c c₁ id actor_id s ≡ (t, ok y) → IsQueued k c c₁ id actor_id s t y
  unfolding queue_experiment queue_checks
  queue_experiment-IsQueued h = elim (Result-cases (queue_checks id actor_id s)) [
    | inl (e, f) ↦ absurd (ground (arith, rw (f, queue_experiment) at h))
    | inr ((actor, x), f) ↦
        let (known, found, allowed) = queue_checks-ok actor x f in
        written actor x known found allowed (
          update_change_with_outbox-IsWritten k c₁ id (queue_update c actor)
            (experiment_event id actor x)
            (audit c actor id "QUEUE_EXPERIMENT" "提交影子库演练任务并写入事务 Outbox" ∷ []) s t y
            (rw (f, queue_experiment) at h))
  ]
