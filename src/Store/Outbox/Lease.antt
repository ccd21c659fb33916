-- ===== src/Store/Outbox/Lease.antt =====
-- Who may act on an event: the fencing of stale workers.
use changeguard.Prelude.{
  ℕ, String, ◌≡◌, Bool, true, false, some, List, arith, ◌==◌, eq_iff, find, Bool-cases, inl, inr,
}
use changeguard.Model.Status.{Time, OutboxStage, processing}
use changeguard.Model.{AuditEvent, OutboxEvent, concurrent_write, err}
use changeguard.Crypto.{Crypto}
use changeguard.Store.Base.{State, Call}
use changeguard.Store.Changes.{Update}
use changeguard.Store.Outbox.{
  has_event_id, valid_outbox_lease, leased_update, complete_outbox, renew_outbox, fail_outbox,
  checkpoint_experiment_outbox, before, completed_event, renewed_event, failed_event, staged_event,
}
use changeguard.Store.Experiments.{finalize_experiment_outbox}

-- the worker owns the event under this generation, until the lease runs out
pub record Holds (worker : String) (generation : ℕ) (now : Time) (e : OutboxEvent) : Type 0 where
  pub in_process : e.status ≡ processing
  pub owner : e.locked_by ≡ worker
  pub current : e.lease_generation ≡ generation
  pub unexpired : before e.locked_until now ≡ true

pub valid_outbox_lease-Holds :
    (e : OutboxEvent) (worker : String) (generation : ℕ) (now : Time)
    → valid_outbox_lease e worker generation now ≡ true
    → Holds worker generation now e
unfolding valid_outbox_lease
valid_outbox_lease-Holds e worker generation now h = ground (arith, eq_iff e.locked_by worker)

module _ (c : Call) (id worker : String) (generation : ℕ) (e : OutboxEvent) (s : State)
    (found : find (has_event_id id) s.outbox ≡ some e)
    (stale : ¬ Holds worker generation c.now e) where
  no_lease : valid_outbox_lease e worker generation c.now ≡ false
  no_lease = elim (Bool-cases (valid_outbox_lease e worker generation c.now)) [
    | inl h ↦ absurd (stale (valid_outbox_lease-Holds e worker generation c.now h))
    | inr h ↦ h
  ]

  leased_update-stale :
      (also : OutboxEvent → Bool) (f : OutboxEvent → OutboxEvent)
      → leased_update c id worker generation also f s ≡ (s, err concurrent_write)
  unfolding leased_update
  leased_update-stale also f = rw (found, leased_update) (rw no_lease)

  -- A worker without the event's lease (another worker's, another generation's, or one that has run
  -- out) can neither complete, renew, fail, checkpoint nor finalize it: each call changes nothing and
  -- reports a concurrent write.
  pub stale_worker_fenced :
      (k : Crypto) (lease : Time) (cause : String) (stage : OutboxStage)
      (attempt input digest : String) (update : Update) (audits : List AuditEvent)
      → (complete_outbox c id worker generation s ≡ (s, err concurrent_write))
        × (renew_outbox c id worker generation lease s ≡ (s, err concurrent_write))
        × (fail_outbox c id worker generation cause s ≡ (s, err concurrent_write))
        × (checkpoint_experiment_outbox c id worker generation stage input s
            ≡ (s, err concurrent_write))
        × (finalize_experiment_outbox k c id worker generation attempt input digest update audits s
            ≡ (s, err concurrent_write))
  unfolding complete_outbox renew_outbox fail_outbox checkpoint_experiment_outbox
      finalize_experiment_outbox
  stale_worker_fenced k lease cause stage attempt input digest update audits = (
    leased_update-stale (λ _. true) (completed_event c.now),
    leased_update-stale (λ _. true) (renewed_event c.now lease),
    leased_update-stale (λ _. true) (failed_event c.now cause),
    leased_update-stale (λ x. x.input_sha256 == input) (staged_event c.now stage),
    rw (found, finalize_experiment_outbox) (rw no_lease),
  )
