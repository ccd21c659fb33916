-- ===== src/Store/Outbox.antt =====
-- internal/store/outbox.go: the transactional outbox. A worker claims an event under a lease with
-- a generation, renews it, and completes, fails or finalizes it; an event that failed too often is
-- dead until an operator retries it.
pub mod Lease
pub mod Claim
pub mod Backoff
use changeguard.Prelude.{
  ℕ, zero, suc, ◌+◌, ◌*◌, ◌^◌, String, Bool, true, false, not, ◌&&◌, ◌||◌, Option, none, some, List,
  [], ◌∷◌, ◌++◌, ◌==◌, ltb, leb, nat_eq, if◌then◌else◌, any, find, replace_first, set?,
}
use changeguard.Model.Status.{
  Time, second, OutboxStatus, processing, dead, is_outbox, OutboxStage, prepare, finalize, is_stage,
  ChangeStatus, experiment_queued, experiment_running, is_change,
}
use changeguard.Model.{
  ChangeRequest, AuditEvent, OutboxEvent, Err, not_found, concurrent_write, not_dead,
  index_out_of_range, Result, ok, err,
}
use changeguard.Crypto.{Crypto}
use changeguard.Store.Base.{State, Call, save_locked, append_audits, has_id}
use changeguard.Store.Changes.{Update, touched}

abbrev pub has_event_id : String → OutboxEvent → Bool
has_event_id id e = e.id == id

abbrev pub before : Option Time → Time → Bool
before none now = false
before (some t) now = ltb now t

abbrev pub elapsed : Option Time → Time → Bool
elapsed none now = false
elapsed (some t) now = leb t now

-- the caller holds the event's lease
unfoldable pub valid_outbox_lease : OutboxEvent → String → ℕ → Time → Bool
valid_outbox_lease e worker generation now =
    is_outbox e.status processing
    && e.locked_by == worker
    && nat_eq e.lease_generation generation
    && before e.locked_until now

-- pending, or abandoned by a worker whose lease ran out, and due
unfoldable pub is_due : Time → OutboxEvent → Bool
is_due now e =
    (is_outbox e.status OutboxStatus.pending
      || (is_outbox e.status processing && elapsed e.locked_until now))
    && leb e.next_attempt_at now

abbrev sooner : Option (ℕ × OutboxEvent) → OutboxEvent → Bool
sooner none e = true
sooner (some (j, b)) e = ltb e.next_attempt_at b.next_attempt_at

-- one round: the event takes the place of a later one
unfoldable pub better : Time → Option (ℕ × OutboxEvent) → ℕ → OutboxEvent → Option (ℕ × OutboxEvent)
unfolding is_due
better now best i e = if is_due now e && sooner best e then some (i, e) else best

-- the loop of `ClaimOutbox`: the index and the event selected so far, and the index of the next one
unfoldable pub select :
    Time → Option (ℕ × OutboxEvent) → ℕ → List OutboxEvent → Option (ℕ × OutboxEvent)
unfolding better
select now best i [] = best
select now best i (e ∷ es) = select now (better now best i e) (suc i) es

abbrev artifact_of : Option ChangeRequest → String → String
artifact_of none old = old
artifact_of (some x) old = x.artifact_sha256

-- the event as its new owner gets it
unfoldable pub claimed : Call → String → Time → List ChangeRequest → OutboxEvent → OutboxEvent
unfolding find
claimed c worker lease changes e =
    let first = is_stage e.stage OutboxStage.unset in
    record e {
      status = processing;
      attempts = e.attempts + 1;
      attempt_id = if e.attempt_id == "" then c.new_id "attempt_" 0 else e.attempt_id;
      lease_generation = e.lease_generation + 1;
      stage = if first then prepare else e.stage;
      stage_started_at = if first then some c.now else e.stage_started_at;
      stage_updated_at = some c.now;
      input_sha256 =
          if e.input_sha256 == "" && e.event_type == "experiment.requested"
          then artifact_of (find (has_id e.aggregate_id) changes) e.input_sha256
          else e.input_sha256;
      locked_by = worker;
      locked_until = some (c.now + lease);
      updated_at = c.now;
    }

-- `ClaimOutbox`
unfoldable pub claim_outbox : Call → String → Time → State → State × Result OutboxEvent
unfolding select claimed
claim_outbox c worker lease s = elim (select c.now none 0 s.outbox) [
  | none ↦ (s, err not_found)
  | some (i, e) ↦ elim (set? s.outbox i (claimed c worker lease s.changes e)) [
    | none ↦ (s, err index_out_of_range)
    | some events ↦
        save_locked c.saving (record s { outbox = events }) (λ r. some r)
          (claimed c worker lease s.changes e)
  ]
]

-- an operation that only the holder of the lease may make on the event
unfoldable pub leased_update :
    Call
    → String
    → String
    → ℕ
    → (OutboxEvent → Bool)
    → (OutboxEvent → OutboxEvent)
    → State
    → State × Result (Unit {0})
unfolding find valid_outbox_lease replace_first
leased_update c id worker generation also f s = elim (find (has_event_id id) s.outbox) [
  | none ↦ (s, err not_found)
  | some e ↦
      if not (valid_outbox_lease e worker generation c.now) || not (also e)
      then (s, err concurrent_write)
      else save_locked c.saving
          (record s { outbox = replace_first (has_event_id id) (f e) s.outbox }) (λ r. some r) tt
]

abbrev pub completed_event : Time → OutboxEvent → OutboxEvent
completed_event now e = record e {
  status = OutboxStatus.completed;
  locked_by = "";
  locked_until = none;
  last_error = "";
  updated_at = now;
  completed_at = some now;
}

unfoldable pub complete_outbox : Call → String → String → ℕ → State → State × Result (Unit {0})
unfolding leased_update
complete_outbox c id worker generation s =
    leased_update c id worker generation (λ _. true) (completed_event c.now) s

abbrev pub renewed_event : Time → Time → OutboxEvent → OutboxEvent
renewed_event now lease e = record e { locked_until = some (now + lease); updated_at = now }

unfoldable pub renew_outbox : Call → String → String → ℕ → Time → State → State × Result (Unit {0})
unfolding leased_update
renew_outbox c id worker generation lease s =
    leased_update c id worker generation (λ _. true) (renewed_event c.now lease) s

abbrev pub min_int : ℕ → ℕ → ℕ
min_int left right = if ltb left right then left else right

-- a failed event is dead after its last attempt, and else waits for 2, 4, ... 64 seconds
unfoldable pub failed_event : Time → String → OutboxEvent → OutboxEvent
failed_event now cause e =
    let freed = record e {
      last_error = cause;
      locked_by = "";
      locked_until = none;
      updated_at = now;
    } in
    if leb e.max_attempts e.attempts then record freed { status = dead } else record freed {
      status = OutboxStatus.pending;
      attempt_id = "";
      stage = OutboxStage.unset;
      stage_started_at = none;
      stage_updated_at = none;
      result_digest = "";
      next_attempt_at = now + 2 ^ min_int e.attempts 6 * second;
    }

unfoldable pub fail_outbox : Call → String → String → ℕ → String → State → State × Result (Unit {0})
unfolding leased_update failed_event
fail_outbox c id worker generation cause s =
    leased_update c id worker generation (λ _. true) (failed_event c.now cause) s

unfoldable pub staged_event : Time → OutboxStage → OutboxEvent → OutboxEvent
staged_event now stage e =
    let moved = not (is_stage e.stage stage) in
    record e {
      stage = if moved then stage else e.stage;
      stage_started_at = if moved then some now else e.stage_started_at;
      stage_updated_at = some now;
      updated_at = now;
    }

unfoldable pub checkpoint_experiment_outbox :
    Call → String → String → ℕ → OutboxStage → String → State → State × Result (Unit {0})
unfolding leased_update staged_event
checkpoint_experiment_outbox c id worker generation stage input s =
    leased_update c id worker generation (λ e. e.input_sha256 == input) (staged_event c.now stage) s
