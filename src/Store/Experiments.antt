-- ===== src/Store/Experiments.antt =====
-- internal/store/outbox.go: the operations that write an outbox event together with a change, and
-- those of the operator.
pub mod Ensured
pub mod Queued
use changeguard.Prelude.{
  ℕ, String, Bool, not, ◌&&◌, ◌||◌, Option, none, some, List, [], ◌∷◌, ◌++◌, ◌==◌, nat_eq, length,
  if◌then◌else◌, any, find, replace_first,
}
use changeguard.Model.Status.{
  Time, OutboxStatus, dead, is_outbox, OutboxStage, finalize, experiment_queued, experiment_running,
  is_change,
}
use changeguard.Model.{
  ChangeRequest, AuditEvent, OutboxEvent, Err, not_found, concurrent_write, not_dead, Result, ok,
  err,
}
use changeguard.Crypto.{Crypto}
use changeguard.Store.Base.{State, Call, save_locked, append_audits, has_id}
use changeguard.Store.Changes.{Update, touched}
use changeguard.Store.Outbox.{has_event_id, valid_outbox_lease}

-- the defaults of a new event
unfoldable pub filled_event : Call → OutboxEvent → OutboxEvent
filled_event c e = record e {
  id = if e.id == "" then c.new_id "out_" 0 else e.id;
  status = if is_outbox e.status OutboxStatus.unset then OutboxStatus.pending else e.status;
  max_attempts = if nat_eq e.max_attempts 0 then 5 else e.max_attempts;
  next_attempt_at = if nat_eq e.next_attempt_at 0 then c.now else e.next_attempt_at;
  created_at = if nat_eq e.created_at 0 then c.now else e.created_at;
  updated_at = c.now;
}

-- the change and the event that goes with it, in one state
unfoldable pub queued_state :
    Crypto → Call → String → ChangeRequest → OutboxEvent → List AuditEvent → State → State
unfolding append_audits replace_first filled_event
queued_state k c id x event audits s = append_audits k c audits (record s {
  changes = replace_first (has_id id) x s.changes;
  outbox = s.outbox ++ filled_event c event ∷ [];
})

abbrev finish_with_outbox :
    Crypto
    → Call
    → String
    → OutboxEvent
    → List AuditEvent
    → State
    → ChangeRequest × Option Err
    → State × Result ChangeRequest
finish_with_outbox k c id event audits s (x, some e) = (s, err e)
finish_with_outbox k c id event audits s (x, none) =
    save_locked c.saving (queued_state k c id (touched c x) event audits s) (λ r. some r)
      (touched c x)

-- `UpdateChangeWithOutbox`: a callback that fails is undone
unfoldable pub update_change_with_outbox :
    Crypto
    → Call
    → String
    → Update
    → OutboxEvent
    → List AuditEvent
    → State
    → State × Result ChangeRequest
unfolding find queued_state
update_change_with_outbox k c id update event audits s = elim (find (has_id id) s.changes) [
  | none ↦ (s, err not_found)
  | some x ↦ finish_with_outbox k c id event audits s (update x)
]

abbrev pub empty_event : OutboxEvent
empty_event = record {
  id = "";
  organization_id = "";
  aggregate_type = "";
  aggregate_id = "";
  event_type = "";
  status = OutboxStatus.unset;
  attempts = 0;
  max_attempts = 0;
  attempt_id = "";
  lease_generation = 0;
  stage = OutboxStage.unset;
  stage_started_at = none;
  stage_updated_at = none;
  input_sha256 = "";
  result_digest = "";
  next_attempt_at = 0;
  locked_by = "";
  locked_until = none;
  last_error = "";
  created_at = 0;
  updated_at = 0;
  completed_at = none;
}

abbrev pub requested_event : Call → ℕ → ChangeRequest → OutboxEvent
requested_event c n x = record empty_event {
  id = c.new_id "out_" n;
  organization_id = x.organization_id;
  aggregate_type = "change";
  aggregate_id = x.id;
  event_type = "experiment.requested";
  status = OutboxStatus.pending;
  max_attempts = 5;
  input_sha256 = x.artifact_sha256;
  next_attempt_at = c.now;
  created_at = c.now;
  updated_at = c.now;
}

-- an event that still stands for the experiment of this change
abbrev pub serves : ChangeRequest → OutboxEvent → Bool
serves x e =
    e.event_type == "experiment.requested"
    && e.aggregate_id == x.id
    && not (is_outbox e.status OutboxStatus.completed)
    && not (is_outbox e.status dead)

abbrev pub in_experiment : ChangeRequest → Bool
in_experiment x = is_change x.status experiment_queued || is_change x.status experiment_running

-- the loop of `EnsureExperimentOutbox`
unfoldable pub ensured : Call → List ChangeRequest → List OutboxEvent → List OutboxEvent
unfolding any
ensured c [] events = events
ensured c (x ∷ xs) events = ensured c xs (
    if not (in_experiment x) || any (serves x) events
    then events
    else events ++ requested_event c (length events) x ∷ [])

unfoldable pub lacks_event : List OutboxEvent → ChangeRequest → Bool
unfolding any
lacks_event events x = in_experiment x && not (any (serves x) events)

-- `EnsureExperimentOutbox`; nothing is written if no event was missing
unfoldable pub ensure_experiment_outbox : Call → State → State × Result (Unit {0})
unfolding ensured lacks_event any
ensure_experiment_outbox c s =
    if any (lacks_event s.outbox) s.changes
    then save_locked c.saving (record s { outbox = ensured c s.changes s.outbox }) (λ r. some r) tt
    else (s, ok tt)

abbrev pub finalized_event : Time → String → OutboxEvent → OutboxEvent
finalized_event now digest e = record e {
  result_digest = digest;
  stage = finalize;
  stage_started_at = some now;
  stage_updated_at = some now;
  updated_at = now;
}

-- the report on the change and its digest on the event, in one state
unfoldable pub finalized_state :
    Crypto → Call → String → String → OutboxEvent → ChangeRequest → List AuditEvent → State → State
unfolding append_audits replace_first
finalized_state k c id digest e x audits s =
    let t =
      append_audits k c audits
        (record s { changes = replace_first (has_id e.aggregate_id) x s.changes }) in
    record t { outbox = replace_first (has_event_id id) (finalized_event c.now digest e) s.outbox }

abbrev finish_finalize :
    Crypto
    → Call
    → String
    → String
    → OutboxEvent
    → List AuditEvent
    → State
    → ChangeRequest × Option Err
    → State × Result ChangeRequest
finish_finalize k c id digest e audits s (x, some cause) = (s, err cause)
finish_finalize k c id digest e audits s (x, none) =
    save_locked c.saving (finalized_state k c id digest e (touched c x) audits s) (λ r. some r)
      (touched c x)

unfoldable pub finalize_event :
    Crypto
    → Call
    → String
    → String
    → Update
    → List AuditEvent
    → OutboxEvent
    → State
    → State × Result ChangeRequest
unfolding find finalized_state
finalize_event k c id digest update audits e s = elim (find (has_id e.aggregate_id) s.changes) [
  | none ↦ (s, err not_found)
  | some x ↦
      if not (e.result_digest == "")
      then (if e.result_digest == digest then (s, ok x) else (s, err concurrent_write))
      else finish_finalize k c id digest e audits s (update x)
]

-- `FinalizeExperimentOutbox`
unfoldable pub finalize_experiment_outbox :
    Crypto
    → Call
    → String
    → String
    → ℕ
    → String
    → String
    → String
    → Update
    → List AuditEvent
    → State
    → State × Result ChangeRequest
unfolding find valid_outbox_lease finalize_event
finalize_experiment_outbox k c id worker generation attempt input digest update audits s =
    elim (find (has_event_id id) s.outbox) [
      | none ↦ (s, err not_found)
      | some e ↦
          if not (valid_outbox_lease e worker generation c.now)
            || not (e.attempt_id == attempt)
            || not (e.input_sha256 == input)
          then (s, err concurrent_write)
          else finalize_event k c id digest update audits e s
    ]

abbrev pub is_retried : String → String → OutboxEvent → Bool
is_retried org id e = e.id == id && e.organization_id == org

abbrev pub retried_event : Time → OutboxEvent → OutboxEvent
retried_event now e = record e {
  status = OutboxStatus.pending;
  attempts = 0;
  attempt_id = "";
  stage = OutboxStage.unset;
  stage_started_at = none;
  stage_updated_at = none;
  result_digest = "";
  last_error = "";
  next_attempt_at = now;
  updated_at = now;
}

-- `RetryOutbox`, with its audit
unfoldable pub retry_outbox :
    Crypto → Call → String → String → AuditEvent → State → State × Result (Unit {0})
unfolding find append_audits replace_first
retry_outbox k c org id a s = elim (find (is_retried org id) s.outbox) [
  | none ↦ (s, err not_found)
  | some e ↦
      let a' = record a {
        organization_id = org;
        id = if a.id == "" then c.new_id "audit_" 0 else a.id;
        created_at = if nat_eq a.created_at 0 then c.now else a.created_at;
      } in
      let t = record s {
        outbox = replace_first (is_retried org id) (retried_event c.now e) s.outbox;
      } in
      if not (is_outbox e.status dead)
      then (s, err not_dead)
      else save_locked c.saving (append_audits k c (a' ∷ []) t) (λ r. some r) tt
]
