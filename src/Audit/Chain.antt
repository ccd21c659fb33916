-- ===== src/Audit/Chain.antt =====
-- `Verify` of the audit events, in internal/audit/audit.go.
use changeguard.Prelude.{
  ℕ, suc, String, Bool, true, false, not, ◌&&◌, Option, none, some, List, [], ◌∷◌, ◌==◌,
  if◌then◌else◌,
}
use changeguard.Model.{AuditEvent}
use changeguard.Audit.{Digest, normalize, digest}

-- why a chain is refused, with the event's identifier and index
pub data Fault : Type 0 where
  removed_hash : String → ℕ → Fault
  wrong_prev : String → ℕ → Fault
  wrong_hash : String → ℕ → Fault

-- the last event of each organization, and whether it has had a hash
pub record Seen : Type 0 where
  pub last : String → Option AuditEvent
  pub hashed : String → Bool

abbrev pub nothing_seen : Seen
nothing_seen = record { last = λ org. none; hashed = λ org. false }

abbrev pub saw : Seen → AuditEvent → Seen
saw seen e = record {
  last = λ org. if org == e.organization_id then some e else seen.last org;
  hashed = λ org. if not (e.hash == "") && org == e.organization_id then true else seen.hashed org;
}

-- the hash that an event must refer to
unfoldable pub expected_prev : Digest → Option AuditEvent → String
unfolding digest
expected_prev h none = ""
expected_prev h (some p) = if p.hash == "" then digest h p else p.hash

-- the checks on one event
unfoldable pub fault_of : Digest → ℕ → Seen → AuditEvent → Option Fault
unfolding expected_prev digest
fault_of h index seen e =
    if e.hash == ""
    then if seen.hashed e.organization_id then some (removed_hash e.id index) else none
    else if not (e.prev_hash == expected_prev h (seen.last e.organization_id))
    then some (wrong_prev e.id index)
    else if not (e.hash == digest h e)
    then some (wrong_hash e.id index)
    else none

unfoldable pub verify_from : Digest → ℕ → Seen → List AuditEvent → Option Fault
unfolding fault_of normalize
verify_from h index seen [] = none
verify_from h index seen (raw ∷ rest) =
    let e = normalize raw in
    let later = verify_from h (suc index) (saw seen e) rest in
    elim (fault_of h index seen e) [ some fault ↦ some fault | none ↦ later ]

-- `Verify`
unfoldable pub verify_events : Digest → List AuditEvent → Option Fault
unfolding verify_from
verify_events h events = verify_from h 0 nothing_seen events
