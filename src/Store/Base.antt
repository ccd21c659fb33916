-- ===== src/Store/Base.antt =====
-- internal/store/store.go: the state, the write that every operation ends in, and the audit log.
-- The parts of the state that no modelled operation touches are left out. An operation runs under
-- the store's lock: it is a function from the state to the new state and its result.
pub mod Audited
pub mod Found
use changeguard.Prelude.{
  ℕ, ◌-◌, String, ◌≡◌, Bool, ◌&&◌, Option, none, some, List, [], ◌∷◌, ◌++◌, ◌==◌, ltb, nat_eq,
  if◌then◌else◌, length, find, find_last,
}
use changeguard.Model.Status.{Time}
use changeguard.Model.{
  Organization, User, UserCredential, OrganizationInvite, Application, ApplicationGrant, RiskPolicy,
  ChangeRequest, AuditEvent, StoredPassport, IdempotencyRecord, OutboxEvent, Err, not_found,
  index_out_of_range, Result, ok, err,
}
use changeguard.Crypto.{Crypto}
use changeguard.Audit.{link}

pub record State : Type 0 where
  pub organizations : List Organization
  pub users : List User
  pub credentials : List UserCredential
  pub invites : List OrganizationInvite
  pub applications : List Application
  pub grants : List ApplicationGrant
  pub policies : List RiskPolicy
  pub changes : List ChangeRequest
  pub audits : List AuditEvent
  pub passports : List StoredPassport
  pub idempotency_records : List IdempotencyRecord
  pub outbox : List OutboxEvent

-- What the disk or the database answers to `saveLocked`. On an error `restoreLocked` has put the
-- last saved state in place of the data, or has found none to load.
pub data Saving : Type 0 where
  saved : Saving
  failed : Err → Option State → Saving

-- what one locked call takes from outside: the clock, `NewID` by its prefix, and the write
pub record Call : Type 0 where
  pub now : Time
  pub new_id : String → ℕ → String
  pub saving : Saving

abbrev after_failure : Option State → State → State
after_failure none s = s
after_failure (some r) s = r

abbrev undone : {A : Type 0} → State → Err → Option State → State × Result A
undone s e none = (s, err index_out_of_range)
undone s e (some u) = (u, err e)

-- `if err := s.saveLocked(); err != nil { undo; return err }; return a`
abbrev pub save_locked :
    {A : Type 0} → Saving → State → (State → Option State) → A → State × Result A
save_locked saved s undo a = (s, ok a)
save_locked (failed e restored) s undo a = let r = after_failure restored s in undone r e (undo r)

-- a failed write leaves what was saved, or what was there
abbrev pub Restores : State → Saving → Type 0
Restores s saved = Unit
Restores s (failed e none) = Unit
Restores s (failed e (some r)) = r ≡ s

abbrev enrich_version : ChangeRequest → AuditEvent → AuditEvent
enrich_version change e = record e {
  resource_version_after =
      if nat_eq e.resource_version_after 0 then change.version else e.resource_version_after;
  resource_version_before =
      if nat_eq e.resource_version_before 0 && ltb 1 change.version
      then change.version - 1
      else e.resource_version_before;
  request_digest = if e.request_digest == "" then change.artifact_sha256 else e.request_digest;
}

-- `enrichAuditLocked`
enrich_audit : List ChangeRequest → AuditEvent → AuditEvent
unfolding find
enrich_audit changes e =
    if e.change_id == ""
    then e
    else let e' = record e { resource_type = "CHANGE"; resource_id = e.change_id } in
      elim (find
        (λ (c : ChangeRequest). c.id == e.change_id && c.organization_id == e.organization_id)
        changes) [ none ↦ e' | some change ↦ enrich_version change e' ]

-- one round of the loop of `appendAuditsLocked`
unfoldable pub append_audit :
    Crypto → Call → List ChangeRequest → AuditEvent → List AuditEvent → List AuditEvent
unfolding enrich_audit find_last link
append_audit k c changes e audits =
    let e₁ = record e {
      id = if e.id == "" then c.new_id "audit_" (length audits) else e.id;
      created_at = if nat_eq e.created_at 0 then c.now else e.created_at;
    } in
    let e₂ = enrich_audit changes e₁ in
    audits
    ++ link k.digest e₂
        (find_last (λ (a : AuditEvent). a.organization_id == e₂.organization_id) audits)
      ∷ []

append_all :
    Crypto → Call → List ChangeRequest → List AuditEvent → List AuditEvent → List AuditEvent
unfolding append_audit
append_all k c changes [] audits = audits
append_all k c changes (e ∷ es) audits =
    append_all k c changes es (append_audit k c changes e audits)

-- `appendAuditsLocked`
unfoldable pub append_audits : Crypto → Call → List AuditEvent → State → State
unfolding append_all
append_audits k c es s = record s { audits = append_all k c s.changes es s.audits }

abbrev pub of_option : {A : Type 0} → Option A → Result A
of_option none = err not_found
of_option (some a) = ok a

unfoldable pub user : String → State → Result User
unfolding find
user id s = of_option (find (λ (u : User). u.id == id) s.users)

abbrev pub has_id : String → ChangeRequest → Bool
has_id id c = c.id == id

-- `Change`
unfoldable pub change : String → State → Result ChangeRequest
unfolding find
change id s = of_option (find (has_id id) s.changes)
