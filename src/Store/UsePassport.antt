-- ===== src/Store/UsePassport.antt =====
-- internal/store/passport.go: `UsePassport` on the local state (the verification and the single
-- consumption of a passport), `RevokePassport`, `RevokePassportsByChange` and `RecordAudit`.
pub mod Once
pub mod Atomic
pub mod Consume
use Prim.Native.String.{◌++◌ as text_append}
use changeguard.Prelude.{
  ℕ, ◌+◌, String, ◌≡◌, Bool, true, false, not, ◌&&◌, ◌||◌, Option, none, some, List, [], ◌∷◌, ◌++◌,
  ◌==◌, leb, if◌then◌else◌, any, find, position, filter, replace_first, set?, map,
}
use changeguard.Model.Status.{
  Time, active, consumed, revoked, expired, is_passport, ChangeStatus, approved, is_change,
}
use changeguard.Model.{
  RiskPolicy, ChangeRequest, TimelineEntry, AuditEvent, Passport, StoredPassport, Err, not_found,
  passport_expired, passport_inactive, passport_token_mismatch, passport_change_invalid,
  passport_replay, Result, ok, err,
}
use changeguard.Crypto.{Crypto}
use changeguard.Changegate.Rules.{rule_set_version}
use changeguard.Store.Base.{State, Call, save_locked, append_audits}
use changeguard.Store.Passport.{
  has_passport_id, with_status, undo_passports, public_passport, same_consumer_replay,
}

-- the undo of a write to the passport at an index
abbrev pub undo_item : ℕ → StoredPassport → List AuditEvent → State → Option State
undo_item i old audits s = elim (set? s.passports i old) [
  | none ↦ none
  | some items ↦ some (record s { passports = items; audits = audits })
]

-- the undo of a consumption, which wrote to a passport and to its change
abbrev pub undo_consume :
    ℕ → StoredPassport → ℕ → ChangeRequest → List AuditEvent → State → Option State
undo_consume i old j change audits s = elim (set? s.passports i old) [
  | none ↦ none
  | some items ↦ elim (set? s.changes j change) [
    | none ↦ none
    | some changes ↦ some (record s { passports = items; changes = changes; audits = audits })
  ]
]

pub undo_consume-eq :
    (i j : ℕ) (old : StoredPassport) (change : ChangeRequest) (audits : List AuditEvent) (r : State)
    (items : List StoredPassport) (changes : List ChangeRequest)
    → set? r.passports i old ≡ some items
    → set? r.changes j change ≡ some changes
    → undo_consume i old j change audits r
      ≡ some (record r { passports = items; changes = changes; audits = audits })
undo_consume-eq i j old change audits r items changes p q = rw (p, q, undo_consume)

pub undo_item-eq :
    (i : ℕ) (old : StoredPassport) (audits : List AuditEvent) (r : State)
    (items : List StoredPassport)
    → set? r.passports i old ≡ some items
    → undo_item i old audits r ≡ some (record r { passports = items; audits = audits })
undo_item-eq i old audits r items p = rw (p, undo_item)

-- the state with the passport expired and its audit
unfoldable pub expired_state : Crypto → Call → String → StoredPassport → AuditEvent → State → State
unfolding append_audits replace_first
expired_state k c id item a s =
    append_audits k c (record a { action = "PASSPORT_EXPIRED" } ∷ []) (record s {
      passports = replace_first (has_passport_id id) (with_status expired item) s.passports;
    })

abbrev pub then_expired : State × Result (Unit {0}) → State × Result Passport
then_expired (t, ok _) = (t, err passport_expired)
then_expired (t, err e) = (t, err e)

unfoldable pub expire_item :
    Crypto → Call → String → StoredPassport → AuditEvent → State → State × Result Passport
unfolding expired_state position
expire_item k c id item a s = then_expired (
    save_locked c.saving (expired_state k c id item a s)
      (undo_item (position (has_passport_id id) s.passports) item s.audits) tt)

abbrev pub is_bound_change : StoredPassport → ChangeRequest → Bool
is_bound_change item change =
    change.id == item.change_id && change.organization_id == item.organization_id

-- the change is approved and is still what the passport was issued for
abbrev pub binding_holds : String → StoredPassport → ChangeRequest → Bool
binding_holds rules item change =
    is_change change.status approved
    && change.artifact_sha256 == item.artifact_sha256
    && change.environment == item.environment
    && change.rule_set_version == item.rule_set_version
    && rules == item.rule_set_version

-- the organization's policies, in the order of the store
unfoldable pub organization_policies : String → State → List RiskPolicy
unfolding filter
organization_policies org s = filter (λ (p : RiskPolicy). p.organization_id == org) s.policies

abbrev pub consumed_item : String → Time → StoredPassport → StoredPassport
consumed_item consumer at item = record item {
  passport = record item.passport {
    status = consumed;
    consumed_at = some at;
    consumed_by = consumer;
  };
}

abbrev pub completed_change : Call → String → Time → ChangeRequest → ChangeRequest
completed_change c consumer at change = record change {
  status = ChangeStatus.completed;
  updated_at = at;
  version = change.version + 1;
  timeline =
      change.timeline
      ++ record {
        id = c.new_id "timeline_" 0;
        status = ChangeStatus.completed;
        title = "CI 通行证已消费";
        detail = "制品摘要、环境与规则版本验证通过，生产变更自动闭环";
        actor = consumer;
        created_at = at;
      }
        ∷ [];
}

-- the state with the passport consumed, its change completed, and their audit
unfoldable pub consumed_state :
    Crypto
    → Call
    → String
    → String
    → Time
    → StoredPassport
    → ChangeRequest
    → AuditEvent
    → State
    → State
unfolding append_audits replace_first
consumed_state k c id consumer at item change a s =
    append_audits k c
      (record a {
        action = "PASSPORT_CONSUMED_AND_CHANGE_COMPLETED";
        detail = text_append a.detail "；变更状态已原子更新为 COMPLETED";
      }
        ∷ [])
      (record s {
        passports = replace_first (has_passport_id id) (consumed_item consumer at item) s.passports;
        changes =
            replace_first (is_bound_change item) (completed_change c consumer at change) s.changes;
      })

unfoldable pub consume_item :
    Crypto
    → Call
    → String
    → String
    → Time
    → StoredPassport
    → ChangeRequest
    → AuditEvent
    → State
    → State × Result Passport
unfolding consumed_state position public_passport
consume_item k c id consumer at item change a s =
    save_locked c.saving (consumed_state k c id consumer at item change a s)
      (undo_consume (position (has_passport_id id) s.passports) item
        (position (is_bound_change item) s.changes) change s.audits)
      (public_passport c.now (consumed_item consumer at item) false)

-- from the lookup of the change on
unfoldable pub use_active :
    Crypto
    → Call
    → String
    → String
    → Time
    → Bool
    → StoredPassport
    → AuditEvent
    → State
    → State × Result Passport
unfolding find organization_policies rule_set_version consume_item public_passport
use_active k c id consumer at consume item a s = elim (find (is_bound_change item) s.changes) [
  | none ↦ (s, err passport_change_invalid)
  | some change ↦
      if not (
        binding_holds (rule_set_version k (organization_policies item.organization_id s)) item
          change)
      then (s, err passport_change_invalid)
      else if consume
      then consume_item k c id consumer at item change a s
      else (s, ok (public_passport c.now item false))
]

-- the checks on the passport that was found, in the order of the source
unfoldable pub use_item :
    Crypto
    → Call
    → String
    → String
    → String
    → Time
    → Bool
    → StoredPassport
    → AuditEvent
    → State
    → State × Result Passport
unfolding same_consumer_replay expire_item use_active public_passport
use_item k c id token consumer at consume item a s =
    if not (item.token_sha256_stored == token)
    then (s, err passport_token_mismatch)
    else if is_passport item.status expired
    then (s, err passport_expired)
    else if consume && is_passport item.status consumed
    then (if same_consumer_replay item token consumer
        then (s, ok (public_passport c.now item false))
        else (s, err passport_replay))
    else if not (is_passport item.status active)
    then (s, err passport_inactive)
    else if leb item.expires_at at
    then expire_item k c id item a s
    else use_active k c id consumer at consume item a s

unfoldable pub use_passport :
    Crypto
    → Call
    → String
    → String
    → String
    → Time
    → Bool
    → AuditEvent
    → State
    → State × Result Passport
unfolding find use_item
use_passport k c id token consumer at consume a s = elim (find (has_passport_id id) s.passports) [
  | none ↦ (s, err not_found)
  | some item ↦ use_item k c id token consumer at consume item a s
]

abbrev pub is_revocable : String → String → StoredPassport → Bool
is_revocable org id item = item.id == id && item.organization_id == org

abbrev pub revoked_item : String → Time → StoredPassport → StoredPassport
revoked_item actor at item = record item {
  passport = record item.passport { status = revoked; revoked_at = some at; revoked_by_id = actor };
}

unfoldable pub revoked_state :
    Crypto → Call → String → String → String → Time → StoredPassport → AuditEvent → State → State
unfolding append_audits replace_first
revoked_state k c org id actor at item a s = append_audits k c (a ∷ []) (record s {
  passports = replace_first (is_revocable org id) (revoked_item actor at item) s.passports;
})

unfoldable pub revoke_passport :
    Crypto → Call → String → String → String → Time → AuditEvent → State → State × Result Passport
unfolding find revoked_state position public_passport
revoke_passport k c org id actor at a s = elim (find (is_revocable org id) s.passports) [
  | none ↦ (s, err not_found)
  | some item ↦
      if not (is_passport item.status active)
      then (s, err passport_inactive)
      else save_locked c.saving (revoked_state k c org id actor at item a s)
          (undo_item (position (is_revocable org id) s.passports) item s.audits)
          (public_passport c.now (revoked_item actor at item) false)
]

abbrev pub is_active_of : String → String → StoredPassport → Bool
is_active_of org change_id item =
    item.organization_id == org && item.change_id == change_id && is_passport item.status active

unfoldable pub revoke_passports_by_change :
    Crypto → Call → String → String → String → Time → AuditEvent → State → State × Result (Unit {0})
unfolding any append_audits
revoke_passports_by_change k c org change_id actor at a s =
    let items =
      map (λ item. if is_active_of org change_id item then revoked_item actor at item else item)
        s.passports in
    let u = append_audits k c (a ∷ []) (record s { passports = items }) in
    if any (is_active_of org change_id) s.passports
    then save_locked c.saving u (undo_passports s) tt
    else (s, ok tt)

unfoldable pub record_audit : Crypto → Call → AuditEvent → State → State × Result (Unit {0})
unfolding append_audits
record_audit k c a s =
    save_locked c.saving (append_audits k c (a ∷ []) s) (λ r. some (record r { audits = s.audits }))
      tt
