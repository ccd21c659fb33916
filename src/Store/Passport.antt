-- ===== src/Store/Passport.antt =====
-- internal/store/passport.go: issuing, consuming and revoking passports under the store's lock,
-- with the undo of each when the write fails.
pub mod Issued
use changeguard.Prelude.{
  String, Bool, true, not, ◌&&◌, ◌||◌, Option, none, some, List, [], ◌∷◌, ◌++◌, ◌==◌, ltb, leb,
  if◌then◌else◌, trim_space, any, find,
}
use changeguard.Model.Status.{Time, PassportStatus, active, consumed, expired, is_passport}
use changeguard.Model.{AuditEvent, Passport, StoredPassport, not_found, conflict, Result, ok, err}
use changeguard.Crypto.{Crypto}
use changeguard.Store.Base.{State, Call, save_locked, append_audits}

abbrev pub has_passport_id : String → StoredPassport → Bool
has_passport_id id p = p.id == id

-- an unexpired active passport of the same change, or any passport of the same id
abbrev pub blocks_issue : Time → Passport → StoredPassport → Bool
blocks_issue now p item =
    item.id == p.id
    || (item.organization_id == p.organization_id
        && item.change_id == p.change_id
        && is_passport item.status active
        && ltb now item.expires_at)

abbrev pub lapsed : Time → Passport → StoredPassport → Bool
lapsed now p item =
    item.organization_id == p.organization_id
    && item.change_id == p.change_id
    && is_passport item.status active
    && leb item.expires_at now

abbrev pub with_status : PassportStatus → StoredPassport → StoredPassport
with_status st item = record item { passport = record item.passport { status = st } }

abbrev pub empty_audit : AuditEvent
empty_audit = record {
  organization_id = "";
  id = "";
  change_id = "";
  request_id = "";
  actor_id = "";
  actor_name = "";
  actor_type = "";
  auth_method = "";
  action = "";
  resource_type = "";
  resource_id = "";
  resource_version_before = 0;
  resource_version_after = 0;
  request_digest = "";
  result = "";
  reason_code = "";
  related_event_id = "";
  attempt_id = "";
  passport_id = "";
  detail = "";
  created_at = 0;
  prev_hash = "";
  hash = "";
}

abbrev pub expiry_audit : Time → StoredPassport → AuditEvent
expiry_audit now item = record empty_audit {
  organization_id = item.organization_id;
  change_id = item.change_id;
  actor_id = "system";
  actor_name = "ChangeGuard";
  actor_type = "SYSTEM";
  action = "PASSPORT_EXPIRED";
  passport_id = item.id;
  detail = "签发新通行证前物化既有通行证自然过期状态";
  created_at = now;
}

-- the loop that marks the change's lapsed passports as expired, with an audit for each
unfoldable pub expire_lapsed :
    Crypto → Call → Passport → List StoredPassport → State → List StoredPassport × State
unfolding append_audits
expire_lapsed k c p [] s = ([], s)
expire_lapsed k c p (item ∷ items) s =
    let hit = lapsed c.now p item in
    let s' = if hit then append_audits k c (expiry_audit c.now item ∷ []) s else s in
    let (rest, t) = expire_lapsed k c p items s' in
    ((if hit then with_status expired item else item) ∷ rest, t)

-- the undo of an operation that changed the passports and the audits
abbrev pub undo_passports : State → State → Option State
undo_passports old s = some (record s { passports = old.passports; audits = old.audits })

-- the token's hash moves to the field that the state keeps
abbrev pub stored_passport : Passport → StoredPassport
stored_passport p = record {
  passport = record p { token_sha256 = "" };
  token_sha256_stored = p.token_sha256;
}

-- the state with the lapsed passports expired and the new one appended, and their audits
unfoldable pub issued_state : Crypto → Call → Passport → AuditEvent → State → State
unfolding expire_lapsed append_audits
issued_state k c p a s =
    let (items, t) = expire_lapsed k c p s.passports s in
    append_audits k c (a ∷ []) (record t { passports = items ++ stored_passport p ∷ [] })

unfoldable pub create_passport :
    Crypto → Call → Passport → AuditEvent → State → State × Result (Unit {0})
unfolding any issued_state
create_passport k c p a s =
    if any (blocks_issue c.now p) s.passports
    then (s, err conflict)
    else save_locked c.saving (issued_state k c p a s) (undo_passports s) tt

-- what a caller sees of a stored passport
unfoldable pub public_passport : Time → StoredPassport → Bool → Passport
public_passport now item include =
    if include
    then record item.passport { token_sha256 = item.token_sha256_stored }
    else record item.passport {
      token_sha256 = "";
      status =
          if is_passport item.status active && leb item.expires_at now
          then expired
          else item.status;
    }

-- `Passport`
unfoldable pub passport : Call → String → State → Result Passport
unfolding find public_passport
passport c id s = elim (find (has_passport_id id) s.passports) [
  | none ↦ err not_found
  | some item ↦ ok (public_passport c.now item true)
]

unfoldable pub same_consumer_replay : StoredPassport → String → String → Bool
same_consumer_replay item token_sha256 consumer =
    is_passport item.status consumed
    && not (trim_space item.consumed_by == "" || trim_space consumer == "")
    && item.token_sha256_stored == token_sha256
    && item.consumed_by == consumer
