-- ===== src/Store/UsePassport/Consume.antt =====
-- What a consumption presupposes, and what it writes.
use changeguard.Prelude.{
  ◌<◌, String, ◌≡◌, refl, true, some, arith, eq_iff, find, find_holds, find-replace_first,
  replace_first, ◌+◌, Option-cases, inl, inr, Bool-cases,
}
use changeguard.Model.Status.{Time, active, approved, completed, consumed}
use changeguard.Model.{ChangeRequest, AuditEvent, Passport, StoredPassport, ok}
use changeguard.Crypto.{Crypto}
use changeguard.Changegate.Rules.{rule_set_version}
use changeguard.Store.Base.{State, Call, append_audits}
use changeguard.Store.Saving.{save_locked-ok}
use changeguard.Store.Passport.{has_passport_id}
use changeguard.Store.UsePassport.{
  use_passport, use_item, use_active, consume_item, consumed_item, completed_change, expire_item,
  is_bound_change, binding_holds, organization_policies,
}

-- the change is what the passport was issued for, under the rules that hold now
pub record IsBound (rules : String) (item : StoredPassport) (change : ChangeRequest) : Type 0 where
  pub approved_now : change.status ≡ approved
  pub artifact : change.artifact_sha256 ≡ item.artifact_sha256
  pub environment : change.environment ≡ item.environment
  pub rule_set : change.rule_set_version ≡ item.rule_set_version
  pub rules_now : rules ≡ item.rule_set_version

pub binding_holds-IsBound :
    (rules : String) (item : StoredPassport) (change : ChangeRequest)
    → binding_holds rules item change ≡ true
    → IsBound rules item change
binding_holds-IsBound rules item change h = ground (
  arith,
  eq_iff change.artifact_sha256 item.artifact_sha256,
  eq_iff change.environment item.environment,
  eq_iff change.rule_set_version item.rule_set_version,
  eq_iff rules item.rule_set_version,
)

-- the new state: this passport consumed, its change completed, and only the audit log written beside
pub record IsConsumption (c : Call) (id consumer : String) (at : Time) (item : StoredPassport)
    (change : ChangeRequest) (s t : State) : Type 0 where
  pub passport_found : find (has_passport_id id) t.passports ≡ some (consumed_item consumer at item)
  pub change_found :
      find (is_bound_change item) t.changes ≡ some (completed_change c consumer at change)
  pub consumed_now : (consumed_item consumer at item).status ≡ consumed
  pub consumed_by : (consumed_item consumer at item).consumed_by ≡ consumer
  pub consumed_at : (consumed_item consumer at item).consumed_at ≡ some at
  pub completed_now : (completed_change c consumer at change).status ≡ completed
  pub version_raised : (completed_change c consumer at change).version ≡ change.version + 1
  pub passports_written :
      t.passports ≡ replace_first (has_passport_id id) (consumed_item consumer at item) s.passports
  pub changes_written :
      t.changes
      ≡ replace_first (is_bound_change item) (completed_change c consumer at change) s.changes
  pub rest_kept : t ≡ record s { passports = t.passports; changes = t.changes; audits = t.audits }

module _ (k : Crypto) (c : Call) (id token consumer : String) (at : Time) (a : AuditEvent)
    (s t : State) (p : Passport) where
  consume_item-IsConsumption :
      (item : StoredPassport) (change : ChangeRequest)
      → find (has_passport_id id) s.passports ≡ some item
      → find (is_bound_change item) s.changes ≡ some change
      → consume_item k c id consumer at item change a s ≡ (t, ok p)
      → IsConsumption c id consumer at item change s t
  unfolding consume_item append_audits
  consume_item-IsConsumption item change f g h =
      let (e, q) = save_locked-ok c.saving _ t _ _ p h in
      rw e (record {
        passport_found =
            find-replace_first (has_passport_id id) s.passports (consumed_item consumer at item)
              item f (find_holds (has_passport_id id) s.passports item f);
        change_found =
            find-replace_first (is_bound_change item) s.changes
              (completed_change c consumer at change) change g
              (find_holds (is_bound_change item) s.changes change g);
        consumed_now = refl;
        consumed_by = refl;
        consumed_at = refl;
        completed_now = refl;
        version_raised = refl;
        passports_written = refl;
        changes_written = refl;
        rest_kept = refl;
      })

  -- the bound change, at the consumption
  abbrev pub Bound : StoredPassport → Type 0
  Bound item =
      (change : ChangeRequest) × (find (is_bound_change item) s.changes ≡ some change)
      × IsBound (rule_set_version k (organization_policies item.organization_id s)) item change
      × IsConsumption c id consumer at item change s t

  use_active-Bound :
      (item : StoredPassport)
      → find (has_passport_id id) s.passports ≡ some item
      → use_active k c id consumer at true item a s ≡ (t, ok p)
      → Bound item
  unfolding use_active
  use_active-Bound item f h = elim (Option-cases (find (is_bound_change item) s.changes)) [
    | inl e ↦ absurd (ground arith)
    | inr (change, g) ↦
        let rules = rule_set_version k (organization_policies item.organization_id s) in
        elim (Bool-cases (binding_holds rules item change)) [
          | inl b ↦ (
            change,
            g,
            binding_holds-IsBound rules item change b,
            consume_item-IsConsumption item change f g (ground arith),
          )
          | inr b ↦ absurd (ground arith)
        ]
  ]

  -- A consume call on an active passport that returns a passport was made before the passport
  -- expired and with its token, while the bound change was approved, held the passport's artifact,
  -- environment and rule version, and the organization's current rules had that version. It leaves
  -- the passport consumed by the caller and the change completed with its version raised by one, and
  -- writes nothing else but the audit log.
  pub consume_requires :
      (item : StoredPassport)
      → find (has_passport_id id) s.passports ≡ some item
      → item.status ≡ active
      → use_passport k c id token consumer at true a s ≡ (t, ok p)
      → (at < item.expires_at) × (item.token_sha256_stored ≡ token) × Bound item
  unfolding use_passport use_item expire_item
  consume_requires item f st h =
      let h' : use_item k c id token consumer at true item a s ≡ (t, ok p) =
        rw (f, use_passport) at h in
      (
        ground arith,
        ground (arith, eq_iff item.token_sha256_stored token),
        use_active-Bound item f (ground arith),
      )
