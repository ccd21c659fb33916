-- ===== src/Service/Gate/Releasable.antt =====
-- The checks and the write of `VerifyGate` of internal/service/passport.go for a usable passport.
use changeguard.Prelude.{
  ◌<◌, String, ◌≡◌, refl, sym, ap, ◌∙◌, subst, Bool, true, false, not, ◌&&◌, some, ◌==◌, eq_iff,
  if◌then◌else◌, arith, trim_space, equal_fold, ltb, leb, byte_len, find, find_holds, find-narrow,
}
use changeguard.Model.Status.{
  ChangeStatus, approved, is_change, active, consumed, expired, is_passport,
}
use changeguard.Model.{
  ChangeRequest, AuditEvent, Passport, StoredPassport, GateRequest, gate_invalid, artifact_mismatch,
  environment_mismatch, validation, rule_set_changed, Result, ok, ◌>>=◌, ◌>>◌, require-true,
}
use changeguard.Crypto.{Crypto}
use changeguard.Changegate.Token.{PassportClaims, Signer}
use changeguard.Store.Base.{State, Call, saved, change, has_id}
use changeguard.Store.Passport.{has_passport_id, passport, public_passport}
use changeguard.Store.UsePassport.{
  use_passport, use_item, use_active, consume_item, consumed_item, consumed_state, is_bound_change,
  binding_holds, organization_policies,
}
use changeguard.Service.Issue.{or_else, current_rules}
use changeguard.Service.Issue.Rules.{current_rules-eq}
use changeguard.Changegate.Rules.{rule_set_version}
use changeguard.Service.Gate.{
  Admitted, claims_match, times_match, change_matches, is_replay, consumer_name, admit_passport,
  admit_claims, gate_audit, verify_gate, status_allows,
}

-- a usable passport of an approved change, and a request that shows its token
pub record IsReleasable (k : Crypto) (signer : Signer) (c : Call) (req : GateRequest) (t : State)
    (item : StoredPassport) (x : ChangeRequest) (claims : PassportClaims) : Type 0 where
  pub verified : signer.verify (trim_space req.token) ≡ ok claims
  pub artifact : equal_fold (trim_space req.artifact_sha256) claims.artifact_sha256 ≡ true
  pub environment : equal_fold (trim_space req.environment) (trim_space claims.environment) ≡ true
  pub found : find (has_passport_id claims.passport_id) t.passports ≡ some item
  pub is_active : item.status ≡ active
  pub token : item.token_sha256_stored ≡ k.sha256 (trim_space req.token)
  pub bound : claims_match claims item.passport ≡ true
  pub timed : times_match claims item.passport ≡ true
  pub target : find (has_id item.change_id) t.changes ≡ some x
  pub matches : change_matches item.passport x ≡ true
  pub is_approved : x.status ≡ approved
  pub rules : current_rules k x.organization_id t ≡ item.rule_set_version
  pub short_name : ltb 200 (byte_len (consumer_name req.consumer)) ≡ false
  pub live : c.now < item.expires_at

module _ (k : Crypto) (signer : Signer) (c c₁ c₂ : Call) (req : GateRequest) (t : State)
    (item : StoredPassport) (x : ChangeRequest) (claims : PassportClaims)
    (r : IsReleasable k signer c req t item x claims) where
  -- what the gate hands to the store
  abbrev pub admitted : Admitted
  admitted = record {
    claims = claims;
    held = public_passport c.now item true;
    consumer = consumer_name req.consumer;
  }

  same_organization : x.organization_id ≡ item.organization_id
  same_organization = ground (arith, r.matches, eq_iff x.organization_id item.organization_id)

  not_replay : is_replay true item.passport ≡ false
  not_replay = ap (λ s. is_passport s consumed) r.is_active

  status_fits :
      is_change x.status (if is_replay true item.passport then ChangeStatus.completed else approved)
      ≡ true
  status_fits =
      ap (λ b. is_change x.status (if b then ChangeStatus.completed else approved)) not_replay
      ∙ ap (λ s. is_change s approved) r.is_approved

  admits_passport :
      admit_passport k claims
        (public_passport c.now item true)
        x
        (consumer_name req.consumer)
        true
        t
      ≡ ok admitted
  unfolding admit_passport public_passport
  admits_passport =
      require-true gate_invalid (change_matches (public_passport c.now item true) x) _ r.matches
      ∙ require-true gate_invalid
          (is_change x.status (
            if is_replay true (public_passport c.now item true)
            then ChangeStatus.completed
            else approved))
          _ status_fits
      ∙ require-true rule_set_changed (current_rules k x.organization_id t == item.rule_set_version)
          _ ((eq_iff (current_rules k x.organization_id t) item.rule_set_version).1 r.rules)
      ∙ require-true validation (not (ltb 200 (byte_len (consumer_name req.consumer)))) _
          (ap not r.short_name)

  usable : {A : Type 0} {rest : Result A} → (status_allows true item.status >> rest) ≡ rest
  usable {rest = rest} = ap (λ s. status_allows true s >> rest) r.is_active

  passport_found : passport c claims.passport_id t ≡ ok (public_passport c.now item true)
  unfolding passport
  passport_found = rw (r.found, passport)

  change_found : change item.change_id t ≡ ok x
  unfolding change
  change_found = rw r.target refl

  admits : admit_claims k c req true t claims ≡ ok admitted
  unfolding admit_claims public_passport
  admits =
      require-true artifact_mismatch
        (equal_fold (trim_space req.artifact_sha256) claims.artifact_sha256) _ r.artifact
      ∙ require-true environment_mismatch
          (equal_fold (trim_space req.environment) (trim_space claims.environment)) _ r.environment
      ∙ rw passport_found (
          usable
          ∙ require-true gate_invalid (claims_match claims item.passport) _ r.bound
          ∙ require-true gate_invalid (times_match claims item.passport) _ r.timed
          ∙ rw change_found admits_passport)

  -- the store's part
  pub bound_target : find (is_bound_change item) t.changes ≡ some x
  bound_target =
      find-narrow (has_id item.change_id) (is_bound_change item) t.changes x (λ y h. ground arith)
        r.target
        (ground (
          arith,
          find_holds (has_id item.change_id) t.changes x r.target,
          eq_iff x.organization_id item.organization_id,
          same_organization,
        ))

  abbrev pub consumer : String
  consumer = consumer_name req.consumer

  five :
      (a b d e o f : Bool)
      → a ≡ true
      → (o && b && d && e) ≡ true
      → f ≡ true
      → (a && b && d && e && f) ≡ true
  five a b d e o f h m g = ground arith

  abbrev stored_rules : String
  stored_rules = rule_set_version k (organization_policies item.organization_id t)

  binding : binding_holds stored_rules item x ≡ true
  binding =
      let rules : stored_rules ≡ item.rule_set_version =
        sym (current_rules-eq k item.organization_id t)
        ∙ subst (λ o. current_rules k o t ≡ item.rule_set_version) same_organization r.rules in
      let same = (eq_iff stored_rules item.rule_set_version).1 rules in
      let ready = ap (λ s. is_change s approved) r.is_approved in
      five (is_change x.status approved) (x.artifact_sha256 == item.artifact_sha256)
        (x.environment == item.environment) (x.rule_set_version == item.rule_set_version)
        (x.organization_id == item.organization_id) (stored_rules == item.rule_set_version) ready
        r.matches same

  use_active-consumes :
      (a : AuditEvent)
      → use_active k c₁ item.id consumer c.now true item a t
        ≡ consume_item k c₁ item.id consumer c.now item x a t
  unfolding use_active
  use_active-consumes a = rw (bound_target, use_active) (rw binding refl)

  use_item-consumes :
      (a : AuditEvent)
      → use_item k c₁ item.id (k.sha256 (trim_space req.token)) consumer c.now true item a t
        ≡ consume_item k c₁ item.id consumer c.now item x a t
  unfolding use_item
  use_item-consumes a =
      let hash = (eq_iff item.token_sha256_stored (k.sha256 (trim_space req.token))).1 r.token in
      let not_expired = ap (λ s. is_passport s expired) r.is_active in
      let usable = ap (λ s. is_passport s active) r.is_active in
      let in_time : leb item.expires_at c.now ≡ false = ground (arith, r.live) in
      rw hash (rw not_expired (rw not_replay (rw usable (rw in_time (use_active-consumes a)))))

  abbrev pub released : State
  released = consumed_state k c₁ item.id consumer c.now item x (gate_audit c true req admitted) t

  abbrev pub shown : Passport
  shown = public_passport c₁.now (consumed_item consumer c.now item) false

  pub again : find (has_passport_id item.id) t.passports ≡ some item
  again =
      let same_id : item.id ≡ claims.passport_id =
        (eq_iff item.id claims.passport_id).0
          (find_holds (has_passport_id claims.passport_id) t.passports item r.found) in
      ap (λ i. find (has_passport_id i) t.passports) same_id ∙ r.found

  stored_use :
      c₁.saving ≡ saved
      → use_passport k c₁ item.id
          (k.sha256 (trim_space req.token))
          consumer
          c.now
          true
          (gate_audit c true req admitted)
          t
        ≡ (released, ok shown)
  unfolding use_passport consume_item
  stored_use w =
      rw (again, use_passport) (use_item-consumes (gate_audit c true req admitted) ∙ rw w refl)

  -- the gate's answer, and the state that it leaves
  pub verify_gate-eq :
      c₁.saving ≡ saved
      → verify_gate k (some signer) c c₁ c₂ req true t
        ≡ (released, ok (record { passport = shown; replayed = false }))
  unfolding verify_gate
  verify_gate-eq w =
      let admitted_ok : (or_else gate_invalid (signer.verify (trim_space req.token))
            >>= admit_claims k c req true t)
          ≡ ok admitted =
        rw r.verified admits in
      rw (admitted_ok, verify_gate) (rw (stored_use w) (rw not_replay refl))
