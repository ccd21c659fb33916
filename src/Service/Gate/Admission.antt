-- ===== src/Service/Gate/Admission.antt =====
-- What the gate has checked when it answers that the release may go on.
use changeguard.Prelude.{
  String, ◌≡◌, ap, sym, subst, Bool, true, not, some, ◌==◌, eq_iff, if◌then◌else◌, arith,
  trim_space, equal_fold, ltb, byte_len, inl, inr,
}
use changeguard.Model.Status.{ChangeStatus, approved, is_change}
use changeguard.Model.{
  ChangeRequest, Passport, GateRequest, GateResult, Err, gate_invalid, validation, rule_set_changed,
  artifact_mismatch, environment_mismatch, Result, ok, err, ◌>>=◌, ◌>>◌, require, bind-ok, then-ok,
  require-then, Result-cases,
}
use changeguard.Crypto.{Crypto}
use changeguard.Changegate.Token.{PassportClaims, Signer}
use changeguard.Store.Base.{State, Call, change}
use changeguard.Store.Passport.{passport}
use changeguard.Store.UsePassport.{use_passport}
use changeguard.Service.Issue.{or_else, current_rules}
use changeguard.Service.Gate.{
  Admitted, claims_match, times_match, change_matches, is_replay, consumer_name, admit_passport,
  admit_claims, gate_audit, gate_answer, verify_gate, status_allows,
}

or_else-ok : {A : Type 0} (e : Err) (r : Result A) (a : A) → or_else e r ≡ ok a → r ≡ ok a
or_else-ok e (err e') a h = absurd (ground arith)
or_else-ok e (ok b) a h = h

require-ok : (e : Err) (b : Bool) → require e b ≡ ok tt → b ≡ true
require-ok e b h = ground arith

-- the passport and its change, as the gate found them
pub record IsAdmissible (k : Crypto) (c : Call) (req : GateRequest) (consume : Bool) (s : State)
    (claims : PassportClaims) (a : Admitted) : Type 0 where
  pub artifact : equal_fold (trim_space req.artifact_sha256) claims.artifact_sha256 ≡ true
  pub environment : equal_fold (trim_space req.environment) (trim_space claims.environment) ≡ true
  pub found : passport c claims.passport_id s ≡ ok a.held
  pub bound : claims_match claims a.held ≡ true
  pub timed : times_match claims a.held ≡ true
  pub target : ChangeRequest
  pub target_found : change a.held.change_id s ≡ ok target
  pub target_matches : change_matches a.held target ≡ true
  pub target_status :
      is_change target.status
        (if is_replay consume a.held then ChangeStatus.completed else approved)
      ≡ true
  pub rules : current_rules k target.organization_id s ≡ a.held.rule_set_version

module _ (k : Crypto) (c : Call) (req : GateRequest) (consume : Bool) (s : State) where
  admit_passport-ok :
      (claims : PassportClaims) (p : Passport) (x : ChangeRequest) (consumer : String)
      (a : Admitted)
      → admit_passport k claims p x consumer consume s ≡ ok a
      → (change_matches p x ≡ true)
        × (is_change x.status (if is_replay consume p then ChangeStatus.completed else approved)
            ≡ true)
        × (current_rules k x.organization_id s ≡ p.rule_set_version)
        × (p ≡ a.held)
  unfolding admit_passport
  admit_passport-ok claims p x consumer a h =
      let (m, h₁) = require-then gate_invalid (change_matches p x) _ a h in
      let (st, h₂) =
        require-then gate_invalid
          (is_change x.status (if is_replay consume p then ChangeStatus.completed else approved)) _
          a h₁ in
      let (r, h₃) =
        require-then rule_set_changed (current_rules k x.organization_id s == p.rule_set_version) _
          a h₂ in
      let (_, h₄) = require-then validation (not (ltb 200 (byte_len consumer))) _ a h₃ in
      let same : p ≡ a.held = ground arith in
      (m, st, ground (arith, eq_iff (current_rules k x.organization_id s) p.rule_set_version), same)

  abbrev after_passport : PassportClaims → Passport → Result Admitted
  after_passport claims p =
      status_allows consume p.status
      >> (require gate_invalid (claims_match claims p)
          >> (require gate_invalid (times_match claims p)
              >> (or_else gate_invalid (change p.change_id s)
                  >>= (λ x. admit_passport k claims p x (consumer_name req.consumer) consume s))))

  after_passport-ok :
      (claims : PassportClaims) (p : Passport) (a : Admitted)
      → after_passport claims p ≡ ok a
      → (claims_match claims p ≡ true)
        × (times_match claims p ≡ true)
        × (x : ChangeRequest) × (change p.change_id s ≡ ok x)
        × (admit_passport k claims p x (consumer_name req.consumer) consume s ≡ ok a)
  after_passport-ok claims p a h =
      let (_, h₁) = then-ok (status_allows consume p.status) _ a h in
      let (m, h₂) = require-then gate_invalid (claims_match claims p) _ a h₁ in
      let (tm, h₃) = require-then gate_invalid (times_match claims p) _ a h₂ in
      let (x, f, h₄) =
        bind-ok (or_else gate_invalid (change p.change_id s))
          (λ x. admit_passport k claims p x (consumer_name req.consumer) consume s) a h₃ in
      (m, tm, x, or_else-ok gate_invalid (change p.change_id s) x f, h₄)

  built :
      (claims : PassportClaims) (a : Admitted)
      → equal_fold (trim_space req.artifact_sha256) claims.artifact_sha256 ≡ true
      → equal_fold (trim_space req.environment) (trim_space claims.environment) ≡ true
      → (p : Passport) → passport c claims.passport_id s ≡ ok p
      → claims_match claims p ≡ true
      → times_match claims p ≡ true
      → (x : ChangeRequest) → change p.change_id s ≡ ok x
      → change_matches p x ≡ true
      → is_change x.status (if is_replay consume p then ChangeStatus.completed else approved) ≡ true
      → current_rules k x.organization_id s ≡ p.rule_set_version
      → p ≡ a.held
      → IsAdmissible k c req consume s claims a
  built claims a ar en p f m tm x xf cm st r held = record {
    artifact = ar;
    environment = en;
    found = subst (λ q. passport c claims.passport_id s ≡ ok q) held f;
    bound = subst (λ q. claims_match claims q ≡ true) held m;
    timed = subst (λ q. times_match claims q ≡ true) held tm;
    target = x;
    target_found = subst (λ (q : Passport). change q.change_id s ≡ ok x) held xf;
    target_matches = subst (λ q. change_matches q x ≡ true) held cm;
    target_status =
        subst
          (λ q.
            is_change x.status (if is_replay consume q then ChangeStatus.completed else approved)
            ≡ true)
          held st;
    rules =
        subst (λ (q : Passport). current_rules k x.organization_id s ≡ q.rule_set_version) held r;
  }

  admit_claims-IsAdmissible :
      (claims : PassportClaims) (a : Admitted)
      → admit_claims k c req consume s claims ≡ ok a
      → IsAdmissible k c req consume s claims a
  unfolding admit_claims
  admit_claims-IsAdmissible claims a h =
      let (ar, h₁) =
        require-then artifact_mismatch
          (equal_fold (trim_space req.artifact_sha256) claims.artifact_sha256) _ a h in
      let (en, h₂) =
        require-then environment_mismatch
          (equal_fold (trim_space req.environment) (trim_space claims.environment)) _ a h₁ in
      let (p, f, h₃) =
        bind-ok (or_else gate_invalid (passport c claims.passport_id s))
          (λ p. after_passport claims p) a h₂ in
      let found = or_else-ok gate_invalid (passport c claims.passport_id s) p f in
      let (m, tm, x, xf, h₄) = after_passport-ok claims p a h₃ in
      let (cm, st, r, held) = admit_passport-ok claims p x (consumer_name req.consumer) a h₄ in
      built claims a ar en p found m tm x xf cm st r held

-- What an allowed gate call rests on: a token that the signer verified, the checks on its claims,
-- and the store's own use of the passport.
pub record IsAllowed (k : Crypto) (signer : Signer) (c c₁ : Call) (req : GateRequest)
    (consume : Bool) (s : State) (r : GateResult) : Type 0 where
  pub claims : PassportClaims
  pub verified : signer.verify (trim_space req.token) ≡ ok claims
  pub admitted : Admitted
  pub admissible : IsAdmissible k c req consume s claims admitted
  pub after : State
  pub used :
      use_passport k c₁ admitted.held.id
        (k.sha256 (trim_space req.token))
        admitted.consumer
        c.now
        consume
        (gate_audit c consume req admitted)
        s
      ≡ (after, ok r.passport)
  pub replay : r.replayed ≡ is_replay consume admitted.held

module _ (k : Crypto) (signer : Signer) (c c₁ c₂ : Call) (req : GateRequest) (consume : Bool)
    (s t : State) (r : GateResult) where
  answered :
      (a : Admitted) (u : State × Result Passport)
      → gate_answer k c c₂ consume req a u ≡ (t, ok r)
      → (u ≡ (u.0, ok r.passport)) × (r.replayed ≡ is_replay consume a.held)
  answered a (u, err e) h = absurd (ground arith)
  answered a (u, ok p) h =
      let same : record { passport = p; replayed = is_replay consume a.held } ≡ r = ground arith in
      (
        ap (λ (q : GateResult). (u, ok q.passport)) same,
        ap (λ (q : GateResult). q.replayed) (sym same),
      )

  -- The gate allows a release only for a token that the signer verified, whose claims name the
  -- artifact and the environment of the request and agree with the stored passport in every field
  -- and both times, while the passport's change has the passport's organization, artifact,
  -- environment and rule version and the organization's current rules have that version; the change
  -- is approved, or completed if the call repeats a consumption; and the store has accepted the use.
  pub verify_gate-IsAllowed :
      verify_gate k (some signer) c c₁ c₂ req consume s ≡ (t, ok r)
      → IsAllowed k signer c c₁ req consume s r
  unfolding verify_gate
  verify_gate-IsAllowed h =
      elim (Result-cases (
        or_else gate_invalid (signer.verify (trim_space req.token))
        >>= admit_claims k c req consume s)) [
          | inl (e, f) ↦ absurd (ground arith)
          | inr (a, f) ↦
              let (claims, v, g) =
                bind-ok (or_else gate_invalid (signer.verify (trim_space req.token)))
                  (admit_claims k c req consume s) a f in
              let stored =
                use_passport k c₁ a.held.id (k.sha256 (trim_space req.token)) a.consumer c.now
                  consume (gate_audit c consume req a) s in
              let (u, re) = answered a stored (rw (f, verify_gate) at h) in
              record {
                claims = claims;
                verified = or_else-ok gate_invalid (signer.verify (trim_space req.token)) claims v;
                admitted = a;
                admissible = admit_claims-IsAdmissible k c req consume s claims a g;
                after = stored.0;
                used = u;
                replay = re;
              }
        ]
