-- ===== src/Service/Issue/Requires.antt =====
-- What a passport that was issued rests on.
use changeguard.Prelude.{
  ℕ, ◌+◌, ◌*◌, ◌%◌, ◌^◌, ◌≤◌, String, ◌≡◌, ◌≢◌, refl, ap, sym, subst, Bool, true, false, not, ◌&&◌,
  ◌||◌, some, ◌==◌, eq_iff, if◌then◌else◌, arith, ltb, nat_eq, ◌⊎◌, inl, inr,
}
use changeguard.Model.Status.{Time, second, minute, approved, is_change, is_change-eq}
use changeguard.Model.{
  User, ChangeRequest, Passport, PassportCredential, AuditEvent, forbidden, invalid_state,
  validation, gate_invalid, gate_unavailable, rule_set_changed, Result, ok, err, ◌>>=◌, ◌>>◌,
  require, bind-ok, then-ok, require-then, Result-cases, ok-injective,
}
use changeguard.Crypto.{Crypto}
use changeguard.Changegate.Token.{Signer}
use changeguard.Store.Base.{State, Call, change}
use changeguard.Store.Passport.{create_passport}
use changeguard.Service.Access.{
  active_actor, can_use_application, review, trusted_for_release, trusted_sql_experiment,
}
use changeguard.Service.Review.{run_passed, has_sql}
use changeguard.Service.Issue.{
  or_else, current_rules, may_issue, lifetime, truncate, claims_of, new_passport, issue_audit,
  credential_of, Issuing, issue_checks, issue_passport, run_binds, demo_only,
}

-- the change is approved, by the actor and not by its submitter, and nothing has changed since it
-- was checked
pub record IsIssuable (k : Crypto) (actor : User) (x : ChangeRequest) (s : State) : Type 0 where
  pub access : can_use_application actor x.application_id review s ≡ true
  pub organization : x.organization_id ≡ actor.organization_id
  pub source : trusted_for_release x ≡ true
  pub reviewer : actor.id ≡ x.reviewer_id
  pub not_submitter : actor.id ≢ x.submitter_id
  pub is_approved : x.status ≡ approved
  pub passed : run_passed x.check_run ≡ true
  pub has_artifact : (x.artifact_sha256 == "") ≡ false
  pub bound : run_binds x x.check_run ≡ true
  pub rules : current_rules k x.organization_id s ≡ x.rule_set_version
  pub rehearsed : (has_sql x ≡ false) ⊎ (trusted_sql_experiment x ≡ true)

both : (a b : Bool) → (a && b) ≡ true → (a ≡ true) × (b ≡ true)
both a b h = ground arith

neither : (a b c : Bool) → not (a || b || not c) ≡ true → (a ≡ false) × (c ≡ true)
neither a b c h = ground arith

needed : (a b : Bool) → require invalid_state (not (a && not b)) ≡ ok tt → (a ≡ false) ⊎ (b ≡ true)
needed a b h = ground arith

may_issue-IsIssuable :
    (k : Crypto) (actor : User) (x : ChangeRequest) (s : State)
    → may_issue k actor x s ≡ ok tt
    → IsIssuable k actor x s
unfolding may_issue
may_issue-IsIssuable k actor x s h =
    let (a, h₁) =
      require-then forbidden
        (x.organization_id == actor.organization_id
          && can_use_application actor x.application_id review s)
        _ tt h in
    let (b, h₂) = require-then forbidden (trusted_for_release x) _ tt h₁ in
    let (d, h₃) =
      require-then forbidden
        (not (actor.id == x.submitter_id || x.reviewer_id == "" || not (actor.id == x.reviewer_id)))
        _ tt h₂ in
    let (e, h₄) =
      require-then invalid_state (is_change x.status approved && run_passed x.check_run) _ tt h₃ in
    let (f, h₅) =
      require-then gate_invalid
        (not (x.artifact_sha256 == "" || x.rule_set_version == "") && run_binds x x.check_run) _ tt
        h₄ in
    let (g, h₆) =
      require-then rule_set_changed (current_rules k x.organization_id s == x.rule_set_version) _ tt
        h₅ in
    let (i, h₇) = require-then invalid_state (not (demo_only x.experiment)) _ tt h₆ in
    let (e₁, e₂) = both (is_change x.status approved) (run_passed x.check_run) e in
    let (a₁, a₂) =
      both (x.organization_id == actor.organization_id)
        (can_use_application actor x.application_id review s) a in
    let (f₁, f₂) =
      both (not (x.artifact_sha256 == "" || x.rule_set_version == "")) (run_binds x x.check_run)
        f in
    let (d₁, d₂) =
      neither (actor.id == x.submitter_id) (x.reviewer_id == "") (actor.id == x.reviewer_id) d in
    record {
      access = a₂;
      organization = ground (arith, eq_iff x.organization_id actor.organization_id);
      source = b;
      reviewer = ground (arith, eq_iff actor.id x.reviewer_id);
      not_submitter = λ same. ground (arith, eq_iff actor.id x.submitter_id);
      is_approved = is_change-eq x.status e₁;
      passed = e₂;
      has_artifact = ground arith;
      bound = f₂;
      rules = ground (arith, eq_iff (current_rules k x.organization_id s) x.rule_set_version);
      rehearsed = needed (has_sql x) (trusted_sql_experiment x) h₇;
    }

lifetime_range :
    (b : Bool) (default r ttl : Time)
    → (if b
        then ok default
        else require validation (not (ltb r minute || ltb (30 * minute) r)) >> ok r)
      ≡ ok ttl
    → (ttl ≡ default) ⊎ ((minute ≤ ttl) × (ttl ≤ 30 * minute))
lifetime_range b default r ttl h = ground arith

-- a lifetime that is asked for lies between one and thirty minutes
lifetime-bounds :
    (default : Time) (seconds : ℕ) (ttl : Time)
    → lifetime default seconds ≡ ok ttl
    → (ttl ≡ default) ⊎ ((minute ≤ ttl) × (ttl ≤ 30 * minute))
unfolding lifetime
lifetime-bounds default seconds ttl h =
    lifetime_range (nat_eq seconds 0) default (seconds * second % 2 ^ 64) ttl h

-- What `IssuePassport` answers and has stored.
pub record IsIssued (k : Crypto) (signer : Signer) (default : Time) (c c₁ : Call)
    (change_id actor_id : String) (s t : State) (cred : PassportCredential) : Type 0 where
  pub issuing : Issuing
  pub known : active_actor actor_id s ≡ ok issuing.actor
  pub found : change change_id s ≡ ok issuing.target
  pub issuable : IsIssuable k issuing.actor issuing.target s
  pub short : (issuing.ttl ≡ default) ⊎ ((minute ≤ issuing.ttl) × (issuing.ttl ≤ 30 * minute))
  pub signed :
      signer.sign
        (claims_of issuing.id (truncate c.now) (truncate c.now + issuing.ttl) issuing.target)
      ≡ ok cred.token
  pub shown :
      cred.passport
      ≡ record (new_passport k issuing.id
          (truncate c.now)
          (truncate c.now + issuing.ttl)
          cred.token
          issuing.target) { token_sha256 = "" }
  pub stored :
      (p : Passport) × (a : AuditEvent) × (p
        ≡ new_passport k issuing.id
            (truncate c.now)
            (truncate c.now + issuing.ttl)
            cred.token
            issuing.target)
      × (create_passport k c₁ p a s ≡ (t, ok tt))

module _ (k : Crypto) (default : Time) (new_id : Result String) (change_id actor_id : String)
    (seconds : ℕ) (s : State) where
  abbrev IssueChecked : Issuing → Type 0
  IssueChecked i =
      (active_actor actor_id s ≡ ok i.actor)
      × (change change_id s ≡ ok i.target)
      × IsIssuable k i.actor i.target s
      × ((i.ttl ≡ default) ⊎ ((minute ≤ i.ttl) × (i.ttl ≤ 30 * minute)))

  abbrev with_id : User → ChangeRequest → Time → Result Issuing
  with_id actor x ttl =
      or_else gate_unavailable new_id
      >>= (λ id. ok (record { actor = actor; target = x; ttl = ttl; id = id }))

  abbrev with_lifetime : User → ChangeRequest → Result Issuing
  with_lifetime actor x = may_issue k actor x s >> (lifetime default seconds >>= with_id actor x)

  issue_checks-ok :
      (i : Issuing)
      → issue_checks k default new_id change_id actor_id seconds s ≡ ok i
      → IssueChecked i
  unfolding issue_checks
  issue_checks-ok i h =
      let (u, uh, h₁) =
        bind-ok (active_actor actor_id s) (λ u. change change_id s >>= with_lifetime u) i h in
      let (x, xh, h₂) = bind-ok (change change_id s) (with_lifetime u) i h₁ in
      let (m, h₃) = then-ok (may_issue k u x s) _ i h₂ in
      let (ttl, th, h₄) = bind-ok (lifetime default seconds) (with_id u x) i h₃ in
      let (id, _, h₅) =
        bind-ok (or_else gate_unavailable new_id)
          (λ id. ok (record { actor = u; target = x; ttl = ttl; id = id })) i h₄ in
      let j : Issuing = record { actor = u; target = x; ttl = ttl; id = id } in
      subst IssueChecked (ok-injective j i h₅)
        (uh, xh, may_issue-IsIssuable k u x s m, lifetime-bounds default seconds ttl th)

credential_of-ok :
    (p : Passport) (token : String) (u : State × Result (Unit {0})) (t : State)
    (cred : PassportCredential)
    → credential_of p token u ≡ (t, ok cred)
    → (u ≡ (t, ok tt))
      × (cred ≡ record { passport = record p { token_sha256 = "" }; token = token })
credential_of-ok p token (u, ok v) t cred h =
    let same : ok (record { passport = record p { token_sha256 = "" }; token = token }) ≡ ok cred =
      ap (λ (w : State × Result PassportCredential). w.1) h in
    (
      ap (λ (w : State × Result PassportCredential). (w.0, ok tt)) h,
      sym (
          ok-injective (record { passport = record p { token_sha256 = "" }; token = token }) cred
            same),
    )
credential_of-ok p token (u, err e) t cred h = absurd (ground arith)

module _ (k : Crypto) (signer : Signer) (default : Time) (c c₁ : Call) (new_id : Result String)
    (change_id actor_id : String) (seconds : ℕ) (s t : State) (cred : PassportCredential) where
  issued :
      (i : Issuing)
      → IssueChecked k default new_id change_id actor_id seconds s i
      → (token : String)
      → signer.sign (claims_of i.id (truncate c.now) (truncate c.now + i.ttl) i.target) ≡ ok token
      → (create_passport k c₁
            (new_passport k i.id (truncate c.now) (truncate c.now + i.ttl) token i.target)
            (issue_audit c i.actor
              (new_passport k i.id (truncate c.now) (truncate c.now + i.ttl) token i.target)
              i.target)
            s
          ≡ (t, ok tt))
      → cred ≡ record {
        passport =
            record (new_passport k i.id (truncate c.now) (truncate c.now + i.ttl) token i.target) {
              token_sha256 = "";
            };
        token = token;
      }
      → IsIssued k signer default c c₁ change_id actor_id s t cred
  issued i (uh, xh, m, ttl) token g created shown = rw shown (record {
    issuing = i;
    known = uh;
    found = xh;
    issuable = m;
    short = ttl;
    signed = g;
    shown = refl;
    stored = (
      new_passport k i.id (truncate c.now) (truncate c.now + i.ttl) token i.target,
      issue_audit c i.actor
          (new_passport k i.id (truncate c.now) (truncate c.now + i.ttl) token i.target) i.target,
      refl,
      created,
    );
  })

  -- A passport is issued only to the reviewer who approved the change, an active user of its
  -- organization with access to its application who did not submit it; the change is approved, from
  -- a trusted source, its check run has passed for its artifact and rule version, which are the
  -- current ones, and its SQL has a trusted rehearsal. The lifetime is the configured one or between
  -- one and thirty minutes, the token is the signature of the change's own claims, and the store has
  -- accepted the passport, which the answer shows without its token's hash.
  pub issue_passport-IsIssued :
      issue_passport k (some signer) default c c₁ new_id change_id actor_id seconds s ≡ (t, ok cred)
      → IsIssued k signer default c c₁ change_id actor_id s t cred
  unfolding issue_passport
  issue_passport-IsIssued h =
      elim (Result-cases (issue_checks k default new_id change_id actor_id seconds s)) [
        | inl (e, f) ↦ absurd (ground arith)
        | inr (i, f) ↦
            let checked = issue_checks-ok k default new_id change_id actor_id seconds s i f in
            let h' = rw (f, issue_passport) at h in
            elim (Result-cases
              (signer.sign (claims_of i.id (truncate c.now) (truncate c.now + i.ttl) i.target))) [
                | inl (e, g) ↦ absurd (ground arith)
                | inr (token, g) ↦
                    let p =
                      new_passport k i.id (truncate c.now) (truncate c.now + i.ttl) token
                        i.target in
                    let (created, shown) =
                      credential_of-ok p token
                        (create_passport k c₁ p (issue_audit c i.actor p i.target) s) t cred
                        (rw g at h') in
                    issued i checked token g created shown
              ]
      ]
