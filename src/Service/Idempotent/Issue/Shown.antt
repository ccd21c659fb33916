-- ===== src/Service/Idempotent/Issue/Shown.antt =====
-- Which answers of `IssuePassportIdempotent` of internal/service/idempotency.go show a token.
use changeguard.Prelude.{
  ℕ, String, ◌≡◌, refl, ap, true, false, Option, some, arith, Bool-cases, Option-cases, ◌⊎◌, inl,
  inr,
}
use changeguard.Model.Status.{Time}
use changeguard.Model.{
  IdempotencyRecord, User, Passport, PassportCredential, malformed_json, forbidden, Result, ok, err,
  Result-cases,
}
use changeguard.Crypto.{Crypto}
use changeguard.Changegate.Token.{Signer}
use changeguard.Store.Base.{State, Call}
use changeguard.Service.Access.{active_actor}
use changeguard.Service.Issue.{issue_passport}
use changeguard.Service.Idempotent.{
  World, Outcome, ran_out, done, Claimed, claim_idempotency, complete_within,
}
use changeguard.Service.Idempotent.Execute.{Json, Replied, request_record}
use changeguard.Service.Idempotent.Operations.{request_of}
use changeguard.Service.Idempotent.Issue.{
  PassportIssueResult, already_issued, just_issued, passport_ref, answered_issue, replay_issue,
  after_issue, on_issue_claim, record_idempotency_audit, issue_found, issue_passport_idempotent,
}

-- the claim `x` was a fresh one, the issue in the state that it left has given the credential, and
-- completing the claim after the issue has left the state `u`; or the claim was answered before and
-- left `u`, and the kept passport is shown without its token
abbrev pub Shows :
    Json Passport
    → Crypto
    → World
    → (State → State × Result PassportCredential)
    → State × Outcome Claimed
    → State
    → Replied PassportIssueResult
    → Type 0
Shows json k w issue x u a =
    ((claimed : Claimed) × (x ≡ (u, done (ok claimed)))
      × (claimed.fresh ≡ false)
      × (p : Passport) × (json.decode claimed.claim.result ≡ some p)
      × (a ≡ record { value = already_issued p; replayed = true }))
    ⊎ ((claimed : Claimed) × (s : State) × (x ≡ (s, done (ok claimed)))
        × (claimed.fresh ≡ true)
        × (t : State) × (credential : PassportCredential) × (issue s ≡ (t, ok credential))
        × (kept : IdempotencyRecord) × (complete_within k w claimed.claim
              (json.encode credential.passport) (passport_ref credential.passport) 201 0 t
            ≡ (u, done (ok kept)))
        × (a ≡ record { value = just_issued credential; replayed = false }))

module _ (json : Json Passport) (k : Crypto) (c : Call) (w : World)
    (issue : State → State × Result PassportCredential) (u : State)
    (a : Replied PassportIssueResult) where
  abbrev shown : State × Outcome (Replied PassportIssueResult)
  shown = (u, done (ok a))

  answered_issue-value :
      (credential : PassportCredential) (x : State × Outcome IdempotencyRecord)
      → answered_issue credential x ≡ shown
      → (kept : IdempotencyRecord) × (x ≡ (u, done (ok kept)))
        × (a ≡ record { value = just_issued credential; replayed = false })
  answered_issue-value credential (s, ran_out) h = absurd (ground arith)
  answered_issue-value credential (s, done (err e)) h = absurd (ground arith)
  answered_issue-value credential (s, done (ok r)) h = (r, ground arith, ground arith)

  after_issue-Shows :
      (claimed : Claimed) (s : State) (x : State × Result PassportCredential)
      → claimed.fresh ≡ true
      → issue s ≡ x
      → after_issue json k c w claimed.claim x ≡ shown
      → Shows json k w issue (s, done (ok claimed)) u a
  unfolding after_issue
  after_issue-Shows claimed s (t, err e) f i h = absurd (ground arith)
  after_issue-Shows claimed s (t, ok credential) f i h =
      let (kept, completed, answer) =
        answered_issue-value credential
          (complete_within k w claimed.claim (json.encode credential.passport)
            (passport_ref credential.passport) 201 0 t)
          h in
      inr (claimed, s, refl, f, t, credential, i, kept, completed, answer)

  replay_issue-Shows :
      (claimed : Claimed) (s : State)
      → claimed.fresh ≡ false
      → (s, done (replay_issue json claimed.claim.result)) ≡ shown
      → Shows json k w issue (s, done (ok claimed)) u a
  replay_issue-Shows claimed s f h = elim (Option-cases (json.decode claimed.claim.result)) [
    | inl d ↦
        let h' : (s, done (err malformed_json)) ≡ shown = rw (d, replay_issue) at h in
        absurd (ground arith)
    | inr (p, d) ↦
        let h' : (s, done (ok (record { value = already_issued p; replayed = true }))) ≡ shown =
          rw (d, replay_issue) at h in
        inl (
          claimed,
          ap (λ (z : State × Outcome (Replied PassportIssueResult)). (z.0, done (ok claimed))) h',
          f,
          p,
          d,
          ground arith,
        )
  ]

  on_issue_claim-Shows :
      (x : State × Outcome Claimed)
      → on_issue_claim json k c w issue x ≡ shown
      → Shows json k w issue x u a
  unfolding on_issue_claim
  on_issue_claim-Shows (s, ran_out) h = absurd (ground arith)
  on_issue_claim-Shows (s, done (err e)) h = absurd (ground arith)
  on_issue_claim-Shows (s, done (ok claimed)) h = elim (Bool-cases claimed.fresh) [
    | inl f ↦ after_issue-Shows claimed s (issue s) f refl (rw (f, on_issue_claim) at h)
    | inr f ↦ replay_issue-Shows claimed s f (rw (f, on_issue_claim) at h)
  ]

-- the claim of an issue, after it is put on record
abbrev pub claimed_issue :
    Json Passport
    → Crypto
    → Call
    → Call
    → World
    → Time
    → String
    → String
    → String
    → String
    → User
    → State
    → State × Outcome Claimed
claimed_issue json k a₀ a₁ w now change_id key digest actor_id actor s =
    let r = request_record actor (request_of actor_id "ISSUE_PASSPORT" change_id key digest) in
    claim_idempotency k w (issue_found json now change_id) r
      (record_idempotency_audit k a₀ a₁ actor r "IDEMPOTENCY_CLAIM" s)

-- An idempotent issue answers an active user alone. It shows a token only if its claim was a fresh one
-- and this very call has issued the passport from the state that the claim left, and its final state is
-- what the completion of the claim has made of the one in which the passport was issued. Any other
-- answer is a replay: it shows the passport that the claim kept, no credential, and the final state is
-- the one that the claim left.
pub issue_passport_idempotent-Shows :
    (json : Json Passport) (k : Crypto) (a₀ a₁ : Call) (w : World) (now : Time) (c : Call)
    (w₁ : World) (signer : Option Signer) (ttl : Time) (c₀ c₁ : Call) (new_id : Result String)
    (change_id actor_id key digest : String) (seconds : ℕ) (s u : State)
    (a : Replied PassportIssueResult)
    → issue_passport_idempotent json k a₀ a₁ w now c w₁ signer ttl c₀ c₁ new_id change_id actor_id
        key digest seconds s
      ≡ (u, done (ok a))
    → (actor : User) × (active_actor actor_id s ≡ ok actor)
      × Shows json k w₁
          (issue_passport k signer ttl c₀ c₁ new_id change_id actor_id seconds)
          (claimed_issue json k a₀ a₁ w now change_id key digest actor_id actor s)
          u
          a
unfolding issue_passport_idempotent
issue_passport_idempotent-Shows json k a₀ a₁ w now c w₁ signer ttl c₀ c₁ new_id change_id actor_id
      key digest seconds s u a h =
    elim (Result-cases (active_actor actor_id s)) [
      | inl (e, f) ↦
          let h' : ◌≡◌ {A = State × Outcome (Replied PassportIssueResult)} (s, done (err forbidden))
              (u, done (ok a)) =
            rw (f, issue_passport_idempotent) at h in
          absurd (ground arith)
      | inr (actor, f) ↦
          let x = claimed_issue json k a₀ a₁ w now change_id key digest actor_id actor s in
          (
            actor,
            f,
            on_issue_claim-Shows json k c w₁
                (issue_passport k signer ttl c₀ c₁ new_id change_id actor_id seconds) u a x
                (rw (f, issue_passport_idempotent) at h),
          )
    ]
