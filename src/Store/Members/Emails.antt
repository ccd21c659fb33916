-- ===== src/Store/Members/Emails.antt =====
-- The addresses of the users of internal/store/organization.go, over its operations in any order.
use changeguard.Prelude.{
  String, ◌≡◌, refl, sym, ap, ◌∙◌, subst, Bool, false, ◌||◌, none, some, List, [], ◌∷◌, ◌++◌, map,
  equal_fold, any, find, replace_first, arith, ◌==◌, Bool-cases, Option-cases, inl, inr,
}
use mathlib.Core.List.{map-append}
use changeguard.Model.{
  Organization, User, UserCredential, OrganizationInvite, ApplicationGrantInput, RiskPolicy,
  AuditEvent, Result, ok, Result-cases,
}
use changeguard.Crypto.{Crypto}
use changeguard.Store.Base.{
  State, Call, Saving, saved, failed, Restores, save_locked, append_audits,
}
use changeguard.Store.Members.{
  commit, has_email, create_enterprise, create_invite, revoke_invite, is_revocable_invite,
  is_open_for, accept_invite, is_acceptable, fits, joined_state, create_sso_user, is_current,
  update_member, is_member, member_state, replacement, application_exists, new_grant,
}

abbrev pub Distinct : List String → Type 0
Distinct [] = Unit
Distinct (e ∷ es) = (any (λ x. equal_fold e x) es ≡ false) × Distinct es

-- no two users have the same address, whatever the case of its letters
abbrev pub UniqueEmails : List User → Type 0
UniqueEmails users = Distinct (map (λ (u : User). u.email) users)

any-last :
    (e v : String) (es : List String)
    → any (λ x. equal_fold e x) es ≡ false
    → equal_fold e v ≡ false
    → any (λ x. equal_fold e x) (es ++ v ∷ []) ≡ false
unfolding any
any-last e v [] h g = rw g refl
any-last e v (x ∷ xs) h g = ground (arith, any-last e v xs)

UniqueEmails-append :
    (v : User) (xs : List User)
    → any (has_email v.email) xs ≡ false
    → UniqueEmails xs
    → UniqueEmails (xs ++ v ∷ [])
unfolding any
UniqueEmails-append v [] h d = (refl, tt)
UniqueEmails-append v (x ∷ xs) h (n, d) =
    let differs : equal_fold x.email v.email ≡ false = ground arith in
    let later : any (has_email v.email) xs ≡ false = ground arith in
    let emails : map (λ (u : User). u.email) (xs ++ v ∷ [])
        ≡ map (λ (u : User). u.email) xs ++ v.email ∷ [] =
      map-append (λ (u : User). u.email) xs (v ∷ []) in
    (
      rw emails (any-last x.email v.email (map (λ (u : User). u.email) xs) n differs),
      UniqueEmails-append v xs later d,
    )

emails-replace :
    (p : User → Bool) (u v : User) (xs : List User)
    → find p xs ≡ some u
    → v.email ≡ u.email
    → map (λ (x : User). x.email) (replace_first p v xs) ≡ map (λ (x : User). x.email) xs
unfolding find replace_first
emails-replace p u v [] f e = refl
emails-replace p u v (x ∷ xs) f e = elim (Bool-cases (p x)) [
  | inl h ↦
      let first : some x ≡ some u = rw h at f in
      let same : x ≡ u = ground arith in
      rw h
        (ap (λ z. z ∷ map (λ (y : User). y.email) xs) (e ∙ ap (λ (y : User). y.email) (sym same)))
  | inr h ↦ rw h (ap (λ z. x.email ∷ z) (emails-replace p u v xs (rw h at f) e))
]

-- the users after a write are the new ones or the old ones
save_locked-users :
    {A : Type 0} (P : List User → Type 0) (s t : State) (answer : A) (w : Saving)
    → Restores s w
    → P s.users
    → P t.users
    → P (save_locked w t (λ r. some r) answer).0.users
save_locked-users P s t answer saved h old new = new
save_locked-users P s t answer (failed e none) h old new = new
save_locked-users P s t answer (failed e (some r)) h old new =
    subst (λ (z : State). P z.users) (sym h) old

-- one operation; a failed write restores the last saved state, and an update leaves the address
pub data Step (k : Crypto) : State → State → Type 0 where
  enterprise :
      {s : State} (c : Call) (o : Organization) (u : User) (credential : UserCredential)
      (policies : List RiskPolicy) (a : AuditEvent)
      → Restores s c.saving
      → Step k s (create_enterprise k c o u credential policies a s).0
  invite :
      {s : State} (c : Call) (i : OrganizationInvite) (a : AuditEvent)
      → Restores s c.saving
      → Step k s (create_invite k c i a s).0
  revoke :
      {s : State} (c : Call) (org id : String) (a : AuditEvent)
      → Restores s c.saving
      → Step k s (revoke_invite k c org id a s).0
  accept :
      {s : State} (c : Call) (id : String) (u : User) (credential : UserCredential) (a : AuditEvent)
      → Restores s c.saving
      → Step k s (accept_invite k c id u credential a s).0
  sso :
      {s : State} (c : Call) (u : User) (credential : UserCredential) (id : String) (a : AuditEvent)
      → Restores s c.saving
      → Step k s (create_sso_user k c u credential id a s).0
  member :
      {s : State} (c : Call) (org id : String) (update : User → Result User)
      (inputs : List ApplicationGrantInput) (a : AuditEvent)
      → Restores s c.saving
      → ((u v : User) → update u ≡ ok v → v.email ≡ u.email)
      → Step k s (update_member k c org id update inputs a s).0

infixr 5 ◌then◌
pub data Run (k : Crypto) : State → State → Type 0 where
  stop : {s : State} → Run k s s
  ◌then◌ : {s t u : State} → Step k s t → Run k t u → Run k s u

module _ (k : Crypto) (c : Call) (s : State) (a : AuditEvent) (restores : Restores s c.saving)
    (unique : UniqueEmails s.users) where
  abbrev Stays : State → Type 0
  Stays t = UniqueEmails t.users

  commit-Stays :
      {A : Type 0} (t : State) (answer : A) → UniqueEmails t.users → Stays (commit k c a t answer).0
  unfolding append_audits
  commit-Stays t answer new =
      save_locked-users UniqueEmails s (append_audits k c (a ∷ []) t) answer c.saving restores
        unique new

  added : (u : User) → any (has_email u.email) s.users ≡ false → UniqueEmails (s.users ++ u ∷ [])
  added u h = UniqueEmails-append u s.users h unique

  enterprise-Stays :
      (o : Organization) (u : User) (credential : UserCredential) (policies : List RiskPolicy)
      → Stays (create_enterprise k c o u credential policies a s).0
  unfolding create_enterprise
  enterprise-Stays o u credential policies =
      elim (Bool-cases (
        any (λ (x : Organization). equal_fold x.slug o.slug) s.organizations
        || any (has_email u.email) s.users)) [
          | inl h ↦ rw (h, create_enterprise) unique
          | inr h ↦ rw (h, create_enterprise) (commit-Stays _ tt (added u (ground (arith, h))))
        ]

  invite-Stays : (i : OrganizationInvite) → Stays (create_invite k c i a s).0
  unfolding create_invite
  invite-Stays i = elim (Bool-cases (any (is_open_for c.now i) s.invites)) [
    | inl h ↦ rw (h, create_invite) unique
    | inr h ↦
        rw (h, create_invite) (commit-Stays (record s { invites = s.invites ++ i ∷ [] }) tt unique)
  ]

  revoke-Stays : (org id : String) → Stays (revoke_invite k c org id a s).0
  unfolding revoke_invite
  revoke-Stays org id = elim (Option-cases (find (is_revocable_invite org id) s.invites)) [
    | inl h ↦ rw (h, revoke_invite) unique
    | inr (i, h) ↦ rw (h, revoke_invite) (commit-Stays _ tt unique)
  ]

  accept-Stays :
      (id : String) (u : User) (credential : UserCredential)
      → Stays (accept_invite k c id u credential a s).0
  unfolding accept_invite joined_state
  accept-Stays id u credential = elim (Bool-cases (any (has_email u.email) s.users)) [
    | inl h ↦ rw (h, accept_invite) unique
    | inr h ↦ elim (Option-cases (find (is_acceptable c.now id) s.invites)) [
      | inl f ↦ rw (h, f, accept_invite) unique
      | inr (i, f) ↦ elim (Bool-cases (fits i u)) [
        | inl g ↦ rw (h, f, g, accept_invite) (commit-Stays _ u (added u h))
        | inr g ↦ rw (h, f, g, accept_invite) unique
      ]
    ]
  ]

  sso-Stays :
      (u : User) (credential : UserCredential) (id : String)
      → Stays (create_sso_user k c u credential id a s).0
  unfolding create_sso_user joined_state
  sso-Stays u credential id = elim (Bool-cases (any (has_email u.email) s.users)) [
    | inl h ↦ rw (h, create_sso_user) unique
    | inr h ↦ elim (Bool-cases (id == "")) [
      | inl e ↦ rw (h, e, create_sso_user) (commit-Stays _ u (added u h))
      | inr e ↦ elim (Option-cases (find (is_current c.now id) s.invites)) [
        | inl f ↦ rw (h, e, f, create_sso_user) unique
        | inr (i, f) ↦ rw (h, e, f, create_sso_user) (commit-Stays _ u (added u h))
      ]
    ]
  ]

  member-Stays :
      (org id : String) (update : User → Result User) (inputs : List ApplicationGrantInput)
      → ((u v : User) → update u ≡ ok v → v.email ≡ u.email)
      → Stays (update_member k c org id update inputs a s).0
  unfolding update_member member_state
  member-Stays org id update inputs leaves = elim (Option-cases (find (is_member org id) s.users)) [
    | inl f ↦ rw (f, update_member) unique
    | inr (u, f) ↦ elim (Result-cases (update u)) [
      | inl (e, g) ↦ rw (f, g, update_member) unique
      | inr (v, g) ↦
          elim (Result-cases (
            replacement (application_exists org s) (new_grant c.now org id a.actor_id) [] inputs)) [
              | inl (e, h) ↦ rw (f, g, h, update_member) unique
              | inr (grants, h) ↦
                  rw (f, g, h, update_member)
                    (commit-Stays (member_state c.now org id v grants s) v (
                      subst Distinct
                        (sym (emails-replace (is_member org id) u v s.users f (leaves u v g)))
                        unique))
            ]
    ]
  ]

Step-UniqueEmails :
    {k : Crypto} {s t : State} → Step k s t → UniqueEmails s.users → UniqueEmails t.users
Step-UniqueEmails {k = k} {s = s} (enterprise c o u credential policies a r) h =
    enterprise-Stays k c s a r h o u credential policies
Step-UniqueEmails {k = k} {s = s} (invite c i a r) h = invite-Stays k c s a r h i
Step-UniqueEmails {k = k} {s = s} (revoke c org id a r) h = revoke-Stays k c s a r h org id
Step-UniqueEmails {k = k} {s = s} (accept c id u credential a r) h =
    accept-Stays k c s a r h id u credential
Step-UniqueEmails {k = k} {s = s} (sso c u credential id a r) h =
    sso-Stays k c s a r h u credential id
Step-UniqueEmails {k = k} {s = s} (member c org id update inputs a r leaves) h =
    member-Stays k c s a r h org id update inputs leaves

-- From a state in which no two users have the same address, whatever its case, enterprises,
-- invitations, acceptances, single sign-on users and updates of members lead to no state in which two
-- users have, failing calls included, if a failed write restores the last saved state and an update
-- of a member leaves its address.
pub Run-UniqueEmails :
    {k : Crypto} {s t : State} → Run k s t → UniqueEmails s.users → UniqueEmails t.users
Run-UniqueEmails stop h = h
Run-UniqueEmails (◌then◌ step run) h = Run-UniqueEmails run (Step-UniqueEmails step h)
