-- ===== src/Store/Members/Invited.antt =====
-- An invitation of internal/store/organization.go that a user has accepted.
use changeguard.Prelude.{
  String, ◌≡◌, ◌≢◌, refl, sym, ap, ◌∙◌, subst, Bool, true, false, none, some, List, [], ◌∷◌, ◌++◌,
  equal_fold, any, find, replace_first, find_holds, leb, arith, eq_iff, ◌==◌, if◌then◌else◌,
  Bool-cases, Option-cases, inl, inr,
}
use changeguard.Model.Status.{Time, InviteStatus, is_invited, is_invited-eq}
use changeguard.Model.{
  User, UserCredential, OrganizationInvite, AuditEvent, not_found, conflict, ok, err,
}
use changeguard.Crypto.{Crypto}
use changeguard.Store.Base.{State, Call, append_audits}
use changeguard.Store.Saving.{save_locked-ok}
use changeguard.Store.Members.{
  commit, has_email, accepted_invite, accept_invite, is_acceptable, fits, joined_state,
  create_sso_user, is_current,
}

-- no two invitations have the same identifier
abbrev pub UniqueIds : List OrganizationInvite → Type 0
UniqueIds [] = Unit
UniqueIds (i ∷ is) = (any (λ (x : OrganizationInvite). x.id == i.id) is ≡ false) × UniqueIds is

-- the invitation that was taken up, and what has been stored
pub record IsAccepted (c : Call) (id : String) (u : User) (credential : UserCredential)
    (s t : State) (answer : User) : Type 0 where
  pub before : OrganizationInvite
  pub found : find (is_acceptable c.now id) s.invites ≡ some before
  pub named : before.id ≡ id
  pub pending : before.status ≡ InviteStatus.pending
  pub in_time : leb c.now before.expires_at ≡ true
  pub organization : before.organization_id ≡ u.organization_id
  pub role : before.role ≡ u.role
  pub address : equal_fold before.email u.email ≡ true
  pub unused : any (has_email u.email) s.users ≡ false
  pub answered : answer ≡ u
  pub users : t.users ≡ s.users ++ u ∷ []
  pub credentials : t.credentials ≡ s.credentials ++ credential ∷ []
  pub invites :
      t.invites ≡ replace_first (is_acceptable c.now id) (accepted_invite c.now u before) s.invites

module _ (k : Crypto) (c : Call) (id : String) (u : User) (credential : UserCredential)
    (a : AuditEvent) (s t : State) (answer : User) where
  committed :
      (i : OrganizationInvite)
      → any (has_email u.email) s.users ≡ false
      → find (is_acceptable c.now id) s.invites ≡ some i
      → fits i u ≡ true
      → commit k c a (joined_state (is_acceptable c.now id) c.now i u credential s) u
        ≡ (t, ok answer)
      → IsAccepted c id u credential s t answer
  unfolding joined_state append_audits
  committed i new f fit h =
      let (te, ae) =
        save_locked-ok c.saving
          (append_audits k c (a ∷ [])
            (joined_state (is_acceptable c.now id) c.now i u credential s))
          t (λ r. some r) u answer h in
      let holds : is_acceptable c.now id i ≡ true =
        find_holds (is_acceptable c.now id) s.invites i f in
      record {
        before = i;
        found = f;
        named = ground (arith, eq_iff i.id id);
        pending = is_invited-eq i.status (ground arith);
        in_time = ground (arith, holds);
        organization = ground (arith, eq_iff i.organization_id u.organization_id);
        role = ground (arith, eq_iff i.role u.role);
        address = ground arith;
        unused = new;
        answered = ae;
        users = ap (λ (z : State). z.users) te;
        credentials = ap (λ (z : State). z.credentials) te;
        invites = ap (λ (z : State). z.invites) te;
      }

  -- An invitation is accepted only while it is pending and has not expired, by a user whose
  -- organization, role and address are the invited ones and whose address no user has yet; the user
  -- and the credential are then stored, and the invitation is stored as accepted.
  pub accept_invite-IsAccepted :
      accept_invite k c id u credential a s ≡ (t, ok answer)
      → IsAccepted c id u credential s t answer
  unfolding accept_invite
  accept_invite-IsAccepted h = elim (Bool-cases (any (has_email u.email) s.users)) [
    | inl e ↦ absurd (ground (arith, (rw (e, accept_invite) at h)))
    | inr e ↦ elim (Option-cases (find (is_acceptable c.now id) s.invites)) [
      | inl f ↦ absurd (ground (arith, (rw (e, f, accept_invite) at h)))
      | inr (i, f) ↦ elim (Bool-cases (fits i u)) [
        | inl g ↦ committed i e f g (rw (e, f, g, accept_invite) at h)
        | inr g ↦ absurd (ground (arith, (rw (e, f, g, accept_invite) at h)))
      ]
    ]
  ]

-- no invitation of another identifier passes a test that asks for this one
none_named :
    (q : OrganizationInvite → Bool) (id : String)
    → ((x : OrganizationInvite) → q x ≡ true → x.id ≡ id)
    → (xs : List OrganizationInvite) → any (λ (x : OrganizationInvite). x.id == id) xs ≡ false
    → find q xs ≡ none
unfolding any find
none_named q id names [] h = refl
none_named q id names (x ∷ xs) h =
    let other : q x ≡ false = ground (arith, names x, eq_iff x.id id) in
    let rest : any (λ (y : OrganizationInvite). y.id == id) xs ≡ false = ground arith in
    rw other (none_named q id names xs rest)

some_named :
    (p : OrganizationInvite → Bool) (id : String) (xs : List OrganizationInvite)
    (i : OrganizationInvite)
    → i.id ≡ id
    → find p xs ≡ some i
    → any (λ (x : OrganizationInvite). x.id == id) xs ≡ true
unfolding any find
some_named p id [] i n f = absurd (ground arith)
some_named p id (x ∷ xs) i n f = elim (Bool-cases (p x)) [
  | inl h ↦
      let first : some x ≡ some i = rw h at f in
      let same : x ≡ i = ground arith in
      rw ((eq_iff x.id id).1 (ap (λ (z : OrganizationInvite). z.id) same ∙ n)) refl
  | inr h ↦ ground (arith, some_named p id xs i n (rw h at f))
]

-- once the invitation of an identifier is not pending, none of that identifier is
taken_up :
    (p q : OrganizationInvite → Bool) (i v : OrganizationInvite) (xs : List OrganizationInvite)
    → ((x : OrganizationInvite) → q x ≡ true → x.id ≡ i.id)
    → q v ≡ false
    → UniqueIds xs
    → find p xs ≡ some i
    → find q (replace_first p v xs) ≡ none
unfolding find replace_first
taken_up p q i v [] names n u f = absurd (ground arith)
taken_up p q i v (x ∷ xs) names n (alone, u) f = elim (Bool-cases (p x)) [
  | inl h ↦
      let first : some x ≡ some i = rw h at f in
      let same : x ≡ i = ground arith in
      rw (h, n)
        (none_named q i.id names xs (
          subst
            (λ (z : OrganizationInvite). any (λ (y : OrganizationInvite). y.id == z.id) xs ≡ false)
            same alone))
  | inr h ↦
      let later : find p xs ≡ some i = rw h at f in
      let other : q x ≡ false = elim (Bool-cases (q x)) [
        | inl g ↦
            let named : any (λ (y : OrganizationInvite). y.id == x.id) xs ≡ true =
              some_named p x.id xs i (sym (names x g)) later in
            absurd (ground (arith, named, alone))
        | inr g ↦ g
      ] in
      rw (h, other) (taken_up p q i v xs names n u later)
]

not_accepted :
    (now : Time) (u : User) (i : OrganizationInvite) (q : OrganizationInvite → Bool)
    → ((x : OrganizationInvite) → q x ≡ true → is_invited x.status ≡ true)
    → q (accepted_invite now u i) ≡ false
not_accepted now u i q asks = elim (Bool-cases (q (accepted_invite now u i))) [
  | inl g ↦
      let still : is_invited (accepted_invite now u i).status ≡ true =
        asks (accepted_invite now u i) g in
      absurd (unfold accepted_invite in ground arith)
  | inr g ↦ g
]

-- An invitation admits one user: after an acceptance was answered, in a store in which no two
-- invitations have the same identifier, every other acceptance of it, and every sign-on that names it,
-- is refused and changes nothing, with a conflict if the address has a user already and as not found
-- if it has none.
pub accept_invite_once :
    (k : Crypto) (c : Call) (id : String) (u : User) (credential : UserCredential) (a : AuditEvent)
    (s t : State) (answer : User)
    → accept_invite k c id u credential a s ≡ (t, ok answer)
    → UniqueIds s.invites
    → id ≢ ""
    → (c' : Call) (u' : User) (credential' : UserCredential) (a' : AuditEvent)
    → (accept_invite k c' id u' credential' a' t
        ≡ (t, err (if any (has_email u'.email) t.users then conflict else not_found)))
      × (create_sso_user k c' u' credential' id a' t
          ≡ (t, err (if any (has_email u'.email) t.users then conflict else not_found)))
unfolding accept_invite create_sso_user
accept_invite_once k c id u credential a s t answer h unique filled c' u' credential' a' =
    let x = accept_invite-IsAccepted k c id u credential a s t answer h in
    let v = accepted_invite c.now u x.before in
    let gone_from : (q : OrganizationInvite → Bool)
        → ((i : OrganizationInvite) → q i ≡ true → (i.id ≡ id) × (is_invited i.status ≡ true))
        → find q t.invites ≡ none =
      λ q asks.
        ap (find q) x.invites
        ∙ taken_up (is_acceptable c.now id) q x.before v s.invites
            (λ i g. (asks i g).0 ∙ sym x.named)
            (not_accepted c.now u x.before q (λ i g. (asks i g).1)) unique x.found in
    let shut =
      gone_from (is_acceptable c'.now id)
        (λ i g. (ground (arith, g, eq_iff i.id id), ground (arith, g))) in
    let ended =
      gone_from (is_current c'.now id)
        (λ i g. (ground (arith, g, eq_iff i.id id), ground (arith, g))) in
    let named : (id == "") ≡ false = ground (arith, eq_iff id "", filled) in
    elim (Bool-cases (any (has_email u'.email) t.users)) [
      | inl e ↦ (rw (e, accept_invite) refl, rw (e, create_sso_user) refl)
      | inr e ↦ (rw (e, shut, accept_invite) refl, rw (e, named, ended, create_sso_user) refl)
    ]
