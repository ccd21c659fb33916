-- ===== src/Service/Access/Updated.antt =====
-- The access of a member that `UpdateMember` of internal/store/organization.go has written, as
-- `canUseApplication` of internal/service/service.go reads it.
use changeguard.Prelude.{
  String, ◌≡◌, ◌≢◌, refl, sym, ap, ◌∙◌, subst, Bool, true, false, not, ◌||◌, ◌&&◌, Option, none,
  some, List, [], ◌∷◌, ◌++◌, any, filter, find, find-replace_first, find_holds, arith, ◌==◌,
  Bool-cases, Option-cases, inl, inr,
}
use changeguard.Model.Status.{Time}
use changeguard.Model.{
  Organization, User, ApplicationGrant, ApplicationGrantInput, AuditEvent, Result, ok,
}
use changeguard.Crypto.{Crypto}
use changeguard.Store.Base.{State, Call}
use changeguard.Store.Members.{
  update_member, application_exists, new_grant, is_others, with_control, controlled,
}
use changeguard.Store.Members.Granted.{names, is_for, first_asked, replacement-first_asked}
use changeguard.Store.Members.Updates.{update_member-IsUpdated}
use changeguard.Service.Access.{
  Capability, submit, review, view, grants_it, is_grant_of, has_application_grants,
  can_use_application, role_owner,
}

-- what an input asks for
abbrev pub wants : Capability → ApplicationGrantInput → Bool
wants submit i = i.can_submit
wants review i = i.can_review
wants view i = i.can_submit || i.can_review

-- the access that the first input for an application asks for
abbrev pub asked_access : Capability → Option ApplicationGrantInput → Bool
asked_access cap none = false
asked_access cap (some i) = wants cap i

abbrev access_of : Capability → Option ApplicationGrant → Bool
access_of cap none = false
access_of cap (some g) = grants_it cap g

module _ (org id app : String) where
  -- the grants of others are none of the member's
  find-others :
      (gs rest : List ApplicationGrant)
      → find (is_for org id app) (filter (is_others org id) gs ++ rest)
        ≡ find (is_for org id app) rest
  unfolding find filter
  find-others [] rest = refl
  find-others (g ∷ gs) rest = elim (Bool-cases (is_others org id g)) [
    | inl h ↦
        let other : is_for org id app g ≡ false = ground (arith, h) in
        rw (h, other) (find-others gs rest)
    | inr h ↦ rw h (find-others gs rest)
  ]

  access_of-first_asked :
      (exists : String → Bool) (now : Time) (by : String) (cap : Capability)
      (inputs : List ApplicationGrantInput)
      → access_of cap (first_asked exists now org id by app inputs)
        ≡ asked_access cap (find (names app) inputs)
  access_of-first_asked exists now by cap inputs = elim (Option-cases (find (names app) inputs)) [
    | inl f ↦ rw (f, first_asked) refl
    | inr (i, f) ↦ elim (Bool-cases (not i.can_submit && not i.can_review)) [
      | inl h ↦ rw (f, first_asked, h) (sym (silent cap i h))
      | inr h ↦ rw (f, first_asked, h) (same cap i)
    ]
  ]
    where
      silent :
          (cap : Capability) (i : ApplicationGrantInput)
          → (not i.can_submit && not i.can_review) ≡ true
          → wants cap i ≡ false
      silent submit i h = ground arith
      silent review i h = ground arith
      silent view i h = ground arith

      same :
          (cap : Capability) (i : ApplicationGrantInput)
          → grants_it cap (new_grant now org id by i) ≡ wants cap i
      same submit i = refl
      same review i = refl
      same view i = refl

can_use_application-read :
    (v : User) (app : String) (cap : Capability) (t : State)
    → (v.enterprise_admin || v.role == role_owner) ≡ false
    → has_application_grants v.organization_id t ≡ true
    → can_use_application v app cap t ≡ access_of cap (find (is_grant_of v app) t.grants)
unfolding can_use_application
can_use_application-read v app cap t plain on =
    elim (Option-cases (find (is_grant_of v app) t.grants)) [
      | inl f ↦ rw (plain, on, can_use_application) (rw f refl)
      | inr (g, f) ↦ rw (plain, on, can_use_application) (rw f refl)
    ]

controls :
    (now : Time) (org : String) (os : List Organization) (o : Organization)
    → find (λ (x : Organization). x.id == org) os ≡ some o
    → (x : Organization) × (find (λ (y : Organization). y.id == org) (with_control now org os)
        ≡ some x)
      × (x.application_access_controlled ≡ true)
unfolding with_control
controls now org os o f = (
  controlled now o,
  rw (f, with_control)
      (find-replace_first (λ (y : Organization). y.id == org) os (controlled now o) o f
        (find_holds (λ (y : Organization). y.id == org) os o f)),
  refl,
)

-- After a member of a stored organization was updated, by an update that leaves the member's identifier
-- and organization, and is then neither an administrator nor the technical owner, the member may use
-- an application with a nonempty identifier for exactly what the first of the requested grants for it
-- allows, and for nothing if there is none, whatever grants the member had before.
pub can_use_application-update_member :
    (k : Crypto) (c : Call) (org id : String) (update : User → Result User)
    (inputs : List ApplicationGrantInput) (a : AuditEvent) (s t : State) (v : User)
    → update_member k c org id update inputs a s ≡ (t, ok v)
    → v.organization_id ≡ org
    → v.id ≡ id
    → (v.enterprise_admin || v.role == role_owner) ≡ false
    → (o : Organization) → find (λ (x : Organization). x.id == org) s.organizations ≡ some o
    → (app : String) → app ≢ ""
    → (cap : Capability)
    → can_use_application v app cap t ≡ asked_access cap (find (names app) inputs)
unfolding has_application_grants
can_use_application-update_member k c org id update inputs a s t v h vo vi plain o known app filled
      cap =
    let x = update_member-IsUpdated k c org id update inputs a s t v h in
    let (o', there, on) = controls c.now org s.organizations o known in
    let mine : find (is_grant_of v app) t.grants ≡ find (is_for org id app) x.made =
      ap
        (λ z.
          find
            (λ (g : ApplicationGrant).
              g.organization_id == z && g.user_id == v.id && g.application_id == app)
            t.grants)
        vo
      ∙ ap (λ z. find (is_for org z app) t.grants) vi
      ∙ ap (find (is_for org id app)) x.grants
      ∙ find-others org id app s.grants x.made in
    can_use_application-read v app cap t plain (
      subst (λ z. has_application_grants z t ≡ true) (sym vo)
        (rw (x.organizations, has_application_grants, there) on))
    ∙ ap (access_of cap) (
        mine
        ∙ replacement-first_asked (application_exists org s) c.now org id a.actor_id app [] inputs
            x.made filled (unfold any in refl) x.asked)
    ∙ access_of-first_asked org id app (application_exists org s) c.now a.actor_id cap inputs
