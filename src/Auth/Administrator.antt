-- ===== src/Auth/Administrator.antt =====
-- The administrator who changes a member by internal/auth/enterprise.go.
use changeguard.Prelude.{
  String, ◌≡◌, sym, ap, ◌∙◌, subst, Bool, true, false, not, ◌&&◌, Option, none, some, List, [], ◌∷◌,
  find, replace_first, ◌≢◌, find_holds, find-replace_first_other, find-replace_first_narrow, filter,
  length, ◌≤◌, arith, eq_iff, ◌==◌, leb, Bool-cases, inl, inr,
}
use changeguard.Model.{
  Organization, User, AuditEvent, ApplicationGrantInput, not_found, forbidden, conflict,
  unauthorized, Result, ok, err, Result-cases, bind-ok, require-then, ok-injective,
}
use changeguard.Crypto.{Crypto}
use changeguard.Store.Base.{State, Call, user, of_option}
use changeguard.Store.Members.{
  is_member, is_active_admin, update_member, active_enterprise_admin_count,
}
use changeguard.Store.Members.Updates.{update_member-IsUpdated}
use changeguard.Auth.{
  UpdateMemberInput, organization, or_unauthorized, current_enterprise, member_of, demotes, usable,
  member_checks, updated_user, member_audit, put_member,
}

length-filter_found :
    {A : Type 0} (p q : A → Bool) (xs : List A) (x : A)
    → find p xs ≡ some x
    → q x ≡ true
    → 1 ≤ length (filter q xs)
unfolding find filter
length-filter_found p q [] x f h = absurd (ground arith)
length-filter_found p q (y ∷ ys) x f h = elim (Bool-cases (p y)) [
  | inl e ↦
      let first : some y ≡ some x = rw e at f in
      let same : y ≡ x = ground arith in rw (subst (λ z. q z ≡ true) (sym same) h) (omega arith)
  | inr e ↦
      let rest = length-filter_found p q ys x (rw e at f) h in
      elim (Bool-cases (q y)) [ inl d ↦ rw d (omega (arith, rest)) | inr d ↦ rw d rest ]
]

-- the user is an active administrator of the organization
abbrev pub IsAdministrator : String → String → State → Type 0
IsAdministrator id org s =
    (u : User) × (user id s ≡ ok u)
    × (u.organization_id ≡ org)
    × (u.active ≡ true)
    × (u.enterprise_admin ≡ true)

-- what `HandleMember` has checked
pub record Checked (actor_id member_id : String) (s : State) (actor : User) (o : Organization)
    (member : User) (input : UpdateMemberInput) : Type 0 where
  pub known : user actor_id s ≡ ok actor
  pub active : actor.active ≡ true
  pub administrator : actor.enterprise_admin ≡ true
  pub own : actor.organization_id ≡ o.id
  pub member_known : user member_id s ≡ ok member
  pub member_own : member.organization_id ≡ o.id
  pub not_self : (member.id == actor.id && demotes input) ≡ false

or_unauthorized-ok : {A : Type 0} (r : Result A) (a : A) → or_unauthorized r ≡ ok a → r ≡ ok a
or_unauthorized-ok (err e) a h = absurd (ground arith)
or_unauthorized-ok (ok b) a h = h

member_of-ok :
    (o : Organization) (r : Result User) (u : User)
    → member_of o r ≡ ok u
    → (r ≡ ok u) × (u.organization_id ≡ o.id)
member_of-ok o (err e) u h = absurd (ground arith)
member_of-ok o (ok v) u h = elim (Bool-cases (v.organization_id == o.id)) [
  | inl e ↦
      let same : v ≡ u = ok-injective v u (rw e at h) in
      (
        ap (λ z. ok z) same,
        subst (λ (z : User). z.organization_id ≡ o.id) same ((eq_iff v.organization_id o.id).0 e),
      )
  | inr e ↦
      let h' : ◌≡◌ {A = Result User} (err not_found) (ok u) = rw e at h in absurd (ground arith)
]

of_option-ok : {A : Type 0} (o : Option A) (a : A) → of_option o ≡ ok a → o ≡ some a
of_option-ok none a h = absurd (ground arith)
of_option-ok (some b) a h = ap (λ z. some z) (ok-injective b a h)

current_enterprise-ok :
    (id : String) (s : State) (u : User) (o : Organization)
    → current_enterprise id s ≡ ok (u, o)
    → (user id s ≡ ok u) × (u.active ≡ true) × (u.organization_id ≡ o.id)
unfolding current_enterprise organization
current_enterprise-ok id s u o h =
    let (v, vh, h₁) = bind-ok (or_unauthorized (user id s)) _ (u, o) h in
    let (active, h₂) = require-then unauthorized v.active _ (u, o) h₁ in
    let (p, ph, h₃) = bind-ok (or_unauthorized (organization v.organization_id s)) _ (u, o) h₂ in
    let pair = ok-injective (v, p) (u, o) h₃ in
    let found =
      of_option-ok (find (λ (x : Organization). x.id == v.organization_id) s.organizations) p
        (or_unauthorized-ok (organization v.organization_id s) p ph) in
    let owns : p.id ≡ v.organization_id =
      (eq_iff p.id v.organization_id).0
        (find_holds (λ (x : Organization). x.id == v.organization_id) s.organizations p found) in
    subst
      (λ (z : User × Organization).
        (user id s ≡ ok z.0) × (z.0.active ≡ true) × (z.0.organization_id ≡ z.1.id))
      pair (or_unauthorized-ok (user id s) v vh, active, sym owns)

abbrev Of : String → String → State → User × Organization × User × UpdateMemberInput → Type 0
Of actor_id member_id s (actor, o, member, input) =
    Checked actor_id member_id s actor o member input

member_checks-ok :
    (actor_id member_id : String) (decoded : Option UpdateMemberInput) (s : State)
    (x : User × Organization × User × UpdateMemberInput)
    → member_checks actor_id member_id decoded s ≡ ok x
    → Of actor_id member_id s x
unfolding member_checks
member_checks-ok actor_id member_id decoded s x h =
    let ((u, o), uh, h₁) = bind-ok (current_enterprise actor_id s) _ x h in
    let (admin, h₂) = require-then forbidden u.enterprise_admin _ x h₁ in
    let (named, h₃) = require-then not_found (not (member_id == "")) _ x h₂ in
    let (m, mh, h₄) = bind-ok (member_of o (user member_id s)) _ x h₃ in
    let (input, ih, h₅) = bind-ok (usable decoded) _ x h₄ in
    let (self, h₆) = require-then conflict (not (m.id == u.id && demotes input)) _ x h₅ in
    let (last, h₇) =
      require-then conflict
        (not (m.enterprise_admin && demotes input && leb (active_enterprise_admin_count o.id s) 1))
        _ x h₆ in
    let (known, active, own) = current_enterprise-ok actor_id s u o uh in
    let (member_known, member_own) = member_of-ok o (user member_id s) m mh in
    let quadruple : (u, o, m, input) ≡ x = ok-injective (u, o, m, input) x h₇ in
    subst (Of actor_id member_id s) quadruple (record {
      known = known;
      active = active;
      administrator = admin;
      own = own;
      member_known = member_known;
      member_own = member_own;
      not_self = ground (arith, self);
    })

-- the member that was changed is one of the organization, before and after the change
pub record IsTheirs (member_id org : String) (v : User) (s t : State) : Type 0 where
  pub before : User
  pub stored : user member_id s ≡ ok before
  pub own : before.organization_id ≡ org
  pub same_id : v.id ≡ member_id
  pub still_own : v.organization_id ≡ org
  pub written : user member_id t ≡ ok v

module _ (k : Crypto) (c c₁ : Call) (between : State → State) (actor_id member_id : String)
    (decoded : Option UpdateMemberInput) (s t : State) (v : User)
    (undisturbed : (between s).users ≡ s.users) where
  -- the write, as one on the users that the checks have read
  written :
      (o : Organization) (update : User → Result User) (inputs : List ApplicationGrantInput)
      (a : AuditEvent)
      → update_member k c₁ o.id member_id update inputs a (between s) ≡ (t, ok v)
      → (before : User) × (find (is_member o.id member_id) s.users ≡ some before)
        × (update before ≡ ok v)
        × (t.users ≡ replace_first (is_member o.id member_id) v s.users)
  written o update inputs a h =
      let y = update_member-IsUpdated k c₁ o.id member_id update inputs a (between s) t v h in
      (
        y.before,
        ap (find (is_member o.id member_id)) (sym undisturbed) ∙ y.found,
        y.updated,
        y.users ∙ ap (replace_first (is_member o.id member_id) v) undisturbed,
      )

  -- every other user is as before
  abbrev pub OthersKept : Type 0
  OthersKept = (id : String) → id ≢ member_id → user id t ≡ user id s

  remains :
      (actor : User) (o : Organization) (member : User) (input : UpdateMemberInput)
      → Checked actor_id member_id s actor o member input
      → update_member k c₁ o.id member_id
          (updated_user input)
          input.application_grants
          (member_audit c actor o member input)
          (between s)
        ≡ (t, ok v)
      → IsAdministrator actor_id o.id t × IsTheirs member_id o.id v s t × OthersKept
  unfolding user
  remains actor o member input x h =
      let (before, before_found, updated, changed) =
        written o (updated_user input) input.application_grants
          (member_audit c actor o member input) h in
      let named : User → Bool = λ u. u.id == actor_id in
      let found : find named s.users ≡ some actor =
        of_option-ok (find named s.users) actor x.known in
      let now : v ≡ record before {
        role = input.role;
        active = input.active;
        enterprise_admin = input.enterprise_admin;
      } =
        sym (
          ok-injective
            (record before {
              role = input.role;
              active = input.active;
              enterprise_admin = input.enterprise_admin;
            })
            v updated) in
      let standing : is_member o.id member_id before ≡ true =
        find_holds (is_member o.id member_id) s.users before before_found in
      let before_id : before.id ≡ member_id =
        ground (arith, standing, eq_iff before.id member_id) in
      let before_own : before.organization_id ≡ o.id =
        ground (arith, standing, eq_iff before.organization_id o.id) in
      let id : v.id ≡ member_id = ap (λ (z : User). z.id) now ∙ before_id in
      let member_found : find (λ (u : User). u.id == member_id) s.users ≡ some member =
        of_option-ok (find (λ (u : User). u.id == member_id) s.users) member x.member_known in
      let member_named : member.id ≡ member_id =
        (eq_iff member.id member_id).0
          (find_holds (λ (u : User). u.id == member_id) s.users member member_found) in
      let theirs : IsTheirs member_id o.id v s t = record {
        before = member;
        stored = x.member_known;
        own = x.member_own;
        same_id = id;
        still_own = ap (λ (z : User). z.organization_id) now ∙ before_own;
        written = ap of_option (
            ap (find (λ (u : User). u.id == member_id)) changed
            ∙ find-replace_first_narrow (λ (u : User). u.id == member_id) (is_member o.id member_id)
                s.users v member (λ u g. ground (arith, g)) member_found
                (ground (
                  arith,
                  eq_iff member.id member_id,
                  member_named,
                  eq_iff member.organization_id o.id,
                  x.member_own,
                ))
                ((eq_iff v.id member_id).1 id));
      } in
      let others : OthersKept = λ i apart. ap of_option (
        ap (find (λ (u : User). u.id == i)) changed
        ∙ find-replace_first_other (is_member o.id member_id) (λ (u : User). u.id == i) s.users v
            before before_found (ground (arith, before_id, apart, eq_iff before.id i))
            (ground (arith, id, apart, eq_iff v.id i))) in
      let still : IsAdministrator actor_id o.id t = elim (Bool-cases (member_id == actor_id)) [
        | inl e ↦
            let same : member_id ≡ actor_id = (eq_iff member_id actor_id).0 e in
            let actor_named : actor.id ≡ actor_id =
              (eq_iff actor.id actor_id).0 (find_holds named s.users actor found) in
            let keeps : demotes input ≡ false = ground (
              arith,
              x.not_self,
              eq_iff member.id actor.id,
              member_named ∙ same ∙ sym actor_named,
            ) in
            let is_it : is_member o.id member_id actor ≡ true = ground (
              arith,
              eq_iff actor.id member_id,
              actor_named ∙ sym same,
              eq_iff actor.organization_id o.id,
              x.own,
            ) in
            let stands : find named t.users ≡ some v =
              ap (find named) changed
              ∙ find-replace_first_narrow named (is_member o.id member_id) s.users v actor
                  (λ u g. subst (λ z. (u.id == z) ≡ true) same (ground (arith, g))) found is_it
                  ((eq_iff v.id actor_id).1 (id ∙ same)) in
            (
              v,
              ap of_option stands,
              ap (λ (z : User). z.organization_id) now ∙ before_own,
              ap (λ (z : User). z.active) now ∙ ground (arith, keeps),
              ap (λ (z : User). z.enterprise_admin) now ∙ ground (arith, keeps),
            )
        | inr e ↦
            let kept : find named t.users ≡ some actor =
              ap (find named) changed
              ∙ find-replace_first_other (is_member o.id member_id) named s.users v before
                  before_found (ap (λ z. z == actor_id) before_id ∙ e)
                  (ap (λ z. z == actor_id) id ∙ e)
              ∙ found in
            (actor, ap of_option kept, x.own, x.active, x.administrator)
      ] in
      (still, theirs, others)

  -- Whoever changes a member is an active administrator of the member's organization, and still is
  -- one after the change, whatever the request asks for, the administrator's own account included; the
  -- member stays in the organization, which still has an active administrator, and no other user is
  -- changed. This is if no other request changes the users between the checks and the write.
  pub put_member-IsAdministrator :
      put_member k c c₁ between actor_id member_id decoded s ≡ (t, ok v)
      → (org : String) × IsAdministrator actor_id org s
        × IsAdministrator actor_id org t
        × IsTheirs member_id org v s t
        × OthersKept
        × (1 ≤ active_enterprise_admin_count org t)
  unfolding put_member active_enterprise_admin_count user
  put_member-IsAdministrator h = elim (Result-cases (member_checks actor_id member_id decoded s)) [
    | inl (e, f) ↦ absurd (ground (arith, (rw (f, put_member) at h)))
    | inr ((actor, o, member, input), f) ↦
        let x = member_checks-ok actor_id member_id decoded s (actor, o, member, input) f in
        let ((u, there, own, active, administrator), theirs, others) =
          remains actor o member input x (rw (f, put_member) at h) in
        (
          o.id,
          (actor, x.known, x.own, x.active, x.administrator),
          (u, there, own, active, administrator),
          theirs,
          others,
          length-filter_found (λ (z : User). z.id == actor_id) (is_active_admin o.id) t.users u
              (of_option-ok (find (λ (z : User). z.id == actor_id) t.users) u there)
              (ground (arith, eq_iff u.organization_id o.id, own, active, administrator)),
        )
  ]
