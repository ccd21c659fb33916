-- ===== src/Store/Members/Updates.antt =====
-- What `UpdateMember` of internal/store/organization.go has stored.
use changeguard.Prelude.{
  ◌≡◌, ap, String, some, [], ◌∷◌, List, ◌++◌, filter, find, replace_first, arith, Option-cases, inl,
  inr,
}
use changeguard.Model.{
  User, ApplicationGrant, ApplicationGrantInput, AuditEvent, Result, ok, Result-cases,
}
use changeguard.Crypto.{Crypto}
use changeguard.Store.Base.{State, Call, append_audits}
use changeguard.Store.Saving.{save_locked-ok}
use changeguard.Store.Members.{
  commit, update_member, is_member, application_exists, replacement, new_grant, is_others,
  with_control, member_state,
}

pub record IsUpdated (c : Call) (org id : String) (update : User → Result User)
    (inputs : List ApplicationGrantInput) (by : String) (s t : State) (v : User) : Type 0 where
  pub before : User
  pub found : find (is_member org id) s.users ≡ some before
  pub updated : update before ≡ ok v
  pub made : List ApplicationGrant
  pub asked : replacement (application_exists org s) (new_grant c.now org id by) [] inputs ≡ ok made
  pub grants : t.grants ≡ filter (is_others org id) s.grants ++ made
  pub organizations : t.organizations ≡ with_control c.now org s.organizations
  pub users : t.users ≡ replace_first (is_member org id) v s.users

pub update_member-IsUpdated :
    (k : Crypto) (c : Call) (org id : String) (update : User → Result User)
    (inputs : List ApplicationGrantInput) (a : AuditEvent) (s t : State) (v : User)
    → update_member k c org id update inputs a s ≡ (t, ok v)
    → IsUpdated c org id update inputs a.actor_id s t v
unfolding update_member member_state append_audits
update_member-IsUpdated k c org id update inputs a s t v h =
    elim (Option-cases (find (is_member org id) s.users)) [
      | inl f ↦ absurd (ground (arith, (rw (f, update_member) at h)))
      | inr (u, f) ↦ elim (Result-cases (update u)) [
        | inl (e, g) ↦ absurd (ground (arith, (rw (f, g, update_member) at h)))
        | inr (w, g) ↦
            elim (Result-cases (
              replacement (application_exists org s) (new_grant c.now org id a.actor_id) []
                inputs)) [
                  | inl (e, r) ↦ absurd (ground (arith, (rw (f, g, r, update_member) at h)))
                  | inr (grants, r) ↦ built u w grants f g r (rw (f, g, r, update_member) at h)
                ]
      ]
    ]
  where
    built :
        (u w : User) (grants : List ApplicationGrant)
        → find (is_member org id) s.users ≡ some u
        → update u ≡ ok w
        → replacement (application_exists org s) (new_grant c.now org id a.actor_id) [] inputs
          ≡ ok grants
        → commit k c a (member_state c.now org id w grants s) w ≡ (t, ok v)
        → IsUpdated c org id update inputs a.actor_id s t v
    built u w grants f g r h =
        let (te, ve) =
          save_locked-ok c.saving
            (append_audits k c (a ∷ []) (member_state c.now org id w grants s)) t (λ z. some z) w v
            h in
        record {
          before = u;
          found = f;
          updated = rw ve g;
          made = grants;
          asked = r;
          grants = ap (λ (z : State). z.grants) te;
          organizations = ap (λ (z : State). z.organizations) te;
          users = rw ve (ap (λ (z : State). z.users) te);
        }
