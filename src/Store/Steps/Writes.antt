-- ===== src/Store/Steps/Writes.antt =====
-- How each step rewrites the passports.
use changeguard.Prelude.{
  ◌≤◌, String, ◌≡◌, refl, Bool, true, false, Option, none, some, List, [], ◌∷◌, ◌++◌, map, arith,
  if◌then◌else◌, any, find, position, replace_first, set?-position, set?-position_same,
  Option-cases, Bool-cases, ap, ◌∙◌, ◌⊎◌, inl, inr,
}
use changeguard.Model.Status.{Time, active, expired, is_passport}
use changeguard.Model.{ChangeRequest, AuditEvent, Passport, StoredPassport, Result, ok, err}
use changeguard.Crypto.{Crypto}
use changeguard.Store.Base.{
  State, Call, Saving, saved, failed, Restores, save_locked, append_audits,
}
use changeguard.Store.Passport.{
  has_passport_id, with_status, blocks_issue, lapsed, expiry_audit, issued_state, stored_passport,
  create_passport, expire_lapsed, undo_passports,
}
use changeguard.Store.UsePassport.{
  use_passport, use_item, use_active, consume_item, consumed_item, consumed_state, completed_change,
  expire_item, expired_state, then_expired, is_bound_change, revoke_passport, revoked_state,
  revoked_item, is_revocable, revoke_passports_by_change, is_active_of, undo_item, undo_item-eq,
  undo_consume-eq,
}
use changeguard.Store.Steps.{Step, create, use_it, revoke, revoke_by_change}

-- an active passport that becomes consumed, revoked or expired, and keeps what it is bound to
pub record Settles (x y : StoredPassport) : Type 0 where
  pub was_active : x.status ≡ active
  pub settled : is_passport y.status active ≡ false
  pub same_id : y.id ≡ x.id
  pub same_organization : y.organization_id ≡ x.organization_id
  pub same_change : y.change_id ≡ x.change_id
  pub same_artifact : y.artifact_sha256 ≡ x.artifact_sha256
  pub same_environment : y.environment ≡ x.environment
  pub same_rules : y.rule_set_version ≡ x.rule_set_version
  pub same_token : y.token_sha256_stored ≡ x.token_sha256_stored
  pub same_expiry : y.expires_at ≡ x.expires_at

abbrev pub expire_one : Time → Passport → StoredPassport → StoredPassport
expire_one now p item = if lapsed now p item then with_status expired item else item

pub data Writes (now : Time) (xs : List StoredPassport) : List StoredPassport → Type 0 where
  same : Writes now xs xs
  settle_one :
      {ys : List StoredPassport} (p : StoredPassport → Bool) (x y : StoredPassport)
      → find p xs ≡ some x
      → Settles x y
      → ys ≡ replace_first p y xs
      → Writes now xs ys
  settle_all :
      {ys : List StoredPassport} (p : StoredPassport → Bool) (f : StoredPassport → StoredPassport)
      → ((x : StoredPassport) → p x ≡ true → Settles x (f x))
      → ys ≡ map (λ x. if p x then f x else x) xs
      → Writes now xs ys
  issue :
      {ys : List StoredPassport} (p : Passport) (y : StoredPassport)
      → any (blocks_issue now p) xs ≡ false
      → y.organization_id ≡ p.organization_id
      → y.change_id ≡ p.change_id
      → ys ≡ map (expire_one now p) xs ++ y ∷ []
      → Writes now xs ys

module _ {A : Type 0} where
  -- a write that may fail leaves the old state or the new one
  save_locked-cases :
      (s u : State) (w : Saving) (undo : State → Option State) (a : A)
      → Restores s w
      → undo u ≡ some s
      → undo s ≡ some s
      → ((save_locked w u undo a).0 ≡ s) ⊎ ((save_locked w u undo a).0 ≡ u)
  save_locked-cases s u saved undo a r p q = ground arith
  save_locked-cases s u (failed e none) undo a r p q = ground arith
  save_locked-cases s u (failed e (some r')) undo a r p q = ground arith

pub expire_lapsed-list :
    (k : Crypto) (c : Call) (p : Passport) (xs : List StoredPassport) (s : State)
    → (expire_lapsed k c p xs s).0 ≡ map (expire_one c.now p) xs
unfolding expire_lapsed
expire_lapsed-list k c p [] s = refl
expire_lapsed-list k c p (x ∷ xs) s = rw (expire_lapsed-list k c p xs _)

expire_frame :
    (k : Crypto) (c : Call) (p : Passport) (x : StoredPassport) (ys : List StoredPassport)
    (audits : List AuditEvent) (s : State) (hit : Bool)
    → record (if hit then append_audits k c (expiry_audit c.now x ∷ []) s else s) {
      passports = ys;
      audits = audits;
    }
      ≡ record s { passports = ys; audits = audits }
unfolding append_audits
expire_frame k c p x ys audits s true = refl
expire_frame k c p x ys audits s false = refl

-- the loop that expires touches nothing but the audits of the state
pub expire_lapsed-state :
    (k : Crypto) (c : Call) (p : Passport) (xs ys : List StoredPassport) (audits : List AuditEvent)
    (s : State)
    → record (expire_lapsed k c p xs s).1 { passports = ys; audits = audits }
      ≡ record s { passports = ys; audits = audits }
unfolding expire_lapsed append_audits
expire_lapsed-state k c p [] ys audits s = refl
expire_lapsed-state k c p (x ∷ xs) ys audits s =
    expire_lapsed-state k c p xs ys audits _ ∙ expire_frame k c p x ys audits s (lapsed c.now p x)

module _ (k : Crypto) (c : Call) (s : State) (restores : Restores s c.saving) where
  save-Writes :
      {A : Type 0} (u : State) (undo : State → Option State) (a : A)
      → undo u ≡ some s
      → undo s ≡ some s
      → Writes c.now s.passports u.passports
      → Writes c.now s.passports (save_locked c.saving u undo a).0.passports
  save-Writes u undo a p q w = elim (save_locked-cases s u c.saving undo a restores p q) [
    | inl e ↦ rw e same
    | inr e ↦ rw e w
  ]

  create-Writes :
      (p : Passport) (a : AuditEvent)
      → Writes c.now s.passports (create_passport k c p a s).0.passports
  unfolding create_passport issued_state append_audits
  create-Writes p a = elim (Bool-cases (any (blocks_issue c.now p) s.passports)) [
    | inl b ↦ rw b same
    | inr b ↦ rw b (
        save-Writes (issued_state k c p a s) (undo_passports s) tt
          (ap some (expire_lapsed-state k c p s.passports s.passports s.audits s)) refl
          (issue p (stored_passport p) b refl refl (rw (expire_lapsed-list k c p s.passports s))))
  ]

  consume-Writes :
      (id consumer : String) (at : Time) (item : StoredPassport) (change : ChangeRequest)
      (a : AuditEvent)
      → find (has_passport_id id) s.passports ≡ some item
      → find (is_bound_change item) s.changes ≡ some change
      → item.status ≡ active
      → Writes c.now s.passports (consume_item k c id consumer at item change a s).0.passports
  unfolding consume_item consumed_state append_audits
  consume-Writes id consumer at item change a f g st =
      let q = has_passport_id id in
      let r = is_bound_change item in
      let u = consumed_state k c id consumer at item change a s in
      save-Writes u _ _
        (undo_consume-eq (position q s.passports) (position r s.changes) item change s.audits u _ _
          (set?-position q s.passports (consumed_item consumer at item) item f)
          (set?-position r s.changes (completed_change c consumer at change) change g))
        (undo_consume-eq (position q s.passports) (position r s.changes) item change s.audits s _ _
          (set?-position_same q s.passports item f) (set?-position_same r s.changes change g))
        (settle_one q item (consumed_item consumer at item) f (ground arith) refl)

  -- a write to one passport that is undone at its index
  settle-Writes :
      {A : Type 0} (q : StoredPassport → Bool) (x y : StoredPassport) (audits : List AuditEvent)
      (a : A)
      → find q s.passports ≡ some x
      → Settles x y
      → Writes c.now s.passports
          (save_locked c.saving
            (record s { passports = replace_first q y s.passports; audits = audits })
            (undo_item (position q s.passports) x s.audits)
            a).0.passports
  settle-Writes q x y audits a f st =
      let u : State = record s { passports = replace_first q y s.passports; audits = audits } in
      save-Writes u (undo_item (position q s.passports) x s.audits) a
        (undo_item-eq (position q s.passports) x s.audits u s.passports
          (set?-position q s.passports y x f))
        (undo_item-eq (position q s.passports) x s.audits s s.passports
          (set?-position_same q s.passports x f))
        (settle_one q x y f st refl)

  then_expired-state : (r : State × Result (Unit {0})) → (then_expired r).0 ≡ r.0
  then_expired-state (t, ok _) = refl
  then_expired-state (t, err e) = refl

  expire-Writes :
      (id : String) (item : StoredPassport) (a : AuditEvent)
      → find (has_passport_id id) s.passports ≡ some item
      → item.status ≡ active
      → Writes c.now s.passports (expire_item k c id item a s).0.passports
  unfolding expire_item expired_state append_audits
  expire-Writes id item a f st = rw then_expired-state (
      settle-Writes (has_passport_id id) item (with_status expired item)
        (expired_state k c id item a s).audits tt f (ground arith))

  use_active-cases :
      (id consumer : String) (at : Time) (consume : Bool) (item : StoredPassport) (a : AuditEvent)
      (change : ChangeRequest)
      → find (is_bound_change item) s.changes ≡ some change
      → ((use_active k c id consumer at consume item a s).0 ≡ s)
        ⊎ ((use_active k c id consumer at consume item a s).0
            ≡ (consume_item k c id consumer at item change a s).0)
  unfolding use_active
  use_active-cases id consumer at consume item a change g = rw (g, use_active) (ground arith)

  use_active-Writes :
      (id consumer : String) (at : Time) (consume : Bool) (item : StoredPassport) (a : AuditEvent)
      → find (has_passport_id id) s.passports ≡ some item
      → item.status ≡ active
      → Writes c.now s.passports (use_active k c id consumer at consume item a s).0.passports
  unfolding use_active
  use_active-Writes id consumer at consume item a f st =
      elim (Option-cases (find (is_bound_change item) s.changes)) [
        | inl g ↦ rw (g, use_active) same
        | inr (change, g) ↦ elim (use_active-cases id consumer at consume item a change g) [
          | inl e ↦ rw e same
          | inr e ↦ rw e (consume-Writes id consumer at item change a f g st)
        ]
      ]

  use_item-cases :
      (id token consumer : String) (at : Time) (consume : Bool) (item : StoredPassport)
      (a : AuditEvent)
      → ((use_item k c id token consumer at consume item a s).0 ≡ s)
        ⊎ ((item.status ≡ active)
            × ((use_item k c id token consumer at consume item a s).0
                ≡ (expire_item k c id item a s).0))
        ⊎ ((item.status ≡ active)
            × ((use_item k c id token consumer at consume item a s).0
                ≡ (use_active k c id consumer at consume item a s).0))
  unfolding use_item
  use_item-cases id token consumer at consume item a = ground arith

  use_item-Writes :
      (id token consumer : String) (at : Time) (consume : Bool) (item : StoredPassport)
      (a : AuditEvent)
      → find (has_passport_id id) s.passports ≡ some item
      → Writes c.now s.passports (use_item k c id token consumer at consume item a s).0.passports
  use_item-Writes id token consumer at consume item a f =
      elim (use_item-cases id token consumer at consume item a) [
        | inl e ↦ rw e same
        | inr (inl (st, e)) ↦ rw e (expire-Writes id item a f st)
        | inr (inr (st, e)) ↦ rw e (use_active-Writes id consumer at consume item a f st)
      ]

  use_passport-Writes :
      (id token consumer : String) (at : Time) (consume : Bool) (a : AuditEvent)
      → Writes c.now s.passports (use_passport k c id token consumer at consume a s).0.passports
  unfolding use_passport
  use_passport-Writes id token consumer at consume a =
      elim (Option-cases (find (has_passport_id id) s.passports)) [
        | inl f ↦ rw (f, use_passport) same
        | inr (item, f) ↦
            rw (f, use_passport) (use_item-Writes id token consumer at consume item a f)
      ]

  revoke-Writes :
      (org id actor : String) (at : Time) (a : AuditEvent)
      → Writes c.now s.passports (revoke_passport k c org id actor at a s).0.passports
  unfolding revoke_passport revoked_state append_audits
  revoke-Writes org id actor at a = elim (Option-cases (find (is_revocable org id) s.passports)) [
    | inl f ↦ rw (f, revoke_passport) same
    | inr (item, f) ↦ elim (Bool-cases (is_passport item.status active)) [
      | inl st ↦
          rw (f, revoke_passport)
            (rw st (
              settle-Writes (is_revocable org id) item (revoked_item actor at item)
                (revoked_state k c org id actor at item a s).audits _ f (ground arith)))
      | inr st ↦ rw (f, revoke_passport) (rw st same)
    ]
  ]

  revoke_all-Writes :
      (org change_id actor : String) (at : Time) (a : AuditEvent)
      → Writes c.now s.passports
          (revoke_passports_by_change k c org change_id actor at a s).0.passports
  unfolding revoke_passports_by_change append_audits
  revoke_all-Writes org change_id actor at a =
      elim (Bool-cases (any (is_active_of org change_id) s.passports)) [
        | inl b ↦ rw b (
            save-Writes _ (undo_passports s) tt refl refl (
              settle_all (is_active_of org change_id) (revoked_item actor at) (λ x h. ground arith)
                refl))
        | inr b ↦ rw b same
      ]

-- each step rewrites the passports in one of the four ways, and the clock does not run back
pub Step-Writes :
    {k : Crypto} {now now' : Time} {s t : State}
    → Step k now s now' t
    → (now ≤ now') × Writes now' s.passports t.passports
Step-Writes {k} {s = s} (create c p a h r) = (h, create-Writes k c s r p a)
Step-Writes {k} {s = s} (use_it c id token consumer at consume a h r) =
    (h, use_passport-Writes k c s r id token consumer at consume a)
Step-Writes {k} {s = s} (revoke c org id actor at a h r) =
    (h, revoke-Writes k c s r org id actor at a)
Step-Writes {k} {s = s} (revoke_by_change c org change_id actor at a h r) =
    (h, revoke_all-Writes k c s r org change_id actor at a)
