-- ===== src/Store/UsePassport/Atomic.antt =====
-- An operation on passports that fails has changed nothing, save the expiry that it records.
use changeguard.Prelude.{
  ◌≤◌, String, ◌≡◌, Bool, Option, none, some, arith, find, position, find_holds, find-replace_first,
  set?-position, set?-position_same, Option-cases, ◌⊎◌, inl, inr,
}
use changeguard.Model.Status.{Time, active, expired}
use changeguard.Model.{ChangeRequest, AuditEvent, StoredPassport, Err, passport_expired, err}
use changeguard.Crypto.{Crypto}
use changeguard.Store.Base.{
  State, Call, Saving, saved, failed, Restores, append_audits, save_locked,
}
use changeguard.Store.Saving.{save_locked-err}
use changeguard.Store.Passport.{has_passport_id, with_status}
use changeguard.Store.UsePassport.{
  use_passport, use_item, use_active, then_expired, consume_item, consumed_item, consumed_state,
  expired_state, completed_change, expire_item, is_bound_change, undo_item, undo_consume-eq,
  undo_item-eq,
}

-- a write of an expiry is undone or done
expired_cases :
    (w : Saving) (s u t : State) (e : Err) (undo : State → Option State)
    → Restores s w
    → undo u ≡ some s
    → undo s ≡ some s
    → then_expired (save_locked w u undo tt) ≡ (t, err e)
    → (t ≡ s) ⊎ ((e ≡ passport_expired) × (t ≡ u))
expired_cases saved s u t e undo r p q h = ground arith
expired_cases (failed e' none) s u t e undo r p q h = ground arith
expired_cases (failed e' (some r')) s u t e undo r p q h = ground arith

module _ (k : Crypto) (c : Call) (id token consumer : String) (at : Time) (consume : Bool)
    (a : AuditEvent) (s t : State) (e : Err) (restores : Restores s c.saving) where
  consume_item-err :
      (item : StoredPassport) (change : ChangeRequest)
      → find (has_passport_id id) s.passports ≡ some item
      → find (is_bound_change item) s.changes ≡ some change
      → consume_item k c id consumer at item change a s ≡ (t, err e)
      → t ≡ s
  unfolding consume_item consumed_state append_audits
  consume_item-err item change f g h =
      let q = has_passport_id id in
      let r = is_bound_change item in
      let u = consumed_state k c id consumer at item change a s in
      save_locked-err s u t c.saving _ _ e restores
        (undo_consume-eq (position q s.passports) (position r s.changes) item change s.audits u _ _
          (set?-position q s.passports (consumed_item consumer at item) item f)
          (set?-position r s.changes (completed_change c consumer at change) change g))
        (undo_consume-eq (position q s.passports) (position r s.changes) item change s.audits s _ _
          (set?-position_same q s.passports item f) (set?-position_same r s.changes change g))
        h

  use_active-err :
      (item : StoredPassport)
      → find (has_passport_id id) s.passports ≡ some item
      → use_active k c id consumer at consume item a s ≡ (t, err e)
      → t ≡ s
  unfolding use_active
  use_active-err item f h = elim (Option-cases (find (is_bound_change item) s.changes)) [
    | inl g ↦ ground arith
    | inr (change, g) ↦ ground (arith, consume_item-err item change f g)
  ]

  -- the passport had run out by the time of the call, and is now recorded as expired
  abbrev pub ExpiryRecorded : Type 0
  ExpiryRecorded =
      (item : StoredPassport) × (find (has_passport_id id) s.passports ≡ some item)
      × (item.status ≡ active)
      × (item.expires_at ≤ at)
      × (find (has_passport_id id) t.passports ≡ some (with_status expired item))
      × (t.changes ≡ s.changes)

  expire_item-cases :
      (item : StoredPassport)
      → find (has_passport_id id) s.passports ≡ some item
      → expire_item k c id item a s ≡ (t, err e)
      → (t ≡ s)
        ⊎ ((e ≡ passport_expired)
            × (find (has_passport_id id) t.passports ≡ some (with_status expired item))
            × (t.changes ≡ s.changes))
  unfolding expire_item expired_state append_audits
  expire_item-cases item f h =
      let q = has_passport_id id in
      let u = expired_state k c id item a s in
      elim (expired_cases c.saving s u t e (undo_item (position q s.passports) item s.audits)
        restores
        (undo_item-eq (position q s.passports) item s.audits u _
          (set?-position q s.passports (with_status expired item) item f))
        (undo_item-eq (position q s.passports) item s.audits s _
          (set?-position_same q s.passports item f))
        h) [
          | inl same ↦ inl same
          | inr (x, y) ↦ inr (
            x,
            rw y (
                find-replace_first q s.passports (with_status expired item) item f
                  (find_holds q s.passports item f)),
            rw y,
          )
        ]

  -- an error comes from a check, from the consumption, or from the expiry
  use_item-branches :
      (item : StoredPassport)
      → find (has_passport_id id) s.passports ≡ some item
      → use_item k c id token consumer at consume item a s ≡ (t, err e)
      → (t ≡ s)
        ⊎ ((item.status ≡ active)
            × (item.expires_at ≤ at)
            × (expire_item k c id item a s ≡ (t, err e)))
  unfolding use_item
  use_item-branches item f h = ground (arith, use_active-err item f)

  use_item-err :
      (item : StoredPassport)
      → find (has_passport_id id) s.passports ≡ some item
      → use_item k c id token consumer at consume item a s ≡ (t, err e)
      → (t ≡ s) ⊎ ((e ≡ passport_expired) × ExpiryRecorded)
  use_item-err item f h = elim (use_item-branches item f h) [
    | inl same ↦ inl same
    | inr (st, late, h') ↦ elim (expire_item-cases item f h') [
      | inl same ↦ inl same
      | inr (x, g, ch) ↦ inr (x, (item, f, st, late, g, ch))
    ]
  ]

  -- A verification or consumption that fails has left the state as it was, if a failed write
  -- restores the last saved state, unless it found an active passport past its expiry: then the
  -- error says so, and the passport stands as expired with the changes as they were.
  pub use_passport-err :
      use_passport k c id token consumer at consume a s ≡ (t, err e)
      → (t ≡ s) ⊎ ((e ≡ passport_expired) × ExpiryRecorded)
  unfolding use_passport
  use_passport-err h = elim (Option-cases (find (has_passport_id id) s.passports)) [
    | inl f ↦ inl (ground arith)
    | inr (item, f) ↦ use_item-err item f (ground arith)
  ]
