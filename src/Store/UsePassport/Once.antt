-- ===== src/Store/UsePassport/Once.antt =====
-- A passport is consumed once.
use changeguard.Prelude.{
  String, ◌≡◌, ◌≢◌, true, false, not, ◌&&◌, some, arith, ◌==◌, eq_iff, eq_refl, trim_space,
  if◌then◌else◌, find, find_holds, find-replace_first, Bool-cases, Option-cases, inl, inr,
}
use changeguard.Model.Status.{Time, consumed, is_passport}
use changeguard.Model.{
  ChangeRequest, AuditEvent, Passport, StoredPassport, passport_replay, Result, ok, err,
}
use changeguard.Crypto.{Crypto}
use changeguard.Store.Base.{State, Call}
use changeguard.Store.Saving.{save_locked-ok}
use changeguard.Store.Passport.{has_passport_id, public_passport, same_consumer_replay}
use changeguard.Store.UsePassport.{
  use_passport, use_item, use_active, consume_item, consumed_item, expire_item, is_bound_change,
}

-- what a passport that this consumer has consumed looks like
pub record IsConsumedBy (token_sha256 consumer : String) (item : StoredPassport) : Type 0 where
  pub status_consumed : item.status ≡ consumed
  pub by_consumer : item.consumed_by ≡ consumer
  pub token_kept : item.token_sha256_stored ≡ token_sha256

module _ (k : Crypto) (c : Call) (id token consumer : String) (at : Time) (a : AuditEvent)
    (s : State) where
  consume_item-find :
      (item : StoredPassport) (change : ChangeRequest) (t : State) (p : Passport)
      → find (has_passport_id id) s.passports ≡ some item
      → consume_item k c id consumer at item change a s ≡ (t, ok p)
      → (find (has_passport_id id) t.passports ≡ some (consumed_item consumer at item))
        × (p ≡ public_passport c.now (consumed_item consumer at item) false)
  unfolding consume_item
  consume_item-find item change t p f h =
      let (e, q) = save_locked-ok c.saving _ t _ _ p h in
      (
        rw e (
            find-replace_first (has_passport_id id) s.passports (consumed_item consumer at item)
              item f (find_holds (has_passport_id id) s.passports item f)),
        q,
      )

  expire_item-ne-ok :
      (item : StoredPassport) (t : State) (p : Passport) → expire_item k c id item a s ≢ (t, ok p)
  unfolding expire_item
  expire_item-ne-ok item t p h = ground arith

  use_active-find :
      (item : StoredPassport) (t : State) (p : Passport)
      → find (has_passport_id id) s.passports ≡ some item
      → use_active k c id consumer at true item a s ≡ (t, ok p)
      → (find (has_passport_id id) t.passports ≡ some (consumed_item consumer at item))
        × (p ≡ public_passport c.now (consumed_item consumer at item) false)
  unfolding use_active
  use_active-find item t p f h = elim (Option-cases (find (is_bound_change item) s.changes)) [
    | inl e ↦ ground arith
    | inr (change, e) ↦ ground (arith, consume_item-find item change t p f)
  ]

  -- a consume call that returns a passport has left it consumed by its caller
  use_item-IsConsumedBy :
      (item : StoredPassport) (t : State) (p : Passport)
      → find (has_passport_id id) s.passports ≡ some item
      → use_item k c id token consumer at true item a s ≡ (t, ok p)
      → (item' : StoredPassport) × (find (has_passport_id id) t.passports ≡ some item')
        × IsConsumedBy token consumer item'
        × (p ≡ public_passport c.now item' false)
  unfolding use_item same_consumer_replay
  use_item-IsConsumedBy item t p f h = elim (Bool-cases (is_passport item.status consumed)) [
    | inl e ↦ (
      item,
      ground arith,
      ground (arith, eq_iff item.token_sha256_stored token, eq_iff item.consumed_by consumer),
      ground arith,
    )
    | inr e ↦ (
      consumed_item consumer at item,
      ground (arith, use_active-find item t p f, expire_item-ne-ok item t p),
      ground (arith, eq_iff item.token_sha256_stored token),
      ground (arith, use_active-find item t p f, expire_item-ne-ok item t p),
    )
  ]

-- what a later consume call is answered
abbrev pub replay_answer : String → String → Passport → Result Passport
replay_answer consumer consumer' p =
    if consumer == consumer' && not (trim_space consumer == "") then ok p else err passport_replay

module _ (k : Crypto) (c : Call) (id token consumer : String) (at : Time) (a : AuditEvent)
    (t : State) where
  use_item-consumed :
      (by : String) (item : StoredPassport) (now : Time)
      → IsConsumedBy token by item
      → use_item k c id token consumer at true item a t
        ≡ (t, replay_answer by consumer (public_passport now item false))
  unfolding use_item same_consumer_replay public_passport
  use_item-consumed by item now w =
      rw (w.status_consumed, w.by_consumer, w.token_kept)
        (simp eq_refl (ground (arith, eq_iff by consumer)))

  use_passport-consumed :
      (by : String) (item : StoredPassport) (now : Time)
      → find (has_passport_id id) t.passports ≡ some item
      → IsConsumedBy token by item
      → use_passport k c id token consumer at true a t
        ≡ (t, replay_answer by consumer (public_passport now item false))
  unfolding use_passport
  use_passport-consumed by item now f w = rw (f, use_passport) (use_item-consumed by item now w)

module _ (k : Crypto) (c c' : Call) (id token consumer consumer' : String) (at at' : Time)
    (a a' : AuditEvent) (s t : State) (p : Passport)
    (used : use_passport k c id token consumer at true a s ≡ (t, ok p)) where
  found_consumed :
      (item' : StoredPassport) × (find (has_passport_id id) t.passports ≡ some item')
      × IsConsumedBy token consumer item'
      × (p ≡ public_passport c.now item' false)
  unfolding use_passport
  found_consumed = elim (Option-cases (find (has_passport_id id) s.passports)) [
    | inl e ↦ absurd (ground arith)
    | inr (item, e) ↦ use_item-IsConsumedBy k c id token consumer at a s item t p e (ground arith)
  ]

  -- After a consume call that returned a passport, every later consume call with the same token
  -- changes nothing. It returns the first call's passport if it comes from the same consumer, whose
  -- name is not blank, and is refused as a replay otherwise.
  pub consume_once :
      use_passport k c' id token consumer' at' true a' t ≡ (t, replay_answer consumer consumer' p)
  consume_once =
      let (item', f, w, e) = found_consumed in
      rw e (use_passport-consumed k c' id token consumer' at' a' t consumer item' c.now f w)
