-- ===== src/Store/Passport/Issued.antt =====
-- The state after `CreatePassport` of internal/store/passport.go.
use changeguard.Prelude.{
  ◌≡◌, refl, ap, ◌∙◌, false, none, some, List, [], ◌∷◌, ◌++◌, map, ◌==◌, eq_refl, arith, any, find,
  find-append, Bool-cases, inl, inr,
}
use changeguard.Model.{AuditEvent, Passport, StoredPassport, ok}
use changeguard.Crypto.{Crypto}
use changeguard.Store.Base.{State, Call, append_audits}
use changeguard.Store.Saving.{save_locked-ok}
use changeguard.Store.Passport.{
  has_passport_id, blocks_issue, lapsed, issued_state, create_passport, stored_passport,
  undo_passports,
}
use changeguard.Store.Steps.Writes.{expire_one, expire_lapsed-list, expire_lapsed-state}

module _ (k : Crypto) (c : Call) (p : Passport) (a : AuditEvent) (s : State) where
  -- the store accepts a passport that nothing blocks
  pub create_passport-ok :
      (t : State)
      → create_passport k c p a s ≡ (t, ok tt)
      → (any (blocks_issue c.now p) s.passports ≡ false) × (t ≡ issued_state k c p a s)
  unfolding create_passport
  create_passport-ok t h = elim (Bool-cases (any (blocks_issue c.now p) s.passports)) [
    | inl blocked ↦ absurd (ground arith)
    | inr clear ↦ (
      clear,
      (save_locked-ok c.saving (issued_state k c p a s) t (undo_passports s) tt tt
          (rw (clear, create_passport) at h)).0,
    )
  ]

  pub issued_state-changes : (issued_state k c p a s).changes ≡ s.changes
  unfolding issued_state append_audits
  issued_state-changes =
      ap (λ (t : State). t.changes) (expire_lapsed-state k c p s.passports [] [] s)

  pub issued_state-policies : (issued_state k c p a s).policies ≡ s.policies
  unfolding issued_state append_audits
  issued_state-policies =
      ap (λ (t : State). t.policies) (expire_lapsed-state k c p s.passports [] [] s)

  issued_state-passports :
      (issued_state k c p a s).passports
      ≡ map (expire_one c.now p) s.passports ++ stored_passport p ∷ []
  unfolding issued_state append_audits
  issued_state-passports =
      ap (λ items. items ++ stored_passport p ∷ []) (expire_lapsed-list k c p s.passports s)

  expire_one-id : (x : StoredPassport) → (expire_one c.now p x).id ≡ x.id
  expire_one-id x = elim (Bool-cases (lapsed c.now p x)) [ inl h ↦ rw h refl | inr h ↦ rw h refl ]

  no_other :
      (xs : List StoredPassport)
      → any (blocks_issue c.now p) xs ≡ false
      → find (has_passport_id p.id) (map (expire_one c.now p) xs) ≡ none
  unfolding any find
  no_other [] h = refl
  no_other (x ∷ xs) h = elim (Bool-cases (blocks_issue c.now p x)) [
    | inl b ↦ absurd (ground arith)
    | inr b ↦
        let other : (x.id == p.id) ≡ false = ground arith in
        let kept : has_passport_id p.id (expire_one c.now p x) ≡ false =
          ap (λ i. i == p.id) (expire_one-id x) ∙ other in
        rw (kept, no_other xs (ground arith)) refl
  ]

  -- the new passport is found under its id
  pub issued_state-find :
      any (blocks_issue c.now p) s.passports ≡ false
      → find (has_passport_id p.id) (issued_state k c p a s).passports ≡ some (stored_passport p)
  issued_state-find clear = rw issued_state-passports (
      find-append (has_passport_id p.id) (map (expire_one c.now p) s.passports) (stored_passport p)
        (no_other s.passports clear) (eq_refl p.id))
