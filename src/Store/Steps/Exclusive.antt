-- ===== src/Store/Steps/Exclusive.antt =====
-- At most one passport of a change is usable at any time, whatever operations are run.
use changeguard.Prelude.{
  ℕ, ◌+◌, ◌≤◌, String, ◌≡◌, refl, Bool, true, false, ◌&&◌, List, [], ◌∷◌, ◌++◌, map, arith, ltb,
  ◌==◌, eq_iff, if◌then◌else◌, any, replace_first, Bool-cases, inl, inr, sym, ◌∙◌,
}
use changeguard.Model.Status.{Time, active, expired, is_passport}
use changeguard.Model.{Passport, StoredPassport}
use changeguard.Crypto.{Crypto}
use changeguard.Store.Base.{State}
use changeguard.Store.Passport.{blocks_issue, lapsed, with_status}
use changeguard.Store.Steps.{Step, Reach, here, next}
use changeguard.Store.Steps.Writes.{
  Settles, Writes, same, settle_one, settle_all, issue, expire_one, Step-Writes,
}

-- active, unexpired, and of this change
abbrev pub is_live : Time → String → String → StoredPassport → Bool
is_live now org change_id x =
    x.organization_id == org
    && x.change_id == change_id
    && is_passport x.status active
    && ltb now x.expires_at

unfoldable pub live_count : Time → String → String → List StoredPassport → ℕ
live_count now org change_id [] = 0
live_count now org change_id (x ∷ xs) =
    (if is_live now org change_id x then 1 else 0) + live_count now org change_id xs

-- no change has two usable passports
pub record IsExclusive (now : Time) (xs : List StoredPassport) : Type 0 where
  pub at : (org change_id : String) → live_count now org change_id xs ≤ 1

module _ (now : Time) (org change_id : String) where
  settled-not_live : (x y : StoredPassport) → Settles x y → is_live now org change_id y ≡ false
  settled-not_live x y st = ground arith

  live_count-replace_first :
      (p : StoredPassport → Bool) (x y : StoredPassport) (xs : List StoredPassport)
      → is_live now org change_id y ≡ false
      → live_count now org change_id (replace_first p y xs) ≤ live_count now org change_id xs
  unfolding live_count replace_first
  live_count-replace_first p x y [] h = omega arith
  live_count-replace_first p x y (z ∷ xs) h = elim (Bool-cases (p z)) [
    | inl e ↦ rw (e, replace_first) (rw h (omega arith))
    | inr e ↦ rw (e, replace_first) (omega (arith, live_count-replace_first p x y xs h))
  ]

  live_count-map :
      (p : StoredPassport → Bool) (f : StoredPassport → StoredPassport) (xs : List StoredPassport)
      → ((x : StoredPassport) → p x ≡ true → is_live now org change_id (f x) ≡ false)
      → live_count now org change_id (map (λ x. if p x then f x else x) xs)
        ≤ live_count now org change_id xs
  unfolding live_count
  live_count-map p f [] h = omega arith
  live_count-map p f (z ∷ xs) h = elim (Bool-cases (p z)) [
    | inl e ↦ rw (e, h z e) (omega (arith, live_count-map p f xs h))
    | inr e ↦ rw e (omega (arith, live_count-map p f xs h))
  ]

  live_count-append :
      (xs : List StoredPassport) (y : StoredPassport)
      → live_count now org change_id (xs ++ y ∷ [])
        ≡ live_count now org change_id xs + (if is_live now org change_id y then 1 else 0)
  unfolding live_count
  live_count-append [] y = omega arith
  live_count-append (z ∷ xs) y = omega (arith, live_count-append xs y)

  -- once no passport blocks an issue, none of that change is live
  live_count-unblocked :
      (p : Passport) (xs : List StoredPassport)
      → any (blocks_issue now p) xs ≡ false
      → p.organization_id ≡ org
      → p.change_id ≡ change_id
      → live_count now org change_id xs ≡ 0
  unfolding live_count any
  live_count-unblocked p [] h u v = refl
  live_count-unblocked p (z ∷ xs) h u v = ground (
    arith,
    live_count-unblocked p xs,
    eq_iff z.organization_id org,
    eq_iff z.organization_id p.organization_id,
    eq_iff z.change_id change_id,
    eq_iff z.change_id p.change_id,
  )

  live_count-expire :
      (p : Passport) (xs : List StoredPassport)
      → live_count now org change_id (map (expire_one now p) xs) ≤ live_count now org change_id xs
  live_count-expire p xs =
      live_count-map (lapsed now p) (with_status expired) xs (λ x h. ground arith)

  other_not_live :
      (y : StoredPassport) (b : Bool)
      → is_live now org change_id y ≡ b
      → b ≡ true
      → (y.organization_id ≡ org) × (y.change_id ≡ change_id)
  other_not_live y b h t =
      ground (arith, eq_iff y.organization_id org, eq_iff y.change_id change_id)

  Writes-live_count :
      (xs ys : List StoredPassport)
      → Writes now xs ys
      → live_count now org change_id xs ≤ 1
      → live_count now org change_id ys ≤ 1
  Writes-live_count xs ys same h = h
  Writes-live_count xs ys (settle_one p x y f st e) h =
      rw e (omega (arith, live_count-replace_first p x y xs (settled-not_live x y st)))
  Writes-live_count xs ys (settle_all p f st e) h =
      rw e (omega (arith, live_count-map p f xs (λ x px. settled-not_live x (f x) (st x px))))
  Writes-live_count xs ys (issue p y free o c e) h =
      elim (Bool-cases (is_live now org change_id y)) [
        | inl l ↦
            let (u, v) = other_not_live y true l refl in
            rw e (
              rw (live_count-append (map (expire_one now p) xs) y) (
                rw l (
                  omega (
                    arith,
                    live_count-expire p xs,
                    live_count-unblocked p xs free (sym o ∙ u) (sym c ∙ v),
                  ))))
        | inr l ↦ rw e (
            rw (live_count-append (map (expire_one now p) xs) y)
              (rw l (omega (arith, live_count-expire p xs))))
      ]

-- a passport that is unusable stays so
live_count-later :
    (now now' : Time) (org change_id : String) (xs : List StoredPassport)
    → now ≤ now'
    → live_count now' org change_id xs ≤ live_count now org change_id xs
unfolding live_count
live_count-later now now' org change_id [] h = omega arith
live_count-later now now' org change_id (z ∷ xs) h =
    ground (arith, live_count-later now now' org change_id xs)

Step-IsExclusive :
    {k : Crypto} {now now' : Time} {s t : State}
    → Step k now s now' t
    → IsExclusive now s.passports
    → IsExclusive now' t.passports
Step-IsExclusive {now = now} {now' = now'} {s = s} {t = t} step h = record {
  at = λ org change_id.
      let (later, w) = Step-Writes step in
      Writes-live_count now' org change_id s.passports t.passports w (
        omega
          (arith, live_count-later now now' org change_id s.passports later, h.at org change_id));
}

-- From a state in which no change has two usable passports, no sequence of issues, verifications,
-- consumptions and revocations, failing or not, leads to one where a change has two, if the clock
-- does not run backwards and a failed write restores the last saved state.
pub Reach-IsExclusive :
    {k : Crypto} {now : Time} {s : State} {now' : Time} {t : State}
    → Reach k now s now' t
    → IsExclusive now s.passports
    → IsExclusive now' t.passports
Reach-IsExclusive here h = h
Reach-IsExclusive (next r step) h = Step-IsExclusive step (Reach-IsExclusive r h)
