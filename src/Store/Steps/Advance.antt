-- ===== src/Store/Steps/Advance.antt =====
-- What a passport is bound to never changes, and a used, revoked or expired passport never
-- changes at all, whatever operations are run.
use changeguard.Prelude.{
  ◌≡◌, refl, ◌∙◌, subst, append-nil, Bool, true, some, List, [], ◌∷◌, ◌++◌, map, arith, ◌⊎◌, inl,
  inr, if◌then◌else◌, find, replace_first, Bool-cases,
}
use changeguard.Model.Status.{Time, active, expired}
use changeguard.Model.{Passport, StoredPassport}
use changeguard.Crypto.{Crypto}
use changeguard.Store.Base.{State}
use changeguard.Store.Passport.{lapsed, with_status}
use changeguard.Store.Steps.{Reach, here, next}
use changeguard.Store.Steps.Writes.{
  Settles, Writes, same, settle_one, settle_all, issue, Step-Writes,
}

-- `y` is `x` at a later time
pub record IsLater (x y : StoredPassport) : Type 0 where
  pub same_id : y.id ≡ x.id
  pub same_organization : y.organization_id ≡ x.organization_id
  pub same_change : y.change_id ≡ x.change_id
  pub same_artifact : y.artifact_sha256 ≡ x.artifact_sha256
  pub same_environment : y.environment ≡ x.environment
  pub same_rules : y.rule_set_version ≡ x.rule_set_version
  pub same_token : y.token_sha256_stored ≡ x.token_sha256_stored
  pub same_expiry : y.expires_at ≡ x.expires_at
  pub settled_once : (x.status ≡ active) ⊎ (y ≡ x)

-- each passport of the first list stands at the same place of the second, at a later time
pub data AllLater : List StoredPassport → List StoredPassport → Type 0 where
  start : {ys : List StoredPassport} → AllLater [] ys
  more :
      {x y : StoredPassport} {xs ys : List StoredPassport}
      → IsLater x y
      → AllLater xs ys
      → AllLater (x ∷ xs) (y ∷ ys)

IsLater-refl : (x : StoredPassport) → IsLater x x
IsLater-refl x = record {
  same_id = refl;
  same_organization = refl;
  same_change = refl;
  same_artifact = refl;
  same_environment = refl;
  same_rules = refl;
  same_token = refl;
  same_expiry = refl;
  settled_once = inr refl;
}

IsLater-of_Settles : (x y : StoredPassport) → Settles x y → IsLater x y
IsLater-of_Settles x y h = record {
  same_id = h.same_id;
  same_organization = h.same_organization;
  same_change = h.same_change;
  same_artifact = h.same_artifact;
  same_environment = h.same_environment;
  same_rules = h.same_rules;
  same_token = h.same_token;
  same_expiry = h.same_expiry;
  settled_once = inl h.was_active;
}

IsLater-trans : {x y z : StoredPassport} → IsLater x y → IsLater y z → IsLater x z
IsLater-trans {x} {y} {z} h g = record {
  same_id = g.same_id ∙ h.same_id;
  same_organization = g.same_organization ∙ h.same_organization;
  same_change = g.same_change ∙ h.same_change;
  same_artifact = g.same_artifact ∙ h.same_artifact;
  same_environment = g.same_environment ∙ h.same_environment;
  same_rules = g.same_rules ∙ h.same_rules;
  same_token = g.same_token ∙ h.same_token;
  same_expiry = g.same_expiry ∙ h.same_expiry;
  settled_once = both h.settled_once g.settled_once;
}
  where
    both :
        (x.status ≡ active) ⊎ (y ≡ x)
        → (y.status ≡ active) ⊎ (z ≡ y)
        → (x.status ≡ active) ⊎ (z ≡ x)
    both (inl a) r = inl a
    both (inr e) (inr f) = inr (f ∙ e)
    both (inr e) (inl b) = inl (rw e at b)

AllLater-refl : (xs : List StoredPassport) → AllLater xs xs
AllLater-refl [] = start
AllLater-refl (x ∷ xs) = more (IsLater-refl x) (AllLater-refl xs)

AllLater-trans : {xs ys zs : List StoredPassport} → AllLater xs ys → AllLater ys zs → AllLater xs zs
AllLater-trans start g = start
AllLater-trans (more h r) (more g q) = more (IsLater-trans h g) (AllLater-trans r q)

find-head :
    (p : StoredPassport → Bool) (x z : StoredPassport) (xs : List StoredPassport)
    → find p (z ∷ xs) ≡ some x
    → p z ≡ true
    → x ≡ z
unfolding find
find-head p x z xs f e = ground arith

AllLater-replace_first :
    (p : StoredPassport → Bool) (x y : StoredPassport) (xs : List StoredPassport)
    → find p xs ≡ some x
    → IsLater x y
    → AllLater xs (replace_first p y xs)
unfolding find replace_first
AllLater-replace_first p x y [] f h = start
AllLater-replace_first p x y (z ∷ xs) f h = elim (Bool-cases (p z)) [
  | inl e ↦
      rw (e, replace_first)
        (more (subst (λ (w : StoredPassport). IsLater w y) (find-head p x z xs f e) h)
          (AllLater-refl xs))
  | inr e ↦
      rw (e, replace_first)
        (more (IsLater-refl z) (AllLater-replace_first p x y xs (ground arith) h))
]

module _ (p : StoredPassport → Bool) (f : StoredPassport → StoredPassport) where
  abbrev where_p : StoredPassport → StoredPassport
  where_p x = if p x then f x else x

  IsLater-if : (x : StoredPassport) → (p x ≡ true → Settles x (f x)) → IsLater x (where_p x)
  IsLater-if x h = elim (Bool-cases (p x)) [
    | inl e ↦ rw e (IsLater-of_Settles x (f x) (h e))
    | inr e ↦ rw e (IsLater-refl x)
  ]

  AllLater-map :
      (xs ys : List StoredPassport)
      → ((x : StoredPassport) → IsLater x (where_p x))
      → AllLater xs (map where_p xs ++ ys)
  AllLater-map [] ys h = start
  AllLater-map (x ∷ xs) ys h = more (h x) (AllLater-map xs ys h)

expire-Settles :
    (now : Time) (p : Passport) (x : StoredPassport)
    → lapsed now p x ≡ true
    → Settles x (with_status expired x)
expire-Settles now p x h = ground arith

Writes-AllLater : (now : Time) (xs ys : List StoredPassport) → Writes now xs ys → AllLater xs ys
Writes-AllLater now xs ys same = AllLater-refl xs
Writes-AllLater now xs ys (settle_one p x y f st e) =
    rw e (AllLater-replace_first p x y xs f (IsLater-of_Settles x y st))
Writes-AllLater now xs ys (settle_all p f st e) =
    rw e (rw append-nil at (AllLater-map p f xs [] (λ x. IsLater-if p f x (st x))))
Writes-AllLater now xs ys (issue p y free o c e) = rw e (
    AllLater-map (lapsed now p) (with_status expired) xs (y ∷ [])
      (λ x. IsLater-if (lapsed now p) (with_status expired) x (expire-Settles now p x)))

-- Over any sequence of issues, verifications, consumptions and revocations, failing or not, if the
-- clock does not run backwards and a failed write restores the last saved state, each passport keeps its place, its identity, its token's hash, its expiry and the change, artifact,
-- environment and rule version that it is bound to; and one that is consumed, revoked or expired is
-- never written again.
pub Reach-AllLater :
    {k : Crypto} {now : Time} {s : State} {now' : Time} {t : State}
    → Reach k now s now' t
    → AllLater s.passports t.passports
Reach-AllLater {s = s} here = AllLater-refl s.passports
Reach-AllLater (next {now'' = n} {t = t} {u = u} r step) =
    AllLater-trans (Reach-AllLater r)
      (Writes-AllLater n t.passports u.passports (Step-Writes step).1)
