-- ===== src/Store/Members/Granted.antt =====
-- The grants that `UpdateMember` of internal/store/organization.go makes of what it is asked for.
use changeguard.Prelude.{
  String, ◌≡◌, ◌≢◌, refl, sym, ◌∙◌, subst, Bool, true, false, not, ◌||◌, ◌&&◌, Option, none, some,
  List, [], ◌∷◌, any, find, trim_space, arith, eq_iff, eq_refl, ◌==◌, if◌then◌else◌, ◌⊎◌,
  Bool-cases, inl, inr,
}
use changeguard.Model.Status.{Time}
use changeguard.Model.{
  ApplicationGrant, ApplicationGrantInput, not_found, ok, err, ◌>>=◌, bind-ok, ok-injective,
}
use changeguard.Store.Members.{replacement, new_grant}

-- the input is for the application
abbrev pub names : String → ApplicationGrantInput → Bool
names app i = trim_space i.application_id == app

-- a grant for the application, of a member
abbrev pub is_for : String → String → String → ApplicationGrant → Bool
is_for org id app g = g.organization_id == org && g.user_id == id && g.application_id == app

passed_over :
    (blank seen known : Bool)
    → (blank || seen || not known) ≡ true
    → (not blank && not known) ≡ false
    → (blank ≡ true) ⊎ (seen ≡ true)
passed_over true seen known h e = inl refl
passed_over false true known h e = inr refl
passed_over false false true h e = absurd (ground arith)
passed_over false false false h e = absurd (ground arith)

module _ (exists : String → Bool) (now : Time) (org id by app : String) where
  abbrev make : ApplicationGrantInput → ApplicationGrant
  make = new_grant now org id by

  abbrev noticed : List String → Bool
  noticed seen = any (λ x. x == app) seen

  -- what is found of the first input for the application
  abbrev pub first_asked : List ApplicationGrantInput → Option ApplicationGrant
  first_asked inputs = elim (find (names app) inputs) [
    | none ↦ none
    | some i ↦ if not i.can_submit && not i.can_review then none else some (make i)
  ]

  is_for-make : (i : ApplicationGrantInput) → is_for org id app (make i) ≡ names app i
  is_for-make i = ground (arith, eq_refl org, eq_refl id)

  noticed-differs :
      (seen : List String) (x : String)
      → any (λ y. y == x) seen ≡ false
      → noticed seen ≡ true
      → (x == app) ≡ false
  noticed-differs seen x h n = elim (Bool-cases (x == app)) [
    | inl e ↦
        let same : any (λ y. y == app) seen ≡ false =
          subst (λ z. any (λ y. y == z) seen ≡ false) ((eq_iff x app).0 e) h in
        absurd (ground (arith, same, n))
    | inr e ↦ e
  ]

  seen-differs :
      (seen : List String) (x : String)
      → any (λ y. y == x) seen ≡ true
      → noticed seen ≡ false
      → (x == app) ≡ false
  seen-differs seen x h n = elim (Bool-cases (x == app)) [
    | inl e ↦
        let same : any (λ y. y == app) seen ≡ true =
          subst (λ z. any (λ y. y == z) seen ≡ true) ((eq_iff x app).0 e) h in
        absurd (ground (arith, same, n))
    | inr e ↦ e
  ]

  -- the three ways an input goes: passed over, noted only, granted
  replacement-cons :
      (seen : List String) (i : ApplicationGrantInput) (inputs : List ApplicationGrantInput)
      (grants : List ApplicationGrant)
      → replacement exists make seen (i ∷ inputs) ≡ ok grants
      → ((((trim_space i.application_id == "") ≡ true)
            ⊎ (any (λ x. x == trim_space i.application_id) seen ≡ true))
          × (replacement exists make seen inputs ≡ ok grants))
        ⊎ ((any (λ x. x == trim_space i.application_id) seen ≡ false)
            × (((not i.can_submit && not i.can_review) ≡ true)
                  × (replacement exists make (trim_space i.application_id ∷ seen) inputs
                      ≡ ok grants)
                ⊎ ((not i.can_submit && not i.can_review) ≡ false)
                  × ((rest : List ApplicationGrant) × (replacement exists make
                          (trim_space i.application_id ∷ seen)
                          inputs
                        ≡ ok rest)
                      × (grants ≡ make i ∷ rest))))
  unfolding replacement
  replacement-cons seen i inputs grants h =
      let id' = trim_space i.application_id in
      elim (Bool-cases (id' == "" || any (λ x. x == id') seen || not (exists id'))) [
        | inl k ↦
            let h₁ : (if not (id' == "") && not (exists id')
                  then err not_found
                  else replacement exists make seen inputs)
                ≡ ok grants =
              rw (k, replacement) at h in
            elim (Bool-cases (not (id' == "") && not (exists id'))) [
              | inl e ↦ let h₂ : err not_found ≡ ok grants = rw e at h₁ in absurd (ground arith)
              | inr e ↦
                  inl (
                    passed_over (id' == "") (any (λ x. x == id') seen) (exists id') k e,
                    rw e at h₁,
                  )
            ]
        | inr k ↦
            let h₁ : (if not i.can_submit && not i.can_review
                  then replacement exists make (id' ∷ seen) inputs
                  else replacement exists make (id' ∷ seen) inputs >>= (λ gs. ok (make i ∷ gs)))
                ≡ ok grants =
              rw (k, replacement) at h in
            inr (
              ground (arith, k),
              elim (Bool-cases (not i.can_submit && not i.can_review)) [
                | inl e ↦ inl (e, rw e at h₁)
                | inr e ↦
                    let (rest, found, last) =
                      bind-ok (replacement exists make (id' ∷ seen) inputs) (λ gs. ok (make i ∷ gs))
                        grants (rw e at h₁) in
                    inr (e, (rest, found, sym (ok-injective (make i ∷ rest) grants last)))
              ],
            )
      ]

  -- an application that was seen gets no further grant
  noticed-none :
      (seen : List String) (inputs : List ApplicationGrantInput) (grants : List ApplicationGrant)
      → noticed seen ≡ true
      → replacement exists make seen inputs ≡ ok grants
      → find (is_for org id app) grants ≡ none
  unfolding find replacement any
  noticed-none seen [] grants n h =
      let empty : [] ≡ grants = ok-injective [] grants h in rw (sym empty) refl
  noticed-none seen (i ∷ inputs) grants n h = elim (replacement-cons seen i inputs grants h) [
    | inl (why, h') ↦ noticed-none seen inputs grants n h'
    | inr (fresh, inl (silent, h')) ↦
        noticed-none (trim_space i.application_id ∷ seen) inputs grants (ground (arith, n)) h'
    | inr (fresh, inr (asked, (rest, h', all))) ↦
        let other : is_for org id app (make i) ≡ false =
          is_for-make i ∙ noticed-differs seen (trim_space i.application_id) fresh n in
        rw all (
          rw other
            (noticed-none (trim_space i.application_id ∷ seen) inputs rest (ground (arith, n)) h'))
  ]

  -- the first input for an application decides about its grant
  pub replacement-first_asked :
      (seen : List String) (inputs : List ApplicationGrantInput) (grants : List ApplicationGrant)
      → app ≢ ""
      → noticed seen ≡ false
      → replacement exists make seen inputs ≡ ok grants
      → find (is_for org id app) grants ≡ first_asked inputs
  unfolding find replacement any
  replacement-first_asked seen [] grants filled n h =
      let empty : [] ≡ grants = ok-injective [] grants h in rw (sym empty) refl
  replacement-first_asked seen (i ∷ inputs) grants filled n h =
      elim (replacement-cons seen i inputs grants h) [
        | inl (why, h') ↦
            let unnamed : names app i ≡ false = elim why [
              | inl blank ↦ ground (
                arith,
                eq_iff (trim_space i.application_id) app,
                eq_iff (trim_space i.application_id) "",
                filled,
              )
              | inr again ↦ seen-differs seen (trim_space i.application_id) again n
            ] in
            rw (unnamed, first_asked) (replacement-first_asked seen inputs grants filled n h')
        | inr (fresh, inl (silent, h')) ↦ elim (Bool-cases (names app i)) [
          | inl m ↦
              rw (m, first_asked, silent)
                (noticed-none (trim_space i.application_id ∷ seen) inputs grants (rw m refl) h')
          | inr m ↦
              rw (m, first_asked)
                (replacement-first_asked (trim_space i.application_id ∷ seen) inputs grants filled
                  (rw m n) h')
        ]
        | inr (fresh, inr (asked, (rest, h', all))) ↦ elim (Bool-cases (names app i)) [
          | inl m ↦ rw (all, is_for-make i ∙ m, m, first_asked, asked) refl
          | inr m ↦
              rw (all, is_for-make i ∙ m, m, first_asked)
                (replacement-first_asked (trim_space i.application_id ∷ seen) inputs rest filled
                  (rw m n) h')
        ]
      ]
