-- ===== src/Store/Outbox/Claim.antt =====
-- Which event a worker is given.
use changeguard.Prelude.{
  ℕ, zero, suc, ◌+◌, ◌≤◌, ◌<◌, String, ◌≡◌, refl, true, Option, none, some, List, [], ◌∷◌,
  get_elem?, set?, arith, Option-cases, ◌⊎◌, inl, inr, subst, sym, ap, ◌≢◌, ◌∙◌,
}
use changeguard.Model.Status.{Time}
use changeguard.Model.{ChangeRequest, OutboxEvent, ok}
use changeguard.Store.Base.{State, Call}
use changeguard.Store.Saving.{save_locked-ok}
use changeguard.Store.Outbox.{is_due, select, better, claimed, claim_outbox}
use changeguard.Store.Outbox.Lease.{Holds}

-- the selected event is due no later than this
abbrev AtMost : Option (ℕ × OutboxEvent) → ℕ → Type 0
AtMost none n = ⊥
AtMost (some (j, e)) n = e.next_attempt_at ≤ n

module _ (now : Time) where
  better-AtMost :
      (best : Option (ℕ × OutboxEvent)) (i n : ℕ) (e : OutboxEvent)
      → AtMost best n
      → AtMost (better now best i e) n
  unfolding better
  better-AtMost none i n e h = elim h [ ]
  better-AtMost (some (j, b)) i n e h = ground arith

  better-AtMost_self :
      (best : Option (ℕ × OutboxEvent)) (i : ℕ) (e : OutboxEvent)
      → is_due now e ≡ true
      → AtMost (better now best i e) e.next_attempt_at
  unfolding better
  better-AtMost_self none i e h = rw (h, better) (omega arith)
  better-AtMost_self (some (j, b)) i e h = ground arith

  select-AtMost_best :
      (best : Option (ℕ × OutboxEvent)) (i n : ℕ) (es : List OutboxEvent)
      → AtMost best n
      → AtMost (select now best i es) n
  unfolding select
  select-AtMost_best best i n [] h = h
  select-AtMost_best best i n (e ∷ es) h =
      select-AtMost_best (better now best i e) (suc i) n es (better-AtMost best i n e h)

  select-AtMost :
      (best : Option (ℕ × OutboxEvent)) (i : ℕ) (es : List OutboxEvent) (d : ℕ) (x : OutboxEvent)
      → get_elem? es d ≡ some x
      → is_due now x ≡ true
      → AtMost (select now best i es) x.next_attempt_at
  unfolding select
  select-AtMost best i [] d x g h = absurd (ground arith)
  select-AtMost best i (e ∷ es) zero x g h =
      select-AtMost_best (better now best i e) (suc i) x.next_attempt_at es (
        let same : e ≡ x = ground arith in
        subst (λ (y : OutboxEvent). AtMost (better now best i e) y.next_attempt_at) same
          (better-AtMost_self best i e (ground arith)))
  select-AtMost best i (e ∷ es) (suc d) x g h =
      select-AtMost (better now best i e) (suc i) es d x g h

  -- the selected event stands at its index and is due
  abbrev From : Option (ℕ × OutboxEvent) → ℕ → List OutboxEvent → ℕ → OutboxEvent → Type 0
  From best i es j e =
      (best ≡ some (j, e))
      ⊎ ((d : ℕ) × (j ≡ i + d) × (get_elem? es d ≡ some e) × (is_due now e ≡ true))

  better-cases :
      (best : Option (ℕ × OutboxEvent)) (i : ℕ) (e : OutboxEvent)
      → (better now best i e ≡ best) ⊎ ((better now best i e ≡ some (i, e)) × (is_due now e ≡ true))
  unfolding better
  better-cases best i e = ground arith

  select-From :
      (best : Option (ℕ × OutboxEvent)) (i : ℕ) (es : List OutboxEvent) (j : ℕ) (e : OutboxEvent)
      → select now best i es ≡ some (j, e)
      → From best i es j e
  unfolding select
  select-From best i [] j e h = inl h
  select-From best i (x ∷ es) j e h = elim (select-From (better now best i x) (suc i) es j e h) [
    | inr (d, u, v, w) ↦ inr (suc d, omega arith, v, w)
    | inl b ↦ elim (better-cases best i x) [
      | inl same ↦ inl (sym same ∙ b)
      | inr (new, due) ↦ inr (0, ground arith, ground arith, ground arith)
    ]
  ]

set?-get_elem? {ℓ} :
    {A : Type ℓ} (xs : List A) (d : ℕ) (x v : A)
    → get_elem? xs d ≡ some x
    → (ys : List A) × (set? xs d v ≡ some ys)
      × (get_elem? ys d ≡ some v)
      × ((j : ℕ) → j ≢ d → get_elem? ys j ≡ get_elem? xs j)
set?-get_elem? [] d x v h = absurd (ground arith)
set?-get_elem? (z ∷ xs) zero x v h = (v ∷ xs, refl, refl, after)
  where
    after : (j : ℕ) → j ≢ 0 → get_elem? (v ∷ xs) j ≡ get_elem? (z ∷ xs) j
    after zero n = absurd (n refl)
    after (suc j) n = refl
set?-get_elem? (z ∷ xs) (suc d) x v h =
    let (ys, p, q, r) = set?-get_elem? xs d x v h in
    (
      z ∷ ys,
      rw p refl,
      q,
      λ j. elim j as (λ i. i ≢ suc d → get_elem? (z ∷ ys) i ≡ get_elem? (z ∷ xs) i) [
        | zero ↦ λ n. refl
        | suc i ↦ λ n. r i (λ e. n (ap suc e))
      ],
    )

-- What a claim hands out: an event that was due, before which no other was due, now held by the
-- worker under a generation and an attempt count that are each one higher, with every other event
-- as it was.
pub record IsClaim (c : Call) (worker : String) (lease : Time) (s t : State) (e' : OutboxEvent)
    : Type 0 where
  pub index : ℕ
  pub old : OutboxEvent
  pub stood : get_elem? s.outbox index ≡ some old
  pub due : is_due c.now old ≡ true
  pub soonest :
      (j : ℕ) (x : OutboxEvent)
      → get_elem? s.outbox j ≡ some x
      → is_due c.now x ≡ true
      → old.next_attempt_at ≤ x.next_attempt_at
  pub stands : get_elem? t.outbox index ≡ some e'
  pub others : (j : ℕ) → j ≢ index → get_elem? t.outbox j ≡ get_elem? s.outbox j
  pub held : Holds worker (old.lease_generation + 1) c.now e'
  pub counted : e'.attempts ≡ old.attempts + 1

claimed-Holds :
    (c : Call) (worker : String) (lease : Time) (changes : List ChangeRequest) (e : OutboxEvent)
    → 0 < lease
    → Holds worker (e.lease_generation + 1) c.now (claimed c worker lease changes e)
unfolding claimed
claimed-Holds c worker lease changes e positive = record {
  in_process = refl;
  owner = refl;
  current = refl;
  unexpired = ground arith;
}

select-at :
    (now : Time) (events : List OutboxEvent) (i : ℕ) (e : OutboxEvent)
    → select now none 0 events ≡ some (i, e)
    → (get_elem? events i ≡ some e) × (is_due now e ≡ true)
select-at now events i e h = elim (select-From now none 0 events i e h) [
  | inl b ↦ absurd (ground arith)
  | inr (d, u, v, w) ↦ (rw u (ground arith), w)
]

module _ (c : Call) (worker : String) (lease : Time) (s t : State) (e' : OutboxEvent)
    (positive : 0 < lease) where
  -- A claim with a positive lease that returns an event has picked one that was due, none being due
  -- sooner, and has put it under the worker's lease with the generation and the attempts raised by
  -- one, leaving the other events alone.
  pub claim_outbox-IsClaim :
      claim_outbox c worker lease s ≡ (t, ok e') → IsClaim c worker lease s t e'
  unfolding claim_outbox
  claim_outbox-IsClaim h = elim (Option-cases (select c.now none 0 s.outbox)) [
    | inl n ↦ absurd (ground arith)
    | inr ((i, e), g) ↦
        let (stood, due) = select-at c.now s.outbox i e g in
        let new = claimed c worker lease s.changes e in
        let (ys, p, q, r) = set?-get_elem? s.outbox i e new stood in
        let (te, ee) =
          save_locked-ok c.saving (record s { outbox = ys }) t (λ u. some u) new e'
            (rw p at (rw (g, claim_outbox) at h)) in
        rw (te, ee)
          (record {
            index = i;
            old = e;
            stood = stood;
            due = due;
            soonest = λ j x gx dx. rw g at (select-AtMost c.now none 0 s.outbox j x gx dx);
            stands = q;
            others = r;
            held = claimed-Holds c worker lease s.changes e positive;
            counted = unfold claimed in refl;
          })
  ]
