-- ===== src/Store/Experiments/Ensured.antt =====
-- Every change in experiment has an event that stands for it.
use changeguard.Prelude.{
  ℕ, ◌≡◌, refl, ap, subst, some, Bool, true, false, not, ◌&&◌, ◌||◌, List, [], ◌∷◌, ◌++◌, eq_refl,
  arith, any, length, Bool-cases, inl, inr, if◌then◌else◌,
}
use changeguard.Model.{ChangeRequest, OutboxEvent, Result, ok}
use changeguard.Store.Base.{State, Call}
use changeguard.Store.Saving.{save_locked-ok}
use changeguard.Store.Experiments.{
  requested_event, serves, in_experiment, ensured, lacks_event, ensure_experiment_outbox,
}

any-append {ℓ} :
    {A : Type ℓ} (p : A → Bool) (xs ys : List A) → any p xs ≡ true → any p (xs ++ ys) ≡ true
unfolding any
any-append p [] ys h = absurd (ground arith)
any-append p (x ∷ xs) ys h = ground (arith, any-append p xs ys)

any-append_new {ℓ} :
    {A : Type ℓ} (p : A → Bool) (xs : List A) (v : A) → p v ≡ true → any p (xs ++ v ∷ []) ≡ true
unfolding any
any-append_new p [] v h = ground arith
any-append_new p (x ∷ xs) v h = ground (arith, any-append_new p xs v)

serves-requested_event :
    (c : Call) (n : ℕ) (x : ChangeRequest) → serves x (requested_event c n x) ≡ true
serves-requested_event c n x = ground (arith, eq_refl x.id)

lacks_event-served :
    (events : List OutboxEvent) (x : ChangeRequest)
    → any (serves x) events ≡ true
    → lacks_event events x ≡ false
unfolding lacks_event
lacks_event-served events x h = none_left (in_experiment x) (any (serves x) events) h
  where
    none_left : (a b : Bool) → b ≡ true → (a && not b) ≡ false
    none_left a b h = ground arith

lacks_event-idle :
    (events : List OutboxEvent) (x : ChangeRequest)
    → in_experiment x ≡ false
    → lacks_event events x ≡ false
unfolding lacks_event
lacks_event-idle events x h = idle (in_experiment x) (any (serves x) events) h
  where
    idle : (a b : Bool) → a ≡ false → (a && not b) ≡ false
    idle a b h = ground arith

module _ (c : Call) where
  -- one round of the loop
  abbrev grown : ChangeRequest → List OutboxEvent → List OutboxEvent
  grown x events =
      if not (in_experiment x) || any (serves x) events
      then events
      else events ++ requested_event c (length events) x ∷ []

  any-grown :
      (p : OutboxEvent → Bool) (x : ChangeRequest) (events : List OutboxEvent)
      → any p events ≡ true
      → any p (grown x events) ≡ true
  any-grown p x events h = elim (Bool-cases (not (in_experiment x) || any (serves x) events)) [
    | inl g ↦ rw g h
    | inr g ↦ rw g (any-append p events (requested_event c (length events) x ∷ []) h)
  ]

  any-ensured :
      (p : OutboxEvent → Bool) (xs : List ChangeRequest) (events : List OutboxEvent)
      → any p events ≡ true
      → any p (ensured c xs events) ≡ true
  unfolding ensured
  any-ensured p [] events h = h
  any-ensured p (x ∷ xs) events h = any-ensured p xs (grown x events) (any-grown p x events h)

  grown-serves :
      (x : ChangeRequest) (events : List OutboxEvent)
      → in_experiment x ≡ true
      → any (serves x) (grown x events) ≡ true
  grown-serves x events h = elim (Bool-cases (any (serves x) events)) [
    | inl g ↦ any-grown (serves x) x events g
    | inr g ↦ rw h (
        rw g (
          any-append_new (serves x) events (requested_event c (length events) x)
            (serves-requested_event c (length events) x)))
  ]

  served :
      (x : ChangeRequest) (xs : List ChangeRequest) (events : List OutboxEvent)
      → lacks_event (ensured c xs (grown x events)) x ≡ false
  served x xs events = elim (Bool-cases (in_experiment x)) [
    | inr h ↦ lacks_event-idle (ensured c xs (grown x events)) x h
    | inl h ↦
        lacks_event-served (ensured c xs (grown x events)) x
          (any-ensured (serves x) xs (grown x events) (grown-serves x events h))
  ]

  ensured-lacks_event :
      (xs : List ChangeRequest) (events : List OutboxEvent)
      → any (lacks_event (ensured c xs events)) xs ≡ false
  unfolding any ensured
  ensured-lacks_event [] events = refl
  ensured-lacks_event (x ∷ xs) events =
      rw (served x xs events) (ensured-lacks_event xs (grown x events))

-- After `EnsureExperimentOutbox` has succeeded, no change that is queued for or in an experiment is
-- without an event of its own that is neither completed nor dead, and the changes are as they were.
pub ensure_experiment_outbox-lacks_event :
    (c : Call) (s t : State)
    → ensure_experiment_outbox c s ≡ (t, ok tt)
    → (any (lacks_event t.outbox) t.changes ≡ false) × (t.changes ≡ s.changes)
unfolding ensure_experiment_outbox
ensure_experiment_outbox-lacks_event c s t h =
    elim (Bool-cases (any (lacks_event s.outbox) s.changes)) [
      | inl g ↦
          let (te, _) =
            save_locked-ok c.saving (record s { outbox = ensured c s.changes s.outbox }) t
              (λ r. some r) tt tt (rw g at h) in
          rw te (ensured-lacks_event c s.changes s.outbox, refl)
      | inr g ↦
          let same : s ≡ t = ap (λ (p : State × Result (Unit {0})). p.0) (rw g at h) in
          subst
            (λ (u : State).
              (any (lacks_event u.outbox) u.changes ≡ false) × (u.changes ≡ s.changes))
            same (g, refl)
    ]
