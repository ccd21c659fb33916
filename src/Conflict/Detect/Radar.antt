-- ===== src/Conflict/Detect/Radar.antt =====
-- The radar of internal/conflict/detector.go.
use changeguard.Prelude.{
  Has, insert_by, sort_by, ℕ, ◌≤◌, ◌≡◌, refl, ap, Bool, true, false, List, [], ◌∷◌, ◌++◌, nat_eq,
  filter, arith, ◌≢◌, Bool-cases, Option-cases, inl, inr,
}
use changeguard.Model.Status.{Time, check_failed, rejected, completed}
use changeguard.Conflict.{Application, Planned, Extract, ChangeConflict}
use changeguard.Conflict.Detect.{
  with_others, pairs, conflict_of, planned_lt, conflict_lt, in_window, active_changes,
  count_severity, is_low, start_of, end_of, detect, ConflictRadar,
}
use changeguard.Conflict.Detect.Complete.{Precedes, Has-sort_by_back, Has-filter_back, Precedes-Has}
use changeguard.Conflict.Detect.Score.{IsConflict, conflict_of-IsConflict}

abbrev pub All : {A : Type 0} → (A → Type 0) → List A → Type 0
All p [] = Unit
All p (x ∷ xs) = p x × All p xs

module _ {A : Type 0} (p : A → Type 0) where
  All-insert_by :
      (less : A → A → Bool) (a : A) (xs : List A) → p a → All p xs → All p (insert_by less a xs)
  unfolding insert_by
  All-insert_by less a [] h hs = (h, tt)
  All-insert_by less a (x ∷ xs) h (hx, hs) = elim (Bool-cases (less x a)) [
    | inl b ↦ rw b (hx, All-insert_by less a xs h hs)
    | inr b ↦ rw b (h, (hx, hs))
  ]

  All-sort_by : (less : A → A → Bool) (xs : List A) → All p xs → All p (sort_by less xs)
  unfolding sort_by
  All-sort_by less [] h = tt
  All-sort_by less (x ∷ xs) (hx, hs) =
      All-insert_by less x (sort_by less xs) hx (All-sort_by less xs hs)

  All-append : (xs ys : List A) → All p xs → All p ys → All p (xs ++ ys)
  All-append [] ys h g = g
  All-append (x ∷ xs) ys (hx, hs) g = (hx, All-append xs ys hs g)

  All-map : (q : A → Type 0) (xs : List A) → ((x : A) → p x → q x) → All p xs → All q xs
  All-map q [] f h = tt
  All-map q (x ∷ xs) f (hx, hs) = (f x hx, All-map q xs f hs)

-- a change that `Detect` looks at: planned, for a time of the window, and not settled
pub record IsPending (from to : Time) (y : Planned) : Type 0 where
  pub planned : y.planned_at ≢ 0
  pub since : from ≤ y.planned_at
  pub until : y.planned_at ≤ to
  pub not_failed : y.status ≢ check_failed
  pub not_rejected : y.status ≢ rejected
  pub not_completed : y.status ≢ completed

in_window-IsPending :
    (from to : Time) (y : Planned) → in_window from to y ≡ true → IsPending from to y
in_window-IsPending from to y h = record {
  planned = (λ e. absurd (ground (arith, h, e)));
  since = ground (arith, h);
  until = ground (arith, h);
  not_failed = (λ e. absurd (ground (arith, h, e)));
  not_rejected = (λ e. absurd (ground (arith, h, e)));
  not_completed = (λ e. absurd (ground (arith, h, e)));
}

-- a conflict of two of the changes, at different places, that the radar looks at
pub record IsReported (from to : Time) (changes : List Planned) (c : ChangeConflict) : Type 0 where
  pub left : Planned
  pub right : Planned
  pub given : Has left changes × Has right changes
  pub apart : Precedes left right (active_changes from to changes)
  pub left_pending : IsPending from to left
  pub right_pending : IsPending from to right
  pub found : IsConflict left right c

module _ (x : Extract) (apps : List Application) where
  abbrev MeetsOne : Planned → List Planned → ChangeConflict → Type 0
  MeetsOne left others c = (right : Planned) × Has right others × IsConflict left right c

  with_others-MeetsOne :
      (left : Planned) (others : List Planned)
      → All (MeetsOne left others) (with_others x apps left others)
  unfolding with_others
  with_others-MeetsOne left [] = tt
  with_others-MeetsOne left (y ∷ others) =
      let rest : All (MeetsOne left (y ∷ others)) (with_others x apps left others) =
        All-map (MeetsOne left others) (MeetsOne left (y ∷ others)) (with_others x apps left others)
          (λ c (right, h, m). (right, inr h, m)) (with_others-MeetsOne left others) in
      elim (Option-cases (conflict_of x apps left y)) [
        | inl clear ↦ rw clear rest
        | inr (c, met) ↦ rw met ((y, inl refl, conflict_of-IsConflict x apps left y c met), rest)
      ]

  abbrev AreMet : List Planned → ChangeConflict → Type 0
  AreMet active c =
      (left : Planned) × (right : Planned) × Precedes left right active × IsConflict left right c

  pairs-AreMet : (active : List Planned) → All (AreMet active) (pairs x apps active)
  unfolding pairs
  pairs-AreMet [] = tt
  pairs-AreMet (y ∷ active) =
      All-append (AreMet (y ∷ active)) (with_others x apps y active) (pairs x apps active)
        (All-map (MeetsOne y active) (AreMet (y ∷ active)) (with_others x apps y active)
          (λ c (right, h, m). (y, right, inl (refl, h), m)) (with_others-MeetsOne y active))
        (All-map (AreMet active) (AreMet (y ∷ active)) (pairs x apps active)
          (λ c (left, right, h, m). (left, right, inr h, m)) (pairs-AreMet active))

  module _ (from to : Time) (changes : List Planned) where
    looked_at :
        (y : Planned) → Has y (active_changes from to changes) → IsPending from to y × Has y changes
    unfolding active_changes
    looked_at y h =
        let (inside, there) =
          Has-filter_back (in_window from to) y changes
            (Has-sort_by_back planned_lt y (filter (in_window from to) changes) h) in
        (in_window-IsPending from to y inside, there)

    AreMet-IsReported :
        (c : ChangeConflict)
        → AreMet (active_changes from to changes) c
        → IsReported from to changes c
    AreMet-IsReported c (left, right, h, m) =
        let (hl, hr) = Precedes-Has left right (active_changes from to changes) h in
        let (left_pending, left_given) = looked_at left hl in
        let (right_pending, right_given) = looked_at right hr in
        record {
          left = left;
          right = right;
          given = (left_given, right_given);
          apart = h;
          left_pending = left_pending;
          right_pending = right_pending;
          found = m;
        }

    found-IsReported :
        All (IsReported from to changes) (pairs x apps (active_changes from to changes))
    found-IsReported =
        let active = active_changes from to changes in
        All-map (AreMet active) (IsReported from to changes) (pairs x apps active) AreMet-IsReported
          (pairs-AreMet active)

not_low :
    (from to : Time) (changes : List Planned) (c : ChangeConflict)
    → IsReported from to changes c
    → is_low c.severity ≡ false
not_low from to changes c r = elim r.found.graded [
  | inl (h, _) ↦ ap is_low h
  | inr (h, _) ↦ ap is_low h
]

no_low :
    (from to : Time) (changes : List Planned) (cs : List ChangeConflict)
    → All (IsReported from to changes) cs
    → count_severity is_low cs ≡ 0
unfolding count_severity filter
no_low from to changes [] h = refl
no_low from to changes (c ∷ cs) (hc, hs) =
    rw (not_low from to changes c hc) (no_low from to changes cs hs)

-- the highest scores first
abbrev pub Descending : List ChangeConflict → Type 0
Descending [] = Unit
Descending (c ∷ cs) = All (λ d. d.score ≤ c.score) cs × Descending cs

below-All :
    (n m : ℕ) (cs : List ChangeConflict)
    → n ≤ m
    → All (λ d. d.score ≤ n) cs
    → All (λ d. d.score ≤ m) cs
below-All n m [] l h = tt
below-All n m (c ∷ cs) l (hc, hs) = (omega (arith, hc, l), below-All n m cs l hs)

conflict_lt-score : (a b : ChangeConflict) → conflict_lt a b ≡ true → b.score ≤ a.score
conflict_lt-score a b h = elim (Bool-cases (nat_eq a.score b.score)) [
  | inl e ↦ ground arith
  | inr e ↦ ground arith
]

conflict_lt-other : (a b : ChangeConflict) → conflict_lt a b ≡ false → a.score ≤ b.score
conflict_lt-other a b h = elim (Bool-cases (nat_eq a.score b.score)) [
  | inl e ↦ ground arith
  | inr e ↦ ground arith
]

insert_by-Descending :
    (a : ChangeConflict) (cs : List ChangeConflict)
    → Descending cs
    → Descending (insert_by conflict_lt a cs)
unfolding insert_by
insert_by-Descending a [] h = (tt, tt)
insert_by-Descending a (c ∷ cs) (hc, hs) = elim (Bool-cases (conflict_lt c a)) [
  | inl b ↦ rw b (
    All-insert_by (λ d. d.score ≤ c.score) conflict_lt a cs (conflict_lt-score c a b) hc,
    insert_by-Descending a cs hs,
  )
  | inr b ↦
      let l = conflict_lt-other c a b in rw b ((l, below-All c.score a.score cs l hc), (hc, hs))
]

sort_by-Descending : (cs : List ChangeConflict) → Descending (sort_by conflict_lt cs)
unfolding sort_by
sort_by-Descending [] = tt
sort_by-Descending (c ∷ cs) =
    insert_by-Descending c (sort_by conflict_lt cs) (sort_by-Descending cs)

pub record IsRadar (from to : Time) (changes : List Planned) (r : ConflictRadar) : Type 0 where
  pub reported : All (IsReported from to changes) r.conflicts
  pub descending : Descending r.conflicts
  pub high_only : count_severity is_low r.conflicts ≡ 0

-- Every conflict that `Detect` reports names two of the given changes, which are planned within its
-- window and neither failed their check nor were rejected or completed; the conflict is in the one
-- environment of both and over a common time of both windows, with a score between 65 and 100; the
-- conflicts stand with the highest score first, and none has a low severity.
pub detect-IsRadar :
    (x : Extract) (now : Time) (changes : List Planned) (apps : List Application) (from to : Time)
    → IsRadar
        (start_of now from)
        (end_of (start_of now from) to)
        changes
        (detect x now changes apps from to)
unfolding detect
detect-IsRadar x now changes apps from to =
    let start = start_of now from in
    let end = end_of start to in
    let found = pairs x apps (active_changes start end changes) in
    let all =
      All-sort_by (IsReported start end changes) conflict_lt found
        (found-IsReported x apps start end changes) in
    record {
      reported = all;
      descending = sort_by-Descending found;
      high_only = no_low start end changes (sort_by conflict_lt found) all;
    }
