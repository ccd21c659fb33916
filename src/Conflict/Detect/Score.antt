-- ===== src/Conflict/Detect/Score.antt =====
-- The score of a conflict in internal/conflict/detector.go.
use changeguard.Prelude.{
  insert_by, sort_by, ℕ, suc, ◌+◌, ◌*◌, ◌-◌, ◌/◌, ◌≤◌, ◌<◌, String, ◌≡◌, refl, ap, ◌∙◌, subst, Bool,
  true, false, some, List, [], ◌∷◌, ◌++◌, map, ◌==◌, if◌then◌else◌, ltb, leb, nat_eq, length, arith,
  Bool-cases, trim_space, equal_fold, ◌⊎◌, inl, inr,
}
use changeguard.Model.Status.{Time, minute, medium, high, is_high}
use changeguard.Conflict.{
  Application, Planned, Extract, Resource, ConflictReason, ChangeConflict, window_minutes,
  window_end, summary, overlap, severity_for, same_environment, resource_label,
}
use changeguard.Conflict.Detect.{
  same_application, shared, shared_reason, dependency_reason, dependency_relation, resources,
  max_nat, weigh, reason_lt, reasons_for, raised, build, conflict_of,
}

-- what a conflict says of its two changes
pub record IsConflict (left right : Planned) (c : ChangeConflict) : Type 0 where
  pub shows : (c.change_a ≡ summary left) × (c.change_b ≡ summary right)
  pub environment : equal_fold (trim_space left.environment) (trim_space right.environment) ≡ true
  pub starts : (left.planned_at ≤ c.overlap_start) × (right.planned_at ≤ c.overlap_start)
  pub overlaps : c.overlap_start < c.overlap_end
  pub ends : (c.overlap_end ≤ window_end left) × (c.overlap_end ≤ window_end right)
  pub short : c.overlap_minutes ≤ 480
  pub score_range : (65 ≤ c.score) × (c.score ≤ 100)
  pub graded : ((c.severity ≡ high) × (80 ≤ c.score)) ⊎ ((c.severity ≡ medium) × (c.score < 80))

length-insert_by :
    {A : Type 0} (less : A → A → Bool) (a : A) (xs : List A)
    → length (insert_by less a xs) ≡ suc (length xs)
unfolding insert_by
length-insert_by less a [] = refl
length-insert_by less a (x ∷ xs) = elim (Bool-cases (less x a)) [
  | inl h ↦ rw h (ap suc (length-insert_by less a xs))
  | inr h ↦ rw h refl
]

length-sort_by :
    {A : Type 0} (less : A → A → Bool) (xs : List A) → length (sort_by less xs) ≡ length xs
unfolding sort_by
length-sort_by less [] = refl
length-sort_by less (x ∷ xs) =
    length-insert_by less x (sort_by less xs) ∙ ap suc (length-sort_by less xs)

label_weight : (kind : String) → (70 ≤ (resource_label kind).1) × ((resource_label kind).1 ≤ 88)
label_weight kind = elim (Bool-cases (kind == "DATABASE")) [
  | inl h ↦ rw h (ground arith, ground arith)
  | inr h ↦ elim (Bool-cases (kind == "KUBERNETES")) [
    | inl g ↦ rw (h, g) (ground arith, ground arith)
    | inr g ↦ elim (Bool-cases (kind == "CONFIG")) [
      | inl f ↦ rw (h, g, f) (ground arith, ground arith)
      | inr f ↦ rw (h, g, f) (ground arith, ground arith)
    ]
  ]
]

-- the weight of shared things keeps a score below 90, and lifts it to 70 if there are any
weigh-bounds :
    (rs : List Resource) (score : ℕ) → score ≤ 90 → (score ≤ weigh rs score) × (weigh rs score ≤ 90)
weigh-bounds [] score h = (ground arith, h)
weigh-bounds (r ∷ rs) score h =
    let (above, below) =
      weigh-bounds rs (max_nat score (resource_label r.kind).1)
        (ground (arith, label_weight r.kind)) in
    (ground (arith, above), below)

weigh-filled :
    (r : Resource) (rs : List Resource) (score : ℕ) → score ≤ 90 → 70 ≤ weigh (r ∷ rs) score
weigh-filled r rs score h =
    let (least, most) = label_weight r.kind in
    let (above, _) = weigh-bounds rs (max_nat score (resource_label r.kind).1) (ground arith) in
    ground (arith, above)

abbrev first_score : List ConflictReason → ℕ
first_score same = if nat_eq (length same) 0 then 0 else max_nat 0 90

abbrev score_of : List ConflictReason → List Resource → List ConflictReason → ℕ
score_of same both dependency =
    if nat_eq (length dependency) 0
    then weigh both (first_score same)
    else max_nat (weigh both (first_score same)) 65

score_of-bounds :
    (same : List ConflictReason) (both : List Resource) (dependency : List ConflictReason)
    → nat_eq (length (same ++ map shared_reason both ++ dependency)) 0 ≡ false
    → (65 ≤ score_of same both dependency) × (score_of same both dependency ≤ 90)
score_of-bounds [] [] [] h = absurd (ground arith)
score_of-bounds [] [] (d ∷ ds) h = (ground arith, ground arith)
score_of-bounds [] (r ∷ rs) dependency h =
    let filled = weigh-filled r rs 0 (ground arith) in
    let (_, below) = weigh-bounds (r ∷ rs) 0 (ground arith) in
    (ground (arith, filled), ground (arith, below))
score_of-bounds (s ∷ ss) both dependency h =
    let (above, below) = weigh-bounds both 90 (ground arith) in
    (ground (arith, above), ground (arith, below))

reasons_for-bounds :
    (x : Extract) (left right : Planned) (apps : List Application)
    → nat_eq (length (reasons_for x left right apps).0) 0 ≡ false
    → (65 ≤ (reasons_for x left right apps).1) × ((reasons_for x left right apps).1 ≤ 90)
unfolding reasons_for
reasons_for-bounds x left right apps h =
    let same = same_application left right in
    let both = shared (resources x left) (resources x right) in
    let dependency =
      dependency_reason (dependency_relation left.application_id right.application_id apps) in
    score_of-bounds same both dependency (
      subst (λ n. nat_eq n 0 ≡ false)
        (length-sort_by reason_lt (same ++ map shared_reason both ++ dependency)) h)

raised-bounds :
    (left right : Planned) (start end : Time) (score : ℕ)
    → 65 ≤ score
    → score ≤ 90
    → (65 ≤ raised left right start end score) × (raised left right start end score ≤ 100)
raised-bounds left right start end score h g =
    lift (is_high left.risk) (is_high right.risk) (leb (60 * minute) (end - start)) score h
  where
    lift :
        (a b d : Bool) (n : ℕ)
        → 65 ≤ n
        → let p = if a then n + 5 else n in
          let q = if b then p + 5 else p in
          let r = if d then q + 5 else q in
          (65 ≤ (if ltb 100 r then 100 else r)) × ((if ltb 100 r then 100 else r) ≤ 100)
    lift a b d n h = (ground arith, ground arith)

severity_for-graded :
    (n : ℕ) → 65 ≤ n → ((severity_for n ≡ high) × (80 ≤ n)) ⊎ ((severity_for n ≡ medium) × (n < 80))
unfolding severity_for
severity_for-graded n h = elim (Bool-cases (leb 80 n)) [
  | inl b ↦ inl (rw b refl, ground arith)
  | inr b ↦ inr (let c : leb 60 n ≡ true = ground arith in rw (b, c) refl, ground arith)
]

window_minutes-bound : (n : ℕ) → window_minutes n ≤ 480
window_minutes-bound n = ground arith

short_span :
    (planned start end n : ℕ)
    → planned ≤ start
    → end ≤ planned + n * minute
    → n ≤ 480
    → (end - start) / minute ≤ 480
short_span planned start end n a b c = omega (arith, a, b, c)

build-IsConflict :
    (left right : Planned) (reasons : List ConflictReason) (score : ℕ)
    → same_environment left.environment right.environment ≡ true
    → ltb (overlap left right).0 (overlap left right).1 ≡ true
    → 65 ≤ score
    → score ≤ 90
    → IsConflict left right (build left right reasons score)
unfolding same_environment
build-IsConflict left right reasons score env meets h g =
    let (least, most) =
      raised-bounds left right (overlap left right).0 (overlap left right).1 score h g in
    let start_left : left.planned_at ≤ (overlap left right).0 = ground arith in
    let end_left : (overlap left right).1 ≤ window_end left = ground arith in
    record {
      shows = (refl, refl);
      environment = env;
      starts = (start_left, ground arith);
      overlaps = ground arith;
      ends = (end_left, ground arith);
      short =
          short_span left.planned_at (overlap left right).0 (overlap left right).1
            (window_minutes left.observation_minutes) start_left end_left
            (window_minutes-bound left.observation_minutes);
      score_range = (least, most);
      graded =
          severity_for-graded
            (raised left right (overlap left right).0 (overlap left right).1 score) least;
    }

given : (a b : ChangeConflict) → some a ≡ some b → a ≡ b
given a b h = ground arith

-- A conflict that `Detect` makes of two changes is in one environment and over a time that lies in both
-- changes' windows, is not empty and takes at most 480 minutes; its score lies between 65 and 100, and
-- its severity is high from a score of 80 on and medium below, never low.
pub conflict_of-IsConflict :
    (x : Extract) (apps : List Application) (left right : Planned) (c : ChangeConflict)
    → conflict_of x apps left right ≡ some c
    → IsConflict left right c
unfolding conflict_of
conflict_of-IsConflict x apps left right c h =
    elim (Bool-cases (same_environment left.environment right.environment)) [
      | inr other ↦ absurd (ground (arith, rw (other, conflict_of) at h))
      | inl env ↦ elim (Bool-cases (ltb (overlap left right).0 (overlap left right).1)) [
        | inr apart ↦ absurd (ground (arith, rw (env, apart, conflict_of) at h))
        | inl meets ↦ elim (Bool-cases (nat_eq (length (reasons_for x left right apps).0) 0)) [
          | inl bare ↦ absurd (ground (arith, rw (env, meets, bare, conflict_of) at h))
          | inr filled ↦
              let (least, most) = reasons_for-bounds x left right apps filled in
              let made =
                given
                  (build left right (reasons_for x left right apps).0
                    (reasons_for x left right apps).1)
                  c (rw (env, meets, filled, conflict_of) at h) in
              subst (λ z. IsConflict left right z) made
                (build-IsConflict left right (reasons_for x left right apps).0
                  (reasons_for x left right apps).1 env meets least most)
        ]
      ]
    ]
