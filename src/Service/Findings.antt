-- ===== src/Service/Findings.antt =====
-- internal/service/service.go: findings, and which of them block a release.
use changeguard.Prelude.{
  String, Bool, true, false, not, ◌&&◌, ◌||◌, List, [], ◌∷◌, ◌==◌, any, if◌then◌else◌, ◌≡◌, refl,
  Bool-cases, inl, inr,
}
use changeguard.Model.Status.{verified, is_finding}
use changeguard.Model.{Finding}

abbrev legacy_codes : List String
legacy_codes =
    "EMPTY_SQL" ∷ "MISSING_ROLLBACK" ∷ "UPDATE_WITHOUT_WHERE" ∷ "DELETE_WITHOUT_WHERE"
    ∷ "DROP_TABLE" ∷ "TRUNCATE" ∷ "ADD_NOT_NULL_WITHOUT_DEFAULT" ∷ "FK_WITHOUT_NOT_VALID"
    ∷ "HEAVY_DDL_REWRITE" ∷ []

-- the map of codes that block whatever the finding says
unfoldable pub legacy_blocking : String → Bool
unfolding any
legacy_blocking code = any (λ c. code == c) legacy_codes

unfoldable pub is_blocking_finding : Finding → Bool
unfolding legacy_blocking
is_blocking_finding f = f.blocking || legacy_blocking f.code

unfoldable pub open_blocker : Finding → Bool
unfolding is_blocking_finding
open_blocker f = is_blocking_finding f && not (is_finding f.status verified)

unfoldable pub has_blocking_finding : List Finding → Bool
unfolding any open_blocker
has_blocking_finding fs = any open_blocker fs

-- the loop of `allBlockingFindingsVerified`
unfoldable pub all_verified_from : Bool → List Finding → Bool
unfolding is_blocking_finding
all_verified_from has_blocking [] = has_blocking
all_verified_from has_blocking (f ∷ fs) =
    let skipped = all_verified_from has_blocking fs in
    let rest = all_verified_from true fs in
    if not (is_blocking_finding f)
    then skipped
    else if not (is_finding f.status verified)
    then false
    else rest

unfoldable pub all_blocking_findings_verified : List Finding → Bool
unfolding all_verified_from
all_blocking_findings_verified fs = all_verified_from false fs

or-true : (b : Bool) → (b || true) ≡ true
or-true true = refl
or-true false = refl

all_verified_from-eq :
    (b : Bool) (fs : List Finding)
    → all_verified_from b fs ≡ (not (any open_blocker fs) && (b || any is_blocking_finding fs))
unfolding all_verified_from any open_blocker
all_verified_from-eq true [] = refl
all_verified_from-eq false [] = refl
all_verified_from-eq b (f ∷ fs) = elim (Bool-cases (is_blocking_finding f)) [
  | inr n ↦ rw n (all_verified_from-eq b fs)
  | inl y ↦ elim (Bool-cases (is_finding f.status verified)) [
    | inl v ↦ rw y (rw v (rw (or-true b) (all_verified_from-eq true fs)))
    | inr v ↦ rw y (rw v refl)
  ]
]

-- The loop with its early return answers that some finding blocks and that no blocking finding is
-- unverified.
pub all_blocking_findings_verified-eq :
    (fs : List Finding)
    → all_blocking_findings_verified fs
      ≡ (not (has_blocking_finding fs) && any is_blocking_finding fs)
unfolding all_blocking_findings_verified has_blocking_finding
all_blocking_findings_verified-eq fs = all_verified_from-eq false fs
