-- ===== src/Conflict/Detect.antt =====
-- internal/conflict/detector.go: the reasons of a conflict, its score, and the radar.
pub mod Score
pub mod Radar
pub mod Complete
use Prim.Native.Char.{Char, code}
use Prim.Native.String.{◌++◌ as text_append}
use changeguard.Prelude.{
  ℕ, suc, ◌+◌, ◌*◌, ◌-◌, ◌/◌, String, Bool, true, false, not, ◌&&◌, ◌||◌, Option, none, some, List,
  [], ◌∷◌, ◌++◌, map, ◌==◌, if◌then◌else◌, trim_space, trim_left, trim_right, upper, lower, ltb,
  leb, nat_eq, length, any, filter, sort_by, find_last, codes_prefix, map_codes,
}
use changeguard.Model.Status.{Time, minute, RiskLevel, unknown, low, medium, high, is_high}
use changeguard.Conflict.{
  ReleaseArtifact, Application, Planned, Extract, Resource, ConflictReason, ConflictChangeSummary,
  ChangeConflict, terminal, window_end, summary, overlap, severity_for, text_lt, conflict_id,
  same_environment, resource_label, contains, first_non_empty,
}

-- `strings.Trim(s, "(),;")`
abbrev in_cutset : Char → Bool
in_cutset c = nat_eq (code c) 40 || nat_eq (code c) 41 || nat_eq (code c) 44 || nat_eq (code c) 59

unfoldable trim_cutset_left : String → String
trim_cutset_left String.[] = String.[]
trim_cutset_left (String.◌∷◌ c s) =
    let rest = trim_cutset_left s in if in_cutset c then rest else String.◌∷◌ c s

abbrev cutset_cons : Char → String → String
cutset_cons c String.[] = if in_cutset c then String.[] else String.◌∷◌ c String.[]
cutset_cons c (String.◌∷◌ d s) = String.◌∷◌ c (String.◌∷◌ d s)

unfoldable trim_cutset_right : String → String
trim_cutset_right String.[] = String.[]
trim_cutset_right (String.◌∷◌ c s) = cutset_cons c (trim_cutset_right s)

unfoldable pub normalize_resource : String → String
unfolding trim_space lower trim_cutset_left trim_cutset_right
normalize_resource value = lower (trim_cutset_right (trim_cutset_left (trim_space value)))

abbrev has_path_char : String → Bool
has_path_char String.[] = false
has_path_char (String.◌∷◌ c s) =
    nat_eq (code c) 47 || nat_eq (code c) 92 || nat_eq (code c) 46 || has_path_char s

unfoldable pub looks_like_path : String → Bool
unfolding trim_space
looks_like_path value = has_path_char (trim_space value)

abbrev key_of : Resource → String
key_of r = text_append r.kind (text_append ":" r.name)

-- the map's entry is written again, with what it has
unfoldable pub add_resource : String → String → List Resource → List Resource
unfolding normalize_resource any
add_resource kind name items =
    let r : Resource = record { kind = kind; name = normalize_resource name } in
    if r.name == "" || any (λ i. key_of i == key_of r) items then items else items ++ r ∷ []

unfoldable add_resources : String → List String → List Resource → List Resource
unfolding add_resource
add_resources kind [] items = items
add_resources kind (name ∷ names) items = add_resources kind names (add_resource kind name items)

unfoldable artifact_resources : Extract → ReleaseArtifact → List Resource → List Resource
unfolding add_resources looks_like_path first_non_empty upper
artifact_resources x a items =
    let kind = upper a.kind in
    if kind == "DATABASE"
    then add_resources "DATABASE" (x.sql_tables a.content) items
    else if kind == "CONFIG"
    then add_resources "CONFIG"
        (map (λ key. text_append (first_non_empty (a.source ∷ a.name ∷ [])) (text_append ":" key))
          (x.config_keys a.content))
        items
    else if kind == "KUBERNETES"
    then add_resources "KUBERNETES" (x.kubernetes_objects a.content) items
    else if looks_like_path a.source
    then add_resource "ARTIFACT" a.source items
    else items

unfoldable artifacts_resources : Extract → List ReleaseArtifact → List Resource → List Resource
unfolding artifact_resources
artifacts_resources x [] items = items
artifacts_resources x (a ∷ rest) items = artifacts_resources x rest (artifact_resources x a items)

unfoldable pub resources : Extract → Planned → List Resource
unfolding artifacts_resources
resources x change =
    artifacts_resources x change.artifacts (add_resources "DATABASE" (x.sql_tables change.sql) [])

-- the map holds the last application of an identifier
abbrev app_by_id : List Application → String → Option Application
app_by_id apps id = find_last (λ (a : Application). a.id == id) apps

abbrev related : String → String → Option Application → Option Application → Option String
related left_id right_id (some left) (some right) =
    if contains left.dependencies right_id
    then some right.name
    else if contains right.dependencies left_id
    then some left.name
    else none
related left_id right_id left right = none

unfoldable pub dependency_relation : String → String → List Application → Option String
unfolding find_last contains
dependency_relation left_id right_id apps =
    related left_id right_id (app_by_id apps left_id) (app_by_id apps right_id)

abbrev same_application : Planned → Planned → List ConflictReason
same_application left right =
    if not (left.application_id == "") && left.application_id == right.application_id
    then record { kind = "SAME_APPLICATION"; label = "同一应用并发发布"; resource = left.application_name }
      ∷ []
    else []

abbrev shared : List Resource → List Resource → List Resource
shared left right = filter (λ r. any (λ i. key_of i == key_of r) right) left

abbrev shared_reason : Resource → ConflictReason
shared_reason r = record {
  kind = text_append "SHARED_" r.kind;
  label = (resource_label r.kind).0;
  resource = r.name;
}

abbrev dependency_reason : Option String → List ConflictReason
dependency_reason none = []
dependency_reason (some name) =
    record { kind = "APPLICATION_DEPENDENCY"; label = "上下游依赖同时变更"; resource = name } ∷ []

abbrev pub max_nat : ℕ → ℕ → ℕ
max_nat left right = if ltb right left then left else right

abbrev pub weigh : List Resource → ℕ → ℕ
weigh [] score = score
weigh (r ∷ rest) score = weigh rest (max_nat score (resource_label r.kind).1)

abbrev reason_lt : ConflictReason → ConflictReason → Bool
reason_lt a b = if a.kind == b.kind then text_lt a.resource b.resource else text_lt a.kind b.kind

unfoldable pub reasons_for :
    Extract → Planned → Planned → List Application → List ConflictReason × ℕ
unfolding resources dependency_relation sort_by any filter
reasons_for x left right apps =
    let same = same_application left right in
    let both = shared (resources x left) (resources x right) in
    let dependency =
      dependency_reason (dependency_relation left.application_id right.application_id apps) in
    let first = if nat_eq (length same) 0 then 0 else max_nat 0 90 in
    let second_score = weigh both first in
    let score = if nat_eq (length dependency) 0 then second_score else max_nat second_score 65 in
    (sort_by reason_lt (same ++ map shared_reason both ++ dependency), score)

abbrev hour : Time
hour = 60 * minute

abbrev raised : Planned → Planned → Time → Time → ℕ → ℕ
raised left right start end score =
    let a = if is_high left.risk then score + 5 else score in
    let b = if is_high right.risk then a + 5 else a in
    let c = if leb hour (end - start) then b + 5 else b in if ltb 100 c then 100 else c

unfoldable pub has_prefix : String → String → Bool
has_prefix s p = codes_prefix (map_codes (λ c. c) s) (map_codes (λ c. c) p)

abbrev pub is_shared_kind : ConflictReason → Bool
is_shared_kind r = r.kind == "SAME_APPLICATION" || has_prefix r.kind "SHARED_"

unfoldable pub recommendation : List ConflictReason → String
unfolding any has_prefix
recommendation reasons =
    if any is_shared_kind reasons
    then "建议将两个变更错峰，前一变更完成并观察稳定后再执行后一变更。"
    else "建议先发布上游并完成健康检查，再放行下游变更。"

abbrev pub build : Planned → Planned → List ConflictReason → ℕ → ChangeConflict
build left right reasons score =
    let (start, end, _) = overlap left right in
    let total = raised left right start end score in
    record {
      id = conflict_id left.id right.id;
      severity = severity_for total;
      score = total;
      change_a = summary left;
      change_b = summary right;
      overlap_start = start;
      overlap_end = end;
      overlap_minutes = (end - start) / minute;
      reasons = reasons;
      recommendation = recommendation reasons;
    }

-- one pair of the two loops
unfoldable pub conflict_of : Extract → List Application → Planned → Planned → Option ChangeConflict
unfolding reasons_for same_environment conflict_id severity_for recommendation
conflict_of x apps left right =
    let (start, end, ok) = overlap left right in
    let (reasons, score) = reasons_for x left right apps in
    if not (same_environment left.environment right.environment)
    then none
    else if not ok
    then none
    else if nat_eq (length reasons) 0
    then none
    else some (build left right reasons score)

abbrev of_pair : Option ChangeConflict → List ChangeConflict → List ChangeConflict
of_pair none rest = rest
of_pair (some c) rest = c ∷ rest

unfoldable with_others : Extract → List Application → Planned → List Planned → List ChangeConflict
unfolding conflict_of
with_others x apps left [] = []
with_others x apps left (right ∷ rest) =
    of_pair (conflict_of x apps left right) (with_others x apps left rest)

-- the two loops
unfoldable pub pairs : Extract → List Application → List Planned → List ChangeConflict
unfolding with_others
pairs x apps [] = []
pairs x apps (left ∷ rest) = with_others x apps left rest ++ pairs x apps rest

abbrev pub planned_lt : Planned → Planned → Bool
planned_lt a b =
    if nat_eq a.planned_at b.planned_at then text_lt a.id b.id else ltb a.planned_at b.planned_at

abbrev pub conflict_lt : ChangeConflict → ChangeConflict → Bool
conflict_lt a b =
    if nat_eq a.score b.score then ltb a.overlap_start b.overlap_start else ltb b.score a.score

abbrev pub in_window : Time → Time → Planned → Bool
in_window from to x =
    not (terminal x.status || nat_eq x.planned_at 0 || ltb x.planned_at from || ltb to x.planned_at)

unfoldable pub active_changes : Time → Time → List Planned → List Planned
unfolding filter sort_by
active_changes from to changes = sort_by planned_lt (filter (in_window from to) changes)

-- the distinct elements of a list
unfoldable add_distinct : String → List String → List String
unfolding any
add_distinct s seen = if any (λ t. t == s) seen then seen else s ∷ seen

unfoldable pub affected : List ChangeConflict → List String
unfolding add_distinct
affected [] = []
affected (c ∷ rest) =
    add_distinct c.change_a.application_id (add_distinct c.change_b.application_id (affected rest))

unfoldable pub count_severity : (RiskLevel → Bool) → List ChangeConflict → ℕ
unfolding filter
count_severity p conflicts = length (filter (λ (c : ChangeConflict). p c.severity) conflicts)

abbrev is_medium : RiskLevel → Bool
is_medium medium = true
is_medium unknown = false
is_medium low = false
is_medium high = false

abbrev pub is_low : RiskLevel → Bool
is_low low = true
is_low unknown = false
is_low medium = false
is_low high = false

pub record ConflictRadar : Type 0 where
  pub generated_at : Time
  pub window_start : Time
  pub window_end_at : Time
  pub planned_changes : ℕ
  pub conflict_count : ℕ
  pub high_risk_count : ℕ
  pub affected_applications : ℕ
  pub severity_distribution : List (RiskLevel × ℕ)
  pub changes : List ConflictChangeSummary
  pub conflicts : List ChangeConflict

abbrev day : Time
day = 24 * hour

abbrev pub start_of : Time → Time → Time
start_of now from = if nat_eq from 0 then now - day else from

abbrev pub end_of : Time → Time → Time
end_of from to = if nat_eq to 0 || not (ltb from to) then from + 8 * day else to

-- `Detect`
unfoldable pub detect :
    Extract → Time → List Planned → List Application → Time → Time → ConflictRadar
unfolding active_changes pairs sort_by affected count_severity
detect x now changes apps from to =
    let start = start_of now from in
    let end = end_of start to in
    let active = active_changes start end changes in
    let found = pairs x apps active in
    record {
      generated_at = now;
      window_start = start;
      window_end_at = end;
      planned_changes = length active;
      conflict_count = length (sort_by conflict_lt found);
      high_risk_count = count_severity is_high found;
      affected_applications = length (affected found);
      severity_distribution =
          (high, count_severity is_high found)
          ∷ (medium, count_severity is_medium found)
          ∷ (low, count_severity is_low found)
          ∷ [];
      changes = map summary active;
      conflicts = sort_by conflict_lt found;
    }
