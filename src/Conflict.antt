-- ===== src/Conflict.antt =====
-- internal/conflict/detector.go: the changes whose release windows overlap and that touch the same
-- things. What the regular expressions find in a text is an argument.

pub mod Detect
use Prim.Native.Char.{code}
use Prim.Native.String.{◌++◌ as text_append, compare}
use text.Mathlib.Text.{is_lt}
use changeguard.Prelude.{
  ℕ, ◌+◌, ◌*◌, ◌-◌, ◌/◌, String, Bool, true, false, not, ◌&&◌, ◌||◌, Option, none, some, List, [],
  ◌∷◌, ◌++◌, map, ◌==◌, if◌then◌else◌, trim_space, equal_fold, upper, lower, ltb, leb, nat_eq,
  length, any, filter, find_last,
}
use changeguard.Model.Status.{
  Time, minute, RiskLevel, low, medium, high, ChangeStatus, is_change, check_failed, rejected,
}

pub record ReleaseArtifact : Type 0 where
  pub kind : String
  pub name : String
  pub source : String
  pub content : String

pub record Application : Type 0 where
  pub id : String
  pub name : String
  pub dependencies : List String

-- what the detector reads of a change request
pub record Planned : Type 0 where
  pub id : String
  pub title : String
  pub application_id : String
  pub application_name : String
  pub environment : String
  pub status : ChangeStatus
  pub risk : RiskLevel
  pub planned_at : Time
  pub observation_minutes : ℕ
  pub sql : String
  pub artifacts : List ReleaseArtifact

-- `sqlTables`, `configKeys` and `kubernetesObjects`
pub record Extract : Type 0 where
  pub sql_tables : String → List String
  pub config_keys : String → List String
  pub kubernetes_objects : String → List String

pub record Resource : Type 0 where
  pub kind : String
  pub name : String

pub record ConflictReason : Type 0 where
  pub kind : String
  pub label : String
  pub resource : String

pub record ConflictChangeSummary : Type 0 where
  pub id : String
  pub title : String
  pub application_id : String
  pub application_name : String
  pub environment : String
  pub status : ChangeStatus
  pub risk : RiskLevel
  pub planned_at : Time
  pub window_end : Time

pub record ChangeConflict : Type 0 where
  pub id : String
  pub severity : RiskLevel
  pub score : ℕ
  pub change_a : ConflictChangeSummary
  pub change_b : ConflictChangeSummary
  pub overlap_start : Time
  pub overlap_end : Time
  pub overlap_minutes : ℕ
  pub reasons : List ConflictReason
  pub recommendation : String

abbrev pub terminal : ChangeStatus → Bool
terminal status =
    is_change status check_failed
    || is_change status rejected
    || is_change status ChangeStatus.completed

abbrev pub window_minutes : ℕ → ℕ
window_minutes minutes =
    let least = if ltb minutes 30 then 30 else minutes in if ltb 480 least then 480 else least

abbrev pub window_end : Planned → Time
window_end x = x.planned_at + window_minutes x.observation_minutes * minute

abbrev pub summary : Planned → ConflictChangeSummary
summary x = record {
  id = x.id;
  title = x.title;
  application_id = x.application_id;
  application_name = x.application_name;
  environment = x.environment;
  status = x.status;
  risk = x.risk;
  planned_at = x.planned_at;
  window_end = window_end x;
}

abbrev pub overlap : Planned → Planned → Time × Time × Bool
overlap left right =
    let start =
      if ltb left.planned_at right.planned_at then right.planned_at else left.planned_at in
    let end =
      if ltb (window_end right) (window_end left) then window_end right else window_end left in
    (start, end, ltb start end)

unfoldable pub severity_for : ℕ → RiskLevel
severity_for score = if leb 80 score then high else if leb 60 score then medium else low

abbrev pub text_lt : String → String → Bool
text_lt s t = is_lt (compare s t)

unfoldable pub conflict_id : String → String → String
conflict_id left right =
    if text_lt right left
    then text_append "conf_" (text_append right (text_append "_" left))
    else text_append "conf_" (text_append left (text_append "_" right))

unfoldable pub same_environment : String → String → Bool
unfolding trim_space equal_fold
same_environment left right = equal_fold (trim_space left) (trim_space right)

-- a label for a kind of resource, and its weight
abbrev pub resource_label : String → String × ℕ
resource_label kind =
    if kind == "DATABASE"
    then ("共享数据库对象", 88)
    else if kind == "KUBERNETES"
    then ("共享 Kubernetes 工作负载", 82)
    else if kind == "CONFIG"
    then ("共享配置项", 76)
    else ("共享发布制品", 70)

unfoldable pub contains : List String → String → Bool
unfolding any
contains items target = any (λ item. item == target) items

unfoldable pub first_non_empty : List String → String
unfolding trim_space
first_non_empty [] = ""
first_non_empty (s ∷ rest) =
    let later = first_non_empty rest in if not (trim_space s == "") then trim_space s else later
