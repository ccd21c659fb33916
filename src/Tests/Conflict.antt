-- ===== src/Tests/Conflict.antt =====
-- Two changes of one table in overlapping windows.
use changeguard.Prelude.{Has, some, inl, List, String, ◌≡◌, ◌*◌, refl, [], ◌∷◌}
use changeguard.Model.Status.{minute, approved, high}
use changeguard.Conflict.{Planned, Extract, ChangeConflict, summary}
use changeguard.Conflict.Detect.{detect, conflict_of, active_changes, start_of, end_of}
use changeguard.Conflict.Detect.Complete.{Precedes, detect-Has}
use changeguard.Conflict.Detect.Radar.{IsRadar, detect-IsRadar}

-- a text is the name of its table
abbrev extract : Extract
extract = record { sql_tables = λ s. s ∷ []; config_keys = λ s. []; kubernetes_objects = λ s. [] }

abbrev planned : String → Planned
planned id = record {
  id = id;
  title = id;
  application_id = id;
  application_name = id;
  environment = "production";
  status = approved;
  risk = high;
  planned_at = 100 * minute;
  observation_minutes = 0;
  sql = "\"Orders\",";
  artifacts = [];
}

scores :
    (detect extract 0 (planned "b" ∷ planned "a" ∷ []) [] minute (200 * minute)).high_risk_count ≡ 1
unfolding detect
scores = refl

detect-IsRadar_example :
    IsRadar
      (start_of 0 minute)
      (end_of (start_of 0 minute) (200 * minute))
      (planned "b" ∷ planned "a" ∷ [])
      (detect extract 0 (planned "b" ∷ planned "a" ∷ []) [] minute (200 * minute))
detect-IsRadar_example =
    detect-IsRadar extract 0 (planned "b" ∷ planned "a" ∷ []) [] minute (200 * minute)

abbrev both : List Planned
both = planned "b" ∷ planned "a" ∷ []

abbrev expected : ChangeConflict
expected = record {
  id = "conf_a_b";
  severity = high;
  score = 98;
  change_a = summary (planned "a");
  change_b = summary (planned "b");
  overlap_start = 100 * minute;
  overlap_end = 130 * minute;
  overlap_minutes = 30;
  reasons = record { kind = "SHARED_DATABASE"; label = "共享数据库对象"; resource = "\"orders\"" } ∷ [];
  recommendation = "建议将两个变更错峰，前一变更完成并观察稳定后再执行后一变更。";
}

met : conflict_of extract [] (planned "a") (planned "b") ≡ some expected
unfolding conflict_of
met = refl

in_order :
    Precedes
      (planned "a")
      (planned "b")
      (active_changes (start_of 0 minute) (end_of (start_of 0 minute) (200 * minute)) both)
unfolding active_changes
in_order = inl (refl, inl refl)

detect-Has_example : Has expected (detect extract 0 both [] minute (200 * minute)).conflicts
detect-Has_example =
    detect-Has extract [] (planned "a") (planned "b") expected met 0 both minute (200 * minute)
      in_order
