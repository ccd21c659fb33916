-- ===== src/Tests/Remediation.antt =====
-- The last blocking finding of a failed check is verified.
use changeguard.Prelude.{true, false, some, none, [], ◌∷◌}
use changeguard.Model.Status.{resolved, verified, check_failed, waiting_approval, low}
use changeguard.Model.{ChangeRequest, Finding, Result}
use changeguard.Store.Base.{State}
use changeguard.Service.Remediation.{verify_finding}
use changeguard.Tests.Fixtures.{crypto, call, change, empty_state, run}

abbrev open_blocker : Finding
open_blocker = record {
  id = "f1";
  code = "DROP_TABLE";
  severity = low;
  blocking = false;
  status = resolved;
  owner_id = "dev";
  owner_name = "Developer";
  due_at = none;
  resolution = "dropped later";
  resolved_at = some 8;
  verified_by_id = "";
  verified_by_name = "";
  verification_comment = "";
  verified_at = none;
  updated_at = 8;
}

abbrev failing : State
failing = record empty_state {
  changes =
      record change { status = check_failed; findings = open_blocker ∷ []; check_run = none } ∷ [];
}

abbrev verification : State × Result ChangeRequest
verification = verify_finding crypto (call 20) (call 20) "chg" "f1" "rev" "checked" true failing

abbrev after : ChangeRequest
after = record change {
  status = waiting_approval;
  updated_at = 20;
  version = 5;
  findings =
      record open_blocker {
        status = verified;
        verified_by_id = "rev";
        verified_by_name = "Reviewer";
        verification_comment = "checked";
        verified_at = some 20;
        updated_at = 20;
      }
      ∷ [];
  check_run = some (record run { id = "check_"; findings = 1; checked_at = 20 });
  timeline =
      record {
        id = "tl_";
        status = check_failed;
        title = "风险复核通过";
        detail = "checked";
        actor = "Reviewer";
        created_at = 20;
      }
      ∷ record {
        id = "tl_";
        status = waiting_approval;
        title = "阻断风险已闭环";
        detail = "所有阻断风险项均完成整改与独立复核，静态门禁通过，等待独立审批";
        actor = "Reviewer";
        created_at = 20;
      }
      ∷ [];
}
