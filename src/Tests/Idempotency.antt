-- ===== src/Tests/Idempotency.antt =====
-- A request that is begun, taken over, completed and repeated.
use changeguard.Prelude.{
  ◌≡◌, ◌≢◌, refl, ◌+◌, ◌*◌, eq_iff, true, false, some, none, arith, ◌==◌, if◌then◌else◌,
}
use changeguard.Model.Status.{pending, succeeded, hour}
use changeguard.Model.{
  IdempotencyRecord, idempotency_conflict, idempotency_result_conflict, Result, ok, err,
}
use changeguard.Store.Base.{State}
use changeguard.Store.Idempotency.{
  begin_idempotency, complete_idempotency, takeover_idempotency, same_scope, no_claim, Begun,
  result_digest,
}
use changeguard.Store.Idempotency.Unique.{Unique}
use changeguard.Store.Idempotency.Runs.{Run, stop, ◌then◌, begin, takeover, complete, Run-Unique}
use changeguard.Store.Idempotency.Replay.{completed_replay, completed_once}
use changeguard.Store.Idempotency.Digested.{Digested, Run-Digested}
use changeguard.Store.Idempotency.Slots.{Moves, slot, Run-Moves}
use changeguard.Tests.Fixtures.{crypto, call, empty_state}

abbrev request : IdempotencyRecord
request = record no_claim {
  organization_id = "org";
  actor_id = "dev";
  operation = "approve";
  resource = "chg";
  key = "k";
  request_digest = "d";
}

abbrev first : State × Begun
first = begin_idempotency crypto (call 10) (ok "t1") request empty_state

abbrev first_claim : IdempotencyRecord
first_claim = record request {
  status = pending;
  generation = 1;
  claim_token = "t1";
  claim_token_sha256 = "ht1";
  created_at = 10;
  updated_at = 10;
}

first_created : first ≡ (first.0, record { claim = first_claim; created = true; failure = none })
unfolding begin_idempotency
first_created = refl

abbrev second : State × Result IdempotencyRecord
second = takeover_idempotency crypto (call 20) (ok "t2") first_claim first.0

abbrev second_claim : IdempotencyRecord
second_claim = record first_claim {
  generation = 2;
  claim_token = "t2";
  claim_token_sha256 = "ht2";
  updated_at = 20;
}

abbrev done : State × Result IdempotencyRecord
done = complete_idempotency crypto (call 30) second_claim (ok "{}") "ref" 200 second.0

abbrev answer : IdempotencyRecord
answer = record second_claim {
  claim_token = "";
  status = succeeded;
  http_status = 200;
  result = "{}";
  result_digest = result_digest crypto "{}" "ref" 200;
  response_ref = "ref";
  updated_at = 30;
  completed_at = some 30;
  expires_at = some (30 + 72 * hour);
}

done_ok : done ≡ (done.0, ok answer)
unfolding begin_idempotency takeover_idempotency complete_idempotency result_digest
done_ok = refl

hashes : result_digest crypto "{}" "ref" 200 ≢ ""
unfolding result_digest
hashes e = absurd (ground (arith, eq_iff (result_digest crypto "{}" "ref" 200) ""))

other_digest : result_digest crypto "[]" "ref" 200 ≢ result_digest crypto "{}" "ref" 200
unfolding result_digest
other_digest e = absurd (
    ground
      (arith, eq_iff (result_digest crypto "[]" "ref" 200) (result_digest crypto "{}" "ref" 200)))

history : Run crypto empty_state done.0
history =
    begin (call 10) (ok "t1") request
    then takeover (call 20) (ok "t2") first_claim
    then complete (call 30) second_claim (ok "{}") "ref" 200
    then stop

Run-Unique_example : Unique done.0.idempotency_records
Run-Unique_example = Run-Unique history tt

Run-Digested_example : Digested crypto done.0.idempotency_records
Run-Digested_example = Run-Digested history tt

earlier : Run crypto empty_state second.0
earlier = begin (call 10) (ok "t1") request then takeover (call 20) (ok "t2") first_claim then stop

Run-Moves_example :
    Moves (slot request second.0.idempotency_records) (slot request done.0.idempotency_records)
Run-Moves_example =
    Run-Moves earlier (complete (call 30) second_claim (ok "{}") "ref" 200) tt request

completed_replay_example : begin_idempotency crypto (call 40) (ok "t4") request done.0 ≡ (
  done.0,
  record {
    claim = answer;
    created = false;
    failure =
        if second_claim.request_digest == request.request_digest
        then none
        else some idempotency_conflict;
  },
)
completed_replay_example =
    completed_replay crypto (call 30) second_claim "{}" "ref" 200 second.0 done.0 answer hashes
      done_ok (call 40) (ok "t4") request (unfold same_scope in refl) (Run-Unique history tt)

completed_once_example :
    (complete_idempotency crypto (call 50) first_claim (ok "{}") "ref" 200 done.0
      ≡ (done.0, ok answer))
    × (complete_idempotency crypto (call 50) first_claim (ok "[]") "ref" 200 done.0
        ≡ (done.0, err idempotency_result_conflict))
completed_once_example =
    completed_once crypto (call 30) second_claim "{}" "ref" 200 second.0 done.0 answer hashes
      done_ok (call 50) first_claim "[]" "ref" 200 (unfold same_scope in refl) refl other_digest
