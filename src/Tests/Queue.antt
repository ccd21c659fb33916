-- ===== src/Tests/Queue.antt =====
-- A rehearsal that the submitter of a change asks for.
use changeguard.Prelude.{◌≡◌, refl, [], ◌∷◌}
use changeguard.Model.Status.{ready_for_experiment, experiment_queued}
use changeguard.Model.{ChangeRequest, Result, ok}
use changeguard.Store.Base.{State}
use changeguard.Service.Queue.{queue_experiment}
use changeguard.Service.Queue.Queued.{IsQueued, queue_experiment-IsQueued}
use changeguard.Tests.Fixtures.{crypto, call, change, empty_state}

abbrev pub waiting : ChangeRequest
waiting = record change { status = ready_for_experiment; sql = "ALTER TABLE t ADD c int" }

abbrev pub before : State
before = record empty_state { changes = waiting ∷ [] }

abbrev pub queueing : State × Result ChangeRequest
queueing = queue_experiment crypto (call 20) (call 21) "chg" "dev" before

abbrev pub queued : ChangeRequest
queued = record waiting {
  status = experiment_queued;
  updated_at = 21;
  version = 5;
  timeline =
      record {
        id = "tl_";
        status = experiment_queued;
        title = "进入演练队列";
        detail = "可靠 Worker 将执行影子库变更、回滚与指标采集";
        actor = "Developer";
        created_at = 20;
      }
      ∷ [];
}

pub queueing_ok : queueing ≡ (queueing.0, ok queued)
unfolding queue_experiment
queueing_ok = refl

queue_experiment-IsQueued_example :
    IsQueued crypto (call 20) (call 21) "chg" "dev" before queueing.0 queued
queue_experiment-IsQueued_example =
    queue_experiment-IsQueued crypto (call 20) (call 21) "chg" "dev" before queueing.0 queued
      queueing_ok
