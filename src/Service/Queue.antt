-- ===== src/Service/Queue.antt =====
-- internal/service/service.go: queueing the rehearsal of a change.
pub mod Queued
use changeguard.Prelude.{
  String, Bool, true, not, ◌||◌, ◌&&◌, Option, none, some, List, [], ◌∷◌, ◌==◌, if◌then◌else◌,
  trim_space,
}
use changeguard.Model.Status.{
  ChangeStatus, ready_for_experiment, experiment_queued, is_change, OutboxStatus,
}
use changeguard.Model.{
  User, ChangeRequest, OutboxEvent, Err, invalid_state, forbidden, Result, ok, err, ◌>>=◌, ◌>>◌,
  require,
}
use changeguard.Crypto.{Crypto}
use changeguard.Store.Base.{State, Call, change}
use changeguard.Store.Changes.{Update}
use changeguard.Store.Experiments.{empty_event, update_change_with_outbox}
use changeguard.Service.Access.{
  active_actor, can_use_application, submit, role_owner, timeline, on_timeline, audit,
}
use changeguard.Service.Review.{has_sql}

-- the checks of `QueueExperiment` on the change, in the code's order
unfoldable pub may_queue : User → ChangeRequest → State → Result (Unit {0})
unfolding can_use_application trim_space
may_queue actor x s =
    require forbidden (
      x.organization_id == actor.organization_id
      && can_use_application actor x.application_id submit s)
    >> (require invalid_state (is_change x.status ready_for_experiment)
        >> (require invalid_state (has_sql x)
            >> require forbidden (x.submitter_id == actor.id || actor.role == role_owner)))

abbrev pub queue_update : Call → User → Update
queue_update c actor x = (
  on_timeline (timeline c 0 experiment_queued "进入演练队列" "可靠 Worker 将执行影子库变更、回滚与指标采集" actor.name)
      (record x { status = experiment_queued }),
  none,
)

abbrev pub experiment_event : String → User → ChangeRequest → OutboxEvent
experiment_event id actor x = record empty_event {
  organization_id = actor.organization_id;
  aggregate_type = "change";
  aggregate_id = id;
  event_type = "experiment.requested";
  status = OutboxStatus.pending;
  max_attempts = 5;
  input_sha256 = x.artifact_sha256;
}

unfoldable pub queue_checks : String → String → State → Result (User × ChangeRequest)
unfolding active_actor change may_queue
queue_checks id actor_id s =
    active_actor actor_id s
    >>= (λ actor. change id s >>= (λ x. may_queue actor x s >> ok (actor, x)))

-- `QueueExperiment`; the workers are woken through a channel that may be full
unfoldable pub queue_experiment :
    Crypto → Call → Call → String → String → State → State × Result ChangeRequest
unfolding queue_checks update_change_with_outbox
queue_experiment k c c₁ id actor_id s = elim (queue_checks id actor_id s) [
  | err e ↦ (s, err e)
  | ok (actor, x) ↦
      update_change_with_outbox k c₁ id (queue_update c actor) (experiment_event id actor x)
        (audit c actor id "QUEUE_EXPERIMENT" "提交影子库演练任务并写入事务 Outbox" ∷ []) s
]
