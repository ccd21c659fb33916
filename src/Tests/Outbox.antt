-- ===== src/Tests/Outbox.antt =====
-- An event that is claimed by one worker and withheld from another.
use changeguard.Prelude.{◌≡◌, refl, none, some, [], ◌∷◌, arith, find}
use changeguard.Model.Status.{OutboxStatus, OutboxStage, processing, prepare}
use changeguard.Model.{OutboxEvent, concurrent_write, Result, ok, err}
use changeguard.Store.Outbox.{has_event_id}
use changeguard.Prelude.{any, false}
use changeguard.Model.Status.{experiment_queued}
use changeguard.Store.Experiments.{ensure_experiment_outbox, lacks_event}
use changeguard.Store.Experiments.Ensured.{ensure_experiment_outbox-lacks_event}
use changeguard.Tests.Fixtures.{change}
use changeguard.Store.Base.{State}
use changeguard.Store.Outbox.{
  claim_outbox, complete_outbox, renew_outbox, fail_outbox, checkpoint_experiment_outbox,
}
use changeguard.Store.Outbox.Backoff.{Settled, fail_outbox-Settled}
use changeguard.Store.Outbox.Claim.{IsClaim, claim_outbox-IsClaim}
use changeguard.Store.Outbox.Lease.{Holds, stale_worker_fenced}
use changeguard.Store.Experiments.{finalize_experiment_outbox, empty_event}
use changeguard.Tests.Fixtures.{crypto, call, empty_state}

abbrev event : OutboxEvent
event = record empty_event {
  id = "out_1";
  organization_id = "org";
  aggregate_id = "chg";
  event_type = "experiment.requested";
  status = OutboxStatus.pending;
  max_attempts = 5;
  next_attempt_at = 5;
}

abbrev queue : State
queue = record empty_state {
  outbox = record event { id = "out_0"; next_attempt_at = 8 } ∷ event ∷ [];
}

abbrev taking : State × Result OutboxEvent
taking = claim_outbox (call 10) "worker-1" 100 queue

abbrev held : OutboxEvent
held = record event {
  status = processing;
  attempts = 1;
  attempt_id = "attempt_";
  lease_generation = 1;
  stage = prepare;
  stage_started_at = some 10;
  stage_updated_at = some 10;
  input_sha256 = "art";
  locked_by = "worker-1";
  locked_until = some 110;
  updated_at = 10;
}

taking_ok : taking ≡ (taking.0, ok held)
unfolding claim_outbox
taking_ok = refl

claim_outbox-IsClaim_example : IsClaim (call 10) "worker-1" 100 queue taking.0 held
claim_outbox-IsClaim_example =
    claim_outbox-IsClaim (call 10) "worker-1" 100 queue taking.0 held (omega arith) taking_ok

abbrev working : State
working = record empty_state { outbox = held ∷ [] }

-- the lease has run out
too_late : ¬ Holds "worker-1" 1 200 held
too_late h = absurd (ground (arith, h.unexpired))

stale_worker_fenced_example :
    (complete_outbox (call 200) "out_1" "worker-1" 1 working ≡ (working, err concurrent_write))
    × (renew_outbox (call 200) "out_1" "worker-1" 1 100 working ≡ (working, err concurrent_write))
    × (fail_outbox (call 200) "out_1" "worker-1" 1 "timeout" working
        ≡ (working, err concurrent_write))
    × (checkpoint_experiment_outbox (call 200) "out_1" "worker-1" 1 OutboxStage.apply "art" working
        ≡ (working, err concurrent_write))
    × (finalize_experiment_outbox crypto
          (call 200)
          "out_1"
          "worker-1"
          1
          "attempt_"
          "art"
          "digest"
          (λ x. (x, none))
          []
          working
        ≡ (working, err concurrent_write))
stale_worker_fenced_example =
    stale_worker_fenced (call 200) "out_1" "worker-1" 1 held working (unfold find in refl) too_late
      crypto 100 "timeout" OutboxStage.apply "attempt_" "art" "digest" (λ x. (x, none)) []

abbrev failure : State × Result (Unit {0})
failure = fail_outbox (call 50) "out_1" "worker-1" 1 "timeout" working

failure_ok : failure ≡ (failure.0, ok tt)
unfolding fail_outbox
failure_ok = refl

fail_outbox-Settled_example :
    (f : OutboxEvent) × (find (has_event_id "out_1") failure.0.outbox ≡ some f) × Settled 50 held f
fail_outbox-Settled_example =
    fail_outbox-Settled (call 50) "out_1" "worker-1" 1 "timeout" working failure.0 held
      (unfold find in refl) failure_ok

abbrev queued : State
queued = record empty_state { changes = record change { status = experiment_queued } ∷ [] }

abbrev ensuring : State × Result (Unit {0})
ensuring = ensure_experiment_outbox (call 60) queued

ensuring_ok : ensuring ≡ (ensuring.0, ok tt)
unfolding ensure_experiment_outbox
ensuring_ok = refl

ensure_experiment_outbox-lacks_event_example :
    (any (lacks_event ensuring.0.outbox) ensuring.0.changes ≡ false)
    × (ensuring.0.changes ≡ queued.changes)
ensure_experiment_outbox-lacks_event_example =
    ensure_experiment_outbox-lacks_event (call 60) queued ensuring.0 ensuring_ok
