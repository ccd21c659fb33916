-- ===== src/Tests/Idempotent.antt =====
-- A rehearsal that is asked for with an idempotency key, and asked for again.
use Prim.Native.String.{◌++◌ as text_append}
use text.Mathlib.TextLemmas.{append_cancel_left, append_cancel_right, cons-append, cons-ne-nil}
use changeguard.Prelude.{
  ◌+◌, ◌*◌, String, ◌≡◌, ◌≢◌, refl, sym, ◌∙◌, eq_iff, true, false, some, none, inl, inr, [], ◌∷◌,
  find, any, arith, ◌==◌, if◌then◌else◌,
}
use changeguard.Model.Status.{Time, second, pending}
use changeguard.Model.{IdempotencyRecord, ChangeRequest, request_conflict, Result, ok, err}
use changeguard.Store.Base.{State, change}
use changeguard.Store.Idempotency.{result_digest, same_scope}
use changeguard.Store.Outbox.{claim_outbox, claimed}
use changeguard.Service.Access.{active_actor}
use changeguard.Service.Queue.{queue_experiment}
use changeguard.Service.Idempotent.{World, Outcome, done}
use changeguard.Service.Idempotent.Ends.{Ended}
use changeguard.Service.Idempotent.Execute.{
  Json, Replied, Request, request_record, execute_idempotent,
}
use changeguard.Service.Idempotent.Execute.Total.{execute_idempotent-Ended}
use changeguard.Service.Idempotent.Execute.Recover.{LeftBehind, Works, SameBut}
use changeguard.Service.Idempotent.Execute.Repeat.{execute_idempotent_repeat}
use changeguard.Service.Idempotent.Operations.{request_of, queue_found, queue_experiment_idempotent}
use changeguard.Service.Idempotent.Operations.Requeue.{
  KeepsEvents, queue_experiment_idempotent_recovers,
}
use changeguard.Tests.Fixtures.{crypto, call, developer}
use changeguard.Tests.Queue.{before, queued}

-- a poll every ten milliseconds from a time on, with no other request between
abbrev pub world : Time → World
world from = record {
  call = λ i. call (from + i * 10_000_000);
  random = λ i. ok "t2";
  meanwhile = λ i s. s;
}

-- a stand-in for the encoding of one answer
abbrev json : Json ChangeRequest
json = record {
  encode = λ x. ok x.id;
  decode = λ text. if text == "chg" then some queued else none;
}

abbrev request : Request
request = request_of "dev" "QUEUE_EXPERIMENT" "chg" "key" "d"

abbrev queue : State → State × Result ChangeRequest
queue = queue_experiment crypto (call 20) (call 21) "chg" "dev"

execute_idempotent-Ended_example : Ended (
    execute_idempotent json crypto
      (world 10)
      (call 21)
      (world 22)
      (queue_found json "chg")
      queue
      request
      before)
execute_idempotent-Ended_example =
    execute_idempotent-Ended json crypto (world 10) (call 21) (world 22) (queue_found json "chg")
      queue (λ i. omega arith) (λ i. omega arith) request before

abbrev executed : State × Outcome (Replied ChangeRequest)
executed =
    execute_idempotent json crypto (world 10) (call 21) (world 22) (queue_found json "chg") queue
      request before

executed_ok : executed ≡ (executed.0, done (ok (record { value = queued; replayed = false })))
unfolding execute_idempotent queue_experiment
executed_ok = refl

append_not_empty : (t : String) → text_append "h" t ≢ ""
append_not_empty t e = absurd (cons-ne-nil "h" (text_append "" t) (sym (cons-append "h" "" t) ∙ e))

hashes : (x : String) → result_digest crypto x (text_append "change:" "chg") 200 ≢ ""
unfolding result_digest
hashes x e =
    append_not_empty
      (text_append x
        (text_append "\0" (text_append (text_append "change:" "chg") (text_append "\0" "200"))))
      e

faithful :
    (x y : String)
    → result_digest crypto x (text_append "change:" "chg") 200
      ≡ result_digest crypto y (text_append "change:" "chg") 200
    → x ≡ y
unfolding result_digest
faithful x y e =
    let rest =
      text_append "\0" (text_append (text_append "change:" "chg") (text_append "\0" "200")) in
    append_cancel_right x y rest
      (append_cancel_left "h" (text_append x rest) (text_append y rest) e)

lossless : (text : String) → json.encode queued ≡ ok text → json.decode text ≡ some queued
lossless text e = let same : text ≡ "chg" = ground arith in rw same refl

execute_idempotent_repeat_example :
    execute_idempotent json crypto
      (world 40)
      (call 41)
      (world 42)
      (queue_found json "chg")
      queue
      (record request { digest = "other"; status = 200 })
      executed.0
    ≡ (
      executed.0,
      done (
          if "d" == "other"
          then ok (record { value = queued; replayed = true })
          else err request_conflict),
    )
unfolding execute_idempotent queue_experiment any
execute_idempotent_repeat_example =
    execute_idempotent_repeat json crypto (world 10) (call 21) (world 22) (queue_found json "chg")
      queue request executed.0 queued lossless hashes faithful
      ((λ f. unfold result_digest in refl), tt) developer before (unfold active_actor in refl)
      executed_ok executed.0 refl (unfold execute_idempotent queue_experiment in (refl, tt))
      (unfold active_actor execute_idempotent queue_experiment in refl) (world 40) (call 41)
      (world 42) (queue_found json "chg") queue "other" 200

abbrev claim : IdempotencyRecord
claim = record (request_record developer request) {
  status = pending;
  generation = 1;
  claim_token = "t";
  claim_token_sha256 = "ht";
  created_at = 10;
  updated_at = 10;
}

abbrev stopped : State × Result ChangeRequest
stopped = queue (record before { idempotency_records = claim ∷ [] })

stopped_ok : stopped ≡ (stopped.0, ok queued)
unfolding queue_experiment
stopped_ok = refl

-- a worker has taken the rehearsal by then
abbrev later : State
later = (claim_outbox (call 100) "worker-1" second stopped.0).0

kept : KeepsEvents stopped.0 later
unfolding queue_experiment claim_outbox
kept e (inl same) = (
  claimed (call 100) "worker-1" second stopped.0.changes e,
  rw same (inl refl),
  record { organization = refl; aggregate = refl; type = refl; created = refl },
)
kept e (inr none_left) = elim none_left [ ]

left : LeftBehind (world (3 * second)) (request_record developer request) later claim
unfolding queue_experiment claim_outbox find same_scope
left = record {
  first = refl;
  digest = refl;
  held = refl;
  fenced = (λ e. absurd (omega (arith, e)));
  stale = omega arith;
}

works : Works crypto (world (3 * second)) "t2"
works = record {
  saves = refl;
  drawn = refl;
  filled = (λ e. absurd (ground (arith, eq_iff "t2" "")));
  hashed = (λ e. absurd (ground (arith, eq_iff "ht2" "")));
}

queue_experiment_idempotent_recovers_example :
    (u : State) × SameBut u later
    × (queue_experiment_idempotent json crypto
          (world (3 * second))
          (call 50)
          (world 51)
          (call 52)
          (call 53)
          "chg"
          "dev"
          "key"
          "d"
          later
        ≡ (u, done (ok (record { value = queued; replayed = true }))))
queue_experiment_idempotent_recovers_example =
    queue_experiment_idempotent_recovers json crypto (call 20) (call 21) "chg" "dev"
      (record before { idempotency_records = claim ∷ [] }) stopped.0 queued stopped_ok developer
      (unfold active_actor in refl) later kept queued
      (unfold change queue_experiment claim_outbox in refl) (inl refl) developer
      (unfold active_actor queue_experiment claim_outbox in refl) refl (world (3 * second))
      (call 50) (world 51) (call 52) (call 53) "key" "d" "t2" "chg" claim left (omega arith) works
      refl refl
