-- ===== src/Service/Idempotent/Execute/Recover.antt =====
-- A request of internal/service/idempotency.go whose executor has left its claim behind.
use changeguard.Prelude.{
  ◌+◌, ◌-◌, ◌≤◌, String, ◌≡◌, ◌≢◌, refl, ap, ◌∙◌, true, false, not, ◌||◌, some, List, ltb, nat_eq,
  arith, eq_iff, eq_refl, find, replace_first, find-replace_first, find_holds, find-narrow,
}
use changeguard.Model.Status.{Time, pending, succeeded, is_idempotency}
use changeguard.Model.{IdempotencyRecord, User, idempotency_pending, Result, ok}
use changeguard.Crypto.{Crypto}
use changeguard.Store.Base.{State, Call, saved}
use changeguard.Store.Idempotency.{
  begin_idempotency, answer_existing, complete_idempotency, complete_item, completed_record,
  takeover_idempotency, take_item, rotate_claim, taken_record, assign_claim, matching_claim,
  same_request, same_scope, public_idempotency_record,
}
use changeguard.Store.Idempotency.Unique.{same_scope_comm}
use changeguard.Store.Idempotency.Kept.{same_scope_trans, same_scope_refl}
use changeguard.Service.Access.{active_actor}
use changeguard.Service.Idempotent.{
  World, Outcome, done, now_of, wait_limit, recovery_grace, Recovered, Reconcile, Claimed,
  replayed_claim, complete_within, complete_from, on_completed, on_taken, on_pending, on_begun,
  claim_from, claim_idempotency,
}
use changeguard.Service.Idempotent.Execute.{
  Json, Request, request_record, replay, on_claim, execute_idempotent,
}

-- a claim of the request that was left behind at least two seconds ago, in a state
pub record LeftBehind (w : World) (r : IdempotencyRecord) (v : State) (item : IdempotencyRecord)
    : Type 0 where
  pub first : find (λ x. same_scope x r) v.idempotency_records ≡ some item
  pub digest : item.request_digest ≡ r.request_digest
  pub held : item.status ≡ pending
  pub fenced : item.generation ≢ 0
  pub stale : recovery_grace ≤ now_of w 0 - item.updated_at

-- the first poll writes, and draws a token with a hash
pub record Works (k : Crypto) (w : World) (token : String) : Type 0 where
  pub saves : (w.call 0).saving ≡ saved
  pub drawn : w.random 0 ≡ ok token
  pub filled : token ≢ ""
  pub hashed : k.sha256 token ≢ ""

-- `v` with other idempotency records only
abbrev pub SameBut : State → State → Type 0
SameBut u v = (items : List IdempotencyRecord) × (u ≡ record v { idempotency_records = items })

-- a claim that was left behind, whose effect is found
module _ (k : Crypto) (w : World) (reconcile : Reconcile) (r item : IdempotencyRecord) (v : State)
    (effect : Recovered) (token text : String) (left : LeftBehind w r v item)
    (works : Works k w token)
    (recovers : reconcile (public_idempotency_record item) v ≡ ok (some effect))
    (marshalled : effect.result ≡ ok text) where
  abbrev observed : IdempotencyRecord
  observed = public_idempotency_record item

  abbrev taken : IdempotencyRecord
  taken = taken_record k (w.call 0) token item

  abbrev between : State
  between = record v {
    idempotency_records = replace_first (same_request observed) taken v.idempotency_records;
  }

  abbrev finished : IdempotencyRecord
  finished = completed_record k (w.call 0) text effect.response_ref effect.status taken

  abbrev after : State
  after = record between {
    idempotency_records = replace_first (same_request taken) finished between.idempotency_records;
  }

  begins :
      begin_idempotency k (w.call 0) (w.random 0) r v
      ≡ (v, record { claim = observed; created = false; failure = some idempotency_pending })
  unfolding begin_idempotency answer_existing
  begins =
      rw (left.first, begin_idempotency, answer_existing)
        (rw (left.digest, (eq_iff r.request_digest r.request_digest).1 refl, left.held) refl)

  own : same_request observed item ≡ true
  unfolding same_request
  own = ground (arith, same_scope_refl item, eq_refl item.request_digest)

  standing : find (same_request observed) v.idempotency_records ≡ some item
  unfolding same_request
  standing =
      let near =
        same_scope_comm item r
          (find_holds (λ x. same_scope x r) v.idempotency_records item left.first) in
      find-narrow (λ x. same_scope x r) (same_request observed) v.idempotency_records item
        (λ y h. same_scope_trans y r item (unfold same_scope in ground arith) near) left.first own

  takes : takeover_idempotency k (w.call 0) (w.random 0) observed v ≡ (between, ok taken)
  unfolding takeover_idempotency take_item rotate_claim
  takes =
      let current : (not (is_idempotency item.status pending)
            || nat_eq observed.generation 0
            || not (nat_eq item.generation observed.generation))
          ≡ false =
        rw left.held (ground (arith, left.fenced)) in
      rw (standing, takeover_idempotency)
        (rw (current, take_item) (rw (works.drawn, rotate_claim) (rw works.saves refl)))

  stands_taken : find (same_request taken) between.idempotency_records ≡ some taken
  unfolding taken_record assign_claim same_request same_scope find
  stands_taken =
      find-replace_first (same_request observed) v.idempotency_records taken item standing own

  matches : matching_claim k taken taken ≡ true
  unfolding matching_claim taken_record assign_claim
  matches = ground (
    arith,
    eq_iff token "",
    eq_iff (k.sha256 token) "",
    eq_refl (k.sha256 token),
    works.filled,
    works.hashed,
  )

  completes :
      complete_idempotency k
        (w.call 0)
        taken
        effect.result
        effect.response_ref
        effect.status
        between
      ≡ (after, ok (public_idempotency_record finished))
  unfolding complete_idempotency complete_item
  completes =
      let unfinished : is_idempotency taken.status succeeded ≡ false =
        unfold taken_record assign_claim in rw left.held refl in
      rw (marshalled, complete_idempotency)
        (rw (stands_taken, complete_idempotency)
          (rw (unfinished, complete_item) (rw matches (rw works.saves refl))))

  abbrev recovered_claim : Claimed
  recovered_claim = record { claim = public_idempotency_record finished; fresh = false }

  completed_within :
      complete_within k w taken effect.result effect.response_ref effect.status 0 between
      ≡ (after, done (ok (public_idempotency_record finished)))
  unfolding complete_within complete_from on_completed
  completed_within = rw completes refl

  taken_on :
      (deadline : Time) (again : State → State × Outcome Claimed)
      → on_taken k w deadline 0 effect
          (takeover_idempotency k (w.call 0) (w.random 0) observed v)
          again
        ≡ (after, done (ok recovered_claim))
  unfolding on_taken
  taken_on deadline again =
      ap (λ x. on_taken k w deadline 0 effect x again) takes ∙ ap replayed_claim completed_within

  pended :
      (deadline : Time) (again : State → State × Outcome Claimed)
      → on_pending k w reconcile deadline 0 observed v again ≡ (after, done (ok recovered_claim))
  unfolding on_pending
  pended deadline again =
      let late : ltb (now_of w 0 - observed.updated_at) recovery_grace ≡ false =
        ground (arith, left.stale) in
      rw (late, recovers, on_pending) (taken_on deadline again)

  claimed : claim_idempotency k w reconcile r v ≡ (after, done (ok recovered_claim))
  unfolding claim_idempotency claim_from on_begun
  claimed =
      let deadline = now_of w 0 + wait_limit in
      let again : State → State × Outcome Claimed =
        λ u. claim_from k w reconcile r deadline 500 1 (w.meanwhile 0 u) in
      ap (λ x. on_begun k w reconcile deadline 0 x.0 x.1 again) begins ∙ pended deadline again

module _ {A : Type 0} (json : Json A) (k : Crypto) (w : World) (c : Call) (w₁ : World)
    (reconcile : Reconcile) (execute : State → State × Result A) (q : Request) (actor : User)
    (item : IdempotencyRecord) (v : State) (effect : Recovered) (token text : String) (a : A) where
  -- If the executor of a request has left its claim behind, for two seconds at least, and its effect
  -- is found, then a repeat of the request by the same user takes the claim over and is given the
  -- answer of the effect as a replay: it does not execute the operation, whatever the operation would
  -- do, and it changes the idempotency records only. The first poll draws a token and writes.
  pub execute_idempotent_recovers :
      active_actor q.actor_id v ≡ ok actor
      → LeftBehind w (request_record actor q) v item
      → Works k w token
      → reconcile (public_idempotency_record item) v ≡ ok (some effect)
      → effect.result ≡ ok text
      → json.decode text ≡ some a
      → (u : State) × SameBut u v
        × (execute_idempotent json k w c w₁ reconcile execute q v
            ≡ (u, done (ok (record { value = a; replayed = true }))))
  unfolding execute_idempotent on_claim
  execute_idempotent_recovers known left works recovers marshalled reads =
      let r = request_record actor q in
      let t = after k w reconcile r item v effect token text left works recovers marshalled in
      let found = claimed k w reconcile r item v effect token text left works recovers marshalled in
      (
        t,
        (t.idempotency_records, refl),
        rw (known, execute_idempotent)
            (ap (on_claim json k c w₁ execute q) found ∙ rw (reads, replay) refl),
      )
