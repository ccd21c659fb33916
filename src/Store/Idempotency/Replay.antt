-- ===== src/Store/Idempotency/Replay.antt =====
-- What a caller is answered once a request has been completed.
use changeguard.Prelude.{
  if◌then◌else◌, ℕ, String, ◌≡◌, ◌≢◌, refl, sym, ap, ◌∙◌, Bool, true, false, none, some, ◌==◌,
  eq_iff, eq_refl, arith, find, replace_first, find-replace_first, find_holds, Option-cases,
  Bool-cases, ◌⊎◌, inl, inr,
}
use changeguard.Model.Status.{succeeded, is_idempotency, is_succeeded-eq}
use changeguard.Model.{
  IdempotencyRecord, idempotency_conflict, idempotency_result_conflict, Result, ok, err,
}
use changeguard.Crypto.{Crypto}
use changeguard.Store.Base.{State, Call, save_locked}
use changeguard.Store.Saving.{save_locked-ok}
use changeguard.Store.Idempotency.{
  same_scope, same_request, matching_claim, undo_records, begin_idempotency, completed_record,
  complete_item, same_result, complete_idempotency, public_idempotency_record, published,
  result_digest,
}
use changeguard.Store.Idempotency.Unique.{Unique}
use changeguard.Store.Idempotency.Kept.{Done, Done-replay, same_request-congr}

published-ok :
    (x : State × Result IdempotencyRecord) (t : State) (a : IdempotencyRecord)
    → published x ≡ (t, ok a)
    → (b : IdempotencyRecord) × (x ≡ (t, ok b)) × (a ≡ public_idempotency_record b)
published-ok (s, err e) t a h = absurd (ground arith)
published-ok (s, ok b) t a h = (b, ground arith, ground arith)

not_same :
    (k : Crypto) (encoded ref encoded' ref' : String) (status status' : ℕ)
    (item : IdempotencyRecord)
    → same_result k encoded ref status item ≡ true
    → result_digest k encoded' ref' status' ≢ result_digest k encoded ref status
    → same_result k encoded' ref' status' item ≡ false
unfolding same_result
not_same k encoded ref encoded' ref' status status' item h n = ground (
  arith,
  eq_iff item.result_digest (result_digest k encoded ref status),
  eq_iff item.result_digest (result_digest k encoded' ref' status'),
)

complete_item-done :
    (k : Crypto) (c : Call) (r item : IdempotencyRecord) (encoded ref : String) (status : ℕ)
    (t : State) (b : Bool)
    → item.status ≡ succeeded
    → same_result k encoded ref status item ≡ b
    → complete_item k c r encoded ref status item t ≡ (
        if b
        then (t, ok (public_idempotency_record item))
        else (t, err idempotency_result_conflict))
unfolding complete_item
complete_item-done k c r item encoded ref status t b d e =
    rw (ap (λ x. is_idempotency x succeeded) d, complete_item) (rw e refl)

module _ (k : Crypto) (c : Call) (r : IdempotencyRecord) (encoded ref : String) (status : ℕ)
    (s t : State) (answer : IdempotencyRecord) (hashes : result_digest k encoded ref status ≢ "")
    (completed : complete_idempotency k c r (ok encoded) ref status s ≡ (t, ok answer)) where
  abbrev new_record : IdempotencyRecord → IdempotencyRecord
  new_record item = completed_record k c encoded ref status item

  abbrev new_state : IdempotencyRecord → State
  new_state item = record s {
    idempotency_records = replace_first (same_request r) (new_record item) s.idempotency_records;
  }

  complete_item-cases :
      (item : IdempotencyRecord)
      → complete_item k c r encoded ref status item s ≡ (t, ok answer)
      → ((item.status ≡ succeeded)
          × (same_result k encoded ref status item ≡ true)
          × (t ≡ s)
          × (answer ≡ public_idempotency_record item))
        ⊎ (published (save_locked c.saving (new_state item) (undo_records s) (new_record item))
            ≡ (t, ok answer))
  unfolding complete_item
  complete_item-cases item h = elim (Bool-cases (is_idempotency item.status succeeded)) [
    | inl done ↦ elim (Bool-cases (same_result k encoded ref status item)) [
      | inl same ↦
          let h' = rw (done, complete_item) at h in
          let h'' = rw same at h' in
          inl (is_succeeded-eq item.status done, same, ground arith, ground arith)
      | inr other ↦
          let h' = rw (done, complete_item) at h in
          let h'' = rw other at h' in absurd (ground arith)
    ]
    | inr open_ ↦ elim (Bool-cases (matching_claim k item r)) [
      | inl mine ↦ let h' = rw (open_, complete_item) at h in inr (rw mine at h')
      | inr other ↦
          let h' = rw (open_, complete_item) at h in
          let h'' = rw other at h' in absurd (ground arith)
    ]
  ]

  same_result-new :
      (item : IdempotencyRecord) → same_result k encoded ref status (new_record item) ≡ true
  unfolding same_result completed_record
  same_result-new item = ground (
    arith,
    eq_refl ref,
    eq_iff (result_digest k encoded ref status) "",
    eq_refl (result_digest k encoded ref status),
  )

  new_Done :
      (item : IdempotencyRecord)
      → find (same_request r) s.idempotency_records ≡ some item
      → Done k r encoded ref status (new_state item) (new_record item)
  new_Done item f = record {
    stands = find-replace_first (same_request r) s.idempotency_records (new_record item) item f (
        unfold same_request completed_record same_scope in
        find_holds (same_request r) s.idempotency_records item f);
    finished = unfold completed_record in refl;
    kept = same_result-new item;
  }

  pub complete-Done :
      (item : IdempotencyRecord) × Done k r encoded ref status t item
      × (answer ≡ public_idempotency_record item)
  unfolding complete_idempotency
  complete-Done = elim (Option-cases (find (same_request r) s.idempotency_records)) [
    | inl f ↦ absurd (ground arith)
    | inr (item, f) ↦ elim (complete_item-cases item (rw (f, complete_idempotency) at completed)) [
      | inl (done, same, ts, said) ↦
          (item, record { stands = rw ts f; finished = done; kept = same }, said)
      | inr h ↦
          let (b, hb, ab) =
            published-ok (save_locked c.saving (new_state item) (undo_records s) (new_record item))
              t answer h in
          let (te, be) =
            save_locked-ok c.saving (new_state item) t (undo_records s) (new_record item) b hb in
          (new_record item, rw te (new_Done item f), rw be at ab)
    ]
  ]

  -- After a completion that was answered, in a state with one record for each scope, every attempt
  -- to begin a request of that scope starts nothing: it is given the kept answer, with a conflict if
  -- its request has another digest.
  pub completed_replay :
      (c' : Call) (random : Result String) (r' : IdempotencyRecord)
      → same_scope r r' ≡ true
      → Unique t.idempotency_records
      → begin_idempotency k c' random r' t ≡ (
        t,
        record {
          claim = answer;
          created = false;
          failure =
              if r.request_digest == r'.request_digest then none else some idempotency_conflict;
        },
      )
  completed_replay c' random r' same u =
      let (item, d, said) = complete-Done in
      rw said (Done-replay k r encoded ref status t item d c' random r' same u)

  -- After a completion that was answered, a completion of the same request (its scope and its digest)
  -- with the same result is given the same answer, and one whose result has another digest is refused as
  -- a conflict; neither changes anything, whatever generation and token its claim has.
  pub completed_once :
      (c' : Call) (r' : IdempotencyRecord) (encoded' ref' : String) (status' : ℕ)
      → same_scope r' r ≡ true
      → r'.request_digest ≡ r.request_digest
      → result_digest k encoded' ref' status' ≢ result_digest k encoded ref status
      → (complete_idempotency k c' r' (ok encoded) ref status t ≡ (t, ok answer))
        × (complete_idempotency k c' r' (ok encoded') ref' status' t
            ≡ (t, err idempotency_result_conflict))
  unfolding complete_idempotency
  completed_once c' r' encoded' ref' status' scope digest other =
      let (item, d, said) = complete-Done in
      let stands : find (same_request r') t.idempotency_records ≡ some item =
        ap (λ p. find p t.idempotency_records) (same_request-congr r' r scope digest) ∙ d.stands in
      (
        rw (stands, complete_idempotency)
            (complete_item-done k c' r' item encoded ref status t true d.finished d.kept
              ∙ ap (λ a. (t, ok a)) (sym said)),
        rw (stands, complete_idempotency)
            (complete_item-done k c' r' item encoded' ref' status' t false d.finished
              (not_same k encoded ref encoded' ref' status status' item d.kept other)),
      )
