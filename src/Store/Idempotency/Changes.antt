-- ===== src/Store/Idempotency/Changes.antt =====
-- What a call does to the idempotency records of internal/store/idempotency.go.
use changeguard.Prelude.{
  ℕ, ◌+◌, String, ◌≡◌, refl, sym, subst, Bool, false, not, ◌||◌, none, some, List, [], ◌∷◌, ◌++◌,
  nat_eq, find, replace_first, drop_first, any-of_find-none, Option-cases, Bool-cases, inl, inr,
  arith,
}
use changeguard.Model.Status.{Time, succeeded, pending, is_idempotency, is_idempotency-eq}
use changeguard.Model.{IdempotencyRecord, Result, ok, err}
use changeguard.Crypto.{Crypto}
use changeguard.Store.Base.{State, Call, Saving, saved, failed, save_locked, Restores}
use changeguard.Store.Idempotency.{
  same_scope, same_request, matching_claim, same_result, claim_scope, undo_records, new_claim,
  begin_idempotency, completed_record, complete_item, complete_idempotency, is_pending_request,
  abort_idempotency, taken_record, take_item, rotate_claim, takeover_idempotency, cleaned, limit_of,
  begun, published, cleanup_expired_idempotency, result_digest, assign_claim,
}
use changeguard.Store.Idempotency.Unique.{
  in_scope, Same, in_scope-Same, Part, drop_first-Part, cleaned-Part,
}

-- a record that has succeeded carries the digest of its answer
abbrev pub HasDigest : Crypto → IdempotencyRecord → Type 0
HasDigest k item =
    item.status ≡ succeeded
    → item.result_digest ≡ result_digest k item.result item.response_ref item.http_status

-- the records before and after one call
pub data Changed (k : Crypto) (xs : List IdempotencyRecord) : List IdempotencyRecord → Type 0 where
  same : Changed k xs xs
  added :
      (v : IdempotencyRecord)
      → in_scope v xs ≡ false
      → v.status ≡ pending
      → Changed k xs (xs ++ v ∷ [])
  rewritten :
      (p : IdempotencyRecord → Bool) (item v : IdempotencyRecord)
      → find p xs ≡ some item
      → is_idempotency item.status succeeded ≡ false
      → Same item v
      → ((y : IdempotencyRecord) → same_scope y v ≡ same_scope y item)
      → HasDigest k v
      → v.request_digest ≡ item.request_digest
      → Changed k xs (replace_first p v xs)
  shrunk : {ys : List IdempotencyRecord} → Part ys xs → Changed k xs ys

-- the records after a write are the new ones or the old ones
module _ {A : Type 0} (P : List IdempotencyRecord → Type 0) (s : State)
    (xs : List IdempotencyRecord) (a : A) (old : P s.idempotency_records) (new : P xs) where
  save-undo_records :
      (w : Saving)
      → P
          (save_locked w
            (record s { idempotency_records = xs })
            (undo_records s)
            a).0.idempotency_records
  save-undo_records saved = new
  save-undo_records (failed e none) = old
  save-undo_records (failed e (some r)) = old

  save-restored :
      (w : Saving)
      → Restores s w
      → P
          (save_locked w
            (record s { idempotency_records = xs })
            (λ r. some r)
            a).0.idempotency_records
  save-restored saved h = new
  save-restored (failed e none) h = new
  save-restored (failed e (some r)) h = subst (λ (z : State). P z.idempotency_records) (sym h) old

begun_state : (x : State × Result IdempotencyRecord) → (begun x).0 ≡ x.0
begun_state (s, ok r) = refl
begun_state (s, err e) = refl

published_state : (x : State × Result IdempotencyRecord) → (published x).0 ≡ x.0
published_state (s, ok r) = refl
published_state (s, err e) = refl

module _ (k : Crypto) (c : Call) (s : State) where
  abbrev Changes : State → Type 0
  Changes t = Changed k s.idempotency_records t.idempotency_records

  abbrev ChangesTo : List IdempotencyRecord → Type 0
  ChangesTo = Changed k s.idempotency_records

  Changes-claim_scope :
      (random : Result String) (r : IdempotencyRecord)
      → in_scope r s.idempotency_records ≡ false
      → Changes (claim_scope k c random r s).0
  unfolding claim_scope
  Changes-claim_scope (err e) r n = same
  Changes-claim_scope (ok token) r n =
      let v = new_claim k c token r in
      let xs = s.idempotency_records ++ v ∷ [] in
      let free : in_scope v s.idempotency_records ≡ false =
        rw
          (in_scope-Same r v s.idempotency_records
            (λ y. unfold same_scope new_claim assign_claim in refl))
          n in
      subst Changes
        (sym (
          begun_state
            (save_locked c.saving (record s { idempotency_records = xs }) (undo_records s) v)))
        (save-undo_records ChangesTo s xs v same
          (added v free (unfold new_claim assign_claim in refl)) c.saving)

  pub Changes-begin :
      (random : Result String) (r : IdempotencyRecord)
      → Changes (begin_idempotency k c random r s).0
  unfolding begin_idempotency
  Changes-begin random r =
      elim (Option-cases (find (λ item. same_scope item r) s.idempotency_records)) [
        | inr (item, f) ↦ rw (f, begin_idempotency) same
        | inl f ↦
            rw (f, begin_idempotency)
              (Changes-claim_scope random r
                (any-of_find-none (λ item. same_scope item r) s.idempotency_records f))
      ]

  Changes-complete_item :
      (r item : IdempotencyRecord) (encoded ref : String) (status : ℕ)
      → find (same_request r) s.idempotency_records ≡ some item
      → Changes (complete_item k c r encoded ref status item s).0
  unfolding complete_item
  Changes-complete_item r item encoded ref status f =
      let v = completed_record k c encoded ref status item in
      let xs = replace_first (same_request r) v s.idempotency_records in
      elim (Bool-cases (is_idempotency item.status succeeded)) [
        | inl h ↦ elim (Bool-cases (same_result k encoded ref status item)) [
          | inl g ↦ rw (h, complete_item) (rw g same)
          | inr g ↦ rw (h, complete_item) (rw g same)
        ]
        | inr h ↦ elim (Bool-cases (matching_claim k item r)) [
          | inr g ↦ rw (h, complete_item) (rw g same)
          | inl g ↦
              rw (h, complete_item)
                (rw g (
                  subst Changes
                    (sym (
                      published_state (
                        save_locked c.saving (record s { idempotency_records = xs })
                          (undo_records s) v)))
                    (save-undo_records ChangesTo s xs v same
                      (rewritten (same_request r) item v f h
                        (λ q. unfold same_scope completed_record in refl)
                        (λ q. unfold same_scope completed_record in refl)
                        (λ q. unfold completed_record in refl) (unfold completed_record in refl))
                      c.saving)))
        ]
      ]

  pub Changes-complete :
      (r : IdempotencyRecord) (marshalled : Result String) (ref : String) (status : ℕ)
      → Changes (complete_idempotency k c r marshalled ref status s).0
  unfolding complete_idempotency
  Changes-complete r (err e) ref status = same
  Changes-complete r (ok encoded) ref status =
      elim (Option-cases (find (same_request r) s.idempotency_records)) [
        | inl f ↦ rw (f, complete_idempotency) same
        | inr (item, f) ↦
            rw (f, complete_idempotency) (Changes-complete_item r item encoded ref status f)
      ]

  pub Changes-abort : (r : IdempotencyRecord) → Changes (abort_idempotency k c r s).0
  unfolding abort_idempotency
  Changes-abort r = elim (Option-cases (find (is_pending_request r) s.idempotency_records)) [
    | inl f ↦ rw (f, abort_idempotency) same
    | inr (item, f) ↦ elim (Bool-cases (matching_claim k item r)) [
      | inr g ↦ rw (f, abort_idempotency) (rw g same)
      | inl g ↦
          rw (f, abort_idempotency)
            (rw g (
              save-undo_records ChangesTo s
                (drop_first (is_pending_request r) s.idempotency_records) tt same
                (shrunk (drop_first-Part (is_pending_request r) s.idempotency_records)) c.saving))
    ]
  ]

  Changes-rotate :
      (random : Result String) (r item : IdempotencyRecord)
      → find (same_request r) s.idempotency_records ≡ some item
      → item.status ≡ pending
      → Changes (rotate_claim k c random r item s).0
  unfolding rotate_claim
  Changes-rotate (err e) r item f p =
      rewritten (same_request r) item (record item { generation = item.generation + 1 }) f
        (rw p refl) (λ q. unfold same_scope in refl) (λ q. unfold same_scope in refl)
        (λ q. absurd (ground (arith, p, q))) refl
  Changes-rotate (ok token) r item f p =
      let v = taken_record k c token item in
      save-undo_records ChangesTo s (replace_first (same_request r) v s.idempotency_records) v same
        (rewritten (same_request r) item v f (rw p refl)
          (λ q. unfold same_scope taken_record assign_claim in refl)
          (λ q. unfold same_scope taken_record assign_claim in refl)
          (λ q.
            let q' : item.status ≡ succeeded = unfold taken_record assign_claim in q in
            absurd (ground (arith, p, q')))
          (unfold taken_record assign_claim in refl))
        c.saving

  Changes-take_item :
      (random : Result String) (r item : IdempotencyRecord)
      → find (same_request r) s.idempotency_records ≡ some item
      → Changes (take_item k c random r item s).0
  unfolding take_item
  Changes-take_item random r item f =
      elim (Bool-cases (
        not (is_idempotency item.status pending)
        || nat_eq r.generation 0
        || not (nat_eq item.generation r.generation))) [
          | inl h ↦ rw (h, take_item) same
          | inr h ↦
              rw (h, take_item)
                (Changes-rotate random r item f (is_idempotency-eq item.status (ground arith)))
        ]

  pub Changes-takeover :
      (random : Result String) (r : IdempotencyRecord)
      → Changes (takeover_idempotency k c random r s).0
  unfolding takeover_idempotency
  Changes-takeover random r = elim (Option-cases (find (same_request r) s.idempotency_records)) [
    | inl f ↦ rw (f, takeover_idempotency) same
    | inr (item, f) ↦ rw (f, takeover_idempotency) (Changes-take_item random r item f)
  ]

  pub Changes-cleanup :
      (org : String) (at : Time) (limit : ℕ)
      → Restores s c.saving
      → Changes (cleanup_expired_idempotency c org at limit s).0
  unfolding cleanup_expired_idempotency
  Changes-cleanup org at limit h =
      let (removed, kept) = cleaned org at (limit_of limit) 0 s.idempotency_records in
      elim (Bool-cases (nat_eq removed 0)) [
        | inl g ↦ rw g same
        | inr g ↦ rw g (
            save-restored ChangesTo s kept removed same
              (shrunk (cleaned-Part org at (limit_of limit) 0 s.idempotency_records)) c.saving h)
      ]
