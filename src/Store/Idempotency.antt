-- ===== src/Store/Idempotency.antt =====
-- internal/store/idempotency.go on the local state: claims of idempotency keys, fenced by a
-- generation and a random token, and the answers kept for replay.
pub mod Fencing
pub mod Unique
pub mod Changes
pub mod Runs
pub mod Digested
pub mod Slots
pub mod Kept
pub mod Replay
use Prim.Native.String.{◌++◌ as text_append}
use changeguard.Prelude.{
  ℕ, ◌+◌, ◌*◌, String, ◌≡◌, refl, Bool, true, false, not, ◌&&◌, ◌||◌, Option, none, some, List, [],
  ◌∷◌, ◌++◌, ◌==◌, ltb, leb, nat_eq, if◌then◌else◌, find, replace_first, drop_first,
}
use changeguard.Model.Status.{Time, hour, IdempotencyStatus, pending, succeeded, is_idempotency}
use changeguard.Model.{
  IdempotencyRecord, Err, not_found, idempotency_conflict, idempotency_pending,
  idempotency_claim_lost, idempotency_result_conflict, Result, ok, err,
}
use changeguard.Crypto.{Crypto}
use changeguard.Changegate.Rules.{decimal}
use changeguard.Store.Base.{State, Call, save_locked}

unfoldable pub same_scope : IdempotencyRecord → IdempotencyRecord → Bool
same_scope left right =
    left.organization_id == right.organization_id
    && left.actor_id == right.actor_id
    && left.operation == right.operation
    && left.resource == right.resource
    && left.key == right.key

-- the scope and the digest of the request
unfoldable pub same_request : IdempotencyRecord → IdempotencyRecord → Bool
unfolding same_scope
same_request r item = same_scope item r && item.request_digest == r.request_digest

abbrev pub public_idempotency_record : IdempotencyRecord → IdempotencyRecord
public_idempotency_record r = record r { claim_token = "" }

-- the token that `rand.Read` filled
unfoldable pub assign_claim : Crypto → String → IdempotencyRecord → IdempotencyRecord
assign_claim k token r = record r { claim_token = token; claim_token_sha256 = k.sha256 token }

unfoldable pub matching_claim : Crypto → IdempotencyRecord → IdempotencyRecord → Bool
matching_claim k stored claimed =
    if nat_eq stored.generation 0
      || not (nat_eq claimed.generation stored.generation)
      || claimed.claim_token == ""
      || stored.claim_token_sha256 == ""
    then false
    else k.sha256 claimed.claim_token == stored.claim_token_sha256

abbrev zero_byte : String
zero_byte = "\0"

unfoldable pub result_digest : Crypto → String → String → ℕ → String
unfolding decimal
result_digest k result ref status = k.sha256 (
    text_append result
      (text_append zero_byte (text_append ref (text_append zero_byte (decimal status)))))

-- the three results of `BeginIdempotency`; with an error too the caller sees the record
pub record Begun : Type 0 where
  pub claim : IdempotencyRecord
  pub created : Bool
  pub failure : Option Err

abbrev pub no_claim : IdempotencyRecord
no_claim = record {
  organization_id = "";
  actor_id = "";
  operation = "";
  resource = "";
  key = "";
  request_digest = "";
  status = IdempotencyStatus.unset;
  generation = 0;
  claim_token = "";
  claim_token_sha256 = "";
  http_status = 0;
  result = "";
  result_digest = "";
  response_ref = "";
  created_at = 0;
  updated_at = 0;
  completed_at = none;
  expires_at = none;
}

abbrev pub begun : State × Result IdempotencyRecord → State × Begun
begun (s, ok r) = (s, record { claim = r; created = true; failure = none })
begun (s, err e) = (s, record { claim = no_claim; created = false; failure = some e })

abbrev pub undo_records : State → State → Option State
undo_records old s = some (record s { idempotency_records = old.idempotency_records })

-- the record of a new claim
unfoldable pub new_claim : Crypto → Call → String → IdempotencyRecord → IdempotencyRecord
unfolding assign_claim
new_claim k c token r =
    let at = if nat_eq r.created_at 0 then c.now else r.created_at in
    record (assign_claim k token (record r { status = pending; generation = 1 })) {
      created_at = at;
      updated_at = at;
    }

abbrev pub told : IdempotencyRecord → Option Err → Begun
told item e = record { claim = public_idempotency_record item; created = false; failure = e }

-- what an existing record of the scope answers
unfoldable pub answer_existing : IdempotencyRecord → IdempotencyRecord → Begun
answer_existing item r =
    if not (item.request_digest == r.request_digest)
    then told item (some idempotency_conflict)
    else if is_idempotency item.status succeeded
    then told item none
    else told item (some idempotency_pending)

unfoldable pub claim_scope :
    Crypto → Call → Result String → IdempotencyRecord → State → State × Begun
unfolding new_claim
claim_scope k c (err e) r s = (s, record { claim = no_claim; created = false; failure = some e })
claim_scope k c (ok token) r s = begun (
    save_locked c.saving
      (record s { idempotency_records = s.idempotency_records ++ new_claim k c token r ∷ [] })
      (undo_records s) (new_claim k c token r))

-- `BeginIdempotency`, with the outcome of `rand.Read`
unfoldable pub begin_idempotency :
    Crypto → Call → Result String → IdempotencyRecord → State → State × Begun
unfolding find same_scope answer_existing claim_scope
begin_idempotency k c random r s = elim (find (λ item. same_scope item r) s.idempotency_records) [
  | some item ↦ (s, answer_existing item r)
  | none ↦ claim_scope k c random r s
]

unfoldable pub completed_record :
    Crypto → Call → String → String → ℕ → IdempotencyRecord → IdempotencyRecord
unfolding result_digest
completed_record k c encoded ref status item = record item {
  status = succeeded;
  http_status = status;
  result = encoded;
  result_digest = result_digest k encoded ref status;
  response_ref = ref;
  updated_at = c.now;
  completed_at = some c.now;
  expires_at = some (c.now + 72 * hour);
}

-- the result is the one that was kept
unfoldable pub same_result : Crypto → String → String → ℕ → IdempotencyRecord → Bool
unfolding result_digest
same_result k encoded ref status item = not (
    not (item.response_ref == ref)
    || not (nat_eq item.http_status status)
    || item.result_digest == ""
    || not (item.result_digest == result_digest k encoded ref status))

abbrev pub published : State × Result IdempotencyRecord → State × Result IdempotencyRecord
published (s, ok r) = (s, ok (public_idempotency_record r))
published (s, err e) = (s, err e)

unfoldable pub complete_item :
    Crypto
    → Call
    → IdempotencyRecord
    → String
    → String
    → ℕ
    → IdempotencyRecord
    → State
    → State × Result IdempotencyRecord
unfolding same_request same_result matching_claim completed_record replace_first
complete_item k c r encoded ref status item s =
    if is_idempotency item.status succeeded
    then (if same_result k encoded ref status item
        then (s, ok (public_idempotency_record item))
        else (s, err idempotency_result_conflict))
    else if not (matching_claim k item r)
    then (s, err idempotency_claim_lost)
    else published (
        save_locked c.saving
          (record s {
            idempotency_records =
                replace_first (same_request r) (completed_record k c encoded ref status item)
                  s.idempotency_records;
          })
          (undo_records s) (completed_record k c encoded ref status item))

-- `CompleteIdempotency`, with the outcome of `json.Marshal`
unfoldable pub complete_idempotency :
    Crypto
    → Call
    → IdempotencyRecord
    → Result String
    → String
    → ℕ
    → State
    → State × Result IdempotencyRecord
unfolding find same_request complete_item
complete_idempotency k c r marshalled ref status s = elim marshalled [
  | err e ↦ (s, err e)
  | ok encoded ↦ elim (find (same_request r) s.idempotency_records) [
    | none ↦ (s, err not_found)
    | some item ↦ complete_item k c r encoded ref status item s
  ]
]

unfoldable pub is_pending_request : IdempotencyRecord → IdempotencyRecord → Bool
unfolding same_request
is_pending_request r item = same_request r item && is_idempotency item.status pending

-- `AbortIdempotency`
unfoldable pub abort_idempotency :
    Crypto → Call → IdempotencyRecord → State → State × Result (Unit {0})
unfolding find is_pending_request matching_claim drop_first
abort_idempotency k c r s = elim (find (is_pending_request r) s.idempotency_records) [
  | none ↦ (s, ok tt)
  | some item ↦
      if not (matching_claim k item r)
      then (s, err idempotency_claim_lost)
      else save_locked c.saving
          (record s {
            idempotency_records = drop_first (is_pending_request r) s.idempotency_records;
          })
          (undo_records s) tt
]

unfoldable pub taken_record : Crypto → Call → String → IdempotencyRecord → IdempotencyRecord
unfolding assign_claim
taken_record k c token item =
    record (assign_claim k token (record item { generation = item.generation + 1 })) {
      updated_at = c.now;
    }

-- the item under a new claim, once its old one is known to be current
unfoldable pub rotate_claim :
    Crypto
    → Call
    → Result String
    → IdempotencyRecord
    → IdempotencyRecord
    → State
    → State × Result IdempotencyRecord
unfolding same_request replace_first taken_record
rotate_claim k c (err e) observed item s = (
  record s {
    idempotency_records =
        replace_first (same_request observed) (record item { generation = item.generation + 1 })
          s.idempotency_records;
  },
  err e,
)
rotate_claim k c (ok token) observed item s =
    save_locked c.saving
      (record s {
        idempotency_records =
            replace_first (same_request observed) (taken_record k c token item)
              s.idempotency_records;
      })
      (undo_records s) (taken_record k c token item)

unfoldable pub take_item :
    Crypto
    → Call
    → Result String
    → IdempotencyRecord
    → IdempotencyRecord
    → State
    → State × Result IdempotencyRecord
unfolding rotate_claim
take_item k c random observed item s =
    if not (is_idempotency item.status pending)
      || nat_eq observed.generation 0
      || not (nat_eq item.generation observed.generation)
    then (s, err idempotency_claim_lost)
    else rotate_claim k c random observed item s

-- `TakeoverIdempotency`; if `rand.Read` fails, the raised generation stays in memory
unfoldable pub takeover_idempotency :
    Crypto → Call → Result String → IdempotencyRecord → State → State × Result IdempotencyRecord
unfolding find same_request take_item
takeover_idempotency k c random observed s =
    elim (find (same_request observed) s.idempotency_records) [
      | none ↦ (s, err not_found)
      | some item ↦ take_item k c random observed item s
    ]

abbrev pub is_removable : String → Time → IdempotencyRecord → Bool
is_removable org at item =
    item.organization_id == org
    && is_idempotency item.status succeeded
    && elim item.expires_at [ none ↦ false | some t ↦ leb t at ]

-- the loop of `CleanupExpiredIdempotency`: the count and what is kept
unfoldable pub cleaned : String → Time → ℕ → ℕ → List IdempotencyRecord → ℕ × List IdempotencyRecord
cleaned org at limit removed [] = (removed, [])
cleaned org at limit removed (item ∷ items) =
    let hit = ltb removed limit && is_removable org at item in
    let (n, kept) = cleaned org at limit (if hit then removed + 1 else removed) items in
    (n, if hit then kept else item ∷ kept)

abbrev pub limit_of : ℕ → ℕ
limit_of n = if nat_eq n 0 || ltb 1000 n then 100 else n

-- `CleanupExpiredIdempotency`
unfoldable pub cleanup_expired_idempotency : Call → String → Time → ℕ → State → State × Result ℕ
unfolding cleaned
cleanup_expired_idempotency c org at limit s =
    let (removed, kept) = cleaned org at (limit_of limit) 0 s.idempotency_records in
    if nat_eq removed 0
    then (s, ok 0)
    else save_locked c.saving (record s { idempotency_records = kept }) (λ r. some r) removed
