-- ===== src/Model/Status.antt =====
-- internal/model: the string constants that the program compares, as enumerations. A constructor
-- named unset is Go's empty string, where the code gives it a meaning.
use changeguard.Prelude.{ℕ, ◌≡◌, Bool, true, false, arith, nat_eq}

-- times are nanoseconds since Go's zero time, and 0 is the zero `time.Time`
abbrev pub Time : Type 0
Time = ℕ

abbrev pub second : ℕ
second = 1_000_000_000

abbrev pub minute : ℕ
minute = 60_000_000_000

abbrev pub hour : ℕ
hour = 3_600_000_000_000

pub data RiskLevel : Type 0 where
  unknown low medium high : RiskLevel

pub data FindingStatus : Type 0 where
  unset open_finding assigned resolved verified : FindingStatus

pub data ChangeStatus : Type 0 where
  draft checking check_failed ready_for_experiment experiment_queued experiment_running
        waiting_approval approved rejected completed :
      ChangeStatus

pub data PassportStatus : Type 0 where
  active consumed revoked expired : PassportStatus

pub data CheckStatus : Type 0 where
  passed blocked : CheckStatus

pub data IdempotencyStatus : Type 0 where
  unset pending succeeded : IdempotencyStatus

pub data InviteStatus : Type 0 where
  pending accepted revoked expired : InviteStatus

pub data OutboxStatus : Type 0 where
  unset pending processing completed dead : OutboxStatus

pub data OutboxStage : Type 0 where
  unset prepare apply finalize : OutboxStage

abbrev change_rank : ChangeStatus → ℕ
change_rank draft = 0
change_rank checking = 1
change_rank check_failed = 2
change_rank ready_for_experiment = 3
change_rank experiment_queued = 4
change_rank experiment_running = 5
change_rank waiting_approval = 6
change_rank approved = 7
change_rank rejected = 8
change_rank ChangeStatus.completed = 9

-- `==` on statuses
abbrev pub is_change : ChangeStatus → ChangeStatus → Bool
is_change s t = nat_eq (change_rank s) (change_rank t)

abbrev passport_rank : PassportStatus → ℕ
passport_rank active = 0
passport_rank consumed = 1
passport_rank revoked = 2
passport_rank expired = 3

abbrev pub is_passport : PassportStatus → PassportStatus → Bool
is_passport s t = nat_eq (passport_rank s) (passport_rank t)

abbrev outbox_rank : OutboxStatus → ℕ
outbox_rank OutboxStatus.unset = 0
outbox_rank OutboxStatus.pending = 1
outbox_rank processing = 2
outbox_rank OutboxStatus.completed = 3
outbox_rank dead = 4

abbrev pub is_outbox : OutboxStatus → OutboxStatus → Bool
is_outbox s t = nat_eq (outbox_rank s) (outbox_rank t)

abbrev stage_rank : OutboxStage → ℕ
stage_rank OutboxStage.unset = 0
stage_rank prepare = 1
stage_rank apply = 2
stage_rank finalize = 3

abbrev pub is_stage : OutboxStage → OutboxStage → Bool
is_stage s t = nat_eq (stage_rank s) (stage_rank t)

abbrev idempotency_rank : IdempotencyStatus → ℕ
idempotency_rank IdempotencyStatus.unset = 0
idempotency_rank pending = 1
idempotency_rank succeeded = 2

abbrev pub is_idempotency : IdempotencyStatus → IdempotencyStatus → Bool
is_idempotency s t = nat_eq (idempotency_rank s) (idempotency_rank t)

abbrev pub is_high : RiskLevel → Bool
is_high unknown = false
is_high low = false
is_high medium = false
is_high high = true

abbrev pub is_passed : CheckStatus → Bool
is_passed passed = true
is_passed blocked = false

abbrev finding_rank : FindingStatus → ℕ
finding_rank FindingStatus.unset = 0
finding_rank open_finding = 1
finding_rank assigned = 2
finding_rank resolved = 3
finding_rank verified = 4

abbrev pub is_finding : FindingStatus → FindingStatus → Bool
is_finding s t = nat_eq (finding_rank s) (finding_rank t)

pub is_change-eq : (s : ChangeStatus) → is_change s approved ≡ true → s ≡ approved
is_change-eq s h = ground arith

pub is_passport-eq : (s t : PassportStatus) → is_passport s t ≡ true → s ≡ t
is_passport-eq s t h = ground arith

pub is_idempotency-eq : (s : IdempotencyStatus) → is_idempotency s pending ≡ true → s ≡ pending
is_idempotency-eq s h = ground arith

pub is_succeeded-eq : (s : IdempotencyStatus) → is_idempotency s succeeded ≡ true → s ≡ succeeded
is_succeeded-eq s h = ground arith

abbrev pub is_invited : InviteStatus → Bool
is_invited InviteStatus.pending = true
is_invited InviteStatus.accepted = false
is_invited InviteStatus.revoked = false
is_invited InviteStatus.expired = false

pub is_invited-eq : (s : InviteStatus) → is_invited s ≡ true → s ≡ InviteStatus.pending
is_invited-eq s h = ground arith
