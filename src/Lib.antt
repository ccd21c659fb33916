-- ===== src/Lib.antt =====
-- ChangeGuard: a gate between an approved change and its release. A change request is checked
-- against an organization's rules, rehearsed, and approved by a reviewer who did not submit it; the
-- reviewer is issued a short-lived passport bound to the change's artifact, environment and rule
-- version; and CI consumes the passport once, which completes the change. This library models the
-- operations of the service and of the store that carry this flow.
--
-- The parts, and the source that each file translates (paths from the repository's root):
--
-- - Model: internal/model. Status has the string constants as enumerations, Types and Records the
--   structs, Error the sentinel errors of internal/store, internal/service and internal/changegate.
-- - Crypto: SHA-256 and the digest of an audit event's JSON, which come from Go's library. They are
--   arguments of every definition that uses them.
-- - Changegate/Token: internal/changegate/passport.go, Sign and Verify of a passport's claims. The HMAC,
--   the base64 and the JSON of Go's library are a `Codec`, with what the token relies on of them as its
--   laws: a code of 32 bytes, texts without a dot, and decoding that undoes encoding. The service sees
--   a signer as a record of `sign` and `verify`.
-- - Audit: internal/audit/audit.go, the payload of an event and its link to the one before (Audit), and
--   Verify of a log (Audit/Chain), whose two maps are functions from an organization's name.
-- - Changegate/Rules: RuleSetVersion of internal/changegate/integrity.go.
-- - Conflict: internal/conflict/detector.go, the radar of changes whose release windows overlap. Its
--   input is a record of the fields of a change request that it reads. What sqlTables, configKeys and
--   kubernetesObjects find in a text with regular expressions is an argument. A sort that may leave
--   equal elements in any order is an insertion sort, and the two maps of a pair are lists without
--   repetition.
-- - Store/Base: internal/store/store.go, the state, saveLocked and the audit log. An operation of the
--   store holds its lock, so it is a function from a state to the next state and its result. A `Call`
--   has what the operation takes from outside: the clock, the new identifiers, and whether the write
--   succeeds. A failed write puts the last saved state in place (restoreLocked) or finds none, and
--   then the operation's own undo runs on it.
-- - Store/Passport and Store/UsePassport: internal/store/passport.go. Store/Steps is the step relation
--   of these operations, in any order, with a clock that does not run backwards.
-- - Store/Changes: CreateChange and UpdateChange of internal/store/store.go. A callback is a function
--   from the change to the change and its error.
-- - Store/Outbox and Store/Experiments: internal/store/outbox.go, the transactional outbox with its
--   leases, and the operations that write an event together with its change.
-- - Store/Idempotency: internal/store/idempotency.go, claims of idempotency keys with generations.
-- - Service/Access, Service/Findings and Service/Review: internal/service/service.go, who may act on a
--   change, which findings block it, and Approve, Reject and Complete. Service/Queue has
--   QueueExperiment. Service/Remediation has AssignFinding, ResolveFinding and VerifyFinding; the format
--   of a time that AssignFinding prints is an argument.
-- - Service/Issue and Service/Gate: internal/service/passport.go, IssuePassport, VerifyGate and
--   RevokePassport, composed from the store's operations as the code composes them. The service reads
--   the state and then writes it in separate locked calls; no other request comes in between here.
--   Service/Issue/Rules has that the service, which sorts the policies, and the store, which does not,
--   compare the same version of the rules.
-- - Service/Idempotent: internal/service/idempotency.go. claimIdempotency and completeIdempotency poll
--   the store (Service/Idempotent), executeIdempotent is Execute for an operation and the JSON of its
--   answer. Operations has QueueExperimentIdempotent and ApproveIdempotent, Issue has
--   IssuePassportIdempotent, with what each looks for when a claim was left behind. A `World` gives
--   each poll its call of the store, its random bytes, and what other requests do to the state before
--   the next poll; the operation between claim and completion runs alone.
-- - Store/Members: internal/store/organization.go, enterprises, invitations, members and their grants.
--   Auth: internal/auth/enterprise.go, HandleMember for a PUT, with the user of the session and the
--   decoded input as arguments; a status of HTTP is the error that it stands for. Its checks and its
--   write are separate locked calls, and what other requests do between them is an argument.
-- - Store/Listing: OutboxByOrganization, PassportsByChange and PoliciesByOrganization, which sort by
--   insertion.
-- - Prelude: the functions of Go's strings package over the native strings, the loops over slices, and
--   their lemmas. Tests: runs at concrete inputs.
--
-- Bounds. Times are nanoseconds since Go's zero time, as natural numbers, and 0 is the zero time. A
-- lifetime that is asked for in seconds is a duration of 64 bits with its wrap-around. Letter case is
-- that of ASCII and the three letters that Go folds into it. A printed number has as much fuel as its
-- own value and one more, which is more than its digits. A wait of an idempotent request polls 501 times
-- at most: its deadline is five seconds after its start, and a pause takes ten milliseconds or more.
--
-- Not modelled: the PostgreSQL backend, which repeats the store's protocols in SQL; the rules that
-- the checker matches against SQL and manifests; the runner of rehearsals; sessions and passwords,
-- single sign-on, HTTP, the agent and the reports; CreateIdempotent, with the creation of a change.
-- Fields that only these read are left out of the records.
mod Tests
pub mod Audit
pub mod Auth
pub mod Changegate
pub mod Crypto
pub mod Conflict
pub mod Model
pub mod Prelude
pub mod Service
pub mod Store
