-- ===== src/Tests/Audit.antt =====
-- Two events on an empty log, and two policies in both orders.
use mathlib.Core.List.Perm
use changeguard.Prelude.{
  String, ◌≡◌, ◌≢◌, refl, arith, length, eq_iff, List, true, false, ◌==◌, none, [], ◌∷◌, trim_space,
  lower, if◌then◌else◌, Bool-cases, inl, inr,
}
use changeguard.Model.Status.{low}
use changeguard.Model.{RiskPolicy, AuditEvent}
use changeguard.Crypto.{Crypto}
use changeguard.Audit.Chain.{verify_events, expected_prev}
use changeguard.Audit.{normalize, canonical, digest}
use changeguard.Audit.Tamper.{IsLog, CollisionFree, last_hash, verify_events-same}
use changeguard.Audit.Appended.{IsChain, IsHexDigest}
use changeguard.Changegate.Rules.{rule_set_version}
use changeguard.Changegate.Rules.Order.{rule_set_version-Perm}
use changeguard.Store.Base.{append_audits}
use changeguard.Store.Base.Audited.{append_audits-IsChain}
use changeguard.Tests.Fixtures.{crypto, call, empty_state, note}

-- a stand-in for the digest that tells the first event of a chain from the others
abbrev hashes : Crypto
hashes = record { sha256 = λ s. s; digest = λ e. if e.prev_hash == "" then "d0" else "d1" }

hashes-IsHexDigest : IsHexDigest hashes.digest
unfolding lower trim_space
hashes-IsHexDigest = record {
  hex = λ e. elim (Bool-cases (e.prev_hash == "")) [ inl h ↦ rw h refl | inr h ↦ rw h refl ];
  filled = λ e. elim (Bool-cases (e.prev_hash == "")) [ inl h ↦ rw h refl | inr h ↦ rw h refl ];
}

append_audits-IsChain_example :
    IsChain hashes.digest
      (append_audits hashes
        (call 7)
        (note ∷ record note { id = "audit_2" } ∷ [])
        empty_state).audits
unfolding trim_space verify_events
append_audits-IsChain_example =
    append_audits-IsChain hashes hashes-IsHexDigest (call 7)
      (note ∷ record note { id = "audit_2" } ∷ []) empty_state (refl, (refl, tt))
      (record { normal = tt; verified = refl })

abbrev policy : String → RiskPolicy
policy code = record {
  organization_id = "org";
  id = code;
  code = code;
  pattern = "DROP";
  severity = low;
  blocking = true;
  enabled = true;
  builtin = false;
  environments = "production" ∷ [];
  change_types = [];
  artifact_kinds = [];
  version = 1;
  hit_count = 0;
  last_hit_at = none;
  updated_at = 0;
}

rule_set_version-Perm_example :
    rule_set_version crypto (policy "A" ∷ policy "B" ∷ [])
    ≡ rule_set_version crypto (policy "B" ∷ policy "A" ∷ [])
rule_set_version-Perm_example =
    rule_set_version-Perm crypto (policy "A" ∷ policy "B" ∷ []) (policy "B" ∷ policy "A" ∷ [])
      (Perm.swap (policy "B") (policy "A") [])

-- the log that the two events make
abbrev log : List AuditEvent
log =
    (append_audits hashes (call 7) (note ∷ record note { id = "audit_2" } ∷ []) empty_state).audits

-- and the one that they make in two writes
abbrev slow_log : List AuditEvent
slow_log =
    (append_audits hashes (call 7) (record note { id = "audit_2" } ∷ [])
      (append_audits hashes (call 7) (note ∷ []) empty_state)).audits

slow_log-IsLog : IsLog "org" slow_log
unfolding append_audits normalize
slow_log-IsLog = (refl, refl, refl, (refl, refl, refl, tt))

slow_log_verified : verify_events hashes.digest slow_log ≡ none
unfolding append_audits verify_events
slow_log_verified = refl

same_last : last_hash hashes.digest none log ≡ last_hash hashes.digest none slow_log
unfolding append_audits expected_prev
same_last = refl

same_length : length log ≡ length slow_log
unfolding append_audits
same_length = refl

log-IsLog : IsLog "org" log
unfolding append_audits normalize
log-IsLog = (refl, refl, refl, (refl, refl, refl, tt))

log_verified : verify_events hashes.digest log ≡ none
unfolding append_audits verify_events
log_verified = refl

apart : (a b : String) → (a == b) ≡ false → a ≢ b
apart a b n h = ground (arith, (eq_iff a b).1 h)

log-CollisionFree : CollisionFree hashes.digest log slow_log
unfolding append_audits digest canonical normalize
log-CollisionFree = (
  ((λ h. refl), ((λ h. absurd (apart "d0" "d1" refl h)), tt)),
  (((λ h. absurd (apart "d1" "d0" refl h)), ((λ h. refl), tt)), tt),
)

verify_events-same_example : log ≡ slow_log
verify_events-same_example =
    verify_events-same hashes.digest "org" log slow_log log-IsLog slow_log-IsLog log_verified
      slow_log_verified log-CollisionFree same_length same_last
