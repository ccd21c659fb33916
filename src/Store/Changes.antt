-- ===== src/Store/Changes.antt =====
-- internal/store/store.go: writing change requests. A callback mutates the request in place and
-- may fail; what it wrote before it failed is in the first part of its answer.
pub mod Written
use changeguard.Prelude.{
  ℕ, ◌+◌, String, Bool, Option, none, some, List, [], ◌∷◌, ◌++◌, find, replace_first,
}
use changeguard.Model.{ChangeRequest, AuditEvent, Err, not_found, Result, ok, err}
use changeguard.Crypto.{Crypto}
use changeguard.Store.Base.{State, Call, save_locked, append_audits, has_id}

abbrev pub Update : Type 0
Update = ChangeRequest → ChangeRequest × Option Err

-- the update time and the version of a change that was written
abbrev pub touched : Call → ChangeRequest → ChangeRequest
touched c x = record x { updated_at = c.now; version = x.version + 1 }

unfoldable pub create_change :
    Crypto → Call → ChangeRequest → AuditEvent → State → State × Result (Unit {0})
unfolding append_audits
create_change k c x a s =
    save_locked c.saving (append_audits k c (a ∷ []) (record s { changes = s.changes ++ x ∷ [] }))
      (λ r. some r) tt

unfoldable pub written_state :
    Crypto → Call → String → ChangeRequest → List AuditEvent → State → State
unfolding append_audits replace_first
written_state k c id x audits s =
    append_audits k c audits (record s { changes = replace_first (has_id id) x s.changes })

abbrev pub finish_update :
    Crypto
    → Call
    → String
    → List AuditEvent
    → State
    → ChangeRequest × Option Err
    → State × Result ChangeRequest
finish_update k c id audits s (x, some e) =
    (record s { changes = replace_first (has_id id) x s.changes }, err e)
finish_update k c id audits s (x, none) =
    save_locked c.saving (written_state k c id (touched c x) audits s) (λ r. some r) (touched c x)

-- `UpdateChange`
unfoldable pub update_change :
    Crypto → Call → String → Update → List AuditEvent → State → State × Result ChangeRequest
unfolding find written_state
update_change k c id update audits s = elim (find (has_id id) s.changes) [
  | none ↦ (s, err not_found)
  | some x ↦ finish_update k c id audits s (update x)
]
