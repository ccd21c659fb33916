-- ===== src/Store/Changes/Written.antt =====
-- What an update that was written leaves.
use changeguard.Prelude.{
  String, ◌≡◌, refl, Option, none, some, List, arith, find, find-replace_first, find_holds,
  Option-cases, inl, inr,
}
use changeguard.Model.{ChangeRequest, AuditEvent, Err, ok}
use changeguard.Crypto.{Crypto}
use changeguard.Store.Base.{State, Call, has_id, append_audits, change}
use changeguard.Store.Saving.{save_locked-ok}
use changeguard.Store.Changes.{Update, touched, written_state, update_change, finish_update}

-- the change that was there and what the callback made of it
pub record Written (k : Crypto) (c : Call) (id : String) (update : Update)
    (audits : List AuditEvent) (s t : State) (y : ChangeRequest) : Type 0 where
  pub old : ChangeRequest
  pub new : ChangeRequest
  pub found : find (has_id id) s.changes ≡ some old
  pub updated : update old ≡ (new, none)
  pub result : y ≡ touched c new
  pub state : t ≡ written_state k c id (touched c new) audits s

pub update_change-Written :
    (k : Crypto) (c : Call) (id : String) (update : Update) (audits : List AuditEvent) (s t : State)
    (y : ChangeRequest)
    → update_change k c id update audits s ≡ (t, ok y)
    → Written k c id update audits s t y
unfolding update_change
update_change-Written k c id update audits s t y h =
    elim (Option-cases (find (has_id id) s.changes)) [
      | inl f ↦ absurd (ground arith)
      | inr (x, f) ↦ finished x f (update x) refl (rw (f, update_change) at h)
    ]
  where
    finished :
        (x : ChangeRequest)
        → find (has_id id) s.changes ≡ some x
        → (r : ChangeRequest × Option Err) → update x ≡ r
        → finish_update k c id audits s r ≡ (t, ok y)
        → Written k c id update audits s t y
    finished x f (x', some e) u h = absurd (ground arith)
    finished x f (x', none) u h =
        let (te, ye) =
          save_locked-ok c.saving (written_state k c id (touched c x') audits s) t (λ r. some r)
            (touched c x') y h in
        record { old = x; new = x'; found = f; updated = u; result = ye; state = te }

pub written_state-change :
    (k : Crypto) (c : Call) (id : String) (old new : ChangeRequest) (audits : List AuditEvent)
    (s : State)
    → find (has_id id) s.changes ≡ some old
    → new.id ≡ old.id
    → change id (written_state k c id (touched c new) audits s) ≡ ok (touched c new)
unfolding change written_state append_audits
written_state-change k c id old new audits s f e =
    rw
      (find-replace_first (has_id id) s.changes (touched c new) old f
        (rw e (find_holds (has_id id) s.changes old f)))
      refl
