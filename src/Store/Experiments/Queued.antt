-- ===== src/Store/Experiments/Queued.antt =====
-- The state after `UpdateChangeWithOutbox` of internal/store/outbox.go.
use changeguard.Prelude.{
  String, ◌≡◌, ap, sym, ◌∙◌, Option, none, some, List, [], ◌∷◌, ◌++◌, arith, find, replace_first,
  Option-cases, inl, inr,
}
use changeguard.Model.{ChangeRequest, AuditEvent, OutboxEvent, Err, ok}
use changeguard.Crypto.{Crypto}
use changeguard.Store.Base.{State, Call, has_id, append_audits}
use changeguard.Store.Saving.{save_locked-ok}
use changeguard.Store.Changes.{Update, touched}
use changeguard.Store.Experiments.{
  queued_state, filled_event, finish_with_outbox, update_change_with_outbox,
}

-- the change that was written and the event that went with it
pub record IsWritten (k : Crypto) (c : Call) (id : String) (update : Update) (event : OutboxEvent)
    (s t : State) (y : ChangeRequest) : Type 0 where
  pub before : ChangeRequest
  pub found : find (has_id id) s.changes ≡ some before
  pub answer : y ≡ touched c (update before).0
  pub changes : t.changes ≡ replace_first (has_id id) y s.changes
  pub outbox : t.outbox ≡ s.outbox ++ filled_event c event ∷ []

module _ (k : Crypto) (c : Call) (id : String) (update : Update) (event : OutboxEvent)
    (audits : List AuditEvent) (s t : State) (y : ChangeRequest) where
  finish_with_outbox-ok :
      (u : ChangeRequest × Option Err)
      → finish_with_outbox k c id event audits s u ≡ (t, ok y)
      → (y ≡ touched c u.0) × (t ≡ queued_state k c id (touched c u.0) event audits s)
  finish_with_outbox-ok (x, some e) h = absurd (ground arith)
  finish_with_outbox-ok (x, none) h =
      let (state, answer) =
        save_locked-ok c.saving (queued_state k c id (touched c x) event audits s) t (λ r. some r)
          (touched c x) y h in
      (answer, state)

  pub update_change_with_outbox-IsWritten :
      update_change_with_outbox k c id update event audits s ≡ (t, ok y)
      → IsWritten k c id update event s t y
  unfolding update_change_with_outbox queued_state append_audits
  update_change_with_outbox-IsWritten h = elim (Option-cases (find (has_id id) s.changes)) [
    | inl f ↦ absurd (ground (arith, rw (f, update_change_with_outbox) at h))
    | inr (x, f) ↦
        let (answer, state) =
          finish_with_outbox-ok (update x) (rw (f, update_change_with_outbox) at h) in
        record {
          before = x;
          found = f;
          answer = answer;
          changes =
              ap (λ (u : State). u.changes) state
              ∙ ap (λ z. replace_first (has_id id) z s.changes) (sym answer);
          outbox = ap (λ (u : State). u.outbox) state;
        }
  ]
