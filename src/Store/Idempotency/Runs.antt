-- ===== src/Store/Idempotency/Runs.antt =====
-- The calls on the idempotency records, in any order.
use changeguard.Prelude.{ℕ, String, List}
use changeguard.Model.Status.{Time}
use changeguard.Model.{IdempotencyRecord, Result}
use changeguard.Crypto.{Crypto}
use changeguard.Store.Base.{State, Call, Restores}
use changeguard.Store.Idempotency.{
  begin_idempotency, complete_idempotency, abort_idempotency, takeover_idempotency,
  cleanup_expired_idempotency,
}
use changeguard.Store.Idempotency.Changes.{
  Changed, same, added, rewritten, shrunk, Changes-begin, Changes-complete, Changes-abort,
  Changes-takeover, Changes-cleanup,
}
use changeguard.Store.Idempotency.Unique.{Unique, Unique-replace, Unique-append, Unique-Part}

-- one call on the idempotency records
pub data Step (k : Crypto) : State → State → Type 0 where
  begin :
      {s : State} (c : Call) (random : Result String) (r : IdempotencyRecord)
      → Step k s (begin_idempotency k c random r s).0
  complete :
      {s : State} (c : Call) (r : IdempotencyRecord) (marshalled : Result String) (ref : String)
      (status : ℕ)
      → Step k s (complete_idempotency k c r marshalled ref status s).0
  abort : {s : State} (c : Call) (r : IdempotencyRecord) → Step k s (abort_idempotency k c r s).0
  takeover :
      {s : State} (c : Call) (random : Result String) (r : IdempotencyRecord)
      → Step k s (takeover_idempotency k c random r s).0
  cleanup :
      {s : State} (c : Call) (org : String) (at : Time) (limit : ℕ)
      → Restores s c.saving
      → Step k s (cleanup_expired_idempotency c org at limit s).0

infixr 5 ◌then◌
pub data Run (k : Crypto) : State → State → Type 0 where
  stop : {s : State} → Run k s s
  ◌then◌ : {s t u : State} → Step k s t → Run k t u → Run k s u

pub Step-Changed :
    {k : Crypto} {s t : State} → Step k s t → Changed k s.idempotency_records t.idempotency_records
Step-Changed {k = k} {s = s} (begin c random r) = Changes-begin k c s random r
Step-Changed {k = k} {s = s} (complete c r m ref status) = Changes-complete k c s r m ref status
Step-Changed {k = k} {s = s} (abort c r) = Changes-abort k c s r
Step-Changed {k = k} {s = s} (takeover c random r) = Changes-takeover k c s random r
Step-Changed {k = k} {s = s} (cleanup c org at limit h) = Changes-cleanup k c s org at limit h

-- what every change of the records preserves, every run preserves
pub Run-preserves :
    {k : Crypto} (P : List IdempotencyRecord → Type 0)
    → ((xs ys : List IdempotencyRecord) → Changed k xs ys → P xs → P ys)
    → {s t : State} → Run k s t
    → P s.idempotency_records
    → P t.idempotency_records
Run-preserves P one stop u = u
Run-preserves P one (◌then◌ step run) u = Run-preserves P one run (one _ _ (Step-Changed step) u)

Changed-Unique :
    (k : Crypto) (xs ys : List IdempotencyRecord) → Changed k xs ys → Unique xs → Unique ys
Changed-Unique k xs ys same u = u
Changed-Unique k xs ys (added v free p) u = Unique-append v xs free u
Changed-Unique k xs ys (rewritten p item v f n e e' d i) u = Unique-replace p item v xs f e e' u
Changed-Unique k xs ys (shrunk part) u = Unique-Part part u

-- In every state that calls on the idempotency records lead to from one with at most one record for
-- each scope there is again at most one, failing calls included, if a failed cleanup restores the
-- last saved state.
pub Run-Unique :
    {k : Crypto} {s t : State}
    → Run k s t
    → Unique s.idempotency_records
    → Unique t.idempotency_records
Run-Unique {k = k} = Run-preserves Unique (Changed-Unique k)
