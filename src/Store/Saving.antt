-- ===== src/Store/Saving.antt =====
-- What a write that succeeds or fails leaves behind.
use changeguard.Prelude.{◌≡◌, Option, none, some, arith}
use changeguard.Model.{Err, ok, err}
use changeguard.Store.Base.{State, Saving, saved, failed, save_locked, Restores}

module _ {A : Type 0} where
  -- an operation that returns a result has been saved
  pub save_locked-ok :
      (w : Saving) (u t : State) (undo : State → Option State) (a b : A)
      → save_locked w u undo a ≡ (t, ok b)
      → (t ≡ u) × (b ≡ a)
  save_locked-ok saved u t undo a b h = ground arith
  save_locked-ok (failed e none) u t undo a b h = ground arith
  save_locked-ok (failed e (some r)) u t undo a b h = ground arith

  -- an undo that brings back the old state, from the new state and from itself, makes the
  -- operation atomic
  pub save_locked-err :
      (s u t : State) (w : Saving) (undo : State → Option State) (a : A) (e : Err)
      → Restores s w
      → undo u ≡ some s
      → undo s ≡ some s
      → save_locked w u undo a ≡ (t, err e)
      → t ≡ s
  save_locked-err s u t saved undo a e r hu hs h = ground arith
  save_locked-err s u t (failed e' none) undo a e r hu hs h = ground arith
  save_locked-err s u t (failed e' (some r')) undo a e r hu hs h = ground arith
