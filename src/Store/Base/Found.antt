-- ===== src/Store/Base/Found.antt =====
-- A change that `Change` answers is one of the state.
use changeguard.Prelude.{String, ◌≡◌, ap, Option, none, some, arith, find}
use changeguard.Model.{ChangeRequest, ok, ok-injective}
use changeguard.Store.Base.{State, change, has_id, of_option}

pub change-found :
    (id : String) (s : State) (x : ChangeRequest)
    → change id s ≡ ok x
    → find (has_id id) s.changes ≡ some x
unfolding change
change-found id s x h = go (find (has_id id) s.changes) h
  where
    go : (o : Option ChangeRequest) → of_option o ≡ ok x → o ≡ some x
    go none h = absurd (ground arith)
    go (some y) h = ap (λ z. some z) (ok-injective y x h)
