-- ===== src/Store/Steps.antt =====
-- The operations on passports as steps of a state that others share: any operation, with any
-- arguments and any answer of the disk, under a clock that does not run backwards.
pub mod Writes
pub mod Advance
pub mod Exclusive
use changeguard.Prelude.{◌≤◌, String, Bool}
use changeguard.Model.Status.{Time}
use changeguard.Model.{AuditEvent, Passport}
use changeguard.Crypto.{Crypto}
use changeguard.Store.Base.{State, Call, Restores}
use changeguard.Store.Passport.{create_passport}
use changeguard.Store.UsePassport.{use_passport, revoke_passport, revoke_passports_by_change}

pub data Step (k : Crypto) : Time → State → Time → State → Type 0 where
  create :
      {now : Time} {s : State} (c : Call) (p : Passport) (a : AuditEvent)
      → now ≤ c.now
      → Restores s c.saving
      → Step k now s c.now (create_passport k c p a s).0
  use_it :
      {now : Time} {s : State} (c : Call) (id token consumer : String) (at : Time) (consume : Bool)
      (a : AuditEvent)
      → now ≤ c.now
      → Restores s c.saving
      → Step k now s c.now (use_passport k c id token consumer at consume a s).0
  revoke :
      {now : Time} {s : State} (c : Call) (org id actor : String) (at : Time) (a : AuditEvent)
      → now ≤ c.now
      → Restores s c.saving
      → Step k now s c.now (revoke_passport k c org id actor at a s).0
  revoke_by_change :
      {now : Time} {s : State} (c : Call) (org change_id actor : String) (at : Time)
      (a : AuditEvent)
      → now ≤ c.now
      → Restores s c.saving
      → Step k now s c.now (revoke_passports_by_change k c org change_id actor at a s).0

-- any number of steps
pub data Reach (k : Crypto) (now : Time) (s : State) : Time → State → Type 0 where
  here : Reach k now s now s
  next :
      {now' now'' : Time} {t u : State}
      → Reach k now s now' t
      → Step k now' t now'' u
      → Reach k now s now'' u
