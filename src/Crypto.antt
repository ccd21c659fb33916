-- ===== src/Crypto.antt =====
-- The hash functions that the program takes from Go's crypto packages: arguments of the model.
use changeguard.Prelude.{String}
use changeguard.Model.{AuditEvent}

pub record Crypto : Type 0 where
  -- SHA-256 of a text, in hexadecimal
  pub sha256 : String → String
  -- SHA-256 of the JSON of an audit event's canonical payload, in hexadecimal
  pub digest : AuditEvent → String
