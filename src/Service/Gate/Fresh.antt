-- ===== src/Service/Gate/Fresh.antt =====
-- A passport of internal/service/passport.go from its issue to the gate.
use changeguard.Prelude.{
  ◌<◌, ◌≤◌, ◌+◌, ◌%◌, String, ◌≡◌, ◌≢◌, true, false, some, trim_space, equal_fold, ltb, byte_len,
}
use changeguard.Model.Status.{Time, second, approved, consumed}
use changeguard.Model.{
  ChangeRequest, Passport, PassportCredential, GateRequest, GateResult, Result, ok,
}
use changeguard.Crypto.{Crypto}
use changeguard.Changegate.Token.{PassportClaims, Codec, Bytes, signer_of}
use changeguard.Store.Base.{State, Call, change}
use changeguard.Store.UsePassport.{completed_change}
use changeguard.Service.Issue.{claims_of, new_passport, truncate}
use changeguard.Service.Issue.Requires.{IsIssued}
use changeguard.Service.Gate.{consumer_name}

-- What the gate answers to a fresh passport, and what it has stored of the change.
pub record IsReleased (change_id : String) (c' c₁' : Call) (req : GateRequest) (s : State)
    (cred : PassportCredential) (u : State × Result GateResult) : Type 0 where
  pub target : ChangeRequest
  pub approved_before : (change change_id s ≡ ok target) × (target.status ≡ approved)
  pub answer :
      u.1
      ≡ ok (record {
        passport = record cred.passport {
          status = consumed;
          consumed_at = some c'.now;
          consumed_by = consumer_name req.consumer;
        };
        replayed = false;
      })
  pub completed_after :
      change change_id u.0 ≡ ok (completed_change c₁' (consumer_name req.consumer) c'.now target)

module _ (codec : Codec) (key : Bytes) (k : Crypto) (default : Time) (c c₁ : Call)
    (change_id actor_id : String) (s t : State) (cred : PassportCredential)
    (r : IsIssued k (signer_of codec key) default c c₁ change_id actor_id s t cred) where
  abbrev target : ChangeRequest
  target = r.issuing.target

  abbrev until : Time
  until = truncate c.now + r.issuing.ttl

  abbrev held : Passport
  held = new_passport k r.issuing.id (truncate c.now) until cred.token target

  abbrev claims : PassportClaims
  claims = record (claims_of r.issuing.id (truncate c.now) until target) { version = 1 }

  -- the request shows the passport's token, artifact and environment to the gate in time
  module _ (c' c₁' : Call) (req : GateRequest) (shows : trim_space req.token ≡ cred.token)
      (artifact : equal_fold (trim_space req.artifact_sha256) target.artifact_sha256 ≡ true)
      (environment : equal_fold (trim_space req.environment) (trim_space target.environment) ≡ true)
      (short : ltb 200 (byte_len (consumer_name req.consumer)) ≡ false) (named : r.issuing.id ≢ "")
      (named_change : change_id ≢ "") (whole : until % second ≡ 0) (after : c.now ≤ c'.now)
      (live : c'.now < until) where
    abbrev consumed_passport : Passport
    consumed_passport = record cred.passport {
      status = consumed;
      consumed_at = some c'.now;
      consumed_by = consumer_name req.consumer;
    }
