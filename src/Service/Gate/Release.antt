-- ===== src/Service/Gate/Release.antt =====
-- `VerifyGate` of internal/service/passport.go for a usable passport.
use changeguard.Prelude.{
  String, ◌≡◌, ◌+◌, refl, sym, subst, true, false, some, arith, find, replace_first, find_holds,
  find-replace_first, find-replace_first_narrow,
}
use changeguard.Model.Status.{Time, ChangeStatus, consumed}
use changeguard.Model.{ChangeRequest, StoredPassport, GateRequest, GateResult, Result, ok}
use changeguard.Crypto.{Crypto}
use changeguard.Changegate.Token.{PassportClaims, Signer}
use changeguard.Store.Base.{State, Call, saved, has_id, append_audits}
use changeguard.Store.Passport.{has_passport_id, public_passport}
use changeguard.Store.UsePassport.{consumed_item, consumed_state, is_bound_change, completed_change}
use changeguard.Service.Gate.{consumer_name, verify_gate}
use changeguard.Service.Gate.Releasable.{IsReleasable, shown, again, bound_target, verify_gate-eq}

-- the state and the answer `out` of a gate that has consumed `item` of the change `x` for `consumer`
pub record IsRelease (at : Time) (consumer : String) (item : StoredPassport) (x : ChangeRequest)
    (t : State) (out : State × Result GateResult) : Type 0 where
  pub result : GateResult
  pub kept : StoredPassport
  pub closed : ChangeRequest
  pub answered : out.1 ≡ ok result
  pub fresh : result.replayed ≡ false
  pub shows : result.passport ≡ record kept.passport { token_sha256 = "" }
  pub used : kept.status ≡ consumed
  pub same_passport : kept ≡ record item {
    passport = record item.passport {
      status = consumed;
      consumed_at = some at;
      consumed_by = consumer;
    };
  }
  pub stored : find (has_passport_id item.id) out.0.passports ≡ some kept
  pub passports_written : out.0.passports ≡ replace_first (has_passport_id item.id) kept t.passports
  pub completed_now : closed.status ≡ ChangeStatus.completed
  pub same_change :
      (closed.id ≡ x.id)
      × (closed.organization_id ≡ x.organization_id)
      × (closed.artifact_sha256 ≡ x.artifact_sha256)
  pub version_raised : closed.version ≡ x.version + 1
  pub change_stored : find (has_id item.change_id) out.0.changes ≡ some closed
  pub changes_written : out.0.changes ≡ replace_first (is_bound_change item) closed t.changes
  pub rest_kept :
      out.0
      ≡ record t { passports = out.0.passports; changes = out.0.changes; audits = out.0.audits }

module _ (k : Crypto) (signer : Signer) (c c₁ c₂ : Call) (req : GateRequest) (t : State)
    (item : StoredPassport) (x : ChangeRequest) (claims : PassportClaims)
    (r : IsReleasable k signer c req t item x claims) where
  bound_now : is_bound_change item x ≡ true
  bound_now =
      find_holds (is_bound_change item) t.changes x
        (bound_target k signer c c₁ c₂ req t item x claims r)

  -- The gate consumes a usable passport of an approved change for a request that shows its token, its
  -- artifact and its environment before it expires, if the write succeeds: the answer is the passport
  -- and no replay, the passport is stored as consumed at the time of the call by the consumer that the
  -- request names, the change is stored as completed with its version raised by one in the same write,
  -- and nothing else is written but the audit log.
  pub verify_gate-releases :
      c₁.saving ≡ saved
      → IsRelease c.now
          (consumer_name req.consumer)
          item
          x
          t
          (verify_gate k (some signer) c c₁ c₂ req true t)
  unfolding consumed_state append_audits public_passport
  verify_gate-releases w =
      let same = again k signer c c₁ c₂ req t item x claims r in
      subst (IsRelease c.now (consumer_name req.consumer) item x t)
        (sym (verify_gate-eq k signer c c₁ c₂ req t item x claims r w))
        (record {
          result = record {
            passport = shown k signer c c₁ c₂ req t item x claims r;
            replayed = false;
          };
          kept = consumed_item (consumer_name req.consumer) c.now item;
          closed = completed_change c₁ (consumer_name req.consumer) c.now x;
          answered = refl;
          fresh = refl;
          shows = refl;
          used = refl;
          same_passport = refl;
          stored =
              find-replace_first (has_passport_id item.id) t.passports
                (consumed_item (consumer_name req.consumer) c.now item) item same
                (find_holds (has_passport_id item.id) t.passports item same);
          passports_written = refl;
          completed_now = refl;
          same_change = (refl, refl, refl);
          version_raised = refl;
          change_stored =
              find-replace_first_narrow (has_id item.change_id) (is_bound_change item) t.changes
                (completed_change c₁ (consumer_name req.consumer) c.now x) x
                (λ y b. ground (arith, b)) r.target bound_now
                (find_holds (has_id item.change_id) t.changes x r.target);
          changes_written = refl;
          rest_kept = refl;
        })
