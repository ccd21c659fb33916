-- ===== src/Tests/Passports.antt =====
-- Passports: issued, consumed, replayed and revoked.
use changeguard.Prelude.{◌<◌, ◌≡◌, ◌⊎◌, refl, true, arith, find, trim_space}
use changeguard.Model.{Passport, passport_expired, passport_replay, Result, ok, err}
use changeguard.Store.Base.{State}
use changeguard.Store.Passport.{create_passport}
use changeguard.Store.UsePassport.{use_passport, consumed_item}
use changeguard.Store.UsePassport.Once.{consume_once, replay_answer}
use changeguard.Store.UsePassport.Consume.{consume_requires, Bound}
use changeguard.Store.UsePassport.Atomic.{use_passport-err, ExpiryRecorded}
use changeguard.Store.Steps.{Reach, here, next, create, use_it}
use changeguard.Store.Steps.Exclusive.{IsExclusive, live_count, Reach-IsExclusive}
use changeguard.Store.Steps.Advance.{AllLater, Reach-AllLater}
use changeguard.Tests.Fixtures.{crypto, call, state, empty_state, stored, note, passport}

abbrev used : State × Result Passport
used = use_passport crypto (call 20) "pass_1" "htoken" "gitlab" 20 true note state

abbrev spent : Passport
spent = (consumed_item "gitlab" 20 stored).passport

consumed_ok : used ≡ (used.0, ok spent)
unfolding use_passport trim_space
consumed_ok = refl

-- the same consumer is answered as before, and another one is refused
consume_once_example :
    use_passport crypto (call 30) "pass_1" "htoken" "jenkins" 30 true note used.0
    ≡ (used.0, replay_answer "gitlab" "jenkins" spent)
consume_once_example =
    consume_once crypto (call 20) (call 30) "pass_1" "htoken" "gitlab" "jenkins" 20 30 note note
      state used.0 spent consumed_ok

replay_refused : replay_answer "gitlab" "jenkins" spent ≡ err passport_replay
replay_refused = refl

replay_repeated : replay_answer "gitlab" "gitlab" spent ≡ ok spent
unfolding trim_space
replay_repeated = refl

consume_requires_example :
    (20 < stored.expires_at)
    × (stored.token_sha256_stored ≡ "htoken")
    × Bound crypto (call 20) "pass_1" "htoken" "gitlab" 20 note state used.0 spent stored
consume_requires_example =
    consume_requires crypto (call 20) "pass_1" "htoken" "gitlab" 20 note state used.0 spent stored
      (unfold find in refl) refl consumed_ok

abbrev late : State × Result Passport
late = use_passport crypto (call 900) "pass_1" "htoken" "gitlab" 900 true note state

late_expired : late ≡ (late.0, err passport_expired)
unfolding use_passport
late_expired = refl

use_passport-err_example :
    (late.0 ≡ state)
    ⊎ ((passport_expired ≡ passport_expired)
        × ExpiryRecorded crypto
            (call 900)
            "pass_1"
            "htoken"
            "gitlab"
            900
            true
            note
            state
            late.0
            passport_expired
            tt)
use_passport-err_example =
    use_passport-err crypto (call 900) "pass_1" "htoken" "gitlab" 900 true note state late.0
      passport_expired tt late_expired

-- a passport is issued to a change without one, and consumed
abbrev issued : State
issued = (create_passport crypto (call 10) passport note empty_state).0

abbrev completed : State
completed = (use_passport crypto (call 20) "pass_1" "htoken" "gitlab" 20 true note issued).0

history : Reach crypto 5 empty_state 20 completed
history =
    next (next here (create (call 10) passport note (omega arith) tt))
      (use_it (call 20) "pass_1" "htoken" "gitlab" 20 true note (omega arith) tt)

none_live : IsExclusive 5 empty_state.passports
unfolding live_count
none_live = record { at = λ org change_id. omega arith }

Reach-IsExclusive_example : IsExclusive 20 completed.passports
Reach-IsExclusive_example = Reach-IsExclusive history none_live

Reach-AllLater_example : AllLater empty_state.passports completed.passports
Reach-AllLater_example = Reach-AllLater history
