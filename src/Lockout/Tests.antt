-- ===== src/Lockout/Tests.antt =====
-- The tracker of api/shared/authlockout.go with room for one identity.
use authserver.Common.{false, List, some, [], ◌∷◌, ◌≡◌, refl, arith, leb, In}
use authserver.Store.Table.{find}
use authserver.Lockout.{
  Config, FailState, Entry, AuthLockout, has_key, record_failure, verdict, matters, no_failures,
}
use authserver.Lockout.Laws.{Keyed}
use authserver.Lockout.Tracker.{Sound, record_failure-Sound, record_failure-Locked}
use authserver.Lockout.Sweep.{sweep-verdict}
use authserver.Lockout.Threshold.{failures, failures-engage}

abbrev config : Config
config = record { auth_fail_max = 3; auth_fail_window = 100; auth_lockout = 500; max_entries = 1 }

abbrev locked : Entry
locked = record {
  key = "victim";
  state = record { fail_count = 0; first_failure = 10; locked_until = 600 };
}

abbrev tracker : AuthLockout
tracker = record { states = locked ∷ []; refusing_warned = false }

abbrev in_order : List Entry → List Entry
in_order es = es

visits : (es : List Entry) (e : Entry) → In e (in_order es) → In e es
visits es e h = h

tracker-Sound : Sound in_order config visits tracker
unfolding Keyed
tracker-Sound = record { keyed = (refl, tt); bounded = omega arith }

record_failure-Sound_example :
    Sound in_order config visits (record_failure in_order config 200 "other" tracker).0
record_failure-Sound_example =
    record_failure-Sound in_order config visits 200 "other" tracker tracker-Sound

record_failure-Locked_example :
    find (has_key "victim") (record_failure in_order config 200 "other" tracker).0.states
    ≡ some locked
record_failure-Locked_example =
    record_failure-Locked in_order config visits 200 "other" "victim" locked tracker tracker-Sound
      refl refl

abbrev stale : FailState
stale = record { fail_count = 2; first_failure = 10; locked_until = 0 }

is_stale : matters config 200 stale ≡ false
unfolding matters
is_stale = refl

sweep-verdict_example : verdict config 300 stale ≡ verdict config 300 no_failures
sweep-verdict_example = sweep-verdict config 200 300 stale is_stale (omega arith)

failures-engage_example :
    (verdict config 30 (failures config (10 ∷ 20 ∷ []) no_failures)).engaged ≡ leb 3 3
failures-engage_example =
    failures-engage config 10 30 (20 ∷ []) ((omega arith, omega arith), tt)
      (omega arith, omega arith) (omega arith)
