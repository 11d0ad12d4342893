-- ===== src/Lockout.antt =====
-- api/shared/authlockout.go: the lockout of identities after failed logins. A Go map is a list of
-- entries, and the order in which `range` visits it is the parameter `order`. The key that
-- `lockoutKey` makes of an identity and an address is an argument; log lines are left out, but for
-- the flag that holds them back.
pub mod Laws
pub mod Tracker
pub mod Sweep
pub mod Threshold
mod Tests
use authserver.Common.{
  String, ℕ, ◌+◌, ◌-◌, Bool, true, false, List, [], ◌∷◌, Option, none, some, if◌then◌else◌, ◌==◌,
  ◌&&◌, ◌||◌, not, ltb, leb, eqb, length, take, keep,
}
use authserver.Store.Table.{find, update}

pub record Config : Type 0 where
  pub auth_fail_max : ℕ
  pub auth_fail_window : ℕ
  pub auth_lockout : ℕ
  pub max_entries : ℕ

-- The zero `time.Time` is 0: every clock reading is after it.
pub record FailState : Type 0 where
  pub fail_count : ℕ
  pub first_failure : ℕ
  pub locked_until : ℕ

pub record Entry : Type 0 where
  pub key : String
  pub state : FailState

pub record AuthLockout : Type 0 where
  pub states : List Entry
  pub refusing_warned : Bool

abbrev pub has_key : String → Entry → Bool
has_key k e = e.key == k

abbrev pub is_locked : ℕ → FailState → Bool
is_locked now v = ltb now v.locked_until

abbrev pub no_failures : FailState
no_failures = record { fail_count = 0; first_failure = 0; locked_until = 0 }

-- `delete`.
abbrev pub delete : String → List Entry → List Entry
delete k es = keep (λ e. not (has_key k e)) es

abbrev pub better : Option Entry → Entry → Option Entry
better none e = some e
better (some b) e = if ltb e.state.fail_count b.state.fail_count then some e else some b

-- The loop of `evictOneLocked`: the first entry with the lowest count among those not locked.
unfoldable pub scan : ℕ → Option Entry → List Entry → Option Entry
scan now best [] = best
scan now best (e ∷ es) = scan now (if is_locked now e.state then best else better best e) es

abbrev pub sample_size : ℕ
sample_size = 64

abbrev pub drop_victim : List Entry → Option Entry → Option (List Entry)
drop_victim es none = none
drop_victim es (some v) = some (delete v.key es)

module _ (order : List Entry → List Entry) (cfg : Config) where
  unfoldable pub evict_one : ℕ → List Entry → Option (List Entry)
  unfolding scan
  evict_one now es = drop_victim es (scan now none (take sample_size (order es)))

  abbrev pub with_new : String → Option (List Entry) → Option (List Entry)
  with_new k none = none
  with_new k (some es) = some (record { key = k; state = no_failures } ∷ es)

  unfoldable pub make_room : ℕ → List Entry → Option (List Entry)
  make_room now es = if leb cfg.max_entries (length es) then evict_one now es else some es

  unfoldable pub admit_with : ℕ → String → List Entry → Option Entry → Option (List Entry)
  unfolding make_room
  admit_with now k es (some e) = some es
  admit_with now k es none = with_new k (make_room now es)

  -- The entries with one for the key, or nothing where the newcomer is refused.
  unfoldable pub admit : ℕ → String → List Entry → Option (List Entry)
  unfolding evict_one admit_with
  admit now k es = admit_with now k es (find (has_key k) es)

-- What `RecordFailure` returns; the zero time is 0.
pub record Verdict : Type 0 where
  pub until : ℕ
  pub engaged : Bool

module _ (cfg : Config) where
  -- How many failures count before this one.
  unfoldable pub counted : ℕ → FailState → ℕ
  counted now v =
      if ltb 0 v.fail_count && ltb cfg.auth_fail_window (now - v.first_failure)
      then 0
      else v.fail_count

  unfoldable pub first_of : ℕ → FailState → ℕ
  unfolding counted
  first_of now v = if eqb (counted now v) 0 then now else v.first_failure

  unfoldable pub engages : ℕ → FailState → Bool
  unfolding counted
  engages now v = leb cfg.auth_fail_max (counted now v + 1)

  -- One failure of an entry.
  unfoldable pub fail : ℕ → FailState → FailState
  unfolding counted first_of engages
  fail now v =
      if is_locked now v
      then v
      else if engages now v
      then record {
        fail_count = 0;
        first_failure = first_of now v;
        locked_until = now + cfg.auth_lockout;
      }
      else record {
        fail_count = counted now v + 1;
        first_failure = first_of now v;
        locked_until = v.locked_until;
      }

  unfoldable pub verdict : ℕ → FailState → Verdict
  unfolding engages
  verdict now v =
      if is_locked now v
      then record { until = v.locked_until; engaged = false }
      else if engages now v
      then record { until = now + cfg.auth_lockout; engaged = true }
      else record { until = 0; engaged = false }

  abbrev pub verdict_of : ℕ → Option Entry → Verdict
  verdict_of now none = record { until = 0; engaged = false }
  verdict_of now (some e) = verdict now e.state

abbrev pub fail_entry : Config → ℕ → Entry → Entry
fail_entry cfg now e = record e { state = fail cfg now e.state }

unfoldable pub record_admitted :
    Config → ℕ → String → AuthLockout → Option (List Entry) → AuthLockout × Verdict
unfolding fail verdict
record_admitted cfg now k a none =
    (record a { refusing_warned = true }, record { until = 0; engaged = false })
record_admitted cfg now k a (some es) = (
  record a { states = update (has_key k) (fail_entry cfg now) es },
  verdict_of cfg now (find (has_key k) es),
)

unfoldable pub record_failure :
    (List Entry → List Entry) → Config → ℕ → String → AuthLockout → AuthLockout × Verdict
unfolding record_admitted admit
record_failure order cfg now k a =
    if eqb cfg.auth_fail_max 0
    then (a, record { until = 0; engaged = false })
    else record_admitted cfg now k a (admit order cfg now k a.states)

abbrev pub deadline : ℕ → Option Entry → Option ℕ
deadline now none = none
deadline now (some e) = if is_locked now e.state then some e.state.locked_until else none

-- `LockedUntil`.
unfoldable pub locked_until_of : Config → ℕ → String → AuthLockout → Option ℕ
locked_until_of cfg now k a =
    if eqb cfg.auth_fail_max 0 then none else deadline now (find (has_key k) a.states)

unfoldable pub reset : String → AuthLockout → AuthLockout
reset k a = record a { states = delete k a.states }

-- Whether `sweep` leaves an entry.
unfoldable pub matters : Config → ℕ → FailState → Bool
matters cfg now v =
    is_locked now v || (ltb 0 v.fail_count && leb (now - v.first_failure) cfg.auth_fail_window)

unfoldable pub sweep : Config → ℕ → AuthLockout → AuthLockout
unfolding matters
sweep cfg now a = record {
  states = keep (λ e. matters cfg now e.state) a.states;
  refusing_warned = false;
}
