-- ===== src/Executor/Recovery.antt =====
-- executor/recovery.py: `CircuitBreaker` and `ReplayProtection`. `now` is what `time.time()`
-- returns in the call. Logging, the metrics counter and the webhook are left out: they change no
-- state of the two objects.
pub mod Breaker
pub mod Window
pub mod Replay
mod Tests
use peanut_trade_internship.Base.{
  ℕ, String, Bool, true, false, Option, none, some, List, [], ◌∷◌, ◌++◌, leb, length, if◌then◌else◌,
  select, string_eq,
}
use peanut_trade_internship.Base.Int.{ℤ, pos, ◌-ℤ◌, ltb_ℤ, max_ℤ}
use peanut_trade_internship.Base.Dict.{Dict, insert, contains}

pub record CircuitBreakerConfig : Type 0 where
  pub failure_threshold : ℕ
  pub window_seconds : ℤ
  pub cooldown_seconds : ℤ

pub record CircuitBreaker : Type 0 where
  pub config : CircuitBreakerConfig
  pub failures : List ℤ
  pub tripped_at : Option ℤ
  pub probe_allowed : Bool

-- `CircuitBreaker.__init__`
abbrev pub new_breaker : CircuitBreakerConfig → CircuitBreaker
new_breaker config = record {
  config = config;
  failures = [];
  tripped_at = none;
  probe_allowed = false;
}

unfoldable pub trip : CircuitBreaker → ℤ → CircuitBreaker
trip b now = record b { tripped_at = some now; probe_allowed = false }

unfoldable pub record_failure : CircuitBreaker → ℤ → CircuitBreaker
unfolding trip
record_failure b now =
    if b.probe_allowed
    then record b { probe_allowed = false; tripped_at = some now }
    else let cutoff = now -ℤ b.config.window_seconds in
      let kept = select (λ t. ltb_ℤ cutoff t) (b.failures ++ now ∷ []) in
      let b' = record b { failures = kept } in
      if leb b'.config.failure_threshold (length b'.failures) then trip b' now else b'

unfoldable pub record_success : CircuitBreaker → CircuitBreaker
record_success b =
    if b.probe_allowed
    then record b { probe_allowed = false; tripped_at = none; failures = [] }
    else b

-- `is_open`, on the value of `tripped_at`.
unfoldable pub is_open_at : Option ℤ → CircuitBreaker → ℤ → Bool × CircuitBreaker
is_open_at none b now = (false, b)
is_open_at (some tripped) b now =
    if ltb_ℤ b.config.cooldown_seconds (now -ℤ tripped)
    then (false, record b { tripped_at = none; failures = []; probe_allowed = true })
    else (true, b)

-- The answer, and the breaker after the call: an elapsed cooldown opens the half-open state.
unfoldable pub is_open : CircuitBreaker → ℤ → Bool × CircuitBreaker
unfolding is_open_at
is_open b now = is_open_at b.tripped_at b now

time_until_reset_at : Option ℤ → CircuitBreaker → ℤ → ℤ
time_until_reset_at none b now = pos 0
time_until_reset_at (some tripped) b now =
    max_ℤ (pos 0) (b.config.cooldown_seconds -ℤ (now -ℤ tripped))

pub time_until_reset : CircuitBreaker → ℤ → ℤ
unfolding time_until_reset_at
time_until_reset b now = time_until_reset_at b.tripped_at b now

pub record ReplayProtection : Type 0 where
  pub executed : Dict String ℤ
  pub ttl : ℤ

unfoldable pub cleanup : ReplayProtection → ℤ → ReplayProtection
cleanup r now =
    let cutoff = now -ℤ r.ttl in
    record r { executed = select (λ entry. ltb_ℤ cutoff entry.1) r.executed }

-- `is_duplicate` of the signal with this id: the answer, and the guard after its clean-up.
unfoldable pub is_duplicate : ReplayProtection → String → ℤ → Bool × ReplayProtection
unfolding cleanup
is_duplicate r signal_id now = let r' = cleanup r now in (contains signal_id r'.executed, r')

unfoldable pub mark_executed : ReplayProtection → String → ℤ → ReplayProtection
mark_executed r signal_id now = record r { executed = insert signal_id now r.executed }
