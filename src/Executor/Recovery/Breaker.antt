-- ===== src/Executor/Recovery/Breaker.antt =====
-- The circuit breaker of executor/recovery.py as a state machine, and its timing.
use peanut_trade_internship.Base.{
  Option-cases, Bool-cases, ◌∷◌, ◌++◌, select, leb, ◌≤◌, ℕ, ◌<◌, Bool, true, false, Option, none,
  some, [], ◌≡◌, inl, inr, arith, length,
}
use peanut_trade_internship.Base.Int.{ℤ, pos, ◌-ℤ◌, ◌≤ℤ◌, ◌<ℤ◌, -ℤ_parts, ltb_ℤ}
use peanut_trade_internship.Executor.Recovery.{
  CircuitBreaker, trip, record_failure, record_success, is_open, time_until_reset,
}

-- The three states of the pattern.
pub data Mode : Type 0 where
  closed : Mode
  opened : ℤ → Mode
  half_open : Mode

mode_of : Option ℤ → Bool → Mode
mode_of (some t) p = Mode.opened t
mode_of none true = Mode.half_open
mode_of none false = Mode.closed

abbrev pub mode : CircuitBreaker → Mode
unfolding mode_of
mode b = mode_of b.tripped_at b.probe_allowed

-- A probe is allowed only while the breaker is not tripped and has counted no failure; a breaker
-- that is not tripped has counted fewer failures than the threshold.
pub record IsValid (b : CircuitBreaker) : Type 0 where
  pub threshold_pos : 0 < b.config.failure_threshold
  pub probe_untripped : b.probe_allowed ≡ true → b.tripped_at ≡ none
  pub probe_clean : b.probe_allowed ≡ true → length b.failures ≡ 0
  pub below_threshold : b.tripped_at ≡ none → length b.failures < b.config.failure_threshold

-- What a client can do to a breaker.
pub data Call : Type 0 where
  failure success query : ℤ → Call

pub run : CircuitBreaker → Call → CircuitBreaker
run b (Call.failure now) = record_failure b now
run b (Call.success now) = record_success b
run b (Call.query now) = (is_open b now).1

-- Every call keeps a well-formed breaker well-formed: its failures stay below the threshold while it is not
-- tripped, and a probe is allowed only then, with no failure counted.
pub run-IsValid : (b : CircuitBreaker) (c : Call) → IsValid b → IsValid (run b c)
unfolding run record_failure record_success is_open
run-IsValid b (Call.failure now) v = ground arith
run-IsValid b (Call.success now) v = ground arith
run-IsValid b (Call.query now) v = ground arith

-- The failures that count at `now`: those of the window, and the one that happens now.
abbrev pub recent : CircuitBreaker → ℤ → ℕ
recent b now =
    length (select (λ t. ltb_ℤ (now -ℤ b.config.window_seconds) t) (b.failures ++ now ∷ []))

-- What each call does in each mode: one rule for every case. A failure trips a breaker exactly if
-- with it the threshold of recent failures is reached, and a half-open one in any case; a success
-- ends a probe alone; an opened breaker that is asked becomes half-open exactly after the cooldown.
pub data Transition (b : CircuitBreaker) : Call → Mode → Mode → Type 0 where
  counts :
      (now : ℤ)
      → recent b now < b.config.failure_threshold
      → Transition b (Call.failure now) Mode.closed Mode.closed
  trips :
      (now : ℤ)
      → b.config.failure_threshold ≤ recent b now
      → Transition b (Call.failure now) Mode.closed (Mode.opened now)
  counts_opened :
      (now t : ℤ)
      → recent b now < b.config.failure_threshold
      → Transition b (Call.failure now) (Mode.opened t) (Mode.opened t)
  trips_again :
      (now t : ℤ)
      → b.config.failure_threshold ≤ recent b now
      → Transition b (Call.failure now) (Mode.opened t) (Mode.opened now)
  probe_fails : (now : ℤ) → Transition b (Call.failure now) Mode.half_open (Mode.opened now)
  probe_succeeds : (now : ℤ) → Transition b (Call.success now) Mode.half_open Mode.closed
  goes_on : (now : ℤ) → Transition b (Call.success now) Mode.closed Mode.closed
  stays_opened : (now t : ℤ) → Transition b (Call.success now) (Mode.opened t) (Mode.opened t)
  waits :
      (now t : ℤ)
      → now -ℤ t ≤ℤ b.config.cooldown_seconds
      → Transition b (Call.query now) (Mode.opened t) (Mode.opened t)
  cools_down :
      (now t : ℤ)
      → b.config.cooldown_seconds <ℤ now -ℤ t
      → Transition b (Call.query now) (Mode.opened t) Mode.half_open
  asked_closed : (now : ℤ) → Transition b (Call.query now) Mode.closed Mode.closed
  asked_half_open : (now : ℤ) → Transition b (Call.query now) Mode.half_open Mode.half_open

data Cases (b : CircuitBreaker) : Type 0 where
  is_closed : b.tripped_at ≡ none → b.probe_allowed ≡ false → Cases b
  is_opened : (t : ℤ) → b.tripped_at ≡ some t → b.probe_allowed ≡ false → Cases b
  is_half_open : b.tripped_at ≡ none → b.probe_allowed ≡ true → Cases b

cases : (b : CircuitBreaker) → IsValid b → Cases b
cases b v = elim (Option-cases b.tripped_at) [
  | inl untripped ↦ elim (Bool-cases b.probe_allowed) [
    | inl p ↦ is_half_open untripped p
    | inr p ↦ is_closed untripped p
  ]
  | inr (t, tripped) ↦ is_opened t tripped (ground (arith, v.probe_untripped))
]

-- The rule, up to the equations of the two modes.
abbrev Steps : CircuitBreaker → Call → Type 0
Steps b c = Transition b c (mode b) (mode (run b c))

by_modes :
    (b : CircuitBreaker) (c : Call) (m n : Mode)
    → mode b ≡ m
    → mode (run b c) ≡ n
    → Transition b c m n
    → Steps b c
by_modes b c m n e h t = rw (e, h) t

failure-Steps : (b : CircuitBreaker) (now : ℤ) → IsValid b → Steps b (Call.failure now)
unfolding run record_failure trip mode_of
failure-Steps b now v = elim (Bool-cases (leb b.config.failure_threshold (recent b now))) [
  | inl reached ↦ elim (cases b v) [
    | is_closed t p ↦
        by_modes b (Call.failure now) Mode.closed (Mode.opened now) (ground arith) (ground arith)
          (trips now (ground arith))
    | is_opened s t p ↦
        by_modes b (Call.failure now) (Mode.opened s) (Mode.opened now) (ground arith)
          (ground arith) (trips_again now s (ground arith))
    | is_half_open t p ↦
        by_modes b (Call.failure now) Mode.half_open (Mode.opened now) (ground arith) (ground arith)
          (probe_fails now)
  ]
  | inr few ↦ elim (cases b v) [
    | is_closed t p ↦
        by_modes b (Call.failure now) Mode.closed Mode.closed (ground arith) (ground arith)
          (counts now (ground arith))
    | is_opened s t p ↦
        by_modes b (Call.failure now) (Mode.opened s) (Mode.opened s) (ground arith) (ground arith)
          (counts_opened now s (ground arith))
    | is_half_open t p ↦
        by_modes b (Call.failure now) Mode.half_open (Mode.opened now) (ground arith) (ground arith)
          (probe_fails now)
  ]
]

-- Every call on a valid breaker makes the transition that the pattern has for this call in this mode.
pub run-Transition :
    (b : CircuitBreaker) (c : Call) → IsValid b → Transition b c (mode b) (mode (run b c))
unfolding run record_success is_open mode_of
run-Transition b (Call.failure now) v = failure-Steps b now v
run-Transition b (Call.success now) v = elim (cases b v) [
  | is_closed t p ↦
      by_modes b (Call.success now) Mode.closed Mode.closed (ground arith) (ground arith)
        (goes_on now)
  | is_opened s t p ↦
      by_modes b (Call.success now) (Mode.opened s) (Mode.opened s) (ground arith) (ground arith)
        (stays_opened now s)
  | is_half_open t p ↦
      by_modes b (Call.success now) Mode.half_open Mode.closed (ground arith) (ground arith)
        (probe_succeeds now)
]
run-Transition b (Call.query now) v = elim (cases b v) [
  | is_closed t p ↦
      by_modes b (Call.query now) Mode.closed Mode.closed (ground arith) (ground arith)
        (asked_closed now)
  | is_opened s t p ↦ elim (Bool-cases (ltb_ℤ b.config.cooldown_seconds (now -ℤ s))) [
    | inl over ↦
        by_modes b (Call.query now) (Mode.opened s) Mode.half_open (ground arith) (ground arith)
          (cools_down now s (ground arith))
    | inr still ↦
        by_modes b (Call.query now) (Mode.opened s) (Mode.opened s) (ground arith) (ground arith)
          (waits now s (ground arith))
  ]
  | is_half_open t p ↦
      by_modes b (Call.query now) Mode.half_open Mode.half_open (ground arith) (ground arith)
        (asked_half_open now)
]

-- A tripped breaker answers that it is open, unchanged, exactly until the cooldown has elapsed.
-- Then it is half-open: a failure at any time trips it at once, whatever the threshold, and a
-- success closes it with no failure counted.
pub tripped_cycle :
    (b : CircuitBreaker) (t now : ℤ)
    → b.tripped_at ≡ some t
    → let (answer, b') = is_open b now in
      (answer ≡ true → (now -ℤ t ≤ℤ b.config.cooldown_seconds) × (b' ≡ b))
      × (answer ≡ false → b.config.cooldown_seconds <ℤ now -ℤ t)
      × (answer ≡ false → mode b' ≡ Mode.half_open)
      × (answer ≡ false → (later : ℤ) → mode (record_failure b' later) ≡ Mode.opened later)
      × (answer ≡ false
          → (mode (record_success b') ≡ Mode.closed) × ((record_success b').failures ≡ []))
unfolding is_open record_failure record_success mode_of
tripped_cycle b t now h =
    (ground arith, ground arith, ground arith, λ e later. ground arith, ground arith)

-- While some time is left until the reset the breaker is open, and the two agree on how much.
pub time_until_reset_open :
    (b : CircuitBreaker) (now : ℤ)
    → pos 0 <ℤ time_until_reset b now
    → ((is_open b now).0 ≡ true)
      × ((t : ℤ) × (b.tripped_at ≡ some t)
          × (time_until_reset b now ≡ b.config.cooldown_seconds -ℤ (now -ℤ t)))
unfolding time_until_reset is_open
time_until_reset_open b now h = elim (Option-cases b.tripped_at) [
  | inl untripped ↦ absurd (ground arith)
  | inr (t, tripped) ↦
      (ground (arith, -ℤ_parts b.config.cooldown_seconds (now -ℤ t)), (t, tripped, ground arith))
]
