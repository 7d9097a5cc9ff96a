-- ===== src/Executor/Recovery/Window.antt =====
-- The sliding window of `CircuitBreaker.record_failure` (executor/recovery.py) against the whole
-- history of failures.
use mathlib.Core.List.{append-nil, append_assoc}
use peanut_trade_internship.Base.{
  leb, if◌then◌else◌, ap, ◌∙◌, false, some, List, [], ◌∷◌, ◌++◌, ◌≡◌, refl, arith, length, select,
  select-append, select-select,
}
use peanut_trade_internship.Base.Int.{ℤ, ◌-ℤ◌, ◌≤ℤ◌, ltb_ℤ}
use peanut_trade_internship.Executor.Recovery.Replay.{later_cutoff}
use peanut_trade_internship.Executor.Recovery.{
  CircuitBreaker, CircuitBreakerConfig, new_breaker, record_failure,
}

-- Failures at these times, one after the other.
pub record_all : CircuitBreaker → List ℤ → CircuitBreaker
record_all b [] = b
record_all b (t ∷ ts) = record_all (record_failure b t) ts

-- No time lies before the one that precedes it.
abbrev pub Ascending : ℤ → List ℤ → Type 0
Ascending t [] = Unit
Ascending t (u ∷ us) = (t ≤ℤ u) × Ascending u us

abbrev pub last_of : ℤ → List ℤ → ℤ
last_of t [] = t
last_of t (u ∷ us) = last_of u us

-- The times that lie in the window which ends at `now`.
abbrev pub in_window : ℤ → ℤ → List ℤ → List ℤ
in_window window now = select (λ t. ltb_ℤ (now -ℤ window) t)

in_window_step :
    (w last now : ℤ) (history : List ℤ)
    → last ≤ℤ now
    → in_window w now (in_window w last history ++ now ∷ []) ≡ in_window w now (history ++ now ∷ [])
in_window_step w last now history h = rw (
  select-append (λ t. ltb_ℤ (now -ℤ w) t) (in_window w last history) (now ∷ []),
  select-append (λ t. ltb_ℤ (now -ℤ w) t) history (now ∷ []),
  select-select (λ t. ltb_ℤ (now -ℤ w) t) (λ t. ltb_ℤ (last -ℤ w) t) history
      (λ t. later_cutoff w last now t h),
)

record_failure_closed :
    (b : CircuitBreaker) (now : ℤ)
    → b.probe_allowed ≡ false
    → ((record_failure b now).probe_allowed ≡ false)
      × ((record_failure b now).config ≡ b.config)
      × ((record_failure b now).failures
          ≡ in_window b.config.window_seconds now (b.failures ++ now ∷ []))
unfolding record_failure
record_failure_closed b now h = ground arith

-- What the breaker remembers is the part of `history` in the window that ends at `last`.
record Remembers (history : List ℤ) (last : ℤ) (w : ℤ) (b : CircuitBreaker) : Type 0 where
  not_probing : b.probe_allowed ≡ false
  window : b.config.window_seconds ≡ w
  remembered : b.failures ≡ in_window w last history

record_failure-Remembers :
    (history : List ℤ) (last now w : ℤ) (b : CircuitBreaker)
    → last ≤ℤ now
    → Remembers history last w b
    → Remembers (history ++ now ∷ []) now w (record_failure b now)
record_failure-Remembers history last now w b h r =
    let (p, c, f) = record_failure_closed b now r.not_probing in
    record {
      not_probing = p;
      window = ap (λ (k : CircuitBreakerConfig). k.window_seconds) c ∙ r.window;
      remembered = f ∙ (rw (r.window, r.remembered) (in_window_step w last now history h));
    }

record_all-Remembers :
    (history : List ℤ) (last w : ℤ) (ts : List ℤ) (b : CircuitBreaker)
    → Ascending last ts
    → Remembers history last w b
    → Remembers (history ++ ts) (last_of last ts) w (record_all b ts)
unfolding record_all
record_all-Remembers history last w [] b h r = rw append-nil r
record_all-Remembers history last w (t ∷ ts) b h r = rw (append_assoc history (t ∷ []) ts) at (
    record_all-Remembers (history ++ t ∷ []) t w ts (record_failure b t) h.1
      (record_failure-Remembers history last t w b h.0 r))

-- Failures at ascending times, from a new breaker: although each call prunes the list, the breaker
-- ends with exactly those of the whole history that lie in the window of the last one.
record_all_window :
    (config : CircuitBreakerConfig) (first : ℤ) (ts : List ℤ)
    → Ascending first ts
    → let b = record_all (new_breaker config) (first ∷ ts) in
      b.failures ≡ in_window config.window_seconds (last_of first ts) (first ∷ ts)
unfolding record_all
record_all_window config first ts h =
    (record_all-Remembers (first ∷ []) first config.window_seconds ts
      (record_failure (new_breaker config) first) h
      (record_failure-Remembers [] first first config.window_seconds (new_breaker config)
        (omega arith) (record { not_probing = refl; window = refl; remembered = refl }))).remembered

-- A failure while no probe is running trips the breaker exactly if the failures in the window
-- reach the threshold, and otherwise leaves what `tripped_at` was.
pub record_failure_trips :
    (b : CircuitBreaker) (now : ℤ)
    → b.probe_allowed ≡ false
    → (record_failure b now).tripped_at ≡ (
        if leb b.config.failure_threshold
          (length (in_window b.config.window_seconds now (b.failures ++ now ∷ [])))
        then some now
        else b.tripped_at)
unfolding record_failure
record_failure_trips b now h = ground arith
