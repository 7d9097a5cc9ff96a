-- ===== src/Executor/Recovery/Tests.antt =====
-- Instances of the theorems on the circuit breaker and the replay guard.
use peanut_trade_internship.Base.{arith}
use peanut_trade_internship.Base.Int.{pos}
use peanut_trade_internship.Executor.Recovery.{CircuitBreakerConfig, new_breaker}
use peanut_trade_internship.Executor.Recovery.Breaker.{
  Call, Transition, mode, run, IsValid, run-Transition,
}

abbrev config : CircuitBreakerConfig
config = record { failure_threshold = 2; window_seconds = pos 60; cooldown_seconds = pos 30 }

new_breaker-IsValid : IsValid (new_breaker config)
new_breaker-IsValid = record {
  threshold_pos = omega arith;
  probe_untripped = λ h. cc;
  probe_clean = λ h. cc;
  below_threshold = λ h. omega arith;
}

run-Transition_example :
    Transition
      (new_breaker config)
      (Call.failure (pos 10))
      (mode (new_breaker config))
      (mode (run (new_breaker config) (Call.failure (pos 10))))
run-Transition_example =
    run-Transition (new_breaker config) (Call.failure (pos 10)) new_breaker-IsValid
