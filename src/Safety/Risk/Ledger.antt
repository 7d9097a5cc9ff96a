-- ===== src/Safety/Risk/Ledger.antt =====
-- What `RiskManager` (safety/risk.py) keeps true over the trades it approves.
use peanut_trade_internship.Base.{
  ℕ, ◌≤◌, ◌<◌, none, [], ◌∷◌, ◌≡◌, arith, length, length-append, ok, subst, sym,
}
use peanut_trade_internship.Base.Int.{ℤ, pos, neg, ◌-ℤ◌, ◌≤ℤ◌, ◌<ℤ◌, +ℤ_parts, -ℤ_parts}
use peanut_trade_internship.Safety.Risk.{
  RiskLimits, RiskManager, new_manager, check_pre_trade, judge, check_limits, refreshed,
  maybe_reset_daily, prune_trade_times, record_trade,
}

-- The trades of a bot that records only what the manager approved, each losing at most `worst`.
pub data Trades (unit hour : ℕ) (worst : ℤ) (start : RiskManager) : RiskManager → Type 0 where
  begun : Trades unit hour worst start start
  traded :
      (m : RiskManager) (now next_midnight clock later next_midnight' done : ℕ) (size price pnl : ℤ)
      → Trades unit hour worst start m
      → (check_pre_trade unit hour now next_midnight clock m size price).0 ≡ ok none
      → neg worst ≤ℤ pnl
      → Trades unit hour worst start (
          record_trade later next_midnight' done pnl
            (check_pre_trade unit hour now next_midnight clock m size price).1)

-- The state between two trades.
pub record IsKept (worst : ℤ) (m : RiskManager) : Type 0 where
  pub below_peak : m.capital ≤ℤ m.peak_capital
  pub loss_bounded : neg m.limits.max_daily_loss -ℤ worst ≤ℤ m.daily_loss
  pub losses_bounded : m.consecutive_losses ≤ m.limits.consecutive_loss_limit
  pub rate_bounded : length m.trade_times ≤ m.limits.max_trades_per_hour
  pub worst_pos : pos 0 ≤ℤ worst
  pub max_loss_pos : pos 0 ≤ℤ m.limits.max_daily_loss

approved :
    (unit : ℕ) (m : RiskManager) (size price : ℤ)
    → judge unit m size price ≡ ok none
    → (neg m.limits.max_daily_loss <ℤ m.daily_loss)
      × (m.consecutive_losses < m.limits.consecutive_loss_limit)
      × (length m.trade_times < m.limits.max_trades_per_hour)
unfolding judge check_limits
approved unit m size price h = ground arith

refreshed-below_peak :
    (unit hour now next_midnight clock : ℕ) (m : RiskManager)
    → m.capital ≤ℤ m.peak_capital
    → (refreshed unit hour now next_midnight clock m).capital
      ≤ℤ (refreshed unit hour now next_midnight clock m).peak_capital
unfolding maybe_reset_daily prune_trade_times
refreshed-below_peak unit hour now next_midnight clock m h = ground arith

refreshed-limits :
    (unit hour now next_midnight clock : ℕ) (m : RiskManager)
    → (refreshed unit hour now next_midnight clock m).limits ≡ m.limits
unfolding maybe_reset_daily prune_trade_times
refreshed-limits unit hour now next_midnight clock m = ground arith

module _ (now next_midnight clock : ℕ) (pnl : ℤ) (m : RiskManager) where
  record_trade-limits : (record_trade now next_midnight clock pnl m).limits ≡ m.limits
  unfolding record_trade maybe_reset_daily
  record_trade-limits = ground arith

  record_trade-below_peak :
      (record_trade now next_midnight clock pnl m).capital
      ≤ℤ (record_trade now next_midnight clock pnl m).peak_capital
  unfolding record_trade maybe_reset_daily
  record_trade-below_peak = ground arith

  record_trade-losses :
      m.consecutive_losses < m.limits.consecutive_loss_limit
      → (record_trade now next_midnight clock pnl m).consecutive_losses
        ≤ (record_trade now next_midnight clock pnl m).limits.consecutive_loss_limit
  unfolding record_trade maybe_reset_daily
  record_trade-losses h = ground arith

  record_trade-rate :
      length m.trade_times < m.limits.max_trades_per_hour
      → length (record_trade now next_midnight clock pnl m).trade_times
        ≤ (record_trade now next_midnight clock pnl m).limits.max_trades_per_hour
  unfolding record_trade maybe_reset_daily
  record_trade-rate h = ground (arith, length-append m.trade_times (clock ∷ []))

module _ (worst : ℤ) (now next_midnight clock : ℕ) (pnl : ℤ) (m : RiskManager) (w : pos 0 ≤ℤ worst)
    (v : pos 0 ≤ℤ m.limits.max_daily_loss) (p : m.capital ≤ℤ m.peak_capital)
    (a : neg m.limits.max_daily_loss <ℤ m.daily_loss) (h : neg worst ≤ℤ pnl) where
  record_trade-loss :
      neg m.limits.max_daily_loss -ℤ worst
      ≤ℤ (record_trade now next_midnight clock pnl m).daily_loss
  unfolding record_trade maybe_reset_daily
  record_trade-loss = ground (
    arith,
    -ℤ_parts (neg m.limits.max_daily_loss) worst,
    -ℤ_parts (pos 0) worst,
    -ℤ_parts (pos 0) m.limits.max_daily_loss,
    +ℤ_parts m.daily_loss pnl,
    +ℤ_parts (pos 0) pnl,
  )

  record_trade-IsKept :
      m.consecutive_losses < m.limits.consecutive_loss_limit
      → length m.trade_times < m.limits.max_trades_per_hour
      → IsKept worst (record_trade now next_midnight clock pnl m)
  record_trade-IsKept c t = record {
    below_peak = record_trade-below_peak now next_midnight clock pnl m;
    loss_bounded =
        subst
          (λ l.
            neg l.max_daily_loss -ℤ worst
            ≤ℤ (record_trade now next_midnight clock pnl m).daily_loss)
          (sym (record_trade-limits now next_midnight clock pnl m)) record_trade-loss;
    losses_bounded = record_trade-losses now next_midnight clock pnl m c;
    rate_bounded = record_trade-rate now next_midnight clock pnl m t;
    worst_pos = w;
    max_loss_pos =
        subst (λ l. pos 0 ≤ℤ l.max_daily_loss)
          (sym (record_trade-limits now next_midnight clock pnl m)) v;
  }

traded-IsKept :
    (unit hour : ℕ) (worst : ℤ) (m : RiskManager)
    (now next_midnight clock later next_midnight' done : ℕ) (size price pnl : ℤ)
    → IsKept worst m
    → (check_pre_trade unit hour now next_midnight clock m size price).0 ≡ ok none
    → neg worst ≤ℤ pnl
    → IsKept worst (
        record_trade later next_midnight' done pnl
          (check_pre_trade unit hour now next_midnight clock m size price).1)
unfolding check_pre_trade
traded-IsKept unit hour worst m now next_midnight clock later next_midnight' done size price pnl k h
      p =
    let r = refreshed unit hour now next_midnight clock m in
    let e = refreshed-limits unit hour now next_midnight clock m in
    let a = approved unit r size price h in
    record_trade-IsKept worst later next_midnight' done pnl r k.worst_pos
      (subst (λ l. pos 0 ≤ℤ l.max_daily_loss) (sym e) k.max_loss_pos)
      (refreshed-below_peak unit hour now next_midnight clock m k.below_peak) a.0 p a.1 a.2

-- Over any run of approved trades from a new manager that each lose at most `worst`, the capital is
-- at most its peak, the day's loss at most max_daily_loss plus one such loss, and the losing streak
-- and the number of the times kept at most their limits, for `worst` and max_daily_loss of 0 or more.
pub Trades-IsKept :
    (unit hour : ℕ) (worst : ℤ) (limits : RiskLimits) (initial_capital : ℤ) (midnight : ℕ)
    (m : RiskManager)
    → pos 0 ≤ℤ worst
    → pos 0 ≤ℤ limits.max_daily_loss
    → Trades unit hour worst (new_manager limits initial_capital midnight) m
    → IsKept worst m
Trades-IsKept unit hour worst limits capital midnight _ w v begun = record {
  below_peak = omega arith;
  loss_bounded = ground (
    arith,
    -ℤ_parts (neg limits.max_daily_loss) worst,
    -ℤ_parts (pos 0) worst,
    -ℤ_parts (pos 0) limits.max_daily_loss,
  );
  losses_bounded = omega arith;
  rate_bounded = omega arith;
  worst_pos = w;
  max_loss_pos = v;
}
Trades-IsKept unit hour worst limits capital midnight _ w v
      (traded m now next_midnight clock later next_midnight' done size price pnl t h p) =
    traded-IsKept unit hour worst m now next_midnight clock later next_midnight' done size price pnl
      (Trades-IsKept unit hour worst limits capital midnight m w v t) h p
