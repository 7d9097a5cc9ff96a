-- ===== src/Bot/Handle/Quiet.antt =====
-- The steps of the loop of scripts/arb_bot.py that neither trade nor touch the queue.
use peanut_trade_internship.Base.{
  ◌+◌, Bool, true, false, not, ◌&&◌, ◌≡◌, refl, ◌∙◌, String, ◌*◌, Outcome, ok, raised, Bool-cases,
  inl, inr, if◌then◌else◌, leb,
}
use peanut_trade_internship.Base.Int.{ℤ, pos, ltb_ℤ}
use peanut_trade_internship.Base.Float.{Float}
use peanut_trade_internship.Strategy.Signal.{Direction, buy_dex_sell_cex, buy_cex_sell_dex}
use peanut_trade_internship.Executor.Engine.{
  ExecutionContext, ExecutorConfig, ExecuteError, Venues, World,
}
use peanut_trade_internship.Executor.Engine.Run.{breaker_open}
use peanut_trade_internship.Safety.Limits.{absolute_min_capital}
use peanut_trade_internship.Bot.{Settings, Outside, Bot, sync_balances, verify_balances, stop}
use peanut_trade_internship.Bot.Handle.{
  answered, ask_breaker, after_done, count_dex_buy, arm, scored, settled, stop_if_one_shot, is_done,
}

module _ {F : Float} (settings : Settings F) (outside : Outside F) (config : ExecutorConfig F)
    (venues : Venues F) where
  open F use {Num, literal, mul, lt}

  -- Nothing is sent, and neither the queue nor the risk manager changes.
  abbrev pub Quiet : Bot F → Bot F → Type 0
  Quiet b b' =
      (b'.world.events ≡ b.world.events) × (b'.queue ≡ b.queue) × (b'.risk_manager ≡ b.risk_manager)

  stopped-Quiet : (c : Bool) (b : Bot F) → Quiet b (if c then stop b else b)
  stopped-Quiet true b = (refl, refl, refl)
  stopped-Quiet false b = (refl, refl, refl)

  verify_balances-Quiet :
      (pair : String) (b : Bot F) → Quiet b (verify_balances settings outside pair b)
  unfolding verify_balances
  verify_balances-Quiet pair b = stopped-Quiet _ (record b { balance_reads = b.balance_reads + 1 })

  count_dex_buy-Quiet :
      (d : Direction) (b : Bot F) → Quiet b (count_dex_buy settings outside config venues d b)
  unfolding count_dex_buy
  count_dex_buy-Quiet buy_dex_sell_cex b =
      stopped-Quiet _ (record b { dex_buy_trade_count = b.dex_buy_trade_count + 1 })
  count_dex_buy-Quiet buy_cex_sell_dex b = (refl, refl, refl)

  pub synced-Quiet : (b : Bot F) → Quiet b (sync_balances settings outside b)
  unfolding sync_balances
  synced-Quiet b = (refl, refl, refl)

  after_done-Quiet :
      (ctx : ExecutionContext F) (b : Bot F)
      → Quiet b (after_done settings outside config venues ctx b)
  after_done-Quiet ctx b = elim (Bool-cases (is_done ctx.state && not settings.dry_run)) [
    | inl verified ↦
        let v = sync_balances settings outside b in
        let w = verify_balances settings outside ctx.signal.pair v in
        let q = synced-Quiet b in
        let r = verify_balances-Quiet ctx.signal.pair v in
        let u = count_dex_buy-Quiet ctx.signal.direction w in
        rw verified (u.0 ∙ r.0 ∙ q.0, u.1 ∙ r.1 ∙ q.1, u.2 ∙ r.2 ∙ q.2)
    | inr skipped ↦ rw skipped (refl, refl, refl)
  ]

  pub arm-Quiet : (pnl : ℤ) (b : Bot F) → Quiet b (arm settings outside config venues pnl b)
  unfolding arm
  arm-Quiet pnl b =
      elim (Bool-cases
        (ltb_ℤ b.risk_manager.capital (pos (absolute_min_capital * settings.unit)))) [
          | inl poor ↦ rw poor (refl, refl, refl)
          | inr rich ↦
              elim (Bool-cases (
                ltb_ℤ pnl (pos 0)
                && leb b.risk_manager.limits.consecutive_loss_limit
                    b.risk_manager.consecutive_losses)) [
                      | inl losing ↦ rw (rich, losing) (refl, refl, refl)
                      | inr other ↦ rw (rich, other) (refl, refl, refl)
                    ]
        ]

  pub settled-Quiet :
      (ctx : ExecutionContext F) (b : Bot F)
      → Quiet b (settled settings outside config venues ctx b)
  settled-Quiet ctx b =
      let b1 = scored settings outside config venues ctx b in
      let b2 = stop_if_one_shot settings outside config venues b1 in
      let q = stopped-Quiet settings.one_shot b1 in
      let r = after_done-Quiet ctx b2 in (r.0 ∙ q.0, r.1 ∙ q.1, r.2 ∙ q.2)

  answered-Quiet :
      (b : Bot F) (r : Outcome ExecuteError Bool × World F)
      → r.1.events ≡ b.world.events
      → Quiet b (answered settings outside config venues b r).1
  answered-Quiet b (ok opened, w) e = (e, refl, refl)
  answered-Quiet b (raised x, w) e = (e, refl, refl)

  pub ask_breaker-Quiet : (b : Bot F) → Quiet b (ask_breaker settings outside config venues b).1
  unfolding breaker_open
  ask_breaker-Quiet b = answered-Quiet b (breaker_open config venues b.world) refl
