-- ===== src/Bot/Arrive/Vetted.antt =====
-- What the gates before the queue of scripts/arb_bot.py let through.
use peanut_trade_internship.Base.{
  ◌+◌, Bool, true, false, List, ◌∷◌, Option, none, some, ◌≡◌, refl, Outcome, ok, raised, Bool-cases,
  inl, inr,
}
use peanut_trade_internship.Base.Member.{IsIn, All-IsIn-more}
use peanut_trade_internship.Base.Float.{Float}
use peanut_trade_internship.Strategy.Signal.{Signal}
use peanut_trade_internship.Strategy.Generator.{Generated}
use peanut_trade_internship.Strategy.Scorer.{score}
use peanut_trade_internship.Executor.Engine.{Event, ExecutionContext}
use peanut_trade_internship.Executor.Queue.{QueueError, SignalQueue}
use peanut_trade_internship.Executor.Queue.Members.{Every, Left, put-Left}
use peanut_trade_internship.Safety.Risk.{
  RiskError, Check, RiskManager, judge, check_pre_trade, refreshed,
}
use peanut_trade_internship.Safety.Validator.{Defect, validate_signal}
use peanut_trade_internship.Bot.{Settings, Outside, Bot, Step, Times}
use peanut_trade_internship.Bot.Arrive.{
  quote_of, score_of, enqueue, admit, score_and_admit, checked, check_risk, validated, arrive,
  Arrival, generated, generate_one, put_answer,
}

module _ {F : Float} (settings : Settings F) (outside : Outside F) (IsRead : Times → Type 0) where
  open F use {lt, mul}

  -- The risk manager as it is at the given times: after a new day has been noticed, and without
  -- the trades of more than an hour ago.
  abbrev pub IsRenewed : Times → RiskManager → Type 0
  IsRenewed t m =
      (before : RiskManager) × (refreshed settings.unit settings.hour t.now t.next_midnight t.clock
          before
        ≡ m)

  -- At times that were read the validator finds nothing wrong with the signal, and this risk
  -- manager, brought up to date, approves it; and it is as profitable and has as high a score as is
  -- configured.
  pub record IsVetted (m : RiskManager) (s : Signal F) : Type 0 where
    pub times : Times
    pub read : IsRead times
    pub valid : validate_signal settings.unit times.at (quote_of settings outside s) ≡ none
    pub renewed : IsRenewed times m
    pub approved :
        judge settings.unit m (outside.units s.size) (outside.units s.cex_price) ≡ ok none
    pub profitable : lt s.expected_net_pnl settings.min_profit_usd ≡ false
    pub scored : lt s.score settings.score_threshold ≡ false

  -- What is kept of the risk manager, of what was sent, of the signals that were approved so far, and
  -- of the last execution if its profit is not booked yet.
  module _
      (P : RiskManager → List (Event F) → List (Signal F) → Option (ExecutionContext F) → Type 0)
      (renew : (m : RiskManager) (es : List (Event F)) (approved : List (Signal F))
          (last : Option (ExecutionContext F)) (t : Times)
        → IsRead t
        → P m es approved last
        → P
            (refreshed settings.unit settings.hour t.now t.next_midnight t.clock m)
            es
            approved
            last)
      (approve : (m : RiskManager) (es : List (Event F)) (approved : List (Signal F))
          (last : Option (ExecutionContext F)) (s : Signal F)
        → IsVetted m s
        → P m es approved last
        → P m es (s ∷ approved) last) where
    pub record IsSafe (b : Bot F) : Type 0 where
      pub approved : List (Signal F)
      pub last : Option (ExecutionContext F)
      pub kept : P b.risk_manager b.world.events approved last
      pub queued : Every (λ s. IsIn s approved) b.queue.heap

    -- The step keeps a bot safe, also where it raises.
    abbrev pub Keeps : {A : Type 0} → Step F A → Type 0
    Keeps m = (b : Bot F) → IsSafe b → IsSafe (m b).1

    put_answer-IsSafe :
        (b : Bot F) (s : Signal F) (r : Outcome QueueError (Bool × SignalQueue (Signal F)))
        → IsVetted b.risk_manager s
        → (h : IsSafe b) → Left (λ x. IsIn x (s ∷ h.approved)) r
        → IsSafe (put_answer settings outside b r).1
    put_answer-IsSafe b s (ok (taken, q)) v h k = record {
      approved = s ∷ h.approved;
      last = h.last;
      kept = approve b.risk_manager b.world.events h.approved h.last s v h.kept;
      queued = k;
    }
    put_answer-IsSafe b s (raised e) v h k = h

    enqueue-IsSafe :
        (s : Signal F) (b : Bot F)
        → IsVetted b.risk_manager s
        → IsSafe b
        → IsSafe (enqueue settings outside s b).1
    enqueue-IsSafe s b v h = put_answer-IsSafe b s _ v h (
        put-Left (λ x. IsIn x (s ∷ h.approved)) (score_of settings outside) (λ _. true) b.queue s
          (All-IsIn-more (λ e. e.signal) s h.approved b.queue.heap h.queued) (inl refl))

    admit-IsSafe :
        (s : Signal F) (t : Times) (b : Bot F)
        → IsRead t
        → validate_signal settings.unit t.at (quote_of settings outside s) ≡ none
        → IsRenewed t b.risk_manager
        → judge settings.unit b.risk_manager (outside.units s.size) (outside.units s.cex_price)
          ≡ ok none
        → IsSafe b
        → IsSafe (admit settings outside s b).1
    unfolding admit
    admit-IsSafe s t b r v n a h =
        elim (Bool-cases (lt s.expected_net_pnl settings.min_profit_usd)) [
          | inl low ↦
              rw low
                (record { approved = h.approved; last = h.last; kept = h.kept; queued = h.queued })
          | inr profit ↦ elim (Bool-cases (lt s.score settings.score_threshold)) [
            | inl low ↦
                rw (profit, low)
                  (record {
                    approved = h.approved;
                    last = h.last;
                    kept = h.kept;
                    queued = h.queued;
                  })
            | inr high ↦
                rw (profit, high)
                  (enqueue-IsSafe s b
                    (record {
                      times = t;
                      read = r;
                      valid = v;
                      renewed = n;
                      approved = a;
                      profitable = profit;
                      scored = high;
                    })
                    h)
          ]
        ]

    score_and_admit-IsSafe :
        (s : Signal F) (t : Times) (b : Bot F)
        → IsRead t
        → validate_signal settings.unit t.at (quote_of settings outside s) ≡ none
        → IsRenewed t b.risk_manager
        → judge settings.unit b.risk_manager (outside.units s.size) (outside.units s.cex_price)
          ≡ ok none
        → IsSafe b
        → IsSafe (score_and_admit settings outside s b).1
    unfolding score_and_admit score
    score_and_admit-IsSafe s t b r v n a h =
        admit-IsSafe (score F outside.round1 b.scorer s (outside.get_skews b.inventory)).1 t
          (record b { signals_seen = b.signals_seen + 1 }) r v n a
          (record { approved = h.approved; last = h.last; kept = h.kept; queued = h.queued })

    checked-IsSafe :
        (s : Signal F) (t : Times) (b : Bot F) (answer : Outcome RiskError (Option Check))
        → IsRead t
        → validate_signal settings.unit t.at (quote_of settings outside s) ≡ none
        → IsRenewed t b.risk_manager
        → judge settings.unit b.risk_manager (outside.units s.size) (outside.units s.cex_price)
          ≡ answer
        → IsSafe b
        → IsSafe (checked settings outside s answer b).1
    checked-IsSafe s t b (raised e) r v n a h = h
    checked-IsSafe s t b (ok (some c)) r v n a h = record {
      approved = h.approved;
      last = h.last;
      kept = h.kept;
      queued = h.queued;
    }
    checked-IsSafe s t b (ok none) r v n a h = score_and_admit-IsSafe s t b r v n a h

    check_risk-Keeps :
        (t : Times) (s : Signal F)
        → IsRead t
        → validate_signal settings.unit t.at (quote_of settings outside s) ≡ none
        → Keeps (check_risk settings outside t s)
    unfolding check_risk check_pre_trade
    check_risk-Keeps t s r v b h =
        let m =
          refreshed settings.unit settings.hour t.now t.next_midnight t.clock b.risk_manager in
        checked-IsSafe s t (record b { risk_manager = m }) _ r v (b.risk_manager, refl) refl
          (record {
            approved = h.approved;
            last = h.last;
            kept = renew b.risk_manager b.world.events h.approved h.last t r h.kept;
            queued = h.queued;
          })

    validated-Keeps :
        (t : Times) (s : Signal F) (answer : Option Defect)
        → IsRead t
        → validate_signal settings.unit t.at (quote_of settings outside s) ≡ answer
        → Keeps (validated settings outside t s answer)
    validated-Keeps t s (some d) r v b h = record {
      approved = h.approved;
      last = h.last;
      kept = h.kept;
      queued = h.queued;
    }
    validated-Keeps t s none r v b h = check_risk-Keeps t s r v b h

    generated-Keeps :
        (t : Times) (g : Generated F outside.amount)
        → IsRead t
        → Keeps (generated settings outside t g)
    unfolding arrive
    generated-Keeps t (raised e) r b h = h
    generated-Keeps t (ok (none, g)) r b h = record {
      approved = h.approved;
      last = h.last;
      kept = h.kept;
      queued = h.queued;
    }
    generated-Keeps t (ok (some s, g)) r b h =
        validated-Keeps t s _ r refl (record b { generator = g })
          (record { approved = h.approved; last = h.last; kept = h.kept; queued = h.queued })

    pub generate_one-Keeps :
        (a : Arrival settings outside) → IsRead a.times → Keeps (generate_one settings outside a)
    unfolding generate_one
    generate_one-Keeps a r b h = generated-Keeps a.times _ r b h
