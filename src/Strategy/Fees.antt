-- ===== src/Strategy/Fees.antt =====
-- `FeeStructure` of strategy/fees.py. Its `Decimal`s are abstract numbers like the floats, so the
-- theorems hold for every rounding.
use peanut_trade_internship.Base.{
  ◌≡◌, refl, Outcome, ok, ◌>>=◌, ◌>>◌, raise_if, Bool-cases, inl, inr,
}
use peanut_trade_internship.Base.Int.{pos}
use peanut_trade_internship.Base.Float.{Float}

pub data FeeError : Type 0 where
  negative_cex_taker negative_dex_swap negative_gas_cost : FeeError
  bad_trade_value : FeeError

pub record FeeStructure (F : Float) : Type 0 where
  pub cex_taker_bps : F.Num
  pub dex_swap_bps : F.Num
  pub gas_cost_usd : F.Num

module _ (F : Float) where
  open F use {Num, literal, add, sub, mul, div, lt, le}

  abbrev pub ten_thousand : Num
  ten_thousand = literal (pos 10_000) 0

  abbrev zero_num : Num
  zero_num = literal (pos 0) 0

  abbrev pub default_fees : FeeStructure F
  default_fees = record {
    cex_taker_bps = literal (pos 10) 0;
    dex_swap_bps = literal (pos 30) 0;
    gas_cost_usd = literal (pos 5) 0;
  }

  -- `__post_init__`
  unfoldable pub checked : FeeStructure F → Outcome FeeError (FeeStructure F)
  checked f = do
    raise_if (lt f.cex_taker_bps zero_num) negative_cex_taker
    raise_if (lt f.dex_swap_bps zero_num) negative_dex_swap
    raise_if (lt f.gas_cost_usd zero_num) negative_gas_cost
    ok f

  unfoldable pub gas_bps : FeeStructure F → Num → Outcome FeeError Num
  gas_bps f trade_value = do
    raise_if (le trade_value zero_num) bad_trade_value
    ok (mul (div f.gas_cost_usd trade_value) ten_thousand)

  unfoldable pub total_fee_bps : FeeStructure F → Num → Outcome FeeError Num
  unfolding gas_bps
  total_fee_bps f trade_value = do
    gas ← gas_bps f trade_value
    ok (add (add f.cex_taker_bps f.dex_swap_bps) gas)

  unfoldable pub breakeven_spread_bps : FeeStructure F → Num → Outcome FeeError Num
  unfolding total_fee_bps
  breakeven_spread_bps f trade_value = total_fee_bps f trade_value

  -- `(bps / 10000) * trade_value`
  abbrev pub usd_of : Num → Num → Num
  usd_of bps trade_value = mul (div bps ten_thousand) trade_value

  unfoldable pub net_profit_usd :
      FeeStructure F → (spread_bps trade_value : Num) → Outcome FeeError Num
  unfolding total_fee_bps
  net_profit_usd f spread_bps trade_value = do
    let gross = usd_of spread_bps trade_value
    total ← total_fee_bps f trade_value
    ok (sub gross (usd_of total trade_value))

  unfoldable pub fee_usd : FeeStructure F → Num → Outcome FeeError Num
  unfolding total_fee_bps
  fee_usd f trade_value = do total ← total_fee_bps f trade_value; ok (usd_of total trade_value)

  -- At the break-even spread the profit is the difference of a number and itself, so it is exactly
  -- nothing where such differences are, whatever is rounded on the way; and at any spread the profit
  -- is the gross return less `fee_usd`. Both hold with the errors of a trade value that is not positive.
  pub net_profit_usd-breakeven_spread_bps :
      ((x : Num) → sub x x ≡ zero_num)
      → (f : FeeStructure F) (trade_value spread_bps : Num)
      → ((breakeven_spread_bps f trade_value >>= λ spread. net_profit_usd f spread trade_value)
          ≡ (fee_usd f trade_value >>= λ fees. ok zero_num))
        × (net_profit_usd f spread_bps trade_value
            ≡ (fee_usd f trade_value >>= λ fees. ok (sub (usd_of spread_bps trade_value) fees)))
  unfolding breakeven_spread_bps net_profit_usd fee_usd
  net_profit_usd-breakeven_spread_bps nothing f trade_value spread_bps =
      elim (Bool-cases (le trade_value zero_num)) [
        | inl e ↦ rw e (refl, refl)
        | inr e ↦ rw e (rw (nothing (usd_of _ trade_value)) refl, refl)
      ]
