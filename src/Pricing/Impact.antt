-- ===== src/Pricing/Impact.antt =====
-- `PriceImpactAnalyzer` of pricing/impact_analyzer.py, with exact fractions for its `Decimal`s. The
-- binary search has fuel, and `none` means that it ran out.
pub mod Largest
mod Tests
use peanut_trade_internship.Base.{
  ℕ, zero, suc, ◌+◌, ◌-◌, ◌*◌, ◌/◌, ◌^◌, Bool, true, false, ◌==◌, leb, Option, none, some,
  if◌then◌else◌, Outcome, ok, raised, ◌>>=◌, ◌>>◌, raise_if,
}
use peanut_trade_internship.Base.Int.{ℤ, pos, ◌-ℤ◌, ◌*ℤ◌, leb_ℤ, max_ℤ, pos_part}
use peanut_trade_internship.Core.Token.{Token, Address, token_eq}
use peanut_trade_internship.Pricing.Amm.{
  Pair, PairError, Fraction, reserves_for_token_in, get_amount_out, get_price_impact,
  get_spot_price,
}

pub data ImpactError : Type 0 where
  bad_impact : ImpactError
  pair_error : PairError → ImpactError

-- An error of the pair passes through.
abbrev pub of_pair : {A : Type 0} → Outcome PairError A → Outcome ImpactError A
of_pair (ok a) = ok a
of_pair (raised e) = raised (pair_error e)

-- `a <= b`, for positive denominators
abbrev pub le_fraction : Fraction → Fraction → Bool
le_fraction a b = leb_ℤ (a.num *ℤ pos b.den) (b.num *ℤ pos a.den)

module _ (passes : ℕ → Outcome ImpactError Bool) where
  -- The `while` loop.
  unfoldable pub search : (fuel lo hi best : ℕ) → Option (Outcome ImpactError ℕ)
  search zero lo hi best = none
  search (suc fuel) lo hi best =
      let mid = (lo + hi) / 2 in
      elim (leb lo hi) [
        | false ↦ some (ok best)
        | true ↦ elim (passes mid) [
          | raised e ↦ some (raised e)
          | ok b ↦ elim b [
            | true ↦ search fuel (mid + 1) hi mid
            | false ↦ search fuel lo (mid - 1) best
          ]
        ]
      ]

-- Whether the impact of a size stays at or below the limit.
abbrev pub is_within : Pair → Token → Fraction → ℕ → Outcome ImpactError Bool
is_within p token_in limit size =
    of_pair (get_price_impact p (pos size) token_in) >>= λ impact. ok (le_fraction impact limit)

-- `max_impact_pct / 100`
abbrev pub hundredth : Fraction → Fraction
hundredth f = record { num = f.num; den = f.den * 100 }

abbrev pub search_pair :
    ℕ → Pair → Token → Fraction → Outcome ImpactError (ℕ × ℕ) → Option (Outcome ImpactError ℕ)
search_pair fuel p token_in limit (raised e) = some (raised e)
search_pair fuel p token_in limit (ok reserves) =
    search (is_within p token_in limit) fuel 1 (reserves.0 / 2) 0

unfoldable pub find_max_size_for_impact :
    ℕ → Pair → Token → Fraction → Option (Outcome ImpactError ℕ)
unfolding search
find_max_size_for_impact fuel p token_in max_impact_pct =
    if leb_ℤ max_impact_pct.num (pos 0)
    then some (raised bad_impact)
    else search_pair fuel p token_in (hundredth max_impact_pct)
        (of_pair (reserves_for_token_in p token_in))

-- The address of wrapped ether
abbrev pub weth_address : Address
weth_address = 0xc02aaa39b223fe8d0a0e5c4f27ead9083c756cc2

pub record TrueCost : Type 0 where
  pub gross_output : ℕ
  pub gas_cost_eth : ℤ
  pub gas_cost_in_output_token : ℤ
  pub net_output : ℤ
  pub effective_price : Fraction

abbrev pub token_out_of : Pair → Token → Token
token_out_of p token_in = if token_eq token_in p.token0 then p.token1 else p.token0

-- `int(Decimal(gas_cost_eth) * spot_raw)`, of a gas cost that is not negative
abbrev pub scaled_down : ℤ → Fraction → ℤ
scaled_down gas spot = pos (pos_part gas * pos_part spot.num / spot.den)

abbrev pub gas_cost_output : Pair → Token → ℤ → Outcome PairError ℤ
gas_cost_output p token_in gas_cost_eth =
    if (token_out_of p token_in).address == weth_address
    then ok gas_cost_eth
    else if token_in.address == weth_address
    then (get_spot_price p token_in >>= λ spot. ok (scaled_down gas_cost_eth spot))
    else ok (pos 0)

unfoldable pub estimate_true_cost : Pair → ℤ → Token → ℤ → ℤ → Outcome PairError TrueCost
estimate_true_cost p amount_in token_in gas_price_gwei gas_estimate = do
  gross ← get_amount_out p amount_in token_in
  let gas = gas_price_gwei *ℤ pos (10 ^ 9) *ℤ gas_estimate
  in_output ← gas_cost_output p token_in gas
  let net = max_ℤ (pos 0) (pos gross -ℤ in_output)
  ok (record {
    gross_output = gross;
    gas_cost_eth = gas;
    gas_cost_in_output_token = in_output;
    net_output = net;
    effective_price = record {
      num = net *ℤ pos (10 ^ token_in.decimals);
      den = pos_part amount_in * 10 ^ (token_out_of p token_in).decimals;
    };
  })
