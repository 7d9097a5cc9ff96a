-- ===== src/Chain/Tests.antt =====
-- Instances of the theorems on building transactions.
use peanut_trade_internship.Base.{none, some, List, [], ◌∷◌, ◌≡◌, refl, ok}
use peanut_trade_internship.Base.Int.{ℤ, pos}
use peanut_trade_internship.Core.Amount.{TokenAmount}
use peanut_trade_internship.Chain.Builder.{TransactionBuilder, new_builder, build}
use peanut_trade_internship.Chain.Builder.Result.{Built}
use peanut_trade_internship.Chain.Builder.Calls.{Call, call, calls, build_lem, IsSetBy}

abbrev one_ether : TokenAmount
one_ether = record { raw = pos 1000; decimals = 18; symbol = none }

-- No buffer at all.
abbrev unscaled : ℤ → ℤ
unscaled x = x

abbrev some_calls : List Call
some_calls = Call.to 7 ∷ Call.value one_ether ∷ Call.calldata [] ∷ Call.nonce (pos 4) ∷ []

abbrev after_calls : TransactionBuilder
after_calls = record new_builder {
  to = some 7;
  value = some one_ether;
  calldata = some [];
  nonce = some (pos 4);
}

called : calls unscaled some_calls new_builder ≡ ok after_calls
unfolding calls call
called = refl

build_lem_example :
    IsSetBy unscaled some_calls after_calls
    × Built (some (pos 9)) 5 after_calls (build (some (pos 9)) 5 after_calls)
build_lem_example =
    build_lem unscaled (λ x h. h) some_calls after_calls (some (pos 9)) 5 (tt, (tt, (tt, (tt, tt))))
      called
