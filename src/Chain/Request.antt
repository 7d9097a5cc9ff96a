-- ===== src/Chain/Request.antt =====
-- `TransactionRequest.to_dict` of core/types.py. An address stands for its checksum text.
use peanut_trade_internship.Base.{ℕ, String, List, [], ◌∷◌, ◌++◌, Option, none, some}
use peanut_trade_internship.Base.Dict.{Dict}
use peanut_trade_internship.Base.Int.{ℤ}
use peanut_trade_internship.Core.Token.{Address}
use peanut_trade_internship.Chain.Builder.{TransactionRequest}

-- A value of the dict.
pub data Entry : Type 0 where
  address : Address → Entry
  number : ℤ → Entry
  calldata : List ℕ → Entry

-- `if value is not None: tx[key] = value`, for a key that is not there yet.
abbrev optional : {A : Type 0} → (A → Entry) → String → Option A → Dict String Entry
optional entry key none = []
optional entry key (some value) = (key, entry value) ∷ []

abbrev to_dict : TransactionRequest → Dict String Entry
to_dict request =
    (("to", address request.to)
      ∷ ("value", number request.value.raw)
      ∷ ("data", calldata request.calldata)
      ∷ ("chainId", number request.chain_id)
      ∷ [])
    ++ optional address "from" request.sender
    ++ optional number "nonce" request.nonce
    ++ optional number "gas" request.gas_limit
    ++ optional number "maxFeePerGas" request.max_fee_per_gas
    ++ optional number "maxPriorityFeePerGas" request.max_priority_fee
