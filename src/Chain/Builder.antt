-- ===== src/Chain/Builder.antt =====
-- `TransactionBuilder` of chain/builder.py, with `GasPrice` of chain/client.py and
-- `TransactionRequest` of core/types.py. The replies of the client are arguments, and `scaled` is
-- `int(x * 1.2)`, the default buffer of both calls that have one. An address is its number.
pub mod Result
pub mod Calls
use peanut_trade_internship.Base.{
  ℕ, String, str_eq, Bool, not, ◌||◌, ◌==◌, Option, none, some, List, if◌then◌else◌, Outcome, ok,
  raised, ◌>>=◌, ◌>>◌, raise_if, is_some,
}
use peanut_trade_internship.Base.Int.{ℤ, pos, ◌+ℤ◌, ltb_ℤ, leb_ℤ}
use peanut_trade_internship.Core.Token.{Address}
use peanut_trade_internship.Core.Amount.{TokenAmount}

pub record TransactionRequest : Type 0 where
  pub to : Address
  pub value : TokenAmount
  pub calldata : List ℕ
  pub nonce : Option ℤ
  pub gas_limit : Option ℤ
  pub max_fee_per_gas : Option ℤ
  pub max_priority_fee : Option ℤ
  pub chain_id : ℤ
  pub sender : Option Address

pub record TransactionBuilder : Type 0 where
  pub to : Option Address
  pub value : Option TokenAmount
  pub calldata : Option (List ℕ)
  pub nonce : Option ℤ
  pub gas_limit : Option ℤ
  pub max_fee_per_gas : Option ℤ
  pub max_priority_fee : Option ℤ
  pub chain_id : ℤ

pub data BuilderError : Type 0 where
  bad_decimals : BuilderError
  bad_nonce : BuilderError
  bad_gas_limit : BuilderError
  bad_priority : BuilderError
  missing_fields : BuilderError
  nonce_failed : BuilderError

pub record GasPrice : Type 0 where
  pub base_fee : ℤ
  pub priority_fee_low : ℤ
  pub priority_fee_medium : ℤ
  pub priority_fee_high : ℤ

abbrev pub new_builder : TransactionBuilder
new_builder = record {
  to = none;
  value = none;
  calldata = none;
  nonce = none;
  gas_limit = none;
  max_fee_per_gas = none;
  max_priority_fee = none;
  chain_id = pos 1;
}

abbrev pub set_to : Address → TransactionBuilder → TransactionBuilder
set_to address b = record b { to = some address }

abbrev pub set_value : TokenAmount → TransactionBuilder → Outcome BuilderError TransactionBuilder
set_value amount b = do
  raise_if (not (amount.decimals == 18)) bad_decimals
  ok (record b { value = some amount })

abbrev pub set_calldata : List ℕ → TransactionBuilder → TransactionBuilder
set_calldata calldata b = record b { calldata = some calldata }

abbrev pub set_nonce : ℤ → TransactionBuilder → Outcome BuilderError TransactionBuilder
set_nonce nonce b = do
  raise_if (ltb_ℤ nonce (pos 0)) bad_nonce
  ok (record b { nonce = some nonce })

abbrev pub set_gas_limit : ℤ → TransactionBuilder → Outcome BuilderError TransactionBuilder
set_gas_limit limit b = do
  raise_if (leb_ℤ limit (pos 0)) bad_gas_limit
  ok (record b { gas_limit = some limit })

abbrev pub set_chain_id : ℤ → TransactionBuilder → TransactionBuilder
set_chain_id chain_id b = record b { chain_id = chain_id }

-- `_validate_required`, and `_ensure_required_for_estimate` with the same test.
abbrev pub validate_required : TransactionBuilder → Outcome BuilderError (Unit {0})
validate_required b =
    raise_if (not (is_some b.to) || not (is_some b.value) || not (is_some b.calldata))
      missing_fields

-- `priority_map.get(priority)`
abbrev pub priority_fee : GasPrice → String → Option ℤ
priority_fee g priority =
    if str_eq priority "low"
    then some g.priority_fee_low
    else if str_eq priority "medium"
    then some g.priority_fee_medium
    else if str_eq priority "high"
    then some g.priority_fee_high
    else none

module _ (scaled : ℤ → ℤ) where
  abbrev pub get_max_fee : GasPrice → String → Outcome BuilderError ℤ
  get_max_fee g priority = elim (priority_fee g priority) [
    | none ↦ raised bad_priority
    | some fee ↦ ok (scaled g.base_fee +ℤ fee)
  ]

  -- `estimated` is the reply of `estimate_gas`.
  abbrev pub with_gas_estimate : ℤ → TransactionBuilder → Outcome BuilderError TransactionBuilder
  with_gas_estimate estimated b = do
    validate_required b
    ok (record b { gas_limit = some (scaled estimated) })

  -- The second look at the priority cannot fail after the first.
  abbrev pub with_gas_price :
      GasPrice → String → TransactionBuilder → Outcome BuilderError TransactionBuilder
  with_gas_price g priority b = do
    max_fee ← get_max_fee g priority
    elim (priority_fee g priority) [
      | none ↦ raised bad_priority
      | some fee ↦ ok (record b { max_fee_per_gas = some max_fee; max_priority_fee = some fee })
    ]

-- `chain_nonce` is the reply of `get_nonce`, none where the call raises; it is asked for only without
-- an explicit nonce.
abbrev pub nonce_or : Option ℤ → Option ℤ → Outcome BuilderError ℤ
nonce_or none none = raised nonce_failed
nonce_or none (some chain_nonce) = ok chain_nonce
nonce_or (some n) chain_nonce = ok n

abbrev pub request_of :
    Option Address
    → Option TokenAmount
    → Option (List ℕ)
    → ℤ
    → Address
    → TransactionBuilder
    → Outcome BuilderError TransactionRequest
request_of (some to) (some value) (some calldata) nonce sender b = ok (record {
  to = to;
  value = value;
  calldata = calldata;
  nonce = some nonce;
  gas_limit = b.gas_limit;
  max_fee_per_gas = b.max_fee_per_gas;
  max_priority_fee = b.max_priority_fee;
  chain_id = b.chain_id;
  sender = some sender;
})
request_of _ _ _ nonce sender b = raised missing_fields

unfoldable pub build :
    (chain_nonce : Option ℤ) (sender : Address)
    → TransactionBuilder
    → Outcome BuilderError TransactionRequest
build chain_nonce sender b = do
  validate_required b
  nonce ← nonce_or b.nonce chain_nonce
  request_of b.to b.value b.calldata nonce sender b
