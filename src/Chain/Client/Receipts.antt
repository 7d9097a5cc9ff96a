-- ===== src/Chain/Client/Receipts.antt =====
-- Receipts: `TransactionReceipt` of core/types.py, and `get_receipt`, `wait_for_receipt`,
-- `get_transaction` and `call` of chain/client.py. A receipt of web3 is one dict for each type of value.
pub mod Wait
use peanut_trade_internship.Base.{
  ℕ, zero, suc, ◌+◌, String, Bool, true, false, not, List, [], Option, none, some, if◌then◌else◌,
  string_eq, Outcome, ok, raised, ◌>>=◌, ltb,
}
use peanut_trade_internship.Base.Dict.{Dict, lookup, lookup_or}
use peanut_trade_internship.Base.Int.{ℤ, pos, ◌*ℤ◌, eqb_ℤ}
use peanut_trade_internship.Core.Amount.{TokenAmount}
use peanut_trade_internship.Chain.Errors.{
  Failure, other, rpc_error, transaction_failed, transaction_timeout, is_not_found,
}
use peanut_trade_internship.Chain.Client.{
  ChainClient, Web3Error, Reply, raw, text, value, dispatch, call_with_retry,
}

pub record RawReceipt : Type 0 where
  pub hashes : Dict String (List ℕ)
  pub numbers : Dict String ℤ
  pub lists : Dict String (List String)

-- `receipt.get(key_camel, receipt.get(key_snake))`
abbrev pub get : {V : Type 0} → String → String → Dict String V → Option V
get camel snake d = elim (lookup camel d) [ none ↦ lookup snake d | some v ↦ some v ]

abbrev pub or_default : {V : Type 0} → V → Option V → V
or_default v none = v
or_default v (some w) = w

pub record TransactionReceipt : Type 0 where
  pub tx_hash : Option String
  pub block_number : Option ℤ
  pub status : Bool
  pub gas_used : Option ℤ
  pub effective_gas_price : ℤ
  pub logs : List String

abbrev pub hash_text : (List ℕ → String) → Option (List ℕ) → Option String
hash_text hex none = none
hash_text hex (some bytes) = some (hex bytes)

unfoldable pub from_web3 : (List ℕ → String) → RawReceipt → TransactionReceipt
from_web3 hex r = record {
  tx_hash = hash_text hex (get "transactionHash" "transaction_hash" r.hashes);
  block_number = get "blockNumber" "block_number" r.numbers;
  status = not (eqb_ℤ (or_default (pos 0) (get "status" "status" r.numbers)) (pos 0));
  gas_used = get "gasUsed" "gas_used" r.numbers;
  effective_gas_price =
      or_default (pos 0) (get "effectiveGasPrice" "effective_gas_price" r.numbers);
  logs = or_default [] (get "logs" "logs" r.lists);
}

-- A receipt without the gas that was used has no fee: `None * int` is a `TypeError`.
unfoldable pub tx_fee : TransactionReceipt → Outcome Failure TokenAmount
tx_fee r = elim r.gas_used [
  | none ↦ raised (other "TypeError")
  | some gas ↦
      ok (record { raw = gas *ℤ r.effective_gas_price; decimals = 18; symbol = some "ETH" })
]

-- `None if raw is None else from_web3(dict(raw))`; only a mapping can be a `dict`.
abbrev pub receipt_of :
    (List ℕ → String) → Reply (Option RawReceipt) → Outcome Failure (Option TransactionReceipt)
receipt_of hex (value none) = ok none
receipt_of hex (value (some r)) = ok (some (from_web3 hex r))
receipt_of hex (raw bytes) = raised (other "TypeError")
receipt_of hex (text s) = raised (other "ValueError")

abbrev pub none_if_not_found :
    Outcome Failure (Reply (Option RawReceipt)) → Outcome Failure (Reply (Option RawReceipt))
none_if_not_found (ok r) = ok r
none_if_not_found (raised e) = if is_not_found e then ok (value none) else raised e

-- What web3 answers or raises, at each endpoint and attempt.
abbrev pub Answers : Type 0 → Type 0
Answers A = ℕ → ℕ → Outcome Web3Error (Reply A)

unfoldable pub get_receipt :
    (List ℕ → String)
    → ChainClient
    → Answers (Option RawReceipt)
    → Outcome Failure (Option TransactionReceipt)
get_receipt hex c answers =
    none_if_not_found
      (call_with_retry (λ i k. dispatch hex "get_transaction_receipt" (answers i k)) c).0
    >>= receipt_of hex

-- `bytes(result)`: a `str` without an encoding is a `TypeError`.
abbrev pub bytes_of :
    {A : Type 0} → (A → Outcome Failure (List ℕ)) → Reply A → Outcome Failure (List ℕ)
bytes_of of_value (raw bytes) = ok bytes
bytes_of of_value (text s) = raised (other "TypeError")
bytes_of of_value (value v) = of_value v

-- `of_value` is `bytes` of what is neither bytes nor a text.
unfoldable pub call :
    {A : Type 0}
    → (List ℕ → String)
    → (A → Outcome Failure (List ℕ))
    → ChainClient
    → Answers A
    → Outcome Failure (List ℕ)
call hex of_value c answers =
    (call_with_retry (λ i k. dispatch hex "call" (answers i k)) c).0 >>= bytes_of of_value

-- `clock n` is the n-th reading of the clock by the test of the loop, `poll n` what `get_receipt`
-- gives after it. The loop has fuel, and `none` means that it ran out.
module _ (tx_hash : String) (clock : ℕ → ℕ)
    (poll : ℕ → Outcome Failure (Option TransactionReceipt)) where
  abbrev pub settle : TransactionReceipt → Outcome Failure TransactionReceipt
  settle r = if r.status then ok r else raised (transaction_failed tx_hash)

  abbrev pub after_poll :
      Outcome Failure (Option TransactionReceipt)
      → Option (Outcome Failure TransactionReceipt)
      → Option (Outcome Failure TransactionReceipt)
  after_poll (raised e) rest = some (raised e)
  after_poll (ok none) rest = rest
  after_poll (ok (some r)) rest = some (settle r)

  unfoldable pub wait_from : (fuel n deadline : ℕ) → Option (Outcome Failure TransactionReceipt)
  wait_from zero n deadline = none
  wait_from (suc fuel) n deadline =
      let rest = wait_from fuel (suc n) deadline in
      if ltb (clock n) deadline
      then after_poll (poll n) rest
      else some (raised (transaction_timeout tx_hash))

  unfoldable pub wait_for_receipt :
      (fuel start timeout : ℕ) → Option (Outcome Failure TransactionReceipt)
  unfolding wait_from
  wait_for_receipt fuel start timeout = wait_from fuel 0 (start + timeout)
