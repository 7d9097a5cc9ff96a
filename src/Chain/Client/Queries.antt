-- ===== src/Chain/Client/Queries.antt =====
-- The other calls of `ChainClient` in chain/client.py, each over what `_call_with_retry` gives.
pub mod Fees
use peanut_trade_internship.Base.{
  ℕ, zero, suc, String, Bool, List, [], ◌∷◌, Option, none, some, if◌then◌else◌, Outcome, ok, raised,
  ◌>>=◌, length,
}
use peanut_trade_internship.Base.Int.{ℤ, pos, ◌+ℤ◌}
use peanut_trade_internship.Base.Text.{starts_with, append}
use peanut_trade_internship.Core.Amount.{TokenAmount}
use peanut_trade_internship.Chain.Errors.{Failure, other, rpc_error}
use peanut_trade_internship.Chain.Client.{Reply, raw, text, value}
use peanut_trade_internship.Chain.Builder.{GasPrice}

abbrev pub Called : Type 0 → Type 0
Called A = Outcome Failure A

-- `balance` is the reply to `get_balance`.
unfoldable pub get_balance : Called ℤ → Called TokenAmount
get_balance balance = do
  wei ← balance
  ok (record { raw = wei; decimals = 18; symbol = some "ETH" })

-- `[r[idx] for r in rewards if r]`
abbrev pub entry_at : ℕ → List ℤ → Called ℤ
entry_at idx [] = raised (other "IndexError")
entry_at zero (x ∷ xs) = ok x
entry_at (suc idx) (x ∷ xs) = entry_at idx xs

unfoldable pub column : ℕ → List (List ℤ) → Called (List ℤ)
column idx [] = ok []
column idx ([] ∷ rows) = column idx rows
column idx ((x ∷ row) ∷ rows) = do
  entry ← entry_at idx (x ∷ row)
  entries ← column idx rows
  ok (entry ∷ entries)

abbrev pub sum : List ℤ → ℤ
sum [] = pos 0
sum (x ∷ xs) = x +ℤ sum xs

-- `[[0, 0, 0]] * 5`
abbrev pub no_rewards : List (List ℤ)
no_rewards = let row : List ℤ = pos 0 ∷ pos 0 ∷ pos 0 ∷ [] in row ∷ row ∷ row ∷ row ∷ row ∷ []

abbrev pub or_else : {A : Type 0} → A → Option A → A
or_else a none = a
or_else a (some b) = b

-- `quotient` is `int(a / b)`.
module _ (quotient : ℤ → ℕ → ℤ) where
  abbrev pub average : List ℤ → ℤ
  average [] = pos 1_000_000_000
  average (x ∷ xs) = quotient (sum (x ∷ xs)) (length (x ∷ xs))

  abbrev pub avg_percentile : List (List ℤ) → ℕ → Called ℤ
  avg_percentile rewards idx = do entries ← column idx rewards; ok (average entries)

  -- The `try` block: the entries "baseFeePerGas" and "reward" of two replies.
  abbrev pub from_history : Called (Option ℤ) → Called (Option (List (List ℤ))) → Called GasPrice
  from_history block history = do
    base_fee ← block
    reward ← history
    let rewards = or_else no_rewards reward
    low ← avg_percentile rewards 0
    medium ← avg_percentile rewards 1
    high ← avg_percentile rewards 2
    ok (record {
      base_fee = or_else (pos 0) base_fee;
      priority_fee_low = low;
      priority_fee_medium = medium;
      priority_fee_high = high;
    })

  -- The `except` block: the entry "gasPrice" of a third reply.
  abbrev pub from_gas_price : Called (Option ℤ) → Called GasPrice
  from_gas_price block = do
    gas_price ← block
    ok (record {
      base_fee = or_else (pos 20_000_000_000) gas_price;
      priority_fee_low = pos 1_000_000_000;
      priority_fee_medium = pos 2_000_000_000;
      priority_fee_high = pos 3_000_000_000;
    })

  abbrev pub or_fallback : Called GasPrice → Called GasPrice → Called GasPrice
  or_fallback (ok g) fallback = ok g
  or_fallback (raised e) fallback = fallback

  unfoldable pub get_gas_price :
      Called (Option ℤ) → Called (Option (List (List ℤ))) → Called (Option ℤ) → Called GasPrice
  unfolding column
  get_gas_price block history later_block =
      or_fallback (from_history block history) (from_gas_price later_block)

-- The text of a transaction hash: `hex` of bytes, `str` of anything else.
module _ {A : Type 0} (hex : List ℕ → String) (str_of : A → String) where
  abbrev pub hash_of : Reply A → String
  hash_of (raw bytes) = hex bytes
  hash_of (text s) = s
  hash_of (value v) = str_of v

  abbrev pub with_prefix : String → String
  with_prefix s = if starts_with "0x" s then s else append "0x" s

  unfoldable pub send_transaction : Called (Reply A) → Called String
  send_transaction reply = do tx_hash ← reply; ok (with_prefix (hash_of tx_hash))

-- `get_transaction` of a reply that may be `None`.
unfoldable pub get_transaction : {A : Type 0} → String → Called (Option A) → Called A
get_transaction tx_hash reply = do
  result ← reply
  elim result [
    | none ↦ raised (rpc_error (append "Transaction " (append tx_hash " not found")) none)
    | some t ↦ ok t
  ]
