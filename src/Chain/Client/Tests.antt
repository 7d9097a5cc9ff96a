-- ===== src/Chain/Client/Tests.antt =====
-- Instances of the theorems on the client.
use peanut_trade_internship.Base.{
  ℕ, zero, suc, ◌+◌, ◌<◌, String, List, [], ◌∷◌, Option, none, some, ◌≡◌, refl, arith, Outcome, ok,
  raised,
}
use peanut_trade_internship.Base.Int.{pos}
use peanut_trade_internship.Chain.Errors.{Failure, other, insufficient_funds, classify_rpc_error}
use peanut_trade_internship.Base.Text.{in_lower}
use peanut_trade_internship.Chain.Client.{
  ChainClient, Web3Error, Reply, value, call_with_retry, dispatch, request, translate,
}
use peanut_trade_internship.Chain.Client.Retry.{
  seen, allowed, first_decision, call_with_retry-first_decision, call_with_retry-dispatch,
}
use peanut_trade_internship.Chain.Client.Receipts.{
  TransactionReceipt, RawReceipt, Answers, get_receipt, wait_for_receipt, from_web3,
}
use peanut_trade_internship.Chain.Client.Receipts.Wait.{
  Result, wait_for_receipt_ends, receipt_in_time,
}

abbrev a_client : ChainClient
a_client = record { rpc_urls = "a" ∷ "b" ∷ []; timeout = 30; max_retries = 2 }

-- Only the second endpoint answers, at its second attempt.
abbrev answers_late : ℕ → ℕ → Outcome Failure ℕ
answers_late zero k = raised (other "down")
answers_late (suc i) zero = raised (other "slow")
answers_late (suc i) (suc k) = ok 7

call_with_retry-first_decision_example :
    seen (call_with_retry answers_late a_client) ≡ first_decision answers_late (allowed 2 2 0) []
call_with_retry-first_decision_example = call_with_retry-first_decision answers_late a_client

answers_at_last :
    first_decision answers_late (allowed 2 2 0) [] ≡ (ok 7, (0, 0) ∷ (0, 1) ∷ (1, 0) ∷ (1, 1) ∷ [])
answers_at_last = refl

abbrev no_text : List ℕ → String
no_text bytes = "0x"

abbrev refuses : ℕ → ℕ → Outcome Web3Error (Reply ℕ)
refuses i k = raised (Web3Error.exception "Connection refused" none)

call_with_retry-dispatch_example :
    call_with_retry (λ i k. dispatch no_text "get_balance" (refuses i k)) a_client
    ≡ (dispatch no_text "get_balance" (refuses 0 0), request 0 0 ∷ [])
call_with_retry-dispatch_example =
    call_with_retry-dispatch no_text "get_balance" "a" ("b" ∷ []) 30 1 refuses

poor :
    translate (Web3Error.exception "Insufficient funds for gas" none)
    ≡ insufficient_funds "Insufficient funds for gas"
unfolding translate classify_rpc_error in_lower
poor = refl

abbrev a_raw_receipt : RawReceipt
a_raw_receipt = record {
  hashes = ("transactionHash", []) ∷ [];
  numbers = ("status", pos 1) ∷ ("gasUsed", pos 21_000) ∷ [];
  lists = [];
}

-- Mined after two polls.
abbrev polled : ℕ → Answers (Option RawReceipt)
polled zero i k = ok (value none)
polled (suc zero) i k = raised (Web3Error.exception "Transaction not found" none)
polled (suc (suc n)) i k = ok (value (some a_raw_receipt))

abbrev poll : ℕ → Outcome Failure (Option TransactionReceipt)
poll n = get_receipt no_text a_client (polled n)

abbrev clock : ℕ → ℕ
clock n = 100 + n

pending : (j : ℕ) → j < 2 → poll j ≡ ok none
unfolding get_receipt call_with_retry dispatch classify_rpc_error in_lower
pending zero h = refl
pending (suc zero) h = refl
pending (suc (suc j)) h = absurd (omega arith)

mined : poll 2 ≡ ok (some (from_web3 no_text a_raw_receipt))
unfolding get_receipt call_with_retry dispatch classify_rpc_error in_lower
mined = refl

receipt_in_time_example :
    wait_for_receipt "0x1" clock poll 3 100 120 ≡ some (ok (from_web3 no_text a_raw_receipt))
unfolding from_web3
receipt_in_time_example =
    receipt_in_time "0x1" clock poll 3 100 120 2 (from_web3 no_text a_raw_receipt)
      (λ j. omega arith) pending mined (omega arith) (omega arith)

wait_for_receipt_ends_example :
    Result "0x1" clock poll 220 (wait_for_receipt "0x1" clock poll 121 100 120)
wait_for_receipt_ends_example =
    wait_for_receipt_ends "0x1" clock poll 121 100 120 (λ j. omega arith) (omega arith)
      (omega arith)
