-- ===== src/Chain/Client/Receipts/Wait.antt =====
-- How `wait_for_receipt` and `call` end (chain/client.py).
use peanut_trade_internship.Base.{
  ℕ, zero, suc, ◌+◌, ◌-◌, ◌≤◌, ◌<◌, String, Bool, true, false, List, ◌∷◌, Option, none, some, ◌≡◌,
  refl, inl, inr, arith, Outcome, ok, raised, ltb, Bool-cases, if◌then◌else◌,
}
use native.Mathlib.Nat.{le_trans, le_of_lt}
use peanut_trade_internship.Chain.Errors.{Failure, other, transaction_failed, transaction_timeout}
use peanut_trade_internship.Chain.Client.{raw, dispatch}
use peanut_trade_internship.Chain.Client.Retry.{call_with_retry-dispatch}
use peanut_trade_internship.Chain.Client.Receipts.{
  TransactionReceipt, Answers, call, settle, after_poll, wait_from, wait_for_receipt,
}

module _ (tx_hash : String) (clock : ℕ → ℕ)
    (poll : ℕ → Outcome Failure (Option TransactionReceipt)) where
  -- No receipt at any poll before the n-th.
  abbrev pub IsPending : ℕ → Type 0
  IsPending n = (j : ℕ) → j < n → poll j ≡ ok none

  -- The four ways to leave the loop, each at its first occasion.
  pub data Ends (deadline : ℕ) : Outcome Failure TransactionReceipt → Type 0 where
    confirmed :
        (n : ℕ) (r : TransactionReceipt)
        → IsPending n
        → clock n < deadline
        → poll n ≡ ok (some r)
        → r.status ≡ true
        → Ends deadline (ok r)
    reverted :
        (n : ℕ) (r : TransactionReceipt)
        → IsPending n
        → clock n < deadline
        → poll n ≡ ok (some r)
        → r.status ≡ false
        → Ends deadline (raised (transaction_failed tx_hash))
    broken :
        (n : ℕ) (e : Failure)
        → IsPending n
        → clock n < deadline
        → poll n ≡ raised e
        → Ends deadline (raised e)
    timed_out :
        (n : ℕ)
        → IsPending n
        → deadline ≤ clock n
        → Ends deadline (raised (transaction_timeout tx_hash))

  IsPending-suc : (n : ℕ) → IsPending n → poll n ≡ ok none → IsPending (suc n)
  IsPending-suc n h e j lt = elim (Bool-cases (ltb j n)) [
    | inl b ↦ h j (ground arith)
    | inr b ↦ let same : j ≡ n = ground arith in rw same e
  ]

  abbrev pub Result : ℕ → Option (Outcome Failure TransactionReceipt) → Type 0
  Result deadline o =
      (result : Outcome Failure TransactionReceipt) × (o ≡ some result) × Ends deadline result

  settled_by :
      (b : Bool) (deadline n : ℕ) (r : TransactionReceipt)
      → IsPending n
      → clock n < deadline
      → poll n ≡ ok (some r)
      → r.status ≡ b
      → Ends deadline (if b then ok r else raised (transaction_failed tx_hash))
  settled_by true deadline n r p lt e s = confirmed n r p lt e s
  settled_by false deadline n r p lt e s = reverted n r p lt e s

  after_poll_ends :
      (deadline n : ℕ) (answer : Outcome Failure (Option TransactionReceipt))
      (rest : Option (Outcome Failure TransactionReceipt))
      → IsPending n
      → clock n < deadline
      → poll n ≡ answer
      → (IsPending (suc n) → Result deadline rest)
      → Result deadline (after_poll tx_hash clock poll answer rest)
  after_poll_ends deadline n (raised e) rest p lt a later = (raised e, refl, broken n e p lt a)
  after_poll_ends deadline n (ok none) rest p lt a later = later (IsPending-suc n p a)
  after_poll_ends deadline n (ok (some r)) rest p lt a later =
      (settle tx_hash clock poll r, refl, settled_by r.status deadline n r p lt a refl)

  wait_from_ends :
      (fuel n deadline : ℕ)
      → ((j : ℕ) → clock j < clock (suc j))
      → deadline - clock n < fuel
      → IsPending n
      → Result deadline (wait_from tx_hash clock poll fuel n deadline)
  unfolding wait_from
  wait_from_ends zero n deadline ticks h p = absurd (omega arith)
  wait_from_ends (suc fuel) n deadline ticks h p = elim (Bool-cases (ltb (clock n) deadline)) [
    | inl e ↦ rw e (
        after_poll_ends deadline n (poll n) _ p (ground arith) refl
          (wait_from_ends fuel (suc n) deadline ticks (ground (arith, ticks n))))
    | inr e ↦ rw e (raised (transaction_timeout tx_hash), refl, timed_out n p (ground arith))
  ]

  -- If the clock of the loop starts no earlier than the call and each round takes time, then the
  -- wait ends: one round more than the timeout is fuel enough. It ends with the first receipt that
  -- a poll before the deadline gives, if that confirms the transaction, and raises an error for one
  -- that does not; it raises the first exception of a poll before the deadline; and it raises the
  -- timeout only when the deadline has passed and every poll until then gave no receipt.
  pub wait_for_receipt_ends :
      (fuel start timeout : ℕ)
      → ((j : ℕ) → clock j < clock (suc j))
      → start ≤ clock 0
      → timeout < fuel
      → Result (start + timeout) (wait_for_receipt tx_hash clock poll fuel start timeout)
  unfolding wait_for_receipt
  wait_for_receipt_ends fuel start timeout ticks begun h =
      wait_from_ends fuel 0 (start + timeout) ticks (omega arith) (λ j lt. absurd (omega arith))

  clock_mono :
      (more n k : ℕ) → more + n ≡ k → ((j : ℕ) → clock j < clock (suc j)) → clock n ≤ clock k
  clock_mono zero n k at ticks = let same : n ≡ k = omega arith in rw same (omega arith)
  clock_mono (suc more) n k at ticks =
      let next = clock_mono more (suc n) k (omega arith) ticks in
      let tick = ticks n in le_trans (le_of_lt tick) next

  receipt_after :
      (more fuel n k deadline : ℕ) (r : TransactionReceipt)
      → more + n ≡ k
      → ((j : ℕ) → clock j < clock (suc j))
      → IsPending k
      → poll k ≡ ok (some r)
      → clock k < deadline
      → more < fuel
      → wait_from tx_hash clock poll fuel n deadline ≡ some (settle tx_hash clock poll r)
  unfolding wait_from
  receipt_after more zero n k deadline r at ticks p e lt h = absurd (omega arith)
  receipt_after zero (suc fuel) n k deadline r at ticks p e lt h =
      let same : n ≡ k = omega arith in
      let in_time : ltb (clock k) deadline ≡ true = ground arith in rw (same, in_time, e) refl
  receipt_after (suc more) (suc fuel) n k deadline r at ticks p e lt h =
      let by_then = clock_mono (suc more) n k at ticks in
      let in_time : ltb (clock n) deadline ≡ true = ground arith in
      rw (in_time, p n (omega arith))
        (receipt_after more fuel (suc n) k deadline r (omega arith) ticks p e lt (omega arith))

  -- If the clock moves on with each round, then a receipt that a poll gives before the deadline, where
  -- no earlier poll gave one, ends the wait, with fuel for the rounds up to it: it is returned if it
  -- confirms the transaction, and raises the error of a failed transaction otherwise.
  pub receipt_in_time :
      (fuel start timeout k : ℕ) (r : TransactionReceipt)
      → ((j : ℕ) → clock j < clock (suc j))
      → IsPending k
      → poll k ≡ ok (some r)
      → clock k < start + timeout
      → k < fuel
      → wait_for_receipt tx_hash clock poll fuel start timeout
        ≡ some (if r.status then ok r else raised (transaction_failed tx_hash))
  unfolding wait_for_receipt
  receipt_in_time fuel start timeout k r ticks p e lt h =
      receipt_after k fuel 0 k (start + timeout) r (omega arith) ticks p e lt h

-- If the first endpoint answers an `eth_call` with bytes, as web3 does, then `call` raises a
-- `TypeError`: `_dispatch` has turned the bytes into a text.
pub call_raises :
    {A : Type 0} (hex : List ℕ → String) (of_value : A → Outcome Failure (List ℕ)) (url : String)
    (urls : List String) (timeout left : ℕ) (answers : Answers A) {bytes : List ℕ}
    → answers 0 0 ≡ ok (raw bytes)
    → call hex of_value
        (record { rpc_urls = url ∷ urls; timeout = timeout; max_retries = suc left })
        answers
      ≡ raised (other "TypeError")
unfolding call dispatch
call_raises hex of_value url urls timeout left answers h =
    rw (call_with_retry-dispatch hex "call" url urls timeout left answers, h) refl
