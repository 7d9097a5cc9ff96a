-- ===== src/Chain/Client.antt =====
-- `ChainClient` of chain/client.py. What web3 answers or raises at each attempt is a parameter, and
-- so is the clock. `get_receipt` and `wait_for_receipt` stand in Client/Receipts.
pub mod Queries
pub mod Receipts
pub mod Retry
mod Tests
use peanut_trade_internship.Base.{
  ℕ, zero, suc, ◌+◌, ◌^◌, ◌==◌, String, str_eq, Bool, true, false, List, [], ◌∷◌, ◌++◌, Option,
  none, some, if◌then◌else◌, any, Outcome, ok, raised, ◌>>=◌, length,
}
use peanut_trade_internship.Base.Int.{ℤ}
use peanut_trade_internship.Base.Text.{append}
use peanut_trade_internship.Chain.Errors.{
  Failure, other, rpc_error, is_chain_error, classify_rpc_error,
}

pub data ClientError : Type 0 where
  no_urls : ClientError

pub record ChainClient : Type 0 where
  pub rpc_urls : List String
  pub timeout : ℕ
  pub max_retries : ℕ

abbrev pub new_client : List String → ℕ → ℕ → Outcome ClientError ChainClient
new_client [] timeout max_retries = raised no_urls
new_client (url ∷ urls) timeout max_retries =
    ok (record { rpc_urls = url ∷ urls; timeout = timeout; max_retries = max_retries })

-- What web3 raises: `exception` with its text, and with the message and the code if its first
-- argument is a dict.
pub data Web3Error : Type 0 where
  contract_logic_error : String → Web3Error
  exception : String → Option (Option String × Option ℤ) → Web3Error

-- What web3 answers.
pub data Reply (A : Type 0) : Type 0 where
  raw : List ℕ → Reply A
  text : String → Reply A
  value : A → Reply A

abbrev pub methods : List String
methods =
    "get_balance" ∷ "get_transaction_count" ∷ "get_block" ∷ "fee_history" ∷ "estimate_gas"
    ∷ "send_raw_transaction" ∷ "get_transaction_receipt" ∷ "get_transaction" ∷ "call" ∷ []

abbrev pub message_or : String → Option String → String
message_or message none = message
message_or message (some given) = given

-- The handlers of `_dispatch`.
unfoldable pub translate : Web3Error → Failure
translate (contract_logic_error message) = rpc_error message none
translate (exception message none) = classify_rpc_error message none
translate (exception message (some (given, code))) =
    classify_rpc_error (message_or message given) code

module _ {A : Type 0} (hex : List ℕ → String) where
  -- `raw.hex() if isinstance(raw, bytes | bytearray) else raw`
  abbrev pub hex_of : Reply A → Reply A
  hex_of (raw bytes) = text (hex bytes)
  hex_of (text s) = text s
  hex_of (value v) = value v

  -- The cases of the `match`; `ValueError` is caught like the errors of web3.
  abbrev pub matched : String → Outcome Web3Error (Reply A) → Outcome Web3Error (Reply A)
  matched method reply =
      if any (str_eq method) methods
      then if str_eq method "call" then (reply >>= λ r. ok (hex_of r)) else reply
      else raised (exception (append "Unknown method: " method) none)

  abbrev pub translated : Outcome Web3Error (Reply A) → Outcome Failure (Reply A)
  translated (ok r) = ok r
  translated (raised e) = raised (translate e)

  unfoldable pub dispatch : String → Outcome Web3Error (Reply A) → Outcome Failure (Reply A)
  unfolding translate
  dispatch method reply = translated (matched method reply)

-- What the client does, in order.
pub data Action : Type 0 where
  request : (endpoint attempt : ℕ) → Action
  sleep : (seconds : ℕ) → Action

-- How the loop over the attempts at one endpoint is left: by `return` or `raise`, or at its end.
pub data Left (A : Type 0) : Type 0 where
  left_by : Outcome Failure A → Left A
  exhausted : (errors : List String) → Left A

-- `time.sleep(2**attempt)`, but not after the last attempt.
abbrev pub pause : (left attempt : ℕ) → List Action
pause zero attempt = []
pause (suc left) attempt = sleep (2 ^ attempt) ∷ []

module _ {A : Type 0} where
  -- After an attempt: the rest of the loop runs only after an exception that is no `ChainError`.
  abbrev pub after :
      ℕ
      → ℕ
      → ℕ
      → Outcome Failure A
      → List String
      → (List String → Left A × List Action)
      → Left A × List Action
  after endpoint left attempt (ok answer) errors rest =
      (left_by (ok answer), request endpoint attempt ∷ [])
  after endpoint left attempt (raised (other message)) errors rest =
      let (result, log) = rest (errors ++ message ∷ []) in
      (result, request endpoint attempt ∷ (pause left attempt ++ log))
  after endpoint left attempt (raised e) errors rest =
      (left_by (raised e), request endpoint attempt ∷ [])

  -- The loop over the endpoints goes on with the errors so far.
  abbrev pub go_on :
      Left A × List Action
      → (List String → Outcome Failure A × List Action)
      → Outcome Failure A × List Action
  go_on (left_by result, log) next = (result, log)
  go_on (exhausted errors, log) next = let (result, later) = next errors in (result, log ++ later)

module _ {A : Type 0} (dispatched : ℕ → ℕ → Outcome Failure A) where
  unfoldable pub try_endpoint : (endpoint left attempt : ℕ) → List String → Left A × List Action
  try_endpoint endpoint zero attempt errors = (exhausted errors, [])
  try_endpoint endpoint (suc left) attempt errors =
      after endpoint left attempt (dispatched endpoint attempt) errors
        (try_endpoint endpoint left (suc attempt))

  unfoldable pub try_all :
      (max_retries : ℕ) (urls : List String) (endpoint : ℕ)
      → List String
      → Outcome Failure A × List Action
  unfolding try_endpoint
  try_all max_retries [] endpoint errors = (raised (Failure.all_rpcs_failed errors), [])
  try_all max_retries (url ∷ urls) endpoint errors =
      go_on (try_endpoint endpoint max_retries 0 errors) (try_all max_retries urls (suc endpoint))

  unfoldable pub call_with_retry : ChainClient → Outcome Failure A × List Action
  unfolding try_all
  call_with_retry c = try_all c.max_retries c.rpc_urls 0 []
