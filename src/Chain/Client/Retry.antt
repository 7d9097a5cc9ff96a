-- ===== src/Chain/Client/Retry.antt =====
-- The retries of chain/client.py: which requests `_call_with_retry` makes, for any dispatcher and
-- for the dispatcher of the client.
use peanut_trade_internship.Base.{
  ℕ, zero, suc, String, Bool, true, List, [], ◌∷◌, ◌++◌, Option, none, some, ◌≡◌, refl, ap, ◌∙◌,
  arith, Outcome, ok, raised, length,
}
use peanut_trade_internship.Base.Int.{ℤ}
use peanut_trade_internship.Chain.Errors.{
  Failure, other, all_rpcs_failed, is_chain_error, classify_rpc_error, classify,
}
use peanut_trade_internship.Chain.Client.{
  ChainClient, Web3Error, Reply, Action, request, sleep, Left, left_by, exhausted, pause, after,
  go_on, try_endpoint, try_all, call_with_retry, dispatch, translate, translated, matched,
}

-- The requests of a log, each with its endpoint and its attempt.
abbrev pub requests : List Action → List (ℕ × ℕ)
requests [] = []
requests (request endpoint attempt ∷ log) = (endpoint, attempt) ∷ requests log
requests (sleep seconds ∷ log) = requests log

abbrev pub seen {ℓ} : {A : Type ℓ} → A × List Action → A × List (ℕ × ℕ)
seen (result, log) = (result, requests log)

-- The attempts that the loops allow, in order.
abbrev pub attempts_at : (endpoint left attempt : ℕ) → List (ℕ × ℕ)
attempts_at endpoint zero attempt = []
attempts_at endpoint (suc left) attempt =
    (endpoint, attempt) ∷ attempts_at endpoint left (suc attempt)

abbrev pub allowed : (max_retries urls endpoint : ℕ) → List (ℕ × ℕ)
allowed max_retries zero endpoint = []
allowed max_retries (suc urls) endpoint =
    attempts_at endpoint max_retries 0 ++ allowed max_retries urls (suc endpoint)

module _ {A : Type 0} (dispatched : ℕ → ℕ → Outcome Failure A) where
  -- One attempt after the other until one of them returns or raises a `ChainError`.
  abbrev pub stop_or_go :
      ℕ × ℕ
      → Outcome Failure A
      → List String
      → (List String → Outcome Failure A × List (ℕ × ℕ))
      → Outcome Failure A × List (ℕ × ℕ)
  stop_or_go this (ok answer) errors next = (ok answer, this ∷ [])
  stop_or_go this (raised (other message)) errors next =
      let (result, made) = next (errors ++ message ∷ []) in (result, this ∷ made)
  stop_or_go this (raised e) errors next = (raised e, this ∷ [])

  abbrev pub first_decision : List (ℕ × ℕ) → List String → Outcome Failure A × List (ℕ × ℕ)
  first_decision [] errors = (raised (all_rpcs_failed errors), [])
  first_decision ((i, k) ∷ attempts) errors =
      stop_or_go (i, k) (dispatched i k) errors (first_decision attempts)

  under_request :
      (i left k : ℕ) (tried : Left A × List Action)
      (next : List String → Outcome Failure A × List Action)
      → seen (go_on (tried.0, request i k ∷ (pause left k ++ tried.1)) next)
        ≡ (let (result, made) = seen (go_on tried next) in (result, (i, k) ∷ made))
  under_request i zero k (left_by result, log) next = refl
  under_request i zero k (exhausted errors, log) next = refl
  under_request i (suc left) k (left_by result, log) next = refl
  under_request i (suc left) k (exhausted errors, log) next = refl

  after_decides :
      (i left k : ℕ) (tried : Outcome Failure A) (errors : List String)
      (rest : List String → Left A × List Action)
      (next : List String → Outcome Failure A × List Action)
      (decided : List String → Outcome Failure A × List (ℕ × ℕ))
      → ((es : List String) → seen (go_on (rest es) next) ≡ decided es)
      → seen (go_on (after i left k tried errors rest) next)
        ≡ stop_or_go (i, k) tried errors decided
  after_decides i left k (ok answer) errors rest next decided h = refl
  after_decides i left k (raised (other message)) errors rest next decided h =
      under_request i left k (rest (errors ++ message ∷ [])) next
      ∙ ap (λ s. (s.0, (i, k) ∷ s.1)) (h (errors ++ message ∷ []))
  after_decides i left k (raised (Failure.rpc_error message code)) errors rest next decided h = refl
  after_decides i left k (raised e) errors rest next decided h = refl

  try_endpoint_decides :
      (i left k : ℕ) (later : List (ℕ × ℕ)) (next : List String → Outcome Failure A × List Action)
      → ((es : List String) → seen (next es) ≡ first_decision later es)
      → (errors : List String)
      → seen (go_on (try_endpoint dispatched i left k errors) next)
        ≡ first_decision (attempts_at i left k ++ later) errors
  unfolding try_endpoint
  try_endpoint_decides i zero k later next h errors = h errors
  try_endpoint_decides i (suc left) k later next h errors =
      after_decides i left k (dispatched i k) errors _ next _
        (try_endpoint_decides i left (suc k) later next h)

  try_all_decides :
      (max_retries : ℕ) (urls : List String) (i : ℕ) (errors : List String)
      → seen (try_all dispatched max_retries urls i errors)
        ≡ first_decision (allowed max_retries (length urls) i) errors
  unfolding try_all
  try_all_decides max_retries [] i errors = refl
  try_all_decides max_retries (url ∷ urls) i errors =
      try_endpoint_decides i max_retries 0 _ _ (try_all_decides max_retries urls (suc i)) errors

  -- Whatever the dispatcher does, `_call_with_retry` makes the allowed attempts, endpoint by
  -- endpoint, until the first one that returns or raises a `ChainError`, and ends as that one does;
  -- if there is none, it raises the error that holds the messages of all attempts, in their order.
  pub call_with_retry-first_decision :
      (c : ChainClient)
      → seen (call_with_retry dispatched c)
        ≡ first_decision (allowed c.max_retries (length c.rpc_urls) 0) []
  unfolding call_with_retry
  call_with_retry-first_decision c = try_all_decides c.max_retries c.rpc_urls 0 []

classify_chain :
    (message : String) (code : Option ℤ) → is_chain_error (classify_rpc_error message code) ≡ true
unfolding classify_rpc_error classify
classify_chain message code = ground arith

translate_chain : (e : Web3Error) → is_chain_error (translate e) ≡ true
unfolding translate
translate_chain (Web3Error.contract_logic_error message) = refl
translate_chain (Web3Error.exception message none) = classify_chain message none
translate_chain (Web3Error.exception message (some (given, code))) = classify_chain _ code

abbrev settles : {A : Type 0} → Outcome Failure A → Bool
settles (ok answer) = true
settles (raised e) = is_chain_error e

translated-settles :
    {A : Type 0} (hex : List ℕ → String) (answer : Outcome Web3Error (Reply A))
    → settles (translated hex answer) ≡ true
translated-settles hex (ok r) = refl
translated-settles hex (raised e) = translate_chain e

settled_once :
    {A : Type 0} (i left k : ℕ) (tried : Outcome Failure A) (errors : List String)
    (rest : List String → Left A × List Action)
    (next : List String → Outcome Failure A × List Action)
    → settles tried ≡ true
    → go_on (after i left k tried errors rest) next ≡ (tried, request i k ∷ [])
settled_once i left k (ok answer) errors rest next h = refl
settled_once i left k (raised (other message)) errors rest next h = cc
settled_once i left k (raised (Failure.rpc_error message code)) errors rest next h = refl
settled_once i left k (raised e) errors rest next h = refl

-- With at least one endpoint and one attempt, the client makes a single request, to its first
-- endpoint, and ends as that request does, whatever web3 answers or raises: `_dispatch` turns every
-- exception into a `ChainError`, so nothing is tried again and no other endpoint is asked.
pub call_with_retry-dispatch :
    {A : Type 0} (hex : List ℕ → String) (method url : String) (urls : List String)
    (timeout left : ℕ) (answers : ℕ → ℕ → Outcome Web3Error (Reply A))
    → call_with_retry
        (λ i k. dispatch hex method (answers i k))
        (record { rpc_urls = url ∷ urls; timeout = timeout; max_retries = suc left })
      ≡ (dispatch hex method (answers 0 0), request 0 0 ∷ [])
unfolding call_with_retry try_all try_endpoint dispatch
call_with_retry-dispatch hex method url urls timeout left answers =
    settled_once 0 left 0 (dispatch hex method (answers 0 0)) [] _ _
      (translated-settles hex (matched hex method (answers 0 0)))
