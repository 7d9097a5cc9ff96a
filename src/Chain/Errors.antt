-- ===== src/Chain/Errors.antt =====
-- The exceptions of chain/errors.py, and their classes by the message of a node
-- (`_classify_rpc_error` of chain/client.py). Any other exception is its text.
use peanut_trade_internship.Base.{
  String, Bool, true, false, List, [], ◌∷◌, Option, if◌then◌else◌, any,
}
use peanut_trade_internship.Base.Int.{ℤ}
use peanut_trade_internship.Base.Text.{in_lower}

pub data Failure : Type 0 where
  rpc_error : String → Option ℤ → Failure
  insufficient_funds nonce_too_low replacement_underpriced : String → Failure
  transaction_failed transaction_timeout : String → Failure
  all_rpcs_failed : List String → Failure
  other : String → Failure

-- `isinstance(exc, ChainError)`
abbrev pub is_chain_error : Failure → Bool
is_chain_error (other text) = false
is_chain_error _ = true

-- An entry of `_RPC_ERROR_MAP`.
abbrev pub ErrorClass : Type 0
ErrorClass = String → Failure

abbrev pub rpc_error_map : List (String × ErrorClass)
rpc_error_map =
    ("insufficient funds", insufficient_funds)
    ∷ ("nonce too low", nonce_too_low)
    ∷ ("replacement transaction underpriced", replacement_underpriced)
    ∷ ("already known", replacement_underpriced)
    ∷ ("transaction underpriced", replacement_underpriced)
    ∷ []

unfoldable pub classify : List (String × ErrorClass) → String → Option ℤ → Failure
classify [] message code = rpc_error message code
classify ((pattern_text, error_class) ∷ classes) message code =
    if in_lower pattern_text message then error_class message else classify classes message code

unfoldable pub classify_rpc_error : String → Option ℤ → Failure
unfolding classify
classify_rpc_error = classify rpc_error_map

-- `"not found" in str(exc).lower()`: the text of `AllRPCsFailed` joins the texts of its errors, by
-- separators that are no part of the pattern.
abbrev pub is_not_found : Failure → Bool
is_not_found (rpc_error message code) = in_lower "not found" message
is_not_found (all_rpcs_failed errors) = any (in_lower "not found") errors
is_not_found _ = false
