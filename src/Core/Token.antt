-- ===== src/Core/Token.antt =====
-- `Address` and `Token` of core/types.py. An address is the 160-bit number that its hex digits
-- denote: `Address.__eq__` compares the strings in lower case, so two addresses are equal exactly
-- when these numbers are.
use peanut_trade_internship.Base.{ℕ, String, Bool, true, ◌≡◌, ◌==◌, arith}

abbrev pub Address : Type 0
Address = ℕ

pub record Token : Type 0 where
  pub address : Address
  pub symbol : String
  pub decimals : ℕ

-- `Token.__eq__`: by address alone.
abbrev pub token_eq : Token → Token → Bool
token_eq s t = s.address == t.address

pub token_eq_refl : (t : Token) → token_eq t t ≡ true
token_eq_refl t = ground arith
