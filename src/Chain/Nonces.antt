-- ===== src/Chain/Nonces.antt =====
-- `NonceManager` of chain/builder.py. `chain_nonce` is the reply of `get_nonce`; the lock is left
-- out, since every method holds it throughout.
use peanut_trade_internship.Base.{
  Option, none, some, List, [], ◌∷◌, ◌≡◌, refl, Outcome, ok, ◌>>◌, raise_if,
}
use peanut_trade_internship.Base.Int.{ℤ, pos, ◌+ℤ◌, ltb_ℤ}

pub record NonceManager : Type 0 where
  pub nonce : Option ℤ

pub data NonceError : Type 0 where
  negative_nonce : NonceError

abbrev pub new_manager : NonceManager
new_manager = record { nonce = none }

-- The nonce after `_ensure_initialized`.
abbrev pub initialized : ℤ → Option ℤ → ℤ
initialized chain_nonce none = chain_nonce
initialized chain_nonce (some n) = n

unfoldable pub get_next : ℤ → NonceManager → ℤ × NonceManager
get_next chain_nonce m =
    let n = initialized chain_nonce m.nonce in (n, record m { nonce = some (n +ℤ pos 1) })

unfoldable pub peek : ℤ → NonceManager → ℤ × NonceManager
peek chain_nonce m = let n = initialized chain_nonce m.nonce in (n, record m { nonce = some n })

unfoldable pub sync : ℤ → NonceManager → NonceManager
sync chain_nonce m = record m { nonce = some chain_nonce }

unfoldable pub reset : ℤ → NonceManager → Outcome NonceError NonceManager
reset nonce m = do
  raise_if (ltb_ℤ nonce (pos 0)) negative_nonce
  ok (record m { nonce = some nonce })

-- `get_next` once for each reply that the chain would give.
unfoldable pub take_nonces : List ℤ → NonceManager → List ℤ × NonceManager
unfolding get_next
take_nonces [] m = ([], m)
take_nonces (chain_nonce ∷ replies) m =
    let (n, m') = get_next chain_nonce m in let (ns, m'') = take_nonces replies m' in (n ∷ ns, m'')

-- Each number is one more than the one before it.
abbrev pub IsCounting : ℤ → List ℤ → Type 0
IsCounting start [] = Unit
IsCounting start (n ∷ ns) = (n ≡ start) × IsCounting (start +ℤ pos 1) ns

counts_on :
    (replies : List ℤ) (start : ℤ)
    → IsCounting start (take_nonces replies (record { nonce = some start })).0
unfolding take_nonces get_next
counts_on [] start = tt
counts_on (reply ∷ replies) start = (refl, counts_on replies (start +ℤ pos 1))

-- The nonces that are handed out from a synchronised manager, or from a new one that asks the
-- chain once, count up one by one from the chain's reply, whatever the chain replies later.
pub take_nonces-IsCounting :
    (chain_nonce : ℤ) (replies : List ℤ) (m : NonceManager)
    → IsCounting chain_nonce (take_nonces replies (sync chain_nonce m)).0
      × IsCounting chain_nonce (take_nonces (chain_nonce ∷ replies) new_manager).0
unfolding take_nonces get_next sync
take_nonces-IsCounting chain_nonce replies m =
    (counts_on replies chain_nonce, (refl, counts_on replies (chain_nonce +ℤ pos 1)))
