-- ===== src/Chain/Builder/Result.antt =====
-- What `build` of `TransactionBuilder` (chain/builder.py) makes of the fields.
use peanut_trade_internship.Base.{
  ℕ, Option, none, some, List, ◌≡◌, refl, ◌⊎◌, inl, inr, subst, Outcome, ok, raised, ◌>>=◌, ◌>>◌,
  raise_if, is_some, not, ◌||◌,
}
use peanut_trade_internship.Base.Int.{ℤ, pos, ◌≤ℤ◌}
use peanut_trade_internship.Core.Token.{Address}
use peanut_trade_internship.Core.Amount.{TokenAmount}
use peanut_trade_internship.Chain.Builder.{
  TransactionBuilder, TransactionRequest, BuilderError, missing_fields, nonce_failed, request_of,
  build, nonce_or,
}

-- What holds of an optional field where it is set.
abbrev pub Holds : (ℤ → Type 0) → Option ℤ → Type 0
Holds Q none = Unit
Holds Q (some n) = Q n

abbrev pub IsEther : Option TokenAmount → Type 0
IsEther none = Unit
IsEther (some v) = v.decimals ≡ 18

-- The two fees are set together, and the cap is not below the tip.
abbrev pub Covers : Option ℤ → Option ℤ → Type 0
Covers none none = Unit
Covers (some max_fee) (some tip) = tip ≤ℤ max_fee
Covers (some max_fee) none = ⊥
Covers none (some tip) = ⊥

pub record IsSound (b : TransactionBuilder) : Type 0 where
  pub ether : IsEther b.value
  pub nonce_ok : Holds (λ n. pos 0 ≤ℤ n) b.nonce
  pub covers : Covers b.max_fee_per_gas b.max_priority_fee

-- A required field is not set.
abbrev pub IsMissing : TransactionBuilder → Type 0
IsMissing b = (b.to ≡ none) ⊎ (b.value ≡ none) ⊎ (b.calldata ≡ none)

-- The later setting counts.
abbrev pub or_else : {A : Type 0} → Option A → Option A → Option A
or_else (some a) before = some a
or_else none before = before

pub or_else_assoc :
    {A : Type 0} (x y z : Option A) → or_else x (or_else y z) ≡ or_else (or_else x y) z
or_else_assoc none y z = refl
or_else_assoc (some a) y z = refl

pub or_else-none : {A : Type 0} (x : Option A) → or_else x none ≡ x
or_else-none none = refl
or_else-none (some a) = refl

-- The three ways in which building can end.
pub data Built (chain_nonce : Option ℤ) (sender : Address) (b : TransactionBuilder)
    : Outcome BuilderError TransactionRequest → Type 0 where
  refused : IsMissing b → Built chain_nonce sender b (raised missing_fields)
  no_nonce :
      ¬ IsMissing b
      → b.nonce ≡ none
      → chain_nonce ≡ none
      → Built chain_nonce sender b (raised nonce_failed)
  built :
      (r : TransactionRequest)
      → b.to ≡ some r.to
      → b.value ≡ some r.value
      → b.calldata ≡ some r.calldata
      → r.value.decimals ≡ 18
      → (n : ℤ) → r.nonce ≡ some n
      → or_else b.nonce chain_nonce ≡ some n
      → Holds (λ n. pos 0 ≤ℤ n) b.nonce
      → r.gas_limit ≡ b.gas_limit
      → r.max_fee_per_gas ≡ b.max_fee_per_gas
      → r.max_priority_fee ≡ b.max_priority_fee
      → Covers r.max_fee_per_gas r.max_priority_fee
      → r.chain_id ≡ b.chain_id
      → r.sender ≡ some sender
      → Built chain_nonce sender b (ok r)

given :
    (b : TransactionBuilder) {recipient : Address} {amount : TokenAmount} {bytes : List ℕ}
    → b.to ≡ some recipient
    → b.value ≡ some amount
    → b.calldata ≡ some bytes
    → ¬ IsMissing b
given b t w d (inl no_to) = cc
given b t w d (inr (inl no_value)) = cc
given b t w d (inr (inr no_data)) = cc

nonce-Built :
    (b : TransactionBuilder) (chain_nonce : Option ℤ) (sender recipient : Address)
    (amount : TokenAmount) (bytes : List ℕ)
    → IsSound b
    → b.to ≡ some recipient
    → b.value ≡ some amount
    → b.calldata ≡ some bytes
    → (explicit : Option ℤ) → b.nonce ≡ explicit
    → (reply : Option ℤ) → chain_nonce ≡ reply
    → Built chain_nonce sender b (
        nonce_or explicit reply >>= λ n.
        request_of (some recipient) (some amount) (some bytes) n sender b)
nonce-Built b chain_nonce sender recipient amount bytes v t w d none e none h =
    no_nonce (given b t w d) e h
nonce-Built b chain_nonce sender recipient amount bytes v t w d none e (some n) h =
    built _ t w d (subst IsEther w v.ether) n refl (rw e h) v.nonce_ok refl refl refl v.covers refl
      refl
nonce-Built b chain_nonce sender recipient amount bytes v t w d (some n) e reply h =
    built _ t w d (subst IsEther w v.ether) n refl (rw e refl) v.nonce_ok refl refl refl v.covers
      refl refl

fields-Built :
    (b : TransactionBuilder) (chain_nonce : Option ℤ) (sender : Address)
    → IsSound b
    → (to : Option Address) → b.to ≡ to
    → (value : Option TokenAmount) → b.value ≡ value
    → (calldata : Option (List ℕ)) → b.calldata ≡ calldata
    → Built chain_nonce sender b (
        raise_if (not (is_some to) || not (is_some value) || not (is_some calldata)) missing_fields
        >> (nonce_or b.nonce chain_nonce >>= λ n. request_of to value calldata n sender b))
fields-Built b chain_nonce sender v none t x w d e = refused (inl t)
fields-Built b chain_nonce sender v (some a) t none w d e = refused (inr (inl w))
fields-Built b chain_nonce sender v (some a) t (some x) w none e = refused (inr (inr e))
fields-Built b chain_nonce sender v (some a) t (some x) w (some bytes) e =
    nonce-Built b chain_nonce sender a x bytes v t w e b.nonce refl chain_nonce refl

pub build-Built :
    (b : TransactionBuilder) (chain_nonce : Option ℤ) (sender : Address)
    → IsSound b
    → Built chain_nonce sender b (build chain_nonce sender b)
unfolding build
build-Built b chain_nonce sender v =
    fields-Built b chain_nonce sender v b.to refl b.value refl b.calldata refl
