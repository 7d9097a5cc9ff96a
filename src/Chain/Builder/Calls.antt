-- ===== src/Chain/Builder/Calls.antt =====
-- What a chain of calls of `TransactionBuilder` (chain/builder.py) builds.
use peanut_trade_internship.Base.{
  ℕ, String, Option, none, some, List, [], ◌∷◌, ◌≡◌, refl, sym, ap, ◌∙◌, arith, inl, inr,
  Option-cases, subst, All, >>=-eq-ok, ok_values, Outcome, ok, raised, ◌>>=◌,
}
use peanut_trade_internship.Base.Int.{ℤ, pos, ◌+ℤ◌, +ℤ_parts, ◌≤ℤ◌}
use peanut_trade_internship.Core.Token.{Address}
use peanut_trade_internship.Core.Amount.{TokenAmount}
use peanut_trade_internship.Chain.Builder.{
  TransactionBuilder, BuilderError, bad_priority, GasPrice, new_builder, set_to, set_value,
  set_calldata, set_nonce, set_gas_limit, set_chain_id, with_gas_estimate, with_gas_price,
  priority_fee, get_max_fee, build,
}
use peanut_trade_internship.Chain.Builder.Result.{
  IsSound, or_else, or_else_assoc, or_else-none, Built, build-Built,
}

-- The fluent calls, with the replies of the client.
pub data Call : Type 0 where
  to : Address → Call
  value : TokenAmount → Call
  calldata : List ℕ → Call
  nonce : ℤ → Call
  gas_limit : ℤ → Call
  chain_id : ℤ → Call
  gas_estimate : ℤ → Call
  gas_price : GasPrice → String → Call

module _ (scaled : ℤ → ℤ) where
  unfoldable pub call : Call → TransactionBuilder → Outcome BuilderError TransactionBuilder
  call (to a) b = ok (set_to a b)
  call (value v) b = set_value v b
  call (calldata d) b = ok (set_calldata d b)
  call (nonce n) b = set_nonce n b
  call (gas_limit l) b = set_gas_limit l b
  call (chain_id c) b = ok (set_chain_id c b)
  call (gas_estimate n) b = with_gas_estimate scaled n b
  call (gas_price g priority) b = with_gas_price scaled g priority b

  unfoldable pub calls : List Call → TransactionBuilder → Outcome BuilderError TransactionBuilder
  unfolding call
  calls [] b = ok b
  calls (c ∷ cs) b = call c b >>= λ b'. calls cs b'

-- What the last of the calls that set something sets it to.
abbrev pub set_by : {A : Type 0} → (Call → Option A) → List Call → Option A
set_by pick [] = none
set_by pick (c ∷ cs) = or_else (set_by pick cs) (pick c)

abbrev pub recipient_of : Call → Option Address
recipient_of (to a) = some a
recipient_of _ = none

abbrev pub value_of : Call → Option TokenAmount
value_of (value v) = some v
value_of _ = none

abbrev pub calldata_of : Call → Option (List ℕ)
calldata_of (calldata d) = some d
calldata_of _ = none

abbrev pub nonce_of : Call → Option ℤ
nonce_of (nonce n) = some n
nonce_of _ = none

abbrev pub chain_of : Call → Option ℤ
chain_of (chain_id c) = some c
chain_of _ = none

abbrev pub tip_of : Call → Option ℤ
tip_of (gas_price g priority) = priority_fee g priority
tip_of _ = none

abbrev pub capped : ℤ → Option ℤ → Option ℤ
capped base none = none
capped base (some tip) = some (base +ℤ tip)

module _ (scaled : ℤ → ℤ) where
  abbrev pub limit_of : Call → Option ℤ
  limit_of (gas_limit l) = some l
  limit_of (gas_estimate n) = some (scaled n)
  limit_of _ = none

  abbrev pub cap_of : Call → Option ℤ
  cap_of (gas_price g priority) = capped (scaled g.base_fee) (priority_fee g priority)
  cap_of _ = none

  -- What one call does to the fields.
  record Sets (c : Call) (b b' : TransactionBuilder) : Type 0 where
    to_set : b'.to ≡ or_else (recipient_of c) b.to
    value_set : b'.value ≡ or_else (value_of c) b.value
    calldata_set : b'.calldata ≡ or_else (calldata_of c) b.calldata
    nonce_set : b'.nonce ≡ or_else (nonce_of c) b.nonce
    limit_set : b'.gas_limit ≡ or_else (limit_of c) b.gas_limit
    cap_set : b'.max_fee_per_gas ≡ or_else (cap_of c) b.max_fee_per_gas
    tip_set : b'.max_priority_fee ≡ or_else (tip_of c) b.max_priority_fee
    chain_set : some b'.chain_id ≡ or_else (chain_of c) (some b.chain_id)

  priced-Sets :
      (g : GasPrice) (priority : String) (b : TransactionBuilder) (tip : ℤ)
      → priority_fee g priority ≡ some tip
      → Sets (gas_price g priority) b (record b {
        max_fee_per_gas = some (scaled g.base_fee +ℤ tip);
        max_priority_fee = some tip;
      })
  priced-Sets g priority b tip e = record {
    to_set = refl;
    value_set = refl;
    calldata_set = refl;
    nonce_set = refl;
    limit_set = refl;
    cap_set = rw e refl;
    tip_set = rw e refl;
    chain_set = refl;
  }

  call-Sets :
      (c : Call) (b : TransactionBuilder) {b' : TransactionBuilder}
      → call scaled c b ≡ ok b'
      → Sets c b b'
  unfolding call
  call-Sets (to a) b h = ground arith
  call-Sets (value x) b h = ground arith
  call-Sets (calldata d) b h = ground arith
  call-Sets (nonce n) b h = ground arith
  call-Sets (gas_limit l) b h = ground arith
  call-Sets (chain_id c) b h = ground arith
  call-Sets (gas_estimate n) b h = ground arith
  call-Sets (gas_price g priority) b {b'} h = elim (Option-cases (priority_fee g priority)) [
    | inl unknown ↦ let failed : raised bad_priority ≡ ok b' = rw (get_max_fee, unknown) at h in cc
    | inr (tip, e) ↦
        let max_fee = scaled g.base_fee +ℤ tip in
        let set : ok (record b { max_fee_per_gas = some max_fee; max_priority_fee = some tip })
            ≡ ok b' =
          rw (get_max_fee, e) at h in
        subst (Sets (gas_price g priority) b) (ok_values set) (priced-Sets g priority b tip e)
  ]

  calls-set_by :
      {A : Type 0} (pick : Call → Option A) (field : TransactionBuilder → Option A)
      → ((c : Call) (b b' : TransactionBuilder)
          → Sets c b b'
          → field b' ≡ or_else (pick c) (field b))
      → (cs : List Call) (b : TransactionBuilder) {b' : TransactionBuilder}
      → calls scaled cs b ≡ ok b'
      → field b' ≡ or_else (set_by pick cs) (field b)
  unfolding calls
  calls-set_by pick field each [] b h = ap field (sym (ok_values h))
  calls-set_by pick field each (c ∷ cs) b h =
      let (next, hc, h') = >>=-eq-ok (call scaled c b) _ h in
      calls-set_by pick field each cs next h'
      ∙ ap (or_else (set_by pick cs)) (each c b next (call-Sets c b hc))
      ∙ or_else_assoc (set_by pick cs) (pick c) (field b)

  -- Each field is what the last call for it sets; the two limits of gas are one field.
  pub record IsSetBy (cs : List Call) (b : TransactionBuilder) : Type 0 where
    pub to_is : b.to ≡ set_by recipient_of cs
    pub value_is : b.value ≡ set_by value_of cs
    pub calldata_is : b.calldata ≡ set_by calldata_of cs
    pub nonce_is : b.nonce ≡ set_by nonce_of cs
    pub limit_is : b.gas_limit ≡ set_by limit_of cs
    pub cap_is : b.max_fee_per_gas ≡ set_by cap_of cs
    pub tip_is : b.max_priority_fee ≡ set_by tip_of cs
    pub chain_is : some b.chain_id ≡ or_else (set_by chain_of cs) (some (pos 1))

  calls-IsSetBy :
      (cs : List Call) {b : TransactionBuilder} → calls scaled cs new_builder ≡ ok b → IsSetBy cs b
  calls-IsSetBy cs h = record {
    to_is =
        calls-set_by recipient_of (λ b. b.to) (λ c b b' s. s.to_set) cs new_builder h
        ∙ or_else-none (set_by recipient_of cs);
    value_is =
        calls-set_by value_of (λ b. b.value) (λ c b b' s. s.value_set) cs new_builder h
        ∙ or_else-none (set_by value_of cs);
    calldata_is =
        calls-set_by calldata_of (λ b. b.calldata) (λ c b b' s. s.calldata_set) cs new_builder h
        ∙ or_else-none (set_by calldata_of cs);
    nonce_is =
        calls-set_by nonce_of (λ b. b.nonce) (λ c b b' s. s.nonce_set) cs new_builder h
        ∙ or_else-none (set_by nonce_of cs);
    limit_is =
        calls-set_by limit_of (λ b. b.gas_limit) (λ c b b' s. s.limit_set) cs new_builder h
        ∙ or_else-none (set_by limit_of cs);
    cap_is =
        calls-set_by cap_of (λ b. b.max_fee_per_gas) (λ c b b' s. s.cap_set) cs new_builder h
        ∙ or_else-none (set_by cap_of cs);
    tip_is =
        calls-set_by tip_of (λ b. b.max_priority_fee) (λ c b b' s. s.tip_set) cs new_builder h
        ∙ or_else-none (set_by tip_of cs);
    chain_is =
        calls-set_by chain_of (λ b. some b.chain_id) (λ c b b' s. s.chain_set) cs new_builder h;
  }

module _ (scaled : ℤ → ℤ) (grows : (x : ℤ) → pos 0 ≤ℤ x → pos 0 ≤ℤ scaled x) where
  -- What the client replies: no negative base fee.
  abbrev pub IsReply : Call → Type 0
  IsReply (gas_price g priority) = pos 0 ≤ℤ g.base_fee
  IsReply (to a) = Unit
  IsReply (value v) = Unit
  IsReply (calldata d) = Unit
  IsReply (nonce n) = Unit
  IsReply (gas_limit l) = Unit
  IsReply (chain_id c) = Unit
  IsReply (gas_estimate n) = Unit

  call-IsSound :
      (c : Call) (b : TransactionBuilder) {b' : TransactionBuilder}
      → IsReply c
      → IsSound b
      → call scaled c b ≡ ok b'
      → IsSound b'
  unfolding call
  call-IsSound (to a) b r v h = ground arith
  call-IsSound (value x) b r v h = ground arith
  call-IsSound (calldata d) b r v h = ground arith
  call-IsSound (nonce n) b r v h = ground arith
  call-IsSound (gas_limit l) b r v h = ground arith
  call-IsSound (chain_id c) b r v h = ground arith
  call-IsSound (gas_estimate n) b r v h = ground arith
  call-IsSound (gas_price g priority) b {b'} r v h = elim (Option-cases (priority_fee g priority)) [
    | inl unknown ↦ let failed : raised bad_priority ≡ ok b' = rw (get_max_fee, unknown) at h in cc
    | inr (tip, e) ↦
        let max_fee = scaled g.base_fee +ℤ tip in
        let set : ok (record b { max_fee_per_gas = some max_fee; max_priority_fee = some tip })
            ≡ ok b' =
          rw (get_max_fee, e) at h in
        subst IsSound (ok_values set) (record {
          ether = v.ether;
          nonce_ok = v.nonce_ok;
          covers = omega (arith, +ℤ_parts (scaled g.base_fee) tip, grows g.base_fee r);
        })
  ]

  calls-IsSound :
      (cs : List Call) (b : TransactionBuilder) {b' : TransactionBuilder}
      → All IsReply cs
      → IsSound b
      → calls scaled cs b ≡ ok b'
      → IsSound b'
  unfolding calls
  calls-IsSound [] b r v h = subst IsSound (ok_values h) v
  calls-IsSound (c ∷ cs) b r v h =
      let (next, hc, h') = >>=-eq-ok (call scaled c b) _ h in
      calls-IsSound cs next r.1 (call-IsSound c b r.0 v hc) h'

  -- After any chain of calls that return, each field of the builder is what the last call for it set.
  -- Building then raises for missing fields exactly if the recipient, the value or the data is missing,
  -- and raises what the client raises exactly if otherwise there is no explicit nonce and the client
  -- raises. Else it returns a request with these fields: its value is in wei, its nonce is the explicit
  -- one, which is not negative, or else the chain's, and its fee cap is not below its tip, as long as
  -- no base fee of the client is negative and the buffer keeps it so.
  pub build_lem :
      (cs : List Call) (b : TransactionBuilder) (chain_nonce : Option ℤ) (sender : Address)
      → All IsReply cs
      → calls scaled cs new_builder ≡ ok b
      → IsSetBy scaled cs b × Built chain_nonce sender b (build chain_nonce sender b)
  build_lem cs b chain_nonce sender r h = (
    calls-IsSetBy scaled cs h,
    build-Built b chain_nonce sender
        (calls-IsSound cs new_builder r (record { ether = tt; nonce_ok = tt; covers = tt }) h),
  )
