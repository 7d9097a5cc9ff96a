-- ===== src/Inventory/CostBasis/Bounds.antt =====
-- The average cost of a position (inventory/tracker.py).
use native.Mathlib.Nat.{mul-le-mul_right}
use peanut_trade_internship.Base.{
  ℕ, zero, suc, ◌+◌, ◌-◌, ◌*◌, ◌≤◌, ◌<◌, min, String, str_eq, Bool, true, false, List, [], ◌∷◌,
  Option, ◌≡◌, refl, arith, ok, raised, Bool-cases, inl, inr, ltb, if◌then◌else◌, ◌==◌, ◌||◌, not,
  raise_if, ◌>>◌, sym, subst, Outcome, All, str_eq_iff, string_eq, mul-pos,
}
use peanut_trade_internship.Base.Dict.{Dict, lookup_or, insert, lookup_or-insert}
use peanut_trade_internship.Base.Int.{ℤ, pos, ◌≤ℤ◌, leb_ℤ, ltb_ℤ, pos_part}
use peanut_trade_internship.Inventory.CostBasis.{
  UnitPrice, Position, CostBasisTracker, no_cost, new_position, new_tracker, bought, sold, filled,
  record_fill, get_position, FillError, bad_qty, bad_price, bad_fee, bad_side,
}

-- A closed position has no cost, and an open one has an average cost between `low` and `high`.
pub record IsPriced (low high qty : ℕ) (avg_cost : UnitPrice) : Type 0 where
  pub unit : 0 < avg_cost.units
  pub closed : qty ≡ 0 → avg_cost.cost ≡ 0
  pub low_cost : 0 < qty → low * avg_cost.units ≤ avg_cost.cost
  pub high_cost : 0 < qty → avg_cost.cost ≤ high * avg_cost.units

abbrev pub IsWithin : ℕ → ℕ → Position → Type 0
IsWithin low high p = IsPriced low high p.qty p.avg_cost

new_position-IsWithin : (low high : ℕ) (asset : String) → IsWithin low high (new_position asset)
new_position-IsWithin low high asset = record {
  unit = omega arith;
  closed = λ h. refl;
  low_cost = λ h. absurd (omega arith);
  high_cost = λ h. absurd (omega arith);
}

kept_low : (low u c q : ℕ) → (0 < q → low * u ≤ c) → low * u * q ≤ c * q
kept_low low u c zero h = omega arith
kept_low low u c (suc n) h = mul-le-mul_right (suc n) (h (omega arith))

mixed_low :
    (low u c q k price : ℕ)
    → low * u * q ≤ c * q
    → low ≤ price
    → low * (u * (q + k)) ≤ c * q + price * k * u
mixed_low low u c q k price h le = omega (arith, mul-le-mul_right (k * u) le)

mixed_high :
    (high u c q k price : ℕ)
    → c * q ≤ high * u * q
    → price ≤ high
    → c * q + price * k * u ≤ high * (u * (q + k))
mixed_high high u c q k price h le = omega (arith, mul-le-mul_right (k * u) le)

kept_high : (high u c q : ℕ) → (0 < q → c ≤ high * u) → c * q ≤ high * u * q
kept_high high u c zero h = omega arith
kept_high high u c (suc n) h = mul-le-mul_right (suc n) (h (omega arith))

bought-IsWithin :
    (low high qty price : ℕ) (p : Position)
    → 0 < qty
    → low ≤ price
    → price ≤ high
    → IsWithin low high p
    → IsWithin low high (bought qty price p)
unfolding bought
bought-IsWithin low high qty price p h hl hh w =
    let u = p.avg_cost.units in
    let c = p.avg_cost.cost in
    record {
      unit = mul-pos u (p.qty + qty) w.unit (omega arith);
      closed = λ z. absurd (omega arith);
      low_cost = λ z. mixed_low low u c p.qty qty price (kept_low low u c p.qty w.low_cost) hl;
      high_cost =
          λ z. mixed_high high u c p.qty qty price (kept_high high u c p.qty w.high_cost) hh;
    }

-- What is left of a position, at an average cost.
left_over :
    (low high qty rest : ℕ) (avg_cost : UnitPrice)
    → rest ≤ qty
    → IsPriced low high qty avg_cost
    → IsPriced low high rest (if rest == 0 then no_cost else avg_cost)
left_over low high qty zero avg_cost h w = record {
  unit = omega arith;
  closed = λ z. refl;
  low_cost = λ z. absurd (omega arith);
  high_cost = λ z. absurd (omega arith);
}
left_over low high qty (suc n) avg_cost h w =
    let some_left : (suc n == 0) ≡ false = ground arith in
    rw some_left (record {
      unit = w.unit;
      closed = λ z. absurd (omega arith);
      low_cost = λ z. w.low_cost (omega arith);
      high_cost = λ z. w.high_cost (omega arith);
    })

sold-IsWithin :
    (low high qty price fee : ℕ) (p : Position)
    → IsWithin low high p
    → IsWithin low high (sold qty price fee p)
unfolding sold
sold-IsWithin low high qty price fee p w = elim (Bool-cases (ltb 0 (min qty p.qty))) [
  | inl some_sold ↦
      rw some_sold (left_over low high p.qty (p.qty - min qty p.qty) p.avg_cost (omega arith) w)
  | inr none_sold ↦ rw none_sold w
]

filled-IsWithin :
    (low high : ℕ) (side : String) (qty price fee : ℕ) (p : Position)
    → 0 < qty
    → (str_eq side "buy" ≡ true → (low ≤ price) × (price ≤ high))
    → IsWithin low high p
    → IsWithin low high (filled side qty price fee p)
unfolding filled
filled-IsWithin low high side qty price fee p h k w =
    let q : Position = record p { total_fees = p.total_fees + fee } in
    elim (Bool-cases (str_eq side "buy")) [
      | inl buys ↦ rw buys (bought-IsWithin low high qty price q h (k buys).0 (k buys).1 w)
      | inr sells ↦ rw sells (sold-IsWithin low high qty price fee q w)
    ]

-- A call of `record_fill`.
pub record FillCall : Type 0 where
  pub asset : String
  pub side : String
  pub qty : ℤ
  pub price : ℤ
  pub fee : ℤ
  pub timestamp : Option ℤ
  pub now : ℤ

abbrev fill_of : FillCall → CostBasisTracker → Outcome FillError CostBasisTracker
fill_of c t = record_fill c.asset c.side c.qty c.price c.fee c.timestamp c.now t

abbrev kept : CostBasisTracker → Outcome FillError CostBasisTracker → CostBasisTracker
kept t (ok t') = t'
kept t (raised e) = t

-- One call after the other. One that raises does so before it changes anything.
abbrev pub fill_all : List FillCall → CostBasisTracker → CostBasisTracker
fill_all [] t = t
fill_all (c ∷ cs) t = fill_all cs (kept t (fill_of c t))

-- The asset is bought at prices between `low` and `high`.
abbrev pub BuysWithin : String → ℕ → ℕ → FillCall → Type 0
BuysWithin asset low high c =
    c.asset ≡ asset → str_eq c.side "buy" ≡ true → (pos low ≤ℤ c.price) × (c.price ≤ℤ pos high)

abbrev AssetWithin : String → ℕ → ℕ → CostBasisTracker → Type 0
AssetWithin asset low high t = IsWithin low high (get_position asset t)

-- A check either raises, and nothing changes, or lets the call go on.
guarded :
    (P : CostBasisTracker → Type 0) (t : CostBasisTracker) (b : Bool) (e : FillError)
    (rest : Outcome FillError CostBasisTracker)
    → P t
    → (b ≡ false → P (kept t rest))
    → P (kept t (raise_if b e >> rest))
guarded P t true e rest stay go = stay
guarded P t false e rest stay go = go refl

filled_position :
    (asset other : String) (low high : ℕ) (q : Position) (d : Dict String Position)
    → (other ≡ asset → IsWithin low high q)
    → IsWithin low high (lookup_or asset (new_position asset) d)
    → IsWithin low high (lookup_or asset (new_position asset) (insert other q d))
filled_position asset other low high q d new old =
    rw (lookup_or-insert other asset q (new_position asset) d)
      (elim (Bool-cases (str_eq other asset)) [
        | inl same ↦ rw same (new ((str_eq_iff other asset).0 same))
        | inr apart ↦ rw apart old
      ])

some_qty : (qty : ℤ) → leb_ℤ qty (pos 0) ≡ false → 0 < pos_part qty
some_qty qty h = ground arith

price_between :
    (low high : ℕ) (price : ℤ)
    → (pos low ≤ℤ price) × (price ≤ℤ pos high)
    → (low ≤ pos_part price) × (pos_part price ≤ high)
price_between low high price h = (ground (arith, h.0), ground (arith, h.1))

record_fill-IsWithin :
    (asset : String) (low high : ℕ) (c : FillCall) (t : CostBasisTracker)
    → BuysWithin asset low high c
    → AssetWithin asset low high t
    → AssetWithin asset low high (kept t (fill_of c t))
unfolding record_fill get_position
record_fill-IsWithin asset low high c t b w =
    let P = AssetWithin asset low high in
    guarded P t (leb_ℤ c.qty (pos 0)) bad_qty _ w (λ qty_ok.
      guarded P t (leb_ℤ c.price (pos 0)) bad_price _ w (λ price_ok.
        guarded P t (ltb_ℤ c.fee (pos 0)) bad_fee _ w (λ fee_ok.
          guarded P t (not (str_eq c.side "buy" || str_eq c.side "sell")) bad_side _ w (λ side_ok.
            filled_position asset c.asset low high _ t.positions
              (λ same.
                filled-IsWithin low high c.side (pos_part c.qty) (pos_part c.price) (pos_part c.fee)
                  _ (some_qty c.qty qty_ok) (λ buys. price_between low high c.price (b same buys))
                  (subst (λ a. IsWithin low high (lookup_or a (new_position a) t.positions))
                    (sym same) w))
              w))))

fill_all-AssetWithin :
    (asset : String) (low high : ℕ) (cs : List FillCall) (t : CostBasisTracker)
    → All (BuysWithin asset low high) cs
    → AssetWithin asset low high t
    → AssetWithin asset low high (fill_all cs t)
fill_all-AssetWithin asset low high [] t bs w = w
fill_all-AssetWithin asset low high (c ∷ cs) t bs w =
    fill_all-AssetWithin asset low high cs (kept t (fill_of c t)) bs.1
      (record_fill-IsWithin asset low high c t bs.0 w)

-- Whatever fills a new tracker is told of, if the asset is bought at prices between `low` and `high`,
-- then its position is closed with no average cost, or it is open with an average cost between these
-- prices.
pub fill_all-IsWithin :
    (asset : String) (low high : ℕ) (cs : List FillCall)
    → All (BuysWithin asset low high) cs
    → IsWithin low high (get_position asset (fill_all cs new_tracker))
unfolding get_position
fill_all-IsWithin asset low high cs bs =
    fill_all-AssetWithin asset low high cs new_tracker bs (new_position-IsWithin low high asset)
