-- ===== src/Inventory/Pnl/Recent.antt =====
-- The latest trades of the ledger (inventory/pnl.py).
use mathlib.Core.List.{reverse, reverse-append}
use peanut_trade_internship.Base.{
  ℕ, suc, [], ◌∷◌, ◌++◌, ◌≡◌, refl, ap, sym, ◌∙◌, arith, length, last, last_zero, last_of_few,
  last_and_one, map,
}
use peanut_trade_internship.Base.Int.{pos}
use peanut_trade_internship.Inventory.Pnl.{ArbRecord, PnLEngine, record_arb, recent, line, slice}

slice-last : (n : ℕ) (trades : PnLEngine) → slice (pos (suc n)) trades ≡ last (suc n) trades
unfolding last
slice-last n trades = ground (arith, last_of_few (suc n) trades)

recent-last :
    (n : ℕ) (trades : PnLEngine)
    → recent (pos (suc n)) trades ≡ map line (reverse (last (suc n) trades))
unfolding recent
recent-last n trades = ap (λ l. map line (reverse l)) (slice-last n trades)

newest_first :
    (n : ℕ) (trade : ArbRecord) (trades : PnLEngine)
    → recent (pos (suc n)) (record_arb trade trades)
      ≡ line trade ∷ map line (reverse (last n trades))
unfolding record_arb
newest_first n trade trades =
    recent-last n (trades ++ trade ∷ [])
    ∙ rw (last_and_one n trades trade, reverse-append (last n trades) (trade ∷ [])) refl

slice_none : (trades : PnLEngine) → slice (pos 0) trades ≡ trades
slice_none trades = ground arith

slice_all : (trades : PnLEngine) → slice (pos (length trades)) trades ≡ trades
slice_all trades = ground arith

-- The display of one more trade than n, after a trade is recorded, is the line of that trade and then
-- the display of n trades as it was; of one trade, it is that line alone. But a display of no trades
-- shows the whole ledger.
recent-record_arb :
    (n : ℕ) (trade : ArbRecord) (trades : PnLEngine)
    → (recent (pos 1) (record_arb trade trades) ≡ line trade ∷ [])
      × (recent (pos (suc (suc n))) (record_arb trade trades)
          ≡ line trade ∷ recent (pos (suc n)) trades)
      × (recent (pos 0) trades ≡ recent (pos (length trades)) trades)
unfolding recent
recent-record_arb n trade trades = (
  newest_first 0 trade trades ∙ rw (last_zero trades) refl,
  newest_first (suc n) trade trades ∙ ap (λ l. line trade ∷ l) (sym (recent-last n trades)),
  ap (λ l. map line (reverse l)) (slice_none trades ∙ sym (slice_all trades)),
)
