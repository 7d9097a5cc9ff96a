-- ===== src/Bot/Tick/Verify.antt =====
-- `_verify_balances` of scripts/arb_bot.py as the loop calls it, behind `_sync_balances`.
use peanut_trade_internship.Base.{
  ℕ, ◌+◌, String, Bool, true, false, ◌&&◌, ◌||◌, List, [], ◌∷◌, Option, none, some, ◌≡◌, refl, ◌∙◌,
  ap, arith, if◌then◌else◌, string_eq,
}
use peanut_trade_internship.Base.Dict.{
  lookup, lookup_or, insert, Unique, lookup-insert, lookup_or-insert,
}
use peanut_trade_internship.Base.Text.{before_slash, after_slash}
use peanut_trade_internship.Base.Int.{ℤ, pos}
use peanut_trade_internship.Base.Float.{Float}
use peanut_trade_internship.Inventory.Tracker.{
  InventoryTracker, Balance, Balances, snapshot_from_cex, snapshot_from_wallet, update_from_cex,
  update_from_wallet, free_of, get_available,
}
use peanut_trade_internship.Executor.Engine.{Event}
use peanut_trade_internship.Bot.{
  Settings, Outside, Bot, CexBalances, WalletBalances, cex_infos, cex_synced, wallet_synced,
  synced_inventory, sync_balances, free_in, mismatched, wallet_mismatch, any_mismatch,
  verify_balances, stop,
}

abbrev free_or : ℤ → Option (ℤ × ℤ) → ℤ
free_or a none = a
free_or a (some (free, locked)) = free

free_or_nought :
    (found : Option (ℤ × ℤ))
    → free_or (pos 0) found ≡ (elim found [ none ↦ pos 0 | some (free, locked) ↦ free ])
free_or_nought none = refl
free_or_nought (some (free, locked)) = refl

module _ {F : Float} (settings : Settings F) (outside : Outside F) where
  snapshot_from_cex_free :
      (d : CexBalances) (asset : String) (s : Balances)
      → Unique d
      → free_of (lookup asset (snapshot_from_cex (cex_infos settings outside d) s))
        ≡ free_or (free_of (lookup asset s)) (lookup asset d)
  snapshot_from_cex_free [] asset s u = refl
  snapshot_from_cex_free ((a, (free, locked)) ∷ d) asset s u =
      let r : Balance = record { free = free; locked = locked } in
      ground (
        arith,
        string_eq.beq_iff a asset,
        u.0,
        lookup-insert a asset r s,
        snapshot_from_cex_free d asset (insert a r s) u.1,
      )

  snapshot_from_wallet_free :
      (d : WalletBalances) (asset : String) (s : Balances)
      → Unique d
      → free_of (lookup asset (snapshot_from_wallet d s))
        ≡ lookup_or asset (free_of (lookup asset s)) d
  snapshot_from_wallet_free [] asset s u = refl
  snapshot_from_wallet_free ((a, amount) ∷ d) asset s u =
      let r : Balance = record { free = amount; locked = pos 0 } in
      ground (
        arith,
        string_eq.beq_iff a asset,
        u.0,
        lookup-insert a asset r s,
        snapshot_from_wallet_free d asset (insert a r s) u.1,
      )

  cex_free :
      (d : CexBalances) (asset : String) (t : InventoryTracker)
      → Unique d
      → get_available "binance" asset (cex_synced settings outside (some d) t)
        ≡ free_in settings outside asset d
  unfolding get_available update_from_cex
  cex_free d asset t u =
      rw
        (
          lookup_or-insert "binance" "binance" (snapshot_from_cex (cex_infos settings outside d) [])
              [] t.balances,
          snapshot_from_cex_free d asset [] u,
        )
        (free_or_nought (lookup asset d))

  wallet_leaves :
      (d : Option WalletBalances) (asset : String) (t : InventoryTracker)
      → get_available "binance" asset (wallet_synced settings outside d t)
        ≡ get_available "binance" asset t
  unfolding get_available update_from_wallet
  wallet_leaves none asset t = refl
  wallet_leaves (some d) asset t =
      ap (λ s. free_of (lookup asset s))
        (lookup_or-insert "wallet" "binance" (snapshot_from_wallet d []) [] t.balances)

  wallet_free :
      (d : WalletBalances) (asset : String) (t : InventoryTracker)
      → Unique d
      → get_available "wallet" asset (wallet_synced settings outside (some d) t)
        ≡ lookup_or asset (pos 0) d
  unfolding get_available update_from_wallet
  wallet_free d asset t u =
      rw
        (
          lookup_or-insert "wallet" "wallet" (snapshot_from_wallet d []) [] t.balances,
          snapshot_from_wallet_free d asset [] u,
        )
        refl

  -- The verdict on two replies of the chain, and on two replies of each: the second ones are the
  -- actual balances, the first ones the expected ones.
  abbrev pub wallet_drift : Option WalletBalances → WalletBalances → String → Bool
  wallet_drift none before asset = false
  wallet_drift (some now) before asset =
      mismatched settings outside (lookup_or asset (pos 0) now) (lookup_or asset (pos 0) before)

  abbrev pub drift :
      Option CexBalances → CexBalances → Option WalletBalances → WalletBalances → String → Bool
  drift none cex wallet_now wallet pair = false
  drift (some now) cex wallet_now wallet pair =
      mismatched settings outside (free_in settings outside (before_slash pair) now)
        (free_in settings outside (before_slash pair) cex)
      || mismatched settings outside (free_in settings outside (after_slash pair) now)
          (free_in settings outside (after_slash pair) cex)
      || settings.has_chain_client && wallet_drift wallet_now wallet (before_slash pair)

  -- The tracker after the two replies, with a client of the chain and without.
  abbrev tracked : Bool → CexBalances → WalletBalances → InventoryTracker → InventoryTracker
  tracked c cex wallet t =
      let t' = cex_synced settings outside (some cex) t in
      if c then wallet_synced settings outside (some wallet) t' else t'

  tracked_cex :
      (c : Bool) (cex : CexBalances) (wallet : WalletBalances) (t : InventoryTracker)
      (asset : String)
      → Unique cex
      → get_available "binance" asset (tracked c cex wallet t) ≡ free_in settings outside asset cex
  tracked_cex true cex wallet t asset u =
      wallet_leaves (some wallet) asset (cex_synced settings outside (some cex) t)
      ∙ cex_free cex asset t u
  tracked_cex false cex wallet t asset u = cex_free cex asset t u

  tracked_wallet :
      (c : Bool) (now : Option WalletBalances) (cex : CexBalances) (wallet : WalletBalances)
      (t : InventoryTracker) (asset : String)
      → Unique wallet
      → (c && wallet_mismatch settings outside now asset (tracked c cex wallet t))
        ≡ (c && wallet_drift now wallet asset)
  tracked_wallet true none cex wallet t asset u = refl
  tracked_wallet true (some now) cex wallet t asset u =
      rw (wallet_free wallet asset (cex_synced settings outside (some cex) t) u) refl
  tracked_wallet false now cex wallet t asset u = refl

  tracked-drift :
      (now : Option CexBalances) (cex : CexBalances) (wallet : WalletBalances) (pair : String)
      (k : ℕ) (events : List (Event F)) (t : InventoryTracker)
      → Unique cex
      → Unique wallet
      → any_mismatch settings outside now pair k events
          (tracked settings.has_chain_client cex wallet t)
        ≡ drift now cex (outside.fetch_wallet_balances k events) wallet pair
  tracked-drift none cex wallet pair k events t u v = refl
  tracked-drift (some now) cex wallet pair k events t u v =
      let c = settings.has_chain_client in
      rw
        (
          tracked_cex c cex wallet t (before_slash pair) u,
          tracked_cex c cex wallet t (after_slash pair) u,
          tracked_wallet c (outside.fetch_wallet_balances k events) cex wallet t (before_slash pair)
              v,
        )
        refl

  -- `_verify_balances` is called behind `_sync_balances`, which overwrites the tracker with the
  -- replies. When no balances are mocked and exchange and chain answer the synchronization, naming no
  -- asset twice, then the verification compares their next replies with these: it stops the bot exactly
  -- if one of the balances has drifted by more than 1% since, whatever the tracker expected of the
  -- trade.
  pub verify_balances-sync_balances :
      (pair : String) (b : Bot F) (cex : CexBalances) (wallet : WalletBalances)
      → settings.mock_balances ≡ []
      → outside.fetch_balance b.balance_reads b.world.events ≡ some cex
      → outside.fetch_wallet_balances b.balance_reads b.world.events ≡ some wallet
      → Unique cex
      → Unique wallet
      → let events = b.world.events in
        let next = b.balance_reads + 1 in
        let b' = record (sync_balances settings outside b) { balance_reads = next + 1 } in
        verify_balances settings outside pair (sync_balances settings outside b) ≡ (
          if drift
            (outside.fetch_balance next events)
            cex
            (outside.fetch_wallet_balances next events)
            wallet
            pair
          then stop b'
          else b')
  unfolding verify_balances sync_balances
  verify_balances-sync_balances pair b cex wallet mock replied answered u v =
      let events = b.world.events in
      let k = b.balance_reads in
      let s = sync_balances settings outside b in
      let b' = record s { balance_reads = k + 1 + 1 } in
      let same : synced_inventory settings outside settings.mock_balances k events b.inventory
          ≡ tracked settings.has_chain_client cex wallet b.inventory =
        ap (λ m. synced_inventory settings outside m k events b.inventory) mock
        ∙ ap
            (λ r.
              let t' = cex_synced settings outside r b.inventory in
              if settings.has_chain_client
              then wallet_synced settings outside (outside.fetch_wallet_balances k events) t'
              else t')
            replied
        ∙ ap
            (λ w.
              let t' = cex_synced settings outside (some cex) b.inventory in
              if settings.has_chain_client then wallet_synced settings outside w t' else t')
            answered in
      ap (λ c. if c then stop b' else b')
        (ap
            (any_mismatch settings outside (outside.fetch_balance (k + 1) events) pair (k + 1)
              events)
            same
          ∙ tracked-drift (outside.fetch_balance (k + 1) events) cex wallet pair (k + 1) events
              b.inventory u v)
