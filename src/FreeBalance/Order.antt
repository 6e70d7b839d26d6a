-- ===== src/FreeBalance/Order.antt =====
-- The order in which the keys of a channel are listed does not show in its sorted addresses.
use indrav.Prelude.{◌≡◌, ◌≢◌, refl, [], ◌∷◌, arith}
use indrav.Types.{Xpub, Platform}
use indrav.Prelude.{ℕ}
use indrav.FreeBalance.{
  sort_addresses, xkeys_to_sorted_kth_addresses, xkey_kth_address, create_free_balance,
}
use indrav.Types.{Address}

module _ ⦃p : Platform⦄ where
  -- For two keys whose k-th addresses read as different numbers, the sorted addresses do not
  -- depend on which key is listed first.
  pub xkeys_to_sorted_kth_addresses-swap :
      (a b : Xpub) (k : ℕ)
      → p.parse_hex (xkey_kth_address a k) ≢ p.parse_hex (xkey_kth_address b k)
      → xkeys_to_sorted_kth_addresses (a ∷ b ∷ []) k ≡ xkeys_to_sorted_kth_addresses (b ∷ a ∷ []) k
  unfolding xkeys_to_sorted_kth_addresses sort_addresses
  xkeys_to_sorted_kth_addresses-swap a b k ne = ground arith

  -- For two keys whose top level addresses read as different numbers, the free balance app that is
  -- created, its participants and its zero balances included, does not depend on which key is
  -- listed first.
  pub create_free_balance-swap :
      (a b : Xpub) (coin_bucket : Address) (timeout : ℕ)
      → p.parse_hex (xkey_kth_address a 0) ≢ p.parse_hex (xkey_kth_address b 0)
      → create_free_balance (a ∷ b ∷ []) coin_bucket timeout
        ≡ create_free_balance (b ∷ a ∷ []) coin_bucket timeout
  unfolding create_free_balance
  create_free_balance-swap a b coin_bucket timeout ne =
      rw (xkeys_to_sorted_kth_addresses-swap a b 0 ne) refl
