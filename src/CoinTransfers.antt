-- ===== src/CoinTransfers.antt =====
-- Maps of coin transfers: modules/cf-core/src/ethereum/utils/free-balance-app.ts, and the
-- conversions at the end of modules/cf-core/src/models/free-balance.ts.
use indrav.Prelude.{ℕ, Bool, Option, none, some, List, [], ◌∷◌, ◌++◌, if◌then◌else◌}
use indrav.Prelude.Int.{ℤ, pos, ◌+ℤ◌, ◌-ℤ◌}
use indrav.Prelude.Dict.{Dict, lookup, insert, keys}
use indrav.Prelude.Lists.{contains}
use indrav.Types.{Address, CoinTransfer, CoinTransferMap, TokenIndexedCoinTransferMap}
pub mod Laws

-- `d[k] || Zero`
abbrev pub get_or_zero : ℕ → CoinTransferMap → ℤ
get_or_zero k d = elim (lookup k d) [ none ↦ pos 0 | some v ↦ v ]

-- The loop of `flip`, on the accumulator of its `reduce`.
flip_onto : CoinTransferMap → CoinTransferMap → CoinTransferMap
flip_onto [] acc = acc
flip_onto ((to, amount) ∷ es) acc = flip_onto es (insert to (pos 0 -ℤ amount) acc)

unfoldable pub flip : CoinTransferMap → CoinTransferMap
unfolding flip_onto
flip coin_transfer_map = flip_onto coin_transfer_map []

unfoldable pub flip_tokens_onto :
    TokenIndexedCoinTransferMap → TokenIndexedCoinTransferMap → TokenIndexedCoinTransferMap
flip_tokens_onto [] acc = acc
flip_tokens_onto ((token, balances) ∷ es) acc =
    flip_tokens_onto es (insert token (flip balances) acc)

unfoldable pub flip_token_indexed_balances :
    TokenIndexedCoinTransferMap → TokenIndexedCoinTransferMap
unfolding flip_tokens_onto
flip_token_indexed_balances token_indexed_balances = flip_tokens_onto token_indexed_balances []

-- `new Set(keys)`: the first occurrence of each key, in order; `seen` holds those kept before.
abbrev pub set_of : List ℕ → List ℕ → List ℕ
set_of seen [] = []
set_of seen (k ∷ ks) = if contains k seen then set_of seen ks else k ∷ set_of (k ∷ seen) ks

-- The loop of `merge`: `ret[key] = (base[key] || Zero).add(increments[key] || Zero)`.
abbrev pub merge_keys :
    CoinTransferMap → CoinTransferMap → List ℕ → CoinTransferMap → CoinTransferMap
merge_keys base increments [] ret = ret
merge_keys base increments (key ∷ ks) ret =
    merge_keys base increments ks
      (insert key (get_or_zero key base +ℤ get_or_zero key increments) ret)

unfoldable pub merge : CoinTransferMap → CoinTransferMap → CoinTransferMap
merge base increments =
    merge_keys base increments (set_of [] (set_of [] (keys base) ++ set_of [] (keys increments))) []

abbrev pub to_map_onto : List CoinTransfer → CoinTransferMap → CoinTransferMap
to_map_onto [] acc = acc
to_map_onto (t ∷ ts) acc = to_map_onto ts (insert t.to t.amount acc)

-- `convertCoinTransfersToCoinTransfersMap`; its argument may be `undefined`.
abbrev pub coin_transfers_to_map : Option (List CoinTransfer) → CoinTransferMap
coin_transfers_to_map none = to_map_onto [] []
coin_transfers_to_map (some coin_transfers) = to_map_onto coin_transfers []

-- `convertCoinTransfersMapToCoinTransfers`
abbrev pub map_to_coin_transfers : CoinTransferMap → List CoinTransfer
map_to_coin_transfers [] = []
map_to_coin_transfers ((to, amount) ∷ d) =
    record { to = to; amount = amount } ∷ map_to_coin_transfers d
