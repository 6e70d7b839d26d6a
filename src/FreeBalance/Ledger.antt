-- ===== src/FreeBalance/Ledger.antt =====
-- The abstract view of a free balance, an amount for each token and beneficiary, and what
-- `increment` does to it.
use indrav.Prelude.{◌≡◌, none, some, arith, ◌==◌, if◌then◌else◌}
use indrav.Prelude.Int.{ℤ, pos, ◌+ℤ◌, ◌≤ℤ◌}
use indrav.Prelude.Dict.{lookup, insert, lookup-insert}
use indrav.Types.{Address, CoinTransferMap, TokenIndexedCoinTransferMap}
use indrav.CoinTransfers.{get_or_zero, merge, coin_transfers_to_map, map_to_coin_transfers}
use indrav.CoinTransfers.Laws.{get_or_zero-merge, merge-IsObject, lookup-to_map-map_to}
use indrav.FreeBalance.{FreeBalance}

-- What `beneficiary` holds of a token; nothing, if it has no entry.
abbrev pub ledger : FreeBalance → Address → Address → ℤ
ledger fb token beneficiary =
    get_or_zero beneficiary (coin_transfers_to_map (lookup token fb.balances_indexed_by_token))

-- The amount that a doubly nested map names for a token and a beneficiary.
abbrev pub amount_of : TokenIndexedCoinTransferMap → Address → Address → ℤ
amount_of increments token beneficiary = elim (lookup token increments) [
  | none ↦ pos 0
  | some m ↦ get_or_zero beneficiary m
]

abbrev pub IsNonnegative : FreeBalance → Type 0
IsNonnegative fb = (token beneficiary : Address) → pos 0 ≤ℤ ledger fb token beneficiary

-- One iteration: the token's transfers become the merged ones.
abbrev pub put_token : Address → CoinTransferMap → FreeBalance → FreeBalance
put_token token m fb = record fb {
  balances_indexed_by_token = insert token (map_to_coin_transfers m) fb.balances_indexed_by_token;
}

abbrev pub merged : FreeBalance → Address → CoinTransferMap → CoinTransferMap
merged fb token m = merge (coin_transfers_to_map (lookup token fb.balances_indexed_by_token)) m

pub ledger-put_token :
    (fb : FreeBalance) (token : Address) (m : CoinTransferMap) (t u : Address)
    → ledger (put_token token (merged fb token m) fb) t u
      ≡ (if t == token then ledger fb t u +ℤ get_or_zero u m else ledger fb t u)
ledger-put_token fb token m t u = grind (
  arith,
  lookup-insert t token (map_to_coin_transfers (merged fb token m)) fb.balances_indexed_by_token,
  lookup-to_map-map_to u (merged fb token m) (merge-IsObject _ m),
  get_or_zero-merge u (coin_transfers_to_map (lookup token fb.balances_indexed_by_token)) m,
)
