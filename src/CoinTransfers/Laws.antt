-- ===== src/CoinTransfers/Laws.antt =====
-- What `flip`, `merge` and the conversions do to each beneficiary's amount.
use indrav.Prelude.{
  ℕ, ◌≡◌, refl, false, ◌||◌, none, some, List, [], ◌∷◌, ◌++◌, arith, if◌then◌else◌,
}
use indrav.Prelude.Int.{pos, ◌+ℤ◌, ◌-ℤ◌, int_laws}
use indrav.Prelude.Dict.{Dict, lookup, has, insert, keys, IsObject, lookup-insert, insert-IsObject}
use indrav.Prelude.Lists.{contains}
use indrav.Types.{CoinTransfer, CoinTransferMap, TokenIndexedCoinTransferMap}
use indrav.CoinTransfers.{
  get_or_zero, flip_onto, flip, flip_tokens_onto, flip_token_indexed_balances, set_of, merge_keys,
  merge, to_map_onto, coin_transfers_to_map, map_to_coin_transfers,
}

pub contains-append :
    (k : ℕ) (xs ys : List ℕ) → contains k (xs ++ ys) ≡ contains k xs || contains k ys
contains-append k [] ys = refl
contains-append k (x ∷ xs) ys = ground (arith, contains-append k xs ys)

pub contains-set_of :
    (k : ℕ) (seen ks : List ℕ)
    → contains k (set_of seen ks) ≡ (if contains k seen then false else contains k ks)
contains-set_of k seen [] = ground arith
contains-set_of k seen (x ∷ ks) =
    ground (arith, contains-set_of k seen ks, contains-set_of k (x ∷ seen) ks)

pub contains-keys {ℓ} : {V : Type ℓ} (k : ℕ) (d : Dict V) → contains k (keys d) ≡ has k d
contains-keys k [] = refl
contains-keys k (e ∷ d) = ground (arith, contains-keys k d)

pub lookup-merge_keys :
    (k : ℕ) (base increments : CoinTransferMap) (ks : List ℕ) (ret : CoinTransferMap)
    → lookup k (merge_keys base increments ks ret) ≡ (
        if contains k ks
        then some (get_or_zero k base +ℤ get_or_zero k increments)
        else lookup k ret)
lookup-merge_keys k base increments [] ret = refl
lookup-merge_keys k base increments (x ∷ ks) ret = ground (
  arith,
  lookup-merge_keys k base increments ks
      (insert x (get_or_zero x base +ℤ get_or_zero x increments) ret),
  lookup-insert k x (get_or_zero x base +ℤ get_or_zero x increments) ret,
)

-- A key of the merged map is a key of either, and its amount is the sum, a missing amount
-- counting as zero; no other key is present.
pub lookup-merge :
    (k : ℕ) (base increments : CoinTransferMap)
    → lookup k (merge base increments) ≡ (
        if has k base || has k increments
        then some (get_or_zero k base +ℤ get_or_zero k increments)
        else none)
unfolding merge
lookup-merge k base increments = ground (
  arith,
  lookup-merge_keys k base increments
      (set_of [] (set_of [] (keys base) ++ set_of [] (keys increments))) [],
  contains-set_of k [] (set_of [] (keys base) ++ set_of [] (keys increments)),
  contains-append k (set_of [] (keys base)) (set_of [] (keys increments)),
  contains-set_of k [] (keys base),
  contains-set_of k [] (keys increments),
  contains-keys k base,
  contains-keys k increments,
)

-- The merged amount of each key is the sum of the two amounts.
pub get_or_zero-merge :
    (k : ℕ) (base increments : CoinTransferMap)
    → get_or_zero k (merge base increments) ≡ get_or_zero k base +ℤ get_or_zero k increments
get_or_zero-merge k base increments = grind (int_laws, lookup-merge k base increments)

merge_keys-IsObject :
    (base increments : CoinTransferMap) (ks : List ℕ) (ret : CoinTransferMap)
    → IsObject ret
    → IsObject (merge_keys base increments ks ret)
merge_keys-IsObject base increments [] ret h = h
merge_keys-IsObject base increments (x ∷ ks) ret h =
    merge_keys-IsObject base increments ks
      (insert x (get_or_zero x base +ℤ get_or_zero x increments) ret)
      (insert-IsObject x (get_or_zero x base +ℤ get_or_zero x increments) ret h)

pub merge-IsObject : (base increments : CoinTransferMap) → IsObject (merge base increments)
unfolding merge
merge-IsObject base increments =
    merge_keys-IsObject base increments
      (set_of [] (set_of [] (keys base) ++ set_of [] (keys increments))) [] tt

lookup-flip_onto :
    (k : ℕ) (d acc : CoinTransferMap)
    → IsObject d
    → lookup k (flip_onto d acc)
      ≡ (elim (lookup k d) [ none ↦ lookup k acc | some v ↦ some (pos 0 -ℤ v) ])
unfolding flip_onto
lookup-flip_onto k [] acc h = refl
lookup-flip_onto k ((to, amount) ∷ d) acc h = ground (
  arith,
  lookup-flip_onto k d (insert to (pos 0 -ℤ amount) acc) h.1,
  lookup-insert k to (pos 0 -ℤ amount) acc,
)

-- `flip` negates each amount and has the same keys.
pub lookup-flip :
    (k : ℕ) (d : CoinTransferMap)
    → IsObject d
    → lookup k (flip d) ≡ (elim (lookup k d) [ none ↦ none | some v ↦ some (pos 0 -ℤ v) ])
unfolding flip
lookup-flip k d h = lookup-flip_onto k d [] h

pub get_or_zero-flip :
    (k : ℕ) (d : CoinTransferMap) → IsObject d → get_or_zero k (flip d) ≡ pos 0 -ℤ get_or_zero k d
get_or_zero-flip k d h = grind (int_laws, lookup-flip k d h)

lookup-flip_tokens_onto :
    (t : ℕ) (d acc : TokenIndexedCoinTransferMap)
    → IsObject d
    → lookup t (flip_tokens_onto d acc)
      ≡ (elim (lookup t d) [ none ↦ lookup t acc | some m ↦ some (flip m) ])
unfolding flip_tokens_onto
lookup-flip_tokens_onto t [] acc h = refl
lookup-flip_tokens_onto t ((token, balances) ∷ d) acc h = ground (
  arith,
  lookup-flip_tokens_onto t d (insert token (flip balances) acc) h.1,
  lookup-insert t token (flip balances) acc,
)

pub lookup-flip_token_indexed_balances :
    (t : ℕ) (d : TokenIndexedCoinTransferMap)
    → IsObject d
    → lookup t (flip_token_indexed_balances d)
      ≡ (elim (lookup t d) [ none ↦ none | some m ↦ some (flip m) ])
unfolding flip_token_indexed_balances
lookup-flip_token_indexed_balances t d h = lookup-flip_tokens_onto t d [] h

flip_tokens_onto-IsObject :
    (d acc : TokenIndexedCoinTransferMap) → IsObject acc → IsObject (flip_tokens_onto d acc)
unfolding flip_tokens_onto
flip_tokens_onto-IsObject [] acc h = h
flip_tokens_onto-IsObject ((token, balances) ∷ d) acc h =
    flip_tokens_onto-IsObject d (insert token (flip balances) acc)
      (insert-IsObject token (flip balances) acc h)

pub flip_token_indexed_balances-IsObject :
    (d : TokenIndexedCoinTransferMap) → IsObject (flip_token_indexed_balances d)
unfolding flip_token_indexed_balances
flip_token_indexed_balances-IsObject d = flip_tokens_onto-IsObject d [] tt

pub to_map_onto-IsObject :
    (ts : List CoinTransfer) (acc : CoinTransferMap) → IsObject acc → IsObject (to_map_onto ts acc)
to_map_onto-IsObject [] acc h = h
to_map_onto-IsObject (t ∷ ts) acc h =
    to_map_onto-IsObject ts (insert t.to t.amount acc) (insert-IsObject t.to t.amount acc h)

lookup-to_map_onto :
    (k : ℕ) (d acc : CoinTransferMap)
    → IsObject d
    → lookup k (to_map_onto (map_to_coin_transfers d) acc)
      ≡ (elim (lookup k d) [ none ↦ lookup k acc | some v ↦ some v ])
lookup-to_map_onto k [] acc h = refl
lookup-to_map_onto k ((to, amount) ∷ d) acc h =
    ground (arith, lookup-to_map_onto k d (insert to amount acc) h.1, lookup-insert k to amount acc)

-- Writing a map as a list of transfers and reading it back keeps every amount.
pub lookup-to_map-map_to :
    (k : ℕ) (d : CoinTransferMap)
    → IsObject d
    → lookup k (coin_transfers_to_map (some (map_to_coin_transfers d))) ≡ lookup k d
lookup-to_map-map_to k d h = ground (arith, lookup-to_map_onto k d [] h)
