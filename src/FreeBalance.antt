-- ===== src/FreeBalance.antt =====
-- The free balance of a channel: modules/cf-core/src/models/free-balance.ts, with `sortAddresses`,
-- `xkeyKthAddress` and `xkeysToSortedKthAddresses` of modules/cf-core/src/machine/xkeys.ts.
-- `FreeBalanceClass` changes itself and returns itself; here each method returns the new value.
use indrav.Prelude.{
  ℕ, Bool, true, false, not, Option, none, some, List, [], ◌∷◌, map, ltb, if◌then◌else◌,
}
use indrav.Prelude.Int.{ℤ, pos, ltb_ℤ}
use indrav.Prelude.Dict.{Dict, lookup, insert, erase, keys, values}
use indrav.Prelude.Lists.{every, get_or}
use indrav.Prelude.Result.{Result, ok, err, type_error, negative_balance, ◌>>=◌, ◌>>◌, guard}
use indrav.Types.{
  Address, Xpub, Hash, CoinTransfer, CoinTransferJson, CoinTransferMap, TokenIndexedCoinTransferMap,
  FreeBalanceStateJson, AppState, multi_asset_multi_party_coin_transfer, AppInterface, Platform,
}
use indrav.CoinTransfers.{merge, coin_transfers_to_map, map_to_coin_transfers}
use indrav.AppInstance.{AppInstance, set_app_state}
pub mod Ledger
pub mod Increment
pub mod Codec
pub mod Order

-- `FreeBalanceClass`, and the `FreeBalanceState` that it is written as.
pub record FreeBalance : Type 0 where
  pub active_apps_map : Dict Bool
  pub balances_indexed_by_token : Dict (List CoinTransfer)

-- The body of `increment`'s loop and the iterations after it.
unfoldable pub increment : TokenIndexedCoinTransferMap → FreeBalance → Result FreeBalance
increment [] fb = ok fb
increment ((token_address, increments) ∷ es) fb = do
  let t1 = coin_transfers_to_map (lookup token_address fb.balances_indexed_by_token)
  let t2 = merge t1 increments
  guard (every (λ val. not (ltb_ℤ val (pos 0))) (values t2)) negative_balance
  increment es (record fb {
    balances_indexed_by_token =
        insert token_address (map_to_coin_transfers t2) fb.balances_indexed_by_token;
  })

-- `delete this.activeAppsMap[activeApp]`
unfoldable pub free_balance_remove_active_app : Hash → FreeBalance → FreeBalance
free_balance_remove_active_app active_app fb = record fb {
  active_apps_map = erase active_app fb.active_apps_map;
}

unfoldable pub free_balance_add_active_app : Hash → FreeBalance → FreeBalance
free_balance_add_active_app active_app fb = record fb {
  active_apps_map = insert active_app true fb.active_apps_map;
}

-- `getBalance`: nothing in its `try` block throws, so its `catch` is never reached; `none` is the
-- `undefined` that an absent beneficiary reads as.
unfoldable pub get_balance : Address → Address → FreeBalance → Option ℤ
get_balance token_address beneficiary fb =
    lookup beneficiary (coin_transfers_to_map (lookup token_address fb.balances_indexed_by_token))

to_indexed_map_onto :
    Dict (List CoinTransfer) → TokenIndexedCoinTransferMap → TokenIndexedCoinTransferMap
to_indexed_map_onto [] ret = ret
to_indexed_map_onto ((token_address, transfers) ∷ es) ret =
    to_indexed_map_onto es (insert token_address (coin_transfers_to_map (some transfers)) ret)

unfoldable pub to_token_indexed_coin_transfer_map : FreeBalance → TokenIndexedCoinTransferMap
unfolding to_indexed_map_onto
to_token_indexed_coin_transfer_map fb = to_indexed_map_onto fb.balances_indexed_by_token []

fund_tokens : List Address → ℤ → List Address → Dict (List CoinTransfer) → Dict (List CoinTransfer)
fund_tokens addresses amount [] acc = acc
fund_tokens addresses amount (token_address ∷ ts) acc =
    fund_tokens addresses amount ts
      (insert token_address (map (λ to. record { to = to; amount = amount }) addresses) acc)

unfoldable pub create_with_funded_token_amounts : List Address → ℤ → List Address → FreeBalance
unfolding fund_tokens
create_with_funded_token_amounts addresses amount token_addresses = record {
  active_apps_map = [];
  balances_indexed_by_token = fund_tokens addresses amount token_addresses [];
}

-- The loop that gives each address of the ETH balance a zero.
zero_balances : List Address → CoinTransferMap → CoinTransferMap
zero_balances [] balances = balances
zero_balances (a ∷ rest) balances = zero_balances rest (insert a (pos 0) balances)

module _ ⦃p : Platform⦄ where
  unfoldable pub with_token_address : Address → FreeBalance → CoinTransferMap
  unfolding zero_balances
  with_token_address token_address fb =
      let balances = coin_transfers_to_map (lookup token_address fb.balances_indexed_by_token) in
      elim balances [
        | [] ↦
            zero_balances
              (keys (coin_transfers_to_map (lookup p.address_zero fb.balances_indexed_by_token))) []
        | other ↦ other
      ]

  abbrev pub transfer_to_json : CoinTransfer → CoinTransferJson
  transfer_to_json t = record { to = t.to; amount_hex = p.to_hex_string t.amount }

  abbrev pub transfer_from_json : CoinTransferJson → CoinTransfer
  transfer_from_json t = record { to = t.to; amount = p.big_numberify t.amount_hex }

  -- `serializeFreeBalanceState`
  unfoldable pub serialize_free_balance_state : FreeBalance → FreeBalanceStateJson
  serialize_free_balance_state fb = record {
    token_addresses = keys fb.balances_indexed_by_token;
    balances = map (map transfer_to_json) (values fb.balances_indexed_by_token);
    active_apps = keys fb.active_apps_map;
  }

  -- The `reduce` over the token addresses; `balances[idx]` past the end is `undefined`, and its
  -- `map` throws.
  abbrev pub deserialize_balances :
      List Address
      → List (List CoinTransferJson)
      → Dict (List CoinTransfer)
      → Result (Dict (List CoinTransfer))
  deserialize_balances [] bs acc = ok acc
  deserialize_balances (t ∷ ts) [] acc = err type_error
  deserialize_balances (t ∷ ts) (b ∷ bs) acc =
      deserialize_balances ts bs (insert (p.get_address t) (map transfer_from_json b) acc)

  abbrev pub deserialize_active_apps : List Hash → Dict Bool → Dict Bool
  deserialize_active_apps [] acc = acc
  deserialize_active_apps (h ∷ hs) acc = deserialize_active_apps hs (insert h true acc)

  -- `deserializeFreeBalanceState`
  unfoldable pub deserialize_free_balance_state : FreeBalanceStateJson → Result FreeBalance
  deserialize_free_balance_state json = do
    balances ← deserialize_balances json.token_addresses json.balances []
    ok (record {
      active_apps_map = deserialize_active_apps json.active_apps [];
      balances_indexed_by_token = balances;
    })

  -- `FreeBalanceClass.fromAppInstance`; a state of another app has neither field, and reads as
  -- the empty balance.
  unfoldable pub from_app_instance : AppInstance → Result FreeBalance
  from_app_instance a = elim a.latest_state [
    | AppState.free_balance json ↦ deserialize_free_balance_state json
    | _ ↦ ok (record { active_apps_map = []; balances_indexed_by_token = [] })
  ]

  -- `toAppInstance`
  unfoldable pub to_app_instance : FreeBalance → AppInstance → Result AppInstance
  to_app_instance fb old_app_instance =
      set_app_state (AppState.free_balance (serialize_free_balance_state fb)) none old_app_instance

  -- `parseInt(a, 16) < parseInt(b, 16) ? -1 : 1` as the comparison of a sort that inserts each
  -- address behind those that do not follow it.
  abbrev pub insert_address : Address → List Address → List Address
  insert_address a [] = a ∷ []
  insert_address a (b ∷ bs) =
      if ltb (p.parse_hex a) (p.parse_hex b) then a ∷ b ∷ bs else b ∷ insert_address a bs

  abbrev pub sort_onto : List Address → List Address → List Address
  sort_onto [] sorted = sorted
  sort_onto (a ∷ addrs) sorted = sort_onto addrs (insert_address a sorted)

  -- `sortAddresses`
  unfoldable pub sort_addresses : List Address → List Address
  sort_addresses addrs = sort_onto addrs []

  -- `xkeyKthAddress`; its cache only saves work.
  abbrev pub xkey_kth_address : Xpub → ℕ → Address
  xkey_kth_address xkey k = p.derive_address xkey k

  unfoldable pub xkeys_to_sorted_kth_addresses : List Xpub → ℕ → List Address
  xkeys_to_sorted_kth_addresses xkeys k =
      sort_addresses (map (λ xkey. xkey_kth_address xkey k) xkeys)

  abbrev pub get_free_balance_app_interface : Address → AppInterface
  get_free_balance_app_interface addr = record {
    addr = addr;
    state_encoding = p.free_balance_encoding;
    action_encoding = none;
  }

  -- `createFreeBalance`; a channel has two keys, and a missing address would be the empty text.
  unfoldable pub create_free_balance : List Xpub → Address → ℕ → AppInstance
  create_free_balance user_neutered_extended_keys coin_bucket_address free_balance_timeout =
      let sorted = xkeys_to_sorted_kth_addresses user_neutered_extended_keys 0 in
      let initial : FreeBalance = record {
        active_apps_map = [];
        balances_indexed_by_token =
            (
              p.address_zero,
              record { to = get_or sorted 0 0; amount = pos 0 }
                  ∷ record { to = get_or sorted 1 0; amount = pos 0 }
                  ∷ [],
            )
            ∷ [];
      } in
      record {
        participants = sorted;
        default_timeout = free_balance_timeout;
        app_interface = get_free_balance_app_interface coin_bucket_address;
        is_virtual_app = false;
        app_seq_no = 0;
        latest_state = AppState.free_balance (serialize_free_balance_state initial);
        latest_version_number = 0;
        latest_timeout = 172800;
        outcome_type = multi_asset_multi_party_coin_transfer;
        two_party_internal = none;
        multi_asset_internal = none;
        single_asset_internal = none;
      }
