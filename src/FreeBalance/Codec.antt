-- ===== src/FreeBalance/Codec.antt =====
-- Writing a free balance into the state of its app and reading it back.
use indrav.Prelude.{◌≡◌, refl, Bool, true, List, [], ◌∷◌, map, arith}
use mathlib.Core.Path.{subst}
use indrav.Prelude.Dict.{
  Dict, insert, insert_all, keys, values, IsObject, insert-IsObject, insert_all-nil, erase,
  erase-IsObject,
}
use indrav.Prelude.Result.{ok, >>=-eq-ok}
use indrav.Types.{
  Address, Hash, CoinTransfer, CoinTransferJson, CoinTransferMap, TokenIndexedCoinTransferMap,
  FreeBalanceStateJson, AppState, Platform, IsPlatform,
}
use indrav.CoinTransfers.{map_to_coin_transfers}
use indrav.AppInstance.{AppInstance, set_app_state, app_from_json, app_to_json}
use indrav.FreeBalance.Ledger.{put_token, merged}
use indrav.FreeBalance.Increment.{increment-nil, increment-cons_ok}
use indrav.FreeBalance.{
  FreeBalance, increment, free_balance_add_active_app, free_balance_remove_active_app,
  serialize_free_balance_state, deserialize_free_balance_state, deserialize_balances,
  deserialize_active_apps, transfer_to_json, transfer_from_json, from_app_instance, to_app_instance,
}

abbrev AllTrue : Dict Bool → Type 0
AllTrue [] = Unit
AllTrue ((_, v) ∷ d) = (v ≡ true) × AllTrue d

module _ ⦃p : Platform⦄ where
  -- Every token is in the checksum form that `getAddress` returns.
  abbrev pub Canonical {ℓ} : {V : Type ℓ} → Dict V → Type 0
  Canonical [] = Unit
  Canonical ((t, _) ∷ d) = (p.get_address t ≡ t) × Canonical d

  -- What holds of every free balance that was read from an app's state.
  pub record IsFreeBalance (fb : FreeBalance) : Type 0 where
    pub tokens : IsObject fb.balances_indexed_by_token
    pub canonical : Canonical fb.balances_indexed_by_token
    pub actives : IsObject fb.active_apps_map
    pub all_true : AllTrue fb.active_apps_map

  module _ (laws : IsPlatform p) where
    transfers_round_trip :
        (ts : List CoinTransfer) → map transfer_from_json (map transfer_to_json ts) ≡ ts
    transfers_round_trip [] = refl
    transfers_round_trip (t ∷ ts) = rw (laws.hex_round_trip t.amount, transfers_round_trip ts)

    deserialize_balances_lem :
        (d acc : Dict (List CoinTransfer))
        → Canonical d
        → deserialize_balances (keys d) (map (map transfer_to_json) (values d)) acc
          ≡ ok (insert_all d acc)
    deserialize_balances_lem [] acc c = refl
    deserialize_balances_lem ((t, ts) ∷ d) acc c =
        rw (c.0, transfers_round_trip ts) (deserialize_balances_lem d (insert t ts acc) c.1)

  deserialize_active_apps_lem :
      (d acc : Dict Bool) → AllTrue d → deserialize_active_apps (keys d) acc ≡ insert_all d acc
  deserialize_active_apps_lem [] acc h = refl
  deserialize_active_apps_lem ((k, v) ∷ d) acc h =
      rw h.0 (deserialize_active_apps_lem d (insert k true acc) h.1)

  pub insert-Canonical {ℓ} :
      {V : Type ℓ} (t : Address) (v : V) (d : Dict V)
      → p.get_address t ≡ t
      → Canonical d
      → Canonical (insert t v d)
  insert-Canonical t v [] e c = (e, tt)
  insert-Canonical t v (x ∷ d) e c = ground (arith, insert-Canonical t v d e c.1)

  insert-AllTrue : (k : Hash) (d : Dict Bool) → AllTrue d → AllTrue (insert k true d)
  insert-AllTrue k [] h = (refl, tt)
  insert-AllTrue k (x ∷ d) h = ground (arith, insert-AllTrue k d h.1)

  erase-AllTrue : (k : Hash) (d : Dict Bool) → AllTrue d → AllTrue (erase k d)
  erase-AllTrue k [] h = tt
  erase-AllTrue k (x ∷ d) h = ground (arith, erase-AllTrue k d h.1)

  deserialize_active_apps-IsObject :
      (hs : List Hash) (acc : Dict Bool)
      → IsObject acc
      → AllTrue acc
      → IsObject (deserialize_active_apps hs acc) × AllTrue (deserialize_active_apps hs acc)
  deserialize_active_apps-IsObject [] acc o h = (o, h)
  deserialize_active_apps-IsObject (k ∷ hs) acc o h =
      deserialize_active_apps-IsObject hs (insert k true acc) (insert-IsObject k true acc o)
        (insert-AllTrue k acc h)

  pub add_active_app-IsFreeBalance :
      (h : Hash) {fb : FreeBalance}
      → IsFreeBalance fb
      → IsFreeBalance (free_balance_add_active_app h fb)
  unfolding free_balance_add_active_app
  add_active_app-IsFreeBalance h {fb} v = record {
    tokens = v.tokens;
    canonical = v.canonical;
    actives = insert-IsObject h true fb.active_apps_map v.actives;
    all_true = insert-AllTrue h fb.active_apps_map v.all_true;
  }

  pub remove_active_app-IsFreeBalance :
      (h : Hash) {fb : FreeBalance}
      → IsFreeBalance fb
      → IsFreeBalance (free_balance_remove_active_app h fb)
  unfolding free_balance_remove_active_app
  remove_active_app-IsFreeBalance h {fb} v = record {
    tokens = v.tokens;
    canonical = v.canonical;
    actives = erase-IsObject h fb.active_apps_map v.actives;
    all_true = erase-AllTrue h fb.active_apps_map v.all_true;
  }

  put_token-IsFreeBalance :
      (token : Address) (m : CoinTransferMap) {fb : FreeBalance}
      → p.get_address token ≡ token
      → IsFreeBalance fb
      → IsFreeBalance (put_token token m fb)
  put_token-IsFreeBalance token m {fb} e v = record {
    tokens = insert-IsObject token (map_to_coin_transfers m) fb.balances_indexed_by_token v.tokens;
    canonical =
        insert-Canonical token (map_to_coin_transfers m) fb.balances_indexed_by_token e v.canonical;
    actives = v.actives;
    all_true = v.all_true;
  }

  pub increment-IsFreeBalance :
      (increments : TokenIndexedCoinTransferMap) {fb fb' : FreeBalance}
      → Canonical increments
      → IsFreeBalance fb
      → increment increments fb ≡ ok fb'
      → IsFreeBalance fb'
  increment-IsFreeBalance [] {fb} c v h = subst (IsFreeBalance) (cc (increment-nil fb)) v
  increment-IsFreeBalance ((token, m) ∷ es) {fb} c v h =
      increment-IsFreeBalance es c.1 (put_token-IsFreeBalance token (merged fb token m) c.0 v)
        (increment-cons_ok token m es fb h).1

  module _ (laws : IsPlatform p) where
    -- On a platform with the documented laws, a free balance that is well formed, as every one that
    -- was read from a state is, survives being written into a state and read back.
    pub deserialize-serialize :
        (fb : FreeBalance)
        → IsFreeBalance fb
        → deserialize_free_balance_state (serialize_free_balance_state fb) ≡ ok fb
    unfolding serialize_free_balance_state deserialize_free_balance_state
    deserialize-serialize fb v = rw (
      deserialize_balances_lem laws fb.balances_indexed_by_token [] v.canonical,
      insert_all-nil fb.balances_indexed_by_token v.tokens,
      deserialize_active_apps_lem fb.active_apps_map [] v.all_true,
      insert_all-nil fb.active_apps_map v.actives,
    )

    -- On a platform with the documented laws, `fromAppInstance` reads from the app that
    -- `toAppInstance` returned the well formed free balance that was written.
    pub from-to_app_instance :
        (fb : FreeBalance) (old : AppInstance) {a : AppInstance}
        → IsFreeBalance fb
        → to_app_instance fb old ≡ ok a
        → from_app_instance a ≡ ok fb
    unfolding to_app_instance set_app_state app_from_json app_to_json from_app_instance
    from-to_app_instance fb old v h = ground (arith, deserialize-serialize fb v)

    deserialize_balances-Canonical :
        (ts : List Address) (bs : List (List CoinTransferJson)) (acc : Dict (List CoinTransfer))
        {d : Dict (List CoinTransfer)}
        → IsObject acc
        → Canonical acc
        → deserialize_balances ts bs acc ≡ ok d
        → IsObject d × Canonical d
    deserialize_balances-Canonical [] bs acc o c h =
        subst (λ x. IsObject x × Canonical x) (cc) (o, c)
    deserialize_balances-Canonical (t ∷ ts) [] acc o c h = cc
    deserialize_balances-Canonical (t ∷ ts) (b ∷ bs) acc o c h =
        deserialize_balances-Canonical ts bs
          (insert (p.get_address t) (map transfer_from_json b) acc)
          (insert-IsObject (p.get_address t) (map transfer_from_json b) acc o)
          (insert-Canonical (p.get_address t) (map transfer_from_json b) acc
            (laws.get_address_idem t) c)
          h

    deserialize-IsFreeBalance :
        (json : FreeBalanceStateJson) {fb : FreeBalance}
        → deserialize_free_balance_state json ≡ ok fb
        → IsFreeBalance fb
    unfolding deserialize_free_balance_state
    deserialize-IsFreeBalance json h =
        let (d, read, e) =
          >>=-eq-ok (deserialize_balances json.token_addresses json.balances []) _ h in
        let (o, c) =
          deserialize_balances-Canonical json.token_addresses json.balances [] tt tt read in
        let (actives, all_true) = deserialize_active_apps-IsObject json.active_apps [] tt tt in
        subst IsFreeBalance (cc)
          (record { tokens = o; canonical = c; actives = actives; all_true = all_true })

    empty-IsFreeBalance :
        IsFreeBalance (record { active_apps_map = []; balances_indexed_by_token = [] })
    empty-IsFreeBalance = record { tokens = tt; canonical = tt; actives = tt; all_true = tt }

    state-IsFreeBalance :
        (s : AppState) {fb : FreeBalance}
        → (elim s [
          | AppState.free_balance json ↦ deserialize_free_balance_state json
          | _ ↦ ok (record { active_apps_map = []; balances_indexed_by_token = [] })
        ])
          ≡ ok fb
        → IsFreeBalance fb
    state-IsFreeBalance (AppState.free_balance json) h = deserialize-IsFreeBalance json h
    state-IsFreeBalance _ h = subst IsFreeBalance (cc) empty-IsFreeBalance

    -- What `fromAppInstance` reads is well formed, whatever the state.
    pub from_app_instance-IsFreeBalance :
        (a : AppInstance) {fb : FreeBalance} → from_app_instance a ≡ ok fb → IsFreeBalance fb
    unfolding from_app_instance
    from_app_instance-IsFreeBalance a h = state-IsFreeBalance a.latest_state h
