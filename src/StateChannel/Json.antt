-- ===== src/StateChannel/Json.antt =====
-- `toJson` and `fromJson` of modules/cf-core/src/models/state-channel.ts.
use indrav.Prelude.{ℕ, Option, none, some, List, [], ◌∷◌}
use indrav.Prelude.Dict.{Dict, insert_all}
use indrav.Prelude.Result.{Result}
use indrav.Types.{Address, Xpub, Hash, AppInstanceProposal, Agreement, Platform}
use indrav.AppInstance.{AppInstance, AppInstanceJson, app_from_json, app_to_json}
use indrav.StateChannel.{StateChannel, new_state_channel}

-- `StateChannelJSON`; an absent list or counter is `none`, and a list may hold nulls.
pub record StateChannelJson : Type 0 where
  pub multisig_address : Address
  pub user_neutered_extended_keys : List Xpub
  pub proposed_app_instances : Option (List (Option (Hash × AppInstanceProposal)))
  pub app_instances : Option (List (Option (Hash × AppInstanceJson)))
  pub agreements : Option (List (Hash × Agreement))
  pub free_balance_app_instance : Option AppInstanceJson
  pub monotonic_num_proposed_apps : Option ℕ

-- The list of a map's entries, as it stands in the JSON.
abbrev pub entries {ℓ} : {V : Type ℓ} → Dict V → List (Option (Hash × V))
entries [] = []
entries (e ∷ d) = some e ∷ entries d

-- `dropNulls(list) || []`
abbrev pub drop_nulls {ℓ} : {V : Type ℓ} → List (Option (Hash × V)) → Dict V
drop_nulls [] = []
drop_nulls (none ∷ xs) = drop_nulls xs
drop_nulls (some e ∷ xs) = e ∷ drop_nulls xs

abbrev pub or_empty {ℓ} : {A : Type ℓ} → Option (List A) → List A
or_empty none = []
or_empty (some xs) = xs

abbrev pub apps_from_json : Dict AppInstanceJson → Dict AppInstance
apps_from_json [] = []
apps_from_json ((k, json) ∷ d) = (k, app_from_json json) ∷ apps_from_json d

module _ ⦃p : Platform⦄ where
  abbrev pub apps_to_json : Dict AppInstance → Dict AppInstanceJson
  apps_to_json [] = []
  apps_to_json ((k, app) ∷ d) = (k, app_to_json app) ∷ apps_to_json d

  -- `toJson`
  unfoldable pub channel_to_json : StateChannel → StateChannelJson
  channel_to_json sc = record {
    multisig_address = sc.multisig_address;
    user_neutered_extended_keys = sc.user_neutered_extended_keys;
    proposed_app_instances = some (entries sc.proposed_app_instances);
    app_instances = some (entries (apps_to_json sc.app_instances));
    agreements = some sc.agreements;
    free_balance_app_instance = elim sc.free_balance_app_instance [
      | none ↦ none
      | some fb ↦ some (app_to_json fb)
    ];
    monotonic_num_proposed_apps = some sc.monotonic_num_proposed_apps;
  }

  -- `fromJson`; what the constructor throws is thrown again under another message.
  unfoldable pub channel_from_json : StateChannelJson → Result StateChannel
  channel_from_json json = new_state_channel (record {
    multisig_address = json.multisig_address;
    user_neutered_extended_keys = json.user_neutered_extended_keys;
    proposed_app_instances = insert_all (drop_nulls (or_empty json.proposed_app_instances)) [];
    app_instances = insert_all (apps_from_json (drop_nulls (or_empty json.app_instances))) [];
    agreements = insert_all (or_empty json.agreements) [];
    free_balance_app_instance = elim json.free_balance_app_instance [
      | none ↦ none
      | some fb ↦ some (app_from_json fb)
    ];
    monotonic_num_proposed_apps = elim json.monotonic_num_proposed_apps [ none ↦ 0 | some n ↦ n ];
  })
