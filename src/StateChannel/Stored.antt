-- ===== src/StateChannel/Stored.antt =====
-- Writing a channel as JSON and reading it back.
use indrav.Prelude.{◌≡◌, refl, true, [], ◌∷◌, arith}
use indrav.Prelude.Dict.{Dict, IsObject, insert_all-nil}
use indrav.Prelude.Lists.{every}
use indrav.Prelude.Result.{ok}
use indrav.Types.{Platform}
use indrav.AppInstance.{AppInstance, app_from_json, app_to_json}
use indrav.StateChannel.{StateChannel, new_state_channel}
use indrav.StateChannel.Json.{
  channel_to_json, channel_from_json, entries, drop_nulls, apps_from_json, apps_to_json,
}

drop_nulls-entries {ℓ} : {V : Type ℓ} (d : Dict V) → drop_nulls (entries d) ≡ d
drop_nulls-entries [] = refl
drop_nulls-entries (e ∷ d) = rw (drop_nulls-entries d) refl

module _ ⦃p : Platform⦄ where
  apps_from_json-apps_to_json : (d : Dict AppInstance) → apps_from_json (apps_to_json d) ≡ d
  unfolding app_from_json app_to_json
  apps_from_json-apps_to_json [] = refl
  apps_from_json-apps_to_json (e ∷ d) = rw (apps_from_json-apps_to_json d) refl

  app_from_json-app_to_json : (a : AppInstance) → app_from_json (app_to_json a) ≡ a
  unfolding app_from_json app_to_json
  app_from_json-app_to_json a = refl

  -- A channel whose keys are extended keys, and whose maps have each key once, is read back from
  -- its JSON as it was, with or without a free balance.
  pub channel_from_json-channel_to_json :
      (sc : StateChannel)
      → every p.is_xpub sc.user_neutered_extended_keys ≡ true
      → IsObject sc.proposed_app_instances
      → IsObject sc.app_instances
      → IsObject sc.agreements
      → channel_from_json (channel_to_json sc) ≡ ok sc
  unfolding channel_from_json channel_to_json new_state_channel app_from_json app_to_json
  channel_from_json-channel_to_json sc keys proposals apps agreements =
      rw
        (
          keys,
          drop_nulls-entries sc.proposed_app_instances,
          insert_all-nil sc.proposed_app_instances proposals,
          drop_nulls-entries (apps_to_json sc.app_instances),
          apps_from_json-apps_to_json sc.app_instances,
          insert_all-nil sc.app_instances apps,
          insert_all-nil sc.agreements agreements,
        )
        (ground arith)
