-- ===== src/StateChannel.antt =====
-- The model of a channel: the fields, the constructor and the queries of
-- modules/cf-core/src/models/state-channel.ts. What changes a channel is in
-- StateChannel/Operations, the serialization in StateChannel/Json.
use indrav.Prelude.{
  ℕ, ◌+◌, Bool, true, false, ◌||◌, not, Option, none, some, List, [], ◌∷◌, map, ◌==◌, ltb,
  if◌then◌else◌,
}
use indrav.Prelude.Dict.{Dict, lookup, has, values}
use indrav.Prelude.Lists.{every, filter, length, get_elem?}
use indrav.Prelude.Result.{
  Result, ok, err, type_error, invalid_extended_keys, app_does_not_exist, no_installed_apps,
  no_proposed_apps, no_app_of_kind, free_balance_missing, invalid_xpub, no_virtual_app_agreement,
  ◌>>=◌, ◌>>◌, guard, or_throw,
}
use indrav.Types.{Address, Xpub, Hash, AppInstanceProposal, Agreement, Platform}
use indrav.AppInstance.{AppInstance}
use indrav.FreeBalance.{
  FreeBalance, from_app_instance, sort_addresses, xkey_kth_address, create_free_balance,
}
pub mod Operations
pub mod Installs
pub mod Json
pub mod Balances
pub mod Funding
pub mod Installed
pub mod Uninstalled
pub mod RoundTrip
pub mod Updates
pub mod Stored
pub mod Latest
pub mod Agreements

pub record StateChannel : Type 0 where
  pub multisig_address : Address
  pub user_neutered_extended_keys : List Xpub
  pub proposed_app_instances : Dict AppInstanceProposal
  pub app_instances : Dict AppInstance
  pub agreements : Dict Agreement
  pub free_balance_app_instance : Option AppInstance
  pub monotonic_num_proposed_apps : ℕ

-- `numProposedApps`
abbrev pub num_proposed_apps : StateChannel → ℕ
num_proposed_apps sc = sc.monotonic_num_proposed_apps

-- `numActiveApps`
unfoldable pub num_active_apps : StateChannel → ℕ
num_active_apps sc = length sc.app_instances

-- `getAppInstance`
unfoldable pub get_app_instance : Hash → StateChannel → Result AppInstance
get_app_instance app_instance_identity_hash sc =
    or_throw (lookup app_instance_identity_hash sc.app_instances) app_does_not_exist

-- `hasAppInstance`, `isAppInstanceInstalled`
abbrev pub has_app_instance : Hash → StateChannel → Bool
has_app_instance app_instance_id sc = has app_instance_id sc.app_instances

abbrev apps_of_kind : Address → StateChannel → List AppInstance
apps_of_kind address sc =
    filter (λ app_instance. app_instance.app_interface.addr == address) (values sc.app_instances)

unfoldable pub has_app_instance_of_kind : Address → StateChannel → Bool
has_app_instance_of_kind address sc = ltb 0 (length (apps_of_kind address sc))

unfoldable pub get_app_instance_of_kind : Address → StateChannel → Result AppInstance
get_app_instance_of_kind address sc = elim (apps_of_kind address sc) [
  | [] ↦ err no_app_of_kind
  | a ∷ rest ↦ elim rest [ [] ↦ ok a | _ ↦ err no_app_of_kind ]
]

-- The `reduce` of `mostRecentlyInstalledAppInstance`.
abbrev pub latest_app : AppInstance → List AppInstance → AppInstance
latest_app prev [] = prev
latest_app prev (current ∷ rest) =
    latest_app (if ltb prev.app_seq_no current.app_seq_no then current else prev) rest

unfoldable pub most_recently_installed_app_instance : StateChannel → Result AppInstance
most_recently_installed_app_instance sc = elim (values sc.app_instances) [
  | [] ↦ err no_installed_apps
  | a ∷ rest ↦ ok (latest_app a rest)
]

abbrev latest_proposal : AppInstanceProposal → List AppInstanceProposal → AppInstanceProposal
latest_proposal prev [] = prev
latest_proposal prev (current ∷ rest) =
    latest_proposal (if ltb prev.app_seq_no current.app_seq_no then current else prev) rest

unfoldable pub most_recently_proposed_app_instance : StateChannel → Result AppInstanceProposal
most_recently_proposed_app_instance sc = elim (values sc.proposed_app_instances) [
  | [] ↦ err no_proposed_apps
  | a ∷ rest ↦ ok (latest_proposal a rest)
]

-- `hasFreeBalance`
unfoldable pub has_free_balance : StateChannel → Bool
has_free_balance sc = elim sc.free_balance_app_instance [ none ↦ false | some _ ↦ true ]

-- The getter `freeBalance`.
unfoldable pub free_balance : StateChannel → Result AppInstance
free_balance sc = or_throw sc.free_balance_app_instance free_balance_missing

-- `getSingleAssetTwoPartyIntermediaryAgreementFromVirtualApp`
unfoldable pub get_agreement_from_virtual_app : Hash → StateChannel → Result Agreement
get_agreement_from_virtual_app key sc = or_throw (lookup key sc.agreements) no_virtual_app_agreement

-- `xs[i] === a`
abbrev is_at : List Address → ℕ → Address → Bool
is_at xs i a = elim (get_elem? xs i) [ none ↦ false | some b ↦ a == b ]

module _ ⦃p : Platform⦄ where
  -- The constructor: every key must start with "xpub".
  unfoldable pub new_state_channel : StateChannel → Result StateChannel
  new_state_channel sc = do
    guard (every p.is_xpub sc.user_neutered_extended_keys) invalid_extended_keys
    ok sc

  unfoldable pub get_signing_keys_for : ℕ → StateChannel → List Address
  get_signing_keys_for address_index sc =
      sort_addresses
        (map (λ xpub. xkey_kth_address xpub address_index) sc.user_neutered_extended_keys)

  -- `multisigOwners`
  abbrev pub multisig_owners : StateChannel → List Address
  multisig_owners sc = get_signing_keys_for 0 sc

  unfoldable pub get_next_signing_keys : StateChannel → List Address
  get_next_signing_keys sc = get_signing_keys_for sc.monotonic_num_proposed_apps sc

  -- The test that `getMultisigOwnerAddrOf` and `getFreeBalanceAddrOf` make of two addresses.
  abbrev owner_addr_of : Xpub → List Address → Result Address
  owner_addr_of xpub owners =
      let top_level_key = xkey_kth_address xpub 0 in
      if not (is_at owners 0 top_level_key || is_at owners 1 top_level_key)
      then err invalid_xpub
      else ok top_level_key

  unfoldable pub get_multisig_owner_addr_of : Xpub → StateChannel → Result Address
  get_multisig_owner_addr_of xpub sc = owner_addr_of xpub (multisig_owners sc)

  unfoldable pub get_free_balance_addr_of : Xpub → StateChannel → Result Address
  get_free_balance_addr_of xpub sc = elim sc.free_balance_app_instance [
    | none ↦ err type_error
    | some fb ↦ owner_addr_of xpub fb.participants
  ]

  -- `getFreeBalanceClass`
  unfoldable pub get_free_balance_class : StateChannel → Result FreeBalance
  get_free_balance_class sc = free_balance sc >>= from_app_instance

  -- `setupChannel`; a timeout that is absent or 0 becomes the default.
  unfoldable pub setup_channel : Address → Address → List Xpub → Option ℕ → Result StateChannel
  setup_channel free_balance_app_address multisig_address keys free_balance_timeout =
      new_state_channel (record {
        multisig_address = multisig_address;
        user_neutered_extended_keys = keys;
        proposed_app_instances = [];
        app_instances = [];
        agreements = [];
        free_balance_app_instance = some (
            create_free_balance keys free_balance_app_address (elim free_balance_timeout [
              | none ↦ 172800
              | some t ↦ if t == 0 then 172800 else t
            ]));
        monotonic_num_proposed_apps = 1;
      })

  unfoldable pub create_empty_channel : Address → List Xpub → Result StateChannel
  create_empty_channel multisig_address keys = new_state_channel (record {
    multisig_address = multisig_address;
    user_neutered_extended_keys = keys;
    proposed_app_instances = [];
    app_instances = [];
    agreements = [];
    free_balance_app_instance = none;
    monotonic_num_proposed_apps = 1;
  })
