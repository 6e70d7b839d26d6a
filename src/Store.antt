-- ===== src/Store.antt =====
-- The store of channels: modules/cf-core/src/store.ts, over a storage service that is a parameter.
-- Methods that only read return what they read or throw; those that write return the storage.
use indrav.Prelude.{
  ℕ, ◌≡◌, ◌≢◌, Bool, true, false, ◌||◌, Option, none, some, List, [], ◌∷◌, map, ◌==◌, if◌then◌else◌,
  ◌++◌,
}
use indrav.Prelude.Dict.{Dict, IsObject, has, lookup, insert, values}
use indrav.Prelude.Result.{
  Result, ok, err, Error, type_error, no_state_channel, no_multisig_for_app, no_proposal_for_app,
  ◌>>=◌, ◌>>◌, guard, or_throw,
}
use indrav.Types.{Address, Xpub, Hash, AppState, AppInstanceProposal, Platform}
use indrav.AppInstance.{AppInstance, identity_hash}
use indrav.StateChannel.{StateChannel, get_app_instance, has_app_instance, create_empty_channel}
use indrav.StateChannel.Operations.{set_state}
use indrav.StateChannel.Json.{StateChannelJson, channel_to_json, channel_from_json}
use indrav.Commitment.{MinimalTransaction, Ethereum}
use indrav.Machine.{Protocol}
pub mod Owners
pub mod Represents
pub mod Reading
pub mod Search
pub mod Middleware

-- The paths that the store builds, after the key prefix: of all channels, of one channel, of the
-- withdrawal of a multisig and of a commitment, by its hash.
pub data StorePath : Type 0 where
  channels : StorePath
  channel : Address → StorePath
  withdrawal : Address → StorePath
  commitment : Hash → StorePath

-- What is stored; a commitment stands at the end of the arguments that it is stored with.
pub data Value : Type 0 where
  channels_value : Dict StateChannelJson → Value
  channel_value : StateChannelJson → Value
  transaction_value : MinimalTransaction → Value
  commitment_value : Protocol → List Hash → MinimalTransaction → Value

-- `IStoreService` below the key prefix: `get`, where `none` is a missing value, `set` of one pair,
-- and the hash of `solidityKeccak256` that makes the path of a commitment.
pub record StoreService (S : Type 0) : Type 0 where
  pub get : StorePath → S → Option Value
  pub set : StorePath → Value → S → S
  pub hash_commitment : MinimalTransaction → Hash

-- What is stored for one channel, and what is found in the answer for all channels.
abbrev pub channel_in : Option Value → Option StateChannelJson
channel_in none = none
channel_in (some v) = elim v [ channel_value json ↦ some json | _ ↦ none ]

abbrev pub channels_in : Option Value → Dict StateChannelJson
channels_in none = []
channels_in (some v) = elim v [ channels_value jsons ↦ jsons | _ ↦ [] ]

-- The documented behaviour: a value that is set is read back and no other path changes, and the
-- path of all channels reads the channels that are stored, keyed by their addresses.
pub record IsStoreService {S : Type 0} (service : StoreService S) : Type 0 where
  pub get_set_channel :
      (s : S) (a : Address) (v : Value)
      → service.get (channel a) (service.set (channel a) v s) ≡ some v
  pub get_set_other :
      (s : S) (a : Address) (path : StorePath) (v : Value)
      → path ≢ channel a
      → service.get (channel a) (service.set path v s) ≡ service.get (channel a) s
  pub channels_object : (s : S) → IsObject (channels_in (service.get channels s))
  pub channels_keyed :
      (s : S) (a : Address)
      → lookup a (channels_in (service.get channels s)) ≡ channel_in (service.get (channel a) s)

module _ ⦃p : Platform⦄ where
  -- `Object.values(channelsJSON).map(StateChannel.fromJson)`
  abbrev pub channels_from_json : List StateChannelJson → Result (List StateChannel)
  channels_from_json [] = ok []
  channels_from_json (json ∷ jsons) = do
    sc ← channel_from_json json
    scs ← channels_from_json jsons
    ok (sc ∷ scs)

  -- `new Map(stateChannels.map(sc => [sc.multisigAddress, sc]))`
  abbrev pub index_onto : List StateChannel → Dict StateChannel → Dict StateChannel
  index_onto [] acc = acc
  index_onto (sc ∷ scs) acc = index_onto scs (insert sc.multisig_address sc acc)

  -- Whether the channel has the app as a proposal, as an installed app or as its free balance.
  abbrev pub knows_app : Hash → StateChannel → Bool
  knows_app app_instance_id sc =
      has app_instance_id sc.proposed_app_instances
      || has_app_instance app_instance_id sc
      || (elim sc.free_balance_app_instance [
        | none ↦ false
        | some fb ↦ identity_hash fb == app_instance_id
      ])

  -- The loop of `getMultisigAddressFromAppInstance`.
  abbrev pub find_app : Hash → List StateChannel → Result Address
  find_app app_instance_id [] = err no_multisig_for_app
  find_app app_instance_id (sc ∷ scs) =
      if knows_app app_instance_id sc then ok sc.multisig_address else find_app app_instance_id scs

  abbrev pub proposals_onto :
      List StateChannel → List AppInstanceProposal → List AppInstanceProposal
  proposals_onto [] acc = acc
  proposals_onto (sc ∷ scs) acc = proposals_onto scs (acc ++ values sc.proposed_app_instances)

  module _ {S : Type 0} ⦃service : StoreService S⦄ where
    -- `getStateChannelsMap`
    unfoldable pub get_state_channels_map : S → Result (Dict StateChannel)
    get_state_channels_map s = do
      scs ← channels_from_json (values (channels_in (service.get channels s)))
      ok (index_onto scs [])

    -- `getStateChannel`
    unfoldable pub get_state_channel : Address → S → Result StateChannel
    get_state_channel multisig_address s =
        elim (channel_in (service.get (channel multisig_address) s)) [
          | none ↦ err no_state_channel
          | some json ↦ channel_from_json json
        ]

    -- `hasStateChannel`
    unfoldable pub has_state_channel : Address → S → Bool
    has_state_channel multisig_address s = elim (service.get (channel multisig_address) s) [
      | none ↦ false
      | some _ ↦ true
    ]

    -- `getMultisigAddressFromAppInstance`
    unfoldable pub get_multisig_address_from_app_instance : Hash → S → Result Address
    get_multisig_address_from_app_instance app_instance_id s = do
      scs ← get_state_channels_map s
      find_app app_instance_id (values scs)

    -- `saveStateChannel`
    unfoldable pub save_state_channel : StateChannel → S → S
    save_state_channel sc s =
        service.set (channel sc.multisig_address) (channel_value (channel_to_json sc)) s

    -- `getChannelFromAppInstanceID`
    unfoldable pub get_channel_from_app_instance_id : Hash → S → Result StateChannel
    get_channel_from_app_instance_id app_instance_id s = do
      multisig_address ← get_multisig_address_from_app_instance app_instance_id s
      get_state_channel multisig_address s

    -- `saveAppInstanceState`
    unfoldable pub save_app_instance_state : Hash → AppState → S → Result S
    save_app_instance_state app_instance_id new_state s = do
      sc ← get_channel_from_app_instance_id app_instance_id s
      updated ← set_state app_instance_id new_state sc
      ok (save_state_channel updated s)

    -- `getProposedAppInstances`
    unfoldable pub get_proposed_app_instances : S → Result (List AppInstanceProposal)
    get_proposed_app_instances s = do
      scs ← get_state_channels_map s
      ok (proposals_onto (values scs) [])

    -- `getAppInstanceProposal`; the address that is found is never empty.
    unfoldable pub get_app_instance_proposal : Hash → S → Result AppInstanceProposal
    get_app_instance_proposal app_instance_id s = do
      multisig_address ← get_multisig_address_from_app_instance app_instance_id s
      sc ← get_state_channel multisig_address s
      or_throw (lookup app_instance_id sc.proposed_app_instances) no_proposal_for_app

    -- `getAppInstance`
    unfoldable pub get_stored_app_instance : Hash → S → Result AppInstance
    get_stored_app_instance app_instance_id s = do
      sc ← get_channel_from_app_instance_id app_instance_id s
      get_app_instance app_instance_id sc

    -- `getWithdrawalCommitment`, whose missing value is handed on.
    unfoldable pub get_withdrawal_commitment : Address → S → Option Value
    get_withdrawal_commitment multisig_address s = service.get (withdrawal multisig_address) s

    -- `storeWithdrawalCommitment`
    unfoldable pub store_withdrawal_commitment : Address → MinimalTransaction → S → S
    store_withdrawal_commitment multisig_address c s =
        service.set (withdrawal multisig_address) (transaction_value c) s

    -- `setCommitment`
    unfoldable pub set_commitment : Protocol → List Hash → MinimalTransaction → S → S
    set_commitment protocol args c s =
        service.set (commitment (service.hash_commitment c)) (commitment_value protocol args c) s

    -- `getOrCreateStateChannelBetweenVirtualAppParticipants`
    unfoldable pub get_or_create_between_virtual_app_participants :
        Address → Xpub → Xpub → S → Result (StateChannel × S)
    get_or_create_between_virtual_app_participants multisig_address initiator responder s =
        elim (get_state_channel multisig_address s) [
          | ok sc ↦ ok (sc, s)
          | err e ↦ elim e [
            | no_state_channel ↦ do
              sc ← create_empty_channel multisig_address (initiator ∷ responder ∷ [])
              ok (sc, save_state_channel sc s)
            | other ↦ err other
          ]
        ]
