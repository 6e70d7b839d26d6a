-- ===== src/Protocol/UninstallVirtual/Objects.antt =====
-- The channels and the pass-through app that each side of a virtual app uninstallation computes:
-- the functions `getUpdatedStateChannelAndAppInstanceObjectsFor…` of
-- modules/cf-core/src/protocol/uninstall-virtual-app.ts.
use indrav.Prelude.{true, false, [], ◌∷◌, ◌==◌, if◌then◌else◌}
use indrav.Prelude.Dict.{Dict}
use indrav.Prelude.Result.{
  Result, ok, type_error, app_does_not_exist, unmatched_outcome, ◌>>=◌, ◌>>◌, or_throw, guard,
}
use indrav.Types.{Platform, CoinTransferMap, Hash, Address}
use indrav.AppInstance.{AppInstance, identity_hash}
use indrav.FreeBalance.{xkey_kth_address}
use indrav.StateChannel.{StateChannel, get_app_instance, get_agreement_from_virtual_app}
use indrav.StateChannel.Operations.{remove_app_instance}
use indrav.StateChannel.Installs.{remove_agreement}
use indrav.Outcome.{Chain, compute_token_indexed_free_balance_increments}
use indrav.Commitment.{NetworkContext}
use indrav.Machine.{UninstallVirtualAppProtocolParams}
use indrav.Protocol.UninstallVirtual.{
  get_state_channel_from_map_with_owners, pass_through_state, lock_outcome, has_expired,
  increments_of, two_amounts,
}

-- The three channels without what was installed in them, the pass-through app with the outcome
-- locked, and the map after the searches.
pub record UserObjects : Type 0 where
  pub with_all : StateChannel
  pub with_intermediary : StateChannel
  pub with_user : StateChannel
  pub pass_through : AppInstance
  pub channels : Dict StateChannel

pub record IntermediaryObjects : Type 0 where
  pub with_all : StateChannel
  pub with_initiating : StateChannel
  pub with_responding : StateChannel
  pub pass_through : AppInstance
  pub channels : Dict StateChannel

module _ ⦃p : Platform⦄ where
  -- The agreement taken out of the channel of the initiator and the intermediary: the initiator
  -- has its own increment, the intermediary that of the responder.
  abbrev pub remove_initiator_agreement :
      UninstallVirtualAppProtocolParams
      → Hash
      → CoinTransferMap
      → Address
      → StateChannel
      → Result StateChannel
  remove_initiator_agreement params virtual_hash increments =
      let initiator_address = xkey_kth_address params.initiator_xpub 0 in
      let intermediary_address = xkey_kth_address params.intermediary_xpub 0 in
      let responder_address = xkey_kth_address params.responder_xpub 0 in
      remove_agreement virtual_hash (
        two_amounts intermediary_address responder_address initiator_address initiator_address
          increments)

  -- The agreement taken out of the channel of the responder and the intermediary: the responder
  -- has its own increment, the intermediary that of the initiator.
  abbrev pub remove_responder_agreement :
      UninstallVirtualAppProtocolParams
      → Hash
      → CoinTransferMap
      → Address
      → StateChannel
      → Result StateChannel
  remove_responder_agreement params virtual_hash increments =
      let initiator_address = xkey_kth_address params.initiator_xpub 0 in
      let intermediary_address = xkey_kth_address params.intermediary_xpub 0 in
      let responder_address = xkey_kth_address params.responder_xpub 0 in
      remove_agreement virtual_hash (
        two_amounts intermediary_address initiator_address responder_address responder_address
          increments)

  module _ ⦃chain : Chain⦄ where
    unfoldable pub uninstall_objects_for_initiating :
        Dict StateChannel → UninstallVirtualAppProtocolParams → NetworkContext → Result UserObjects
    uninstall_objects_for_initiating channels params network = do
      (found_all, channels1) ←
          get_state_channel_from_map_with_owners channels
            (params.initiator_xpub ∷ params.responder_xpub ∷ params.intermediary_xpub ∷ []) network
            true
      (found_intermediary, channels2) ←
          get_state_channel_from_map_with_owners channels1
            (params.initiator_xpub ∷ params.intermediary_xpub ∷ []) network false
      (found_user, channels3) ←
          get_state_channel_from_map_with_owners channels2
            (params.initiator_xpub ∷ params.responder_xpub ∷ []) network true
      with_intermediary ← or_throw found_intermediary type_error
      agreement ← get_agreement_from_virtual_app params.target_app_identity_hash with_intermediary
      with_all ← or_throw found_all type_error
      pass_through ← get_app_instance agreement.time_locked_pass_through_identity_hash with_all
      with_responding ← or_throw found_user type_error
      state ← pass_through_state app_does_not_exist pass_through
      virtual_app ← get_app_instance state.target_app_identity_hash with_responding
      expired ← has_expired state
      token_increments ←
          compute_token_indexed_free_balance_increments
            (if expired then pass_through else virtual_app) 0
      new_with_all ← remove_app_instance (identity_hash pass_through) with_all
      increments ← increments_of agreement.token_address token_increments
      new_with_intermediary ←
          remove_initiator_agreement params (identity_hash virtual_app) increments
            agreement.token_address with_intermediary
      new_with_responding ← remove_app_instance (identity_hash virtual_app) with_responding
      locked ← lock_outcome params.target_outcome state pass_through
      ok (record {
        with_all = new_with_all;
        with_intermediary = new_with_intermediary;
        with_user = new_with_responding;
        pass_through = locked;
        channels = channels3;
      })

    unfoldable pub uninstall_objects_for_responding :
        Dict StateChannel → UninstallVirtualAppProtocolParams → NetworkContext → Result UserObjects
    uninstall_objects_for_responding channels params network = do
      (found_all, channels1) ←
          get_state_channel_from_map_with_owners channels
            (params.initiator_xpub ∷ params.responder_xpub ∷ params.intermediary_xpub ∷ []) network
            true
      (found_intermediary, channels2) ←
          get_state_channel_from_map_with_owners channels1
            (params.responder_xpub ∷ params.intermediary_xpub ∷ []) network false
      (found_user, channels3) ←
          get_state_channel_from_map_with_owners channels2
            (params.initiator_xpub ∷ params.responder_xpub ∷ []) network true
      with_intermediary ← or_throw found_intermediary type_error
      agreement ← get_agreement_from_virtual_app params.target_app_identity_hash with_intermediary
      with_all ← or_throw found_all type_error
      pass_through ← get_app_instance agreement.time_locked_pass_through_identity_hash with_all
      with_initiating ← or_throw found_user type_error
      state ← pass_through_state app_does_not_exist pass_through
      virtual_app ← get_app_instance state.target_app_identity_hash with_initiating
      -- a query of its own, apart from those of the increments
      expected_outcome ← chain.compute_outcome 11 virtual_app
      guard (expected_outcome == params.target_outcome) unmatched_outcome
      expired ← has_expired state
      token_increments ←
          compute_token_indexed_free_balance_increments
            (if expired then pass_through else virtual_app) 0
      new_with_all ← remove_app_instance (identity_hash pass_through) with_all
      increments ← increments_of agreement.token_address token_increments
      new_with_intermediary ←
          remove_responder_agreement params (identity_hash virtual_app) increments
            agreement.token_address with_intermediary
      new_with_initiating ← remove_app_instance (identity_hash virtual_app) with_initiating
      locked ← lock_outcome expected_outcome state pass_through
      ok (record {
        with_all = new_with_all;
        with_intermediary = new_with_intermediary;
        with_user = new_with_initiating;
        pass_through = locked;
        channels = channels3;
      })

    unfoldable pub uninstall_objects_for_intermediary :
        Dict StateChannel
        → UninstallVirtualAppProtocolParams
        → NetworkContext
        → Result IntermediaryObjects
    uninstall_objects_for_intermediary channels params network = do
      (found_all, channels1) ←
          get_state_channel_from_map_with_owners channels
            (params.initiator_xpub ∷ params.responder_xpub ∷ params.intermediary_xpub ∷ []) network
            true
      (found_initiating, channels2) ←
          get_state_channel_from_map_with_owners channels1
            (params.initiator_xpub ∷ params.intermediary_xpub ∷ []) network false
      (found_responding, channels3) ←
          get_state_channel_from_map_with_owners channels2
            (params.intermediary_xpub ∷ params.responder_xpub ∷ []) network false
      with_initiating ← or_throw found_initiating type_error
      agreement ← get_agreement_from_virtual_app params.target_app_identity_hash with_initiating
      with_all ← or_throw found_all type_error
      pass_through ← get_app_instance agreement.time_locked_pass_through_identity_hash with_all
      state ← pass_through_state type_error pass_through
      expired ← has_expired state
      token_increments ←
          compute_token_indexed_free_balance_increments pass_through
            (if expired then state.default_outcome else params.target_outcome)
      new_with_all ← remove_app_instance (identity_hash pass_through) with_all
      increments ← increments_of agreement.token_address token_increments
      new_with_initiating ←
          remove_initiator_agreement params state.target_app_identity_hash increments
            agreement.token_address with_initiating
      with_responding ← or_throw found_responding type_error
      new_with_responding ←
          remove_responder_agreement params state.target_app_identity_hash increments
            agreement.token_address with_responding
      locked ← lock_outcome params.target_outcome state pass_through
      ok (record {
        with_all = new_with_all;
        with_initiating = new_with_initiating;
        with_responding = new_with_responding;
        pass_through = locked;
        channels = channels3;
      })
