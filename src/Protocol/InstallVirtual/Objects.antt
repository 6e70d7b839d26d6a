-- ===== src/Protocol/InstallVirtual/Objects.antt =====
-- The channels and apps that each side of a virtual app installation computes: the functions
-- `getUpdatedStateChannelAndVirtualAppObjectsFor…` of
-- modules/cf-core/src/protocol/install-virtual-app.ts.
use indrav.Prelude.{ℕ, true, false, [], ◌∷◌}
use indrav.Prelude.Dict.{Dict, lookup, insert}
use indrav.Prelude.Result.{
  Result, ok, no_channel_with_intermediary, no_channel_with_initiator, no_channel_with_responder,
  ◌>>=◌, or_throw,
}
use indrav.Types.{Hash, Platform}
use indrav.AppInstance.{AppInstance, identity_hash}
use indrav.FreeBalance.{xkey_kth_address}
use indrav.StateChannel.{StateChannel}
use indrav.StateChannel.Operations.{add_app_instance}
use indrav.StateChannel.Installs.{add_agreement}
use indrav.Outcome.{Chain}
use indrav.Commitment.{NetworkContext}
use indrav.Store.Owners.{get_multisig_address_with_counterparty_from_map}
use indrav.Machine.{InstallVirtualAppProtocolParams}
use indrav.Protocol.InstallVirtual.{
  virtual_app_instance, time_locked_pass_through_app, get_or_create_state_channel_with_users,
  intermediary_agreement,
}

-- What a user computes: the channel of all three parties, the one with the other user and the one
-- with the intermediary, with what is installed in them, the two apps, and the map after the
-- searches.
pub record UserObjects : Type 0 where
  pub with_all : StateChannel
  pub with_user : StateChannel
  pub with_intermediary : StateChannel
  pub virtual_app : AppInstance
  pub pass_through : AppInstance
  pub channels : Dict StateChannel

pub record IntermediaryObjects : Type 0 where
  pub with_all : StateChannel
  pub with_initiating : StateChannel
  pub with_responding : StateChannel
  pub pass_through : AppInstance
  pub channels : Dict StateChannel

module _ ⦃p : Platform⦄ where
  -- The agreement put into the channel of the initiator and the intermediary.
  abbrev pub add_initiator_agreement :
      InstallVirtualAppProtocolParams → AppInstance → Hash → StateChannel → Result StateChannel
  add_initiator_agreement params pass_through virtual_hash =
      let initiator_address = xkey_kth_address params.initiator_xpub 0 in
      let intermediary_address = xkey_kth_address params.intermediary_xpub 0 in
      add_agreement virtual_hash (intermediary_agreement params pass_through initiator_address)
        (insert intermediary_address params.responder_balance_decrement
          ((initiator_address, params.initiator_balance_decrement) ∷ []))
        params.token_address

  -- The agreement put into the channel of the responder and the intermediary.
  abbrev pub add_responder_agreement :
      InstallVirtualAppProtocolParams → AppInstance → Hash → StateChannel → Result StateChannel
  add_responder_agreement params pass_through virtual_hash =
      let responder_address = xkey_kth_address params.responder_xpub 0 in
      let intermediary_address = xkey_kth_address params.intermediary_xpub 0 in
      add_agreement virtual_hash (intermediary_agreement params pass_through responder_address)
        (insert responder_address params.responder_balance_decrement
          ((intermediary_address, params.initiator_balance_decrement) ∷ []))
        params.token_address

  unfoldable pub objects_for_intermediary :
      InstallVirtualAppProtocolParams
      → Dict StateChannel
      → Hash
      → ℕ
      → NetworkContext
      → Result IntermediaryObjects
  objects_for_intermediary params channels virtual_hash default_outcome network = do
    (with_all, channels1) ←
        get_or_create_state_channel_with_users channels
          (params.initiator_xpub ∷ params.responder_xpub ∷ params.intermediary_xpub ∷ []) network
          true
    pass_through ← time_locked_pass_through_app with_all virtual_hash default_outcome network params
    (initiating_address, channels2) ←
        get_multisig_address_with_counterparty_from_map channels1
          (params.initiator_xpub ∷ params.intermediary_xpub ∷ []) network.proxy_factory
          network.minimum_viable_multisig false
    with_initiating ← or_throw (lookup initiating_address channels2) no_channel_with_initiator
    (responding_address, channels3) ←
        get_multisig_address_with_counterparty_from_map channels2
          (params.responder_xpub ∷ params.intermediary_xpub ∷ []) network.proxy_factory
          network.minimum_viable_multisig false
    with_responding ← or_throw (lookup responding_address channels3) no_channel_with_responder
    new_with_all ← add_app_instance pass_through with_all
    new_with_initiating ← add_initiator_agreement params pass_through virtual_hash with_initiating
    new_with_responding ← add_responder_agreement params pass_through virtual_hash with_responding
    ok (record {
      with_all = new_with_all;
      with_initiating = new_with_initiating;
      with_responding = new_with_responding;
      pass_through = pass_through;
      channels = channels3;
    })

  module _ ⦃chain : Chain⦄ where
    unfoldable pub objects_for_initiating :
        InstallVirtualAppProtocolParams → Dict StateChannel → NetworkContext → Result UserObjects
    objects_for_initiating params channels network = do
      (with_all, channels1) ←
          get_or_create_state_channel_with_users channels
            (params.initiator_xpub ∷ params.responder_xpub ∷ params.intermediary_xpub ∷ []) network
            true
      (with_responding, channels2) ←
          get_or_create_state_channel_with_users channels1
            (params.initiator_xpub ∷ params.responder_xpub ∷ []) network true
      virtual_app ← virtual_app_instance params
      default_outcome ← chain.compute_outcome 0 virtual_app
      pass_through ←
          time_locked_pass_through_app with_all (identity_hash virtual_app) default_outcome network
            params
      (intermediary_multisig, channels3) ←
          get_multisig_address_with_counterparty_from_map channels2
            (params.initiator_xpub ∷ params.intermediary_xpub ∷ []) network.proxy_factory
            network.minimum_viable_multisig false
      with_intermediary ←
          or_throw (lookup intermediary_multisig channels3) no_channel_with_intermediary
      new_with_intermediary ←
          add_initiator_agreement params pass_through (identity_hash virtual_app) with_intermediary
      new_with_all ← add_app_instance pass_through with_all
      new_with_responding ← add_app_instance virtual_app with_responding
      ok (record {
        with_all = new_with_all;
        with_user = new_with_responding;
        with_intermediary = new_with_intermediary;
        virtual_app = virtual_app;
        pass_through = pass_through;
        channels = channels3;
      })

    unfoldable pub objects_for_responding :
        InstallVirtualAppProtocolParams → Dict StateChannel → NetworkContext → Result UserObjects
    objects_for_responding params channels network = do
      (with_all, channels1) ←
          get_or_create_state_channel_with_users channels
            (params.initiator_xpub ∷ params.responder_xpub ∷ params.intermediary_xpub ∷ []) network
            true
      (with_initiating, channels2) ←
          get_or_create_state_channel_with_users channels1
            (params.initiator_xpub ∷ params.responder_xpub ∷ []) network true
      virtual_app ← virtual_app_instance params
      default_outcome ← chain.compute_outcome 0 virtual_app
      pass_through ←
          time_locked_pass_through_app with_all (identity_hash virtual_app) default_outcome network
            params
      (intermediary_multisig, channels3) ←
          get_multisig_address_with_counterparty_from_map channels2
            (params.responder_xpub ∷ params.intermediary_xpub ∷ []) network.proxy_factory
            network.minimum_viable_multisig false
      with_intermediary ←
          or_throw (lookup intermediary_multisig channels3) no_channel_with_intermediary
      new_with_all ← add_app_instance pass_through with_all
      new_with_initiating ← add_app_instance virtual_app with_initiating
      new_with_intermediary ←
          add_responder_agreement params pass_through (identity_hash virtual_app) with_intermediary
      ok (record {
        with_all = new_with_all;
        with_user = new_with_initiating;
        with_intermediary = new_with_intermediary;
        virtual_app = virtual_app;
        pass_through = pass_through;
        channels = channels3;
      })
