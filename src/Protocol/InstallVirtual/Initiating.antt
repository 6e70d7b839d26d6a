-- ===== src/Protocol/InstallVirtual/Initiating.antt =====
-- The initiating side of `INSTALL_VIRTUAL_APP_PROTOCOL`:
-- modules/cf-core/src/protocol/install-virtual-app.ts, up to the activation of the agreement in the
-- free balance, and from there on.
use indrav.Prelude.{none, some, [], ◌∷◌}
use indrav.Prelude.Dict.{Dict}
use indrav.Types.{Address, Platform}
use indrav.AppInstance.{identity_hash}
use indrav.StateChannel.{StateChannel, get_multisig_owner_addr_of, free_balance}
use indrav.Outcome.{Chain}
use indrav.Commitment.{
  Signature, Ethereum, state_commitment, get_signed_transaction, assert_is_valid_signature,
}
use indrav.Machine.{
  Protocol, InstallVirtualAppProtocolParams, install_virtual_app_params, no_data, Context, Run,
  return, ◌>>=◌, ◌>>◌, lift, sign, send_and_wait, write, persist,
}
use indrav.Protocol.{with_three_signatures, answer, stored, given}
use indrav.Protocol.InstallVirtual.{
  agreement_conditional, default_timeout_commitment, default_outcome_of,
}
use indrav.Protocol.InstallVirtual.Objects.{UserObjects, objects_for_initiating}

module _ ⦃p : Platform⦄ ⦃eth : Ethereum⦄ where
  -- From the state commitments of the two apps on.
  unfoldable pub install_virtual_initiating_apps :
      Context InstallVirtualAppProtocolParams
      → UserObjects
      → Address
      → Address
      → Signature
      → Run (Dict StateChannel)
  install_virtual_initiating_apps context o intermediary_address responder_address
        my_activation_signature =
      do
        let params = context.params
        virtual_state ← lift (default_timeout_commitment context.network o.virtual_app)
        pass_state ← lift (default_timeout_commitment context.network o.pass_through)
        my_pass_signature ← sign pass_state none
        my_virtual_signature ← sign virtual_state none
        m8 ← send_and_wait (
            answer context.process_id Protocol.install_virtual_app params.intermediary_xpub (
              with_three_signatures my_activation_signature my_pass_signature my_virtual_signature))
        lift (assert_is_valid_signature intermediary_address pass_state m8.custom_data.signature)
        lift (assert_is_valid_signature responder_address pass_state m8.custom_data.signature2)
        lift (assert_is_valid_signature responder_address virtual_state m8.custom_data.signature3)
        intermediary_pass ← lift (given m8.custom_data.signature)
        responder_pass ← lift (given m8.custom_data.signature2)
        signed_pass ← lift (
            get_signed_transaction pass_state
              (my_pass_signature ∷ responder_pass ∷ intermediary_pass ∷ []))
        write Protocol.update signed_pass (identity_hash o.pass_through)
        responder_virtual ← lift (given m8.custom_data.signature3)
        signed_virtual ←
            lift
              (get_signed_transaction virtual_state (my_virtual_signature ∷ responder_virtual ∷ []))
        write Protocol.update signed_virtual (identity_hash o.virtual_app)
        persist (o.with_intermediary ∷ o.with_user ∷ o.with_all ∷ [])
        return (stored o.with_all (stored o.with_user (stored o.with_intermediary o.channels)))

  unfoldable pub install_virtual_initiating :
      ⦃chain : Chain⦄ → Context InstallVirtualAppProtocolParams → Run (Dict StateChannel)
  install_virtual_initiating context = do
    let params = context.params
    o ← lift (objects_for_initiating params context.state_channels_map context.network)
    intermediary_address ←
        lift (get_multisig_owner_addr_of params.intermediary_xpub o.with_intermediary)
    responder_address ← lift (get_multisig_owner_addr_of params.responder_xpub o.with_user)
    agreement ← lift (
        agreement_conditional context.network o.with_intermediary o.pass_through
          (identity_hash o.virtual_app))
    my_agreement_signature ← sign agreement none
    default_outcome ← lift (default_outcome_of o.pass_through)
    m4 ← send_and_wait (record {
      process_id = context.process_id;
      protocol = Protocol.install_virtual_app;
      params = some (install_virtual_app_params params);
      to_xpub = params.intermediary_xpub;
      seq = some 1;
      custom_data = record no_data {
        signature = some my_agreement_signature;
        signature2 = some (identity_hash o.virtual_app);
        signature3 = some default_outcome;
      };
    })
    lift (assert_is_valid_signature intermediary_address agreement m4.custom_data.signature)
    counter_agreement ← lift (given m4.custom_data.signature)
    signed_agreement ←
        lift (get_signed_transaction agreement (my_agreement_signature ∷ counter_agreement ∷ []))
    write Protocol.install_virtual_app signed_agreement (identity_hash o.virtual_app)
    fb ← lift (free_balance o.with_intermediary)
    activation ← lift (state_commitment context.network fb)
    lift (assert_is_valid_signature intermediary_address activation m4.custom_data.signature2)
    my_activation_signature ← sign activation none
    counter_activation ← lift (given m4.custom_data.signature2)
    signed_activation ←
        lift (get_signed_transaction activation (my_activation_signature ∷ counter_activation ∷ []))
    write Protocol.update signed_activation (identity_hash fb)
    install_virtual_initiating_apps context o intermediary_address responder_address
        my_activation_signature
