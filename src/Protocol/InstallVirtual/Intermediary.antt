-- ===== src/Protocol/InstallVirtual/Intermediary.antt =====
-- The intermediary of `INSTALL_VIRTUAL_APP_PROTOCOL`:
-- modules/cf-core/src/protocol/install-virtual-app.ts, up to its answer to the initiator, and from
-- the initiator's next message on.
use indrav.Prelude.{none, some, [], ◌∷◌}
use indrav.Prelude.Dict.{Dict}
use indrav.Types.{Address, Platform}
use indrav.AppInstance.{AppInstance, identity_hash}
use indrav.StateChannel.{StateChannel, get_multisig_owner_addr_of, free_balance}
use indrav.Commitment.{
  Signature, Ethereum, Commitment, state_commitment, get_signed_transaction,
  assert_is_valid_signature,
}
use indrav.Machine.{
  Protocol, InstallVirtualAppProtocolParams, install_virtual_app_params, no_data, Context, Run,
  return, ◌>>=◌, ◌>>◌, lift, sign, send, send_and_wait, write, persist, ProtocolMessage,
}
use indrav.Protocol.{with_signature, with_two_signatures, answer, forwarding, stored, given}
use indrav.Protocol.InstallVirtual.{agreement_conditional, default_timeout_commitment, text_of}
use indrav.Protocol.InstallVirtual.Objects.{IntermediaryObjects, objects_for_intermediary}

module _ ⦃p : Platform⦄ ⦃eth : Ethereum⦄ where
  -- The end, once the responder has answered with its signatures on the apps' states.
  unfoldable pub install_virtual_intermediary_end :
      Context InstallVirtualAppProtocolParams
      → IntermediaryObjects
      → Address
      → Commitment
      → Signature
      → Signature
      → ProtocolMessage
      → Run (Dict StateChannel)
  install_virtual_intermediary_end context o responder_address pass_state initiator_pass
        my_pass_signature m7 =
      do
        let params = context.params
        lift (assert_is_valid_signature responder_address pass_state m7.custom_data.signature)
        responder_pass ← lift (given m7.custom_data.signature)
        signed_pass ← lift (
            get_signed_transaction pass_state
              (initiator_pass ∷ responder_pass ∷ my_pass_signature ∷ []))
        write Protocol.update signed_pass (identity_hash o.pass_through)
        send (
            answer context.process_id Protocol.install_virtual_app params.initiator_xpub
              (record no_data {
                signature = some my_pass_signature;
                signature2 = m7.custom_data.signature;
                signature3 = m7.custom_data.signature2;
              }))
        persist (o.with_all ∷ o.with_responding ∷ o.with_initiating ∷ [])
        return (stored o.with_responding (stored o.with_initiating (stored o.with_all o.channels)))

  -- From the initiator's second message on. What is signed and written under the first `update` is
  -- the free balance with the responder, with the signatures on the one with the initiator.
  unfoldable pub install_virtual_intermediary_apps :
      Context InstallVirtualAppProtocolParams
      → IntermediaryObjects
      → Address
      → Address
      → AppInstance
      → Commitment
      → Commitment
      → Signature
      → Signature
      → ProtocolMessage
      → Run (Dict StateChannel)
  install_virtual_intermediary_apps context o initiator_address responder_address responding_fb
        initiating_activation responding_activation my_initiating_activation responder_activation
        m5 =
      do
        let params = context.params
        lift (
            assert_is_valid_signature initiator_address initiating_activation
              m5.custom_data.signature)
        initiator_activation ← lift (given m5.custom_data.signature)
        wrongly_signed_activation ← lift (
            get_signed_transaction responding_activation
              (initiator_activation ∷ my_initiating_activation ∷ []))
        write Protocol.update wrongly_signed_activation (identity_hash responding_fb)
        pass_state ← lift (default_timeout_commitment context.network o.pass_through)
        lift (assert_is_valid_signature initiator_address pass_state m5.custom_data.signature2)
        my_responding_activation ← sign responding_activation none
        signed_activation ← lift (
            get_signed_transaction responding_activation
              (responder_activation ∷ my_responding_activation ∷ []))
        write Protocol.update signed_activation (identity_hash responding_fb)
        my_pass_signature ← sign pass_state none
        m7 ← send_and_wait (
            answer context.process_id Protocol.install_virtual_app params.responder_xpub
              (record no_data {
                signature = some my_responding_activation;
                signature2 = some my_pass_signature;
                signature3 = m5.custom_data.signature2;
                signature4 = m5.custom_data.signature3;
              }))
        initiator_pass ← lift (given m5.custom_data.signature2)
        install_virtual_intermediary_end context o responder_address pass_state initiator_pass
            my_pass_signature m7

  unfoldable pub install_virtual_intermediary :
      Context InstallVirtualAppProtocolParams → Run (Dict StateChannel)
  install_virtual_intermediary context = do
    let params = context.params
    let virtual_hash = text_of context.custom_data.signature2
    o ← lift (
        objects_for_intermediary params context.state_channels_map virtual_hash
          (text_of context.custom_data.signature3) context.network)
    initiator_address ← lift (get_multisig_owner_addr_of params.initiator_xpub o.with_initiating)
    responder_address ← lift (get_multisig_owner_addr_of params.responder_xpub o.with_responding)
    initiating_agreement ←
        lift (agreement_conditional context.network o.with_initiating o.pass_through virtual_hash)
    lift (
        assert_is_valid_signature initiator_address initiating_agreement
          context.custom_data.signature)
    responding_agreement ←
        lift (agreement_conditional context.network o.with_responding o.pass_through virtual_hash)
    my_responding_agreement ← sign responding_agreement none
    m3 ← send_and_wait (
        forwarding context.process_id Protocol.install_virtual_app
          (install_virtual_app_params params) params.responder_xpub
          (with_signature my_responding_agreement))
    lift (assert_is_valid_signature responder_address responding_agreement m3.custom_data.signature)
    responding_fb ← lift (free_balance o.with_responding)
    responding_activation ← lift (state_commitment context.network responding_fb)
    lift (
        assert_is_valid_signature responder_address responding_activation m3.custom_data.signature2)
    initiating_fb ← lift (free_balance o.with_initiating)
    initiating_activation ← lift (state_commitment context.network initiating_fb)
    my_initiating_activation ← sign initiating_activation none
    my_initiating_agreement ← sign initiating_agreement none
    initiator_agreement ← lift (given context.custom_data.signature)
    signed_agreement ← lift (
        get_signed_transaction initiating_agreement
          (initiator_agreement ∷ my_initiating_agreement ∷ []))
    write Protocol.install_virtual_app signed_agreement (identity_hash o.pass_through)
    responder_activation ← lift (given m3.custom_data.signature2)
    m5 ← send_and_wait (
        answer context.process_id Protocol.install_virtual_app params.initiator_xpub
          (with_two_signatures my_initiating_agreement my_initiating_activation))
    install_virtual_intermediary_apps context o initiator_address responder_address responding_fb
        initiating_activation responding_activation my_initiating_activation responder_activation m5
