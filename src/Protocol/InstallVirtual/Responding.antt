-- ===== src/Protocol/InstallVirtual/Responding.antt =====
-- The responding side of `INSTALL_VIRTUAL_APP_PROTOCOL`:
-- modules/cf-core/src/protocol/install-virtual-app.ts, up to the answer to the intermediary, and
-- from the next message on.
use indrav.Prelude.{none, [], ◌∷◌}
use indrav.Prelude.Dict.{Dict}
use indrav.Types.{Address, Platform}
use indrav.AppInstance.{AppInstance, identity_hash}
use indrav.StateChannel.{StateChannel, get_multisig_owner_addr_of, free_balance}
use indrav.Outcome.{Chain}
use indrav.Commitment.{
  Signature, Ethereum, Commitment, state_commitment, get_signed_transaction,
  assert_is_valid_signature,
}
use indrav.Machine.{
  Protocol, InstallVirtualAppProtocolParams, Context, Run, return, ◌>>=◌, ◌>>◌, lift, sign, send,
  send_and_wait, write, persist, ProtocolMessage,
}
use indrav.Protocol.{with_two_signatures, answer, stored, given}
use indrav.Protocol.InstallVirtual.{agreement_conditional, default_timeout_commitment}
use indrav.Protocol.InstallVirtual.Objects.{UserObjects, objects_for_responding}

module _ ⦃p : Platform⦄ ⦃eth : Ethereum⦄ where
  -- From the message with the activation's signature on.
  unfoldable pub install_virtual_responding_apps :
      Context InstallVirtualAppProtocolParams
      → UserObjects
      → Address
      → Address
      → AppInstance
      → Commitment
      → Signature
      → ProtocolMessage
      → Run (Dict StateChannel)
  install_virtual_responding_apps context o intermediary_address initiator_address fb activation
        my_activation_signature m6 =
      do
        let params = context.params
        lift (assert_is_valid_signature intermediary_address activation m6.custom_data.signature)
        intermediary_activation ← lift (given m6.custom_data.signature)
        signed_activation ← lift (
            get_signed_transaction activation
              (intermediary_activation ∷ my_activation_signature ∷ []))
        write Protocol.update signed_activation (identity_hash fb)
        virtual_state ← lift (default_timeout_commitment context.network o.virtual_app)
        pass_state ← lift (default_timeout_commitment context.network o.pass_through)
        lift (assert_is_valid_signature intermediary_address pass_state m6.custom_data.signature2)
        lift (assert_is_valid_signature initiator_address pass_state m6.custom_data.signature3)
        lift (assert_is_valid_signature initiator_address virtual_state m6.custom_data.signature4)
        my_pass_signature ← sign pass_state none
        my_virtual_signature ← sign virtual_state none
        intermediary_pass ← lift (given m6.custom_data.signature2)
        initiator_pass ← lift (given m6.custom_data.signature3)
        signed_pass ← lift (
            get_signed_transaction pass_state
              (initiator_pass ∷ my_pass_signature ∷ intermediary_pass ∷ []))
        write Protocol.update signed_pass (identity_hash o.pass_through)
        initiator_virtual ← lift (given m6.custom_data.signature4)
        signed_virtual ←
            lift
              (get_signed_transaction virtual_state (initiator_virtual ∷ my_virtual_signature ∷ []))
        write Protocol.update signed_virtual (identity_hash o.virtual_app)
        send (
            answer context.process_id Protocol.install_virtual_app params.intermediary_xpub
              (with_two_signatures my_pass_signature my_virtual_signature))
        persist (o.with_intermediary ∷ o.with_all ∷ o.with_user ∷ [])
        return (stored o.with_all (stored o.with_user (stored o.with_intermediary o.channels)))

  unfoldable pub install_virtual_responding :
      ⦃chain : Chain⦄ → Context InstallVirtualAppProtocolParams → Run (Dict StateChannel)
  install_virtual_responding context = do
    let params = context.params
    o ← lift (objects_for_responding params context.state_channels_map context.network)
    intermediary_address ←
        lift (get_multisig_owner_addr_of params.intermediary_xpub o.with_intermediary)
    initiator_address ← lift (get_multisig_owner_addr_of params.initiator_xpub o.with_user)
    agreement ← lift (
        agreement_conditional context.network o.with_intermediary o.pass_through
          (identity_hash o.virtual_app))
    lift (assert_is_valid_signature intermediary_address agreement context.custom_data.signature)
    my_agreement_signature ← sign agreement none
    counter_agreement ← lift (given context.custom_data.signature)
    signed_agreement ←
        lift (get_signed_transaction agreement (my_agreement_signature ∷ counter_agreement ∷ []))
    write Protocol.install_virtual_app signed_agreement (identity_hash o.virtual_app)
    fb ← lift (free_balance o.with_intermediary)
    activation ← lift (state_commitment context.network fb)
    my_activation_signature ← sign activation none
    m6 ← send_and_wait (
        answer context.process_id Protocol.install_virtual_app params.intermediary_xpub
          (with_two_signatures my_agreement_signature my_activation_signature))
    install_virtual_responding_apps context o intermediary_address initiator_address fb activation
        my_activation_signature m6
