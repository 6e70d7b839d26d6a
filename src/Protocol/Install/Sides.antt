-- ===== src/Protocol/Install/Sides.antt =====
-- The two sides of the install protocol: `INSTALL_PROTOCOL` of
-- modules/cf-core/src/protocol/install.ts.
use indrav.Prelude.{none, some, true, [], ◌∷◌}
use indrav.Prelude.Dict.{Dict, insert}
use indrav.Types.{Platform}
use indrav.AppInstance.{identity_hash}
use indrav.StateChannel.{
  StateChannel, get_free_balance_addr_of, most_recently_installed_app_instance, free_balance,
}
use indrav.Commitment.{
  Ethereum, state_commitment, get_signed_transaction, assert_is_valid_signature,
}
use indrav.Machine.{
  Protocol, InstallProtocolParams, install_params, no_data, Context, Run, return, ◌>>=◌, ◌>>◌, lift,
  sign, send, send_and_wait, write, persist,
}
use indrav.Protocol.{channel_of, with_signature, with_two_signatures, opening, answer, given}
use indrav.Protocol.Install.{install_transition, conditional_transaction_data}

module _ ⦃p : Platform⦄ ⦃eth : Ethereum⦄ where
  unfoldable pub install_initiating : Context InstallProtocolParams → Run (Dict StateChannel)
  install_initiating context = do
    let params = context.params
    pre ← lift (channel_of params.multisig_address context.state_channels_map)
    post ← lift (install_transition params pre)
    new_app ← lift (most_recently_installed_app_instance post)
    conditional ← lift (conditional_transaction_data context.network post)
    my_signature ← sign conditional none
    reply ← send_and_wait (
        opening context.process_id Protocol.install (install_params params) params.responder_xpub
          my_signature)
    responder_address ← lift (get_free_balance_addr_of params.responder_xpub pre)
    lift (assert_is_valid_signature responder_address conditional reply.custom_data.signature)
    counter_signature ← lift (given reply.custom_data.signature)
    signed_conditional ←
        lift (get_signed_transaction conditional (my_signature ∷ counter_signature ∷ []))
    write Protocol.install signed_conditional (identity_hash new_app)
    fb ← lift (free_balance post)
    update_data ← lift (state_commitment context.network fb)
    lift (assert_is_valid_signature responder_address update_data reply.custom_data.signature2)
    my_update_signature ← sign update_data none
    counter_update_signature ← lift (given reply.custom_data.signature2)
    signed_update ←
        lift
          (get_signed_transaction update_data (my_update_signature ∷ counter_update_signature ∷ []))
    write Protocol.update signed_update (identity_hash fb)
    persist (post ∷ [])
    done ← send_and_wait (
        answer context.process_id Protocol.install params.responder_xpub
          (with_signature my_update_signature))
    return (insert post.multisig_address post context.state_channels_map)

  unfoldable pub install_responding : Context InstallProtocolParams → Run (Dict StateChannel)
  install_responding context = do
    let params = context.params
    pre ← lift (channel_of params.multisig_address context.state_channels_map)
    post ← lift (install_transition params pre)
    new_app ← lift (most_recently_installed_app_instance post)
    conditional ← lift (conditional_transaction_data context.network post)
    initiator_address ← lift (get_free_balance_addr_of params.initiator_xpub pre)
    lift (assert_is_valid_signature initiator_address conditional context.custom_data.signature)
    my_signature ← sign conditional none
    counter_signature ← lift (given context.custom_data.signature)
    signed_conditional ←
        lift (get_signed_transaction conditional (my_signature ∷ counter_signature ∷ []))
    write Protocol.install signed_conditional (identity_hash new_app)
    fb ← lift (free_balance post)
    update_data ← lift (state_commitment context.network fb)
    my_update_signature ← sign update_data none
    reply ← send_and_wait (
        answer context.process_id Protocol.install params.initiator_xpub
          (with_two_signatures my_signature my_update_signature))
    lift (assert_is_valid_signature initiator_address update_data reply.custom_data.signature)
    counter_update_signature ← lift (given reply.custom_data.signature)
    signed_update ←
        lift
          (get_signed_transaction update_data (my_update_signature ∷ counter_update_signature ∷ []))
    write Protocol.update signed_update (identity_hash fb)
    persist (post ∷ [])
    send (
        answer context.process_id Protocol.install params.initiator_xpub
          (record no_data { data_persisted = some true }))
    return (insert post.multisig_address post context.state_channels_map)
