-- ===== src/Protocol/Withdraw/Sides.antt =====
-- The two sides of the withdraw protocol: `WITHDRAW_PROTOCOL` of
-- modules/cf-core/src/protocol/withdraw.ts, each in two parts: the one that installs the refund
-- app, and the one that signs the withdrawal and uninstalls the refund app.
use indrav.Prelude.{none, some, true, [], ◌∷◌}
use indrav.Prelude.Dict.{Dict, insert}
use indrav.Types.{Address, Hash, Platform}
use indrav.AppInstance.{identity_hash}
use indrav.StateChannel.{
  StateChannel, get_free_balance_addr_of, most_recently_installed_app_instance, free_balance,
}
use indrav.StateChannel.Installs.{uninstall_app}
use indrav.Commitment.{
  Signature, Ethereum, state_commitment, get_signed_transaction, assert_is_valid_signature,
}
use indrav.Machine.{
  Protocol, WithdrawProtocolParams, withdraw_params, no_data, Context, Run, return, ◌>>=◌, ◌>>◌,
  lift, sign, send, send_and_wait, write, persist, ProtocolMessage,
}
use indrav.Protocol.{channel_of, with_signature, with_two_signatures, opening, answer, given}
use indrav.Protocol.Withdraw.{add_refund_app, refund_conditional, withdrawal_commitment}

module _ ⦃p : Platform⦄ ⦃eth : Ethereum⦄ where
  -- The initiator from the withdrawal commitment on, with the refund app installed in `post` and
  -- its own signature on the free balance that has it.
  unfoldable pub withdraw_initiating_exit :
      Context WithdrawProtocolParams
      → Address
      → StateChannel
      → Hash
      → Signature
      → Run (Dict StateChannel)
  withdraw_initiating_exit context responder_address post refund_hash my_update_signature = do
    let params = context.params
    let withdrawal = withdrawal_commitment params post
    my_withdrawal_signature ← sign withdrawal none
    reply ← send_and_wait (
        answer context.process_id Protocol.withdraw params.responder_xpub
          (with_two_signatures my_update_signature my_withdrawal_signature))
    lift (assert_is_valid_signature responder_address withdrawal reply.custom_data.signature)
    final ← lift (uninstall_app refund_hash [] post)
    fb ← lift (free_balance final)
    uninstall ← lift (state_commitment context.network fb)
    lift (assert_is_valid_signature responder_address uninstall reply.custom_data.signature2)
    my_uninstall_signature ← sign uninstall none
    done ← send_and_wait (
        answer context.process_id Protocol.withdraw params.responder_xpub
          (with_signature my_uninstall_signature))
    counter_withdrawal ← lift (given reply.custom_data.signature)
    signed_withdrawal ←
        lift (get_signed_transaction withdrawal (my_withdrawal_signature ∷ counter_withdrawal ∷ []))
    write Protocol.withdraw signed_withdrawal params.multisig_address
    counter_uninstall ← lift (given reply.custom_data.signature2)
    signed_uninstall ←
        lift (get_signed_transaction uninstall (my_uninstall_signature ∷ counter_uninstall ∷ []))
    write Protocol.update signed_uninstall (identity_hash fb)
    persist (final ∷ [])
    return (
        insert final.multisig_address final
          (insert post.multisig_address post context.state_channels_map))

  unfoldable pub withdraw_initiating : Context WithdrawProtocolParams → Run (Dict StateChannel)
  withdraw_initiating context = do
    let params = context.params
    pre ← lift (channel_of params.multisig_address context.state_channels_map)
    responder_address ← lift (get_free_balance_addr_of params.responder_xpub pre)
    post ← lift (add_refund_app params context.network pre)
    refund ← lift (most_recently_installed_app_instance post)
    conditional ← lift (refund_conditional context.network post)
    my_signature ← sign conditional none
    reply ← send_and_wait (
        opening context.process_id Protocol.withdraw (withdraw_params params) params.responder_xpub
          my_signature)
    lift (assert_is_valid_signature responder_address conditional reply.custom_data.signature)
    counter_signature ← lift (given reply.custom_data.signature)
    signed_conditional ←
        lift (get_signed_transaction conditional (my_signature ∷ counter_signature ∷ []))
    write Protocol.install signed_conditional (identity_hash refund)
    fb ← lift (free_balance post)
    update ← lift (state_commitment context.network fb)
    lift (assert_is_valid_signature responder_address update reply.custom_data.signature2)
    my_update_signature ← sign update none
    counter_update ← lift (given reply.custom_data.signature2)
    signed_update ← lift (get_signed_transaction update (my_update_signature ∷ counter_update ∷ []))
    write Protocol.update signed_update (identity_hash fb)
    withdraw_initiating_exit context responder_address post (identity_hash refund)
        my_update_signature

  -- The responder from the initiator's second message on.
  unfoldable pub withdraw_responding_exit :
      Context WithdrawProtocolParams
      → Address
      → StateChannel
      → Hash
      → ProtocolMessage
      → Run (Dict StateChannel)
  withdraw_responding_exit context initiator_address post refund_hash reply = do
    let params = context.params
    let withdrawal = withdrawal_commitment params post
    lift (assert_is_valid_signature initiator_address withdrawal reply.custom_data.signature2)
    my_withdrawal_signature ← sign withdrawal none
    counter_withdrawal ← lift (given reply.custom_data.signature2)
    signed_withdrawal ←
        lift (get_signed_transaction withdrawal (my_withdrawal_signature ∷ counter_withdrawal ∷ []))
    write Protocol.withdraw signed_withdrawal params.multisig_address
    final ← lift (uninstall_app refund_hash [] post)
    fb ← lift (free_balance final)
    uninstall ← lift (state_commitment context.network fb)
    my_uninstall_signature ← sign uninstall none
    last ← send_and_wait (
        answer context.process_id Protocol.withdraw params.initiator_xpub
          (with_two_signatures my_withdrawal_signature my_uninstall_signature))
    lift (assert_is_valid_signature initiator_address uninstall last.custom_data.signature)
    counter_uninstall ← lift (given last.custom_data.signature)
    signed_uninstall ←
        lift (get_signed_transaction uninstall (my_uninstall_signature ∷ counter_uninstall ∷ []))
    write Protocol.update signed_uninstall (identity_hash fb)
    persist (final ∷ [])
    send (
        answer context.process_id Protocol.withdraw params.initiator_xpub
          (record no_data { data_persisted = some true }))
    return (
        insert final.multisig_address final
          (insert post.multisig_address post context.state_channels_map))

  unfoldable pub withdraw_responding : Context WithdrawProtocolParams → Run (Dict StateChannel)
  withdraw_responding context = do
    let params = context.params
    pre ← lift (channel_of params.multisig_address context.state_channels_map)
    initiator_address ← lift (get_free_balance_addr_of params.initiator_xpub pre)
    post ← lift (add_refund_app params context.network pre)
    refund ← lift (most_recently_installed_app_instance post)
    conditional ← lift (refund_conditional context.network post)
    lift (assert_is_valid_signature initiator_address conditional context.custom_data.signature)
    my_signature ← sign conditional none
    counter_signature ← lift (given context.custom_data.signature)
    signed_conditional ←
        lift (get_signed_transaction conditional (my_signature ∷ counter_signature ∷ []))
    write Protocol.install signed_conditional (identity_hash refund)
    fb ← lift (free_balance post)
    update ← lift (state_commitment context.network fb)
    my_update_signature ← sign update none
    reply ← send_and_wait (
        answer context.process_id Protocol.withdraw params.initiator_xpub
          (with_two_signatures my_signature my_update_signature))
    lift (assert_is_valid_signature initiator_address update reply.custom_data.signature)
    counter_update ← lift (given reply.custom_data.signature)
    signed_update ← lift (get_signed_transaction update (my_update_signature ∷ counter_update ∷ []))
    write Protocol.update signed_update (identity_hash fb)
    withdraw_responding_exit context initiator_address post (identity_hash refund) reply
