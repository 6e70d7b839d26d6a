-- ===== src/Protocol/Uninstall.antt =====
-- The uninstall protocol: modules/cf-core/src/protocol/uninstall.ts.
use indrav.Prelude.{none, some, [], ◌∷◌}
use indrav.Prelude.Dict.{Dict, insert}
use indrav.Prelude.Result
use indrav.Prelude.Result.{Result}
use indrav.Types.{Platform}
use indrav.FreeBalance.{xkey_kth_address}
use indrav.StateChannel.{StateChannel, get_app_instance, free_balance}
use indrav.StateChannel.Installs.{uninstall_app}
use indrav.Outcome.{Chain, compute_token_indexed_free_balance_increments}
use indrav.Commitment.{
  Ethereum, state_commitment, get_signed_transaction, assert_is_valid_signature,
}
use indrav.Machine.{
  Protocol, UninstallProtocolParams, uninstall_params, Context, Run, return, ◌>>=◌, ◌>>◌, lift,
  sign, send, send_and_wait, write, persist,
}
use indrav.Protocol.{channel_of, with_signature, opening, answer, given}
pub mod Safety
pub mod Exchange

module _ ⦃p : Platform⦄ ⦃eth : Ethereum⦄ ⦃chain : Chain⦄ where
  -- `computeStateTransition`
  unfoldable pub uninstall_transition :
      UninstallProtocolParams → Dict StateChannel → Result StateChannel
  uninstall_transition params channels =
      Result.◌>>=◌ (channel_of params.multisig_address channels) λ state_channel.
        Result.◌>>=◌ (get_app_instance params.app_identity_hash state_channel) λ app.
          Result.◌>>=◌ (compute_token_indexed_free_balance_increments app 0)
            λ increments. uninstall_app params.app_identity_hash increments state_channel

  unfoldable pub uninstall_initiating : Context UninstallProtocolParams → Run (Dict StateChannel)
  uninstall_initiating context = do
    let params = context.params
    post ← lift (uninstall_transition params context.state_channels_map)
    fb ← lift (free_balance post)
    commitment ← lift (state_commitment context.network fb)
    signature ← sign commitment none
    reply ← send_and_wait (
        opening context.process_id Protocol.uninstall (uninstall_params params)
          params.responder_xpub signature)
    lift (
        assert_is_valid_signature (xkey_kth_address params.responder_xpub 0) commitment
          reply.custom_data.signature)
    responder_signature ← lift (given reply.custom_data.signature)
    final ← lift (get_signed_transaction commitment (signature ∷ responder_signature ∷ []))
    write Protocol.uninstall final params.app_identity_hash
    persist (post ∷ [])
    return (insert post.multisig_address post context.state_channels_map)

  unfoldable pub uninstall_responding : Context UninstallProtocolParams → Run (Dict StateChannel)
  uninstall_responding context = do
    let params = context.params
    post ← lift (uninstall_transition params context.state_channels_map)
    fb ← lift (free_balance post)
    commitment ← lift (state_commitment context.network fb)
    lift (
        assert_is_valid_signature (xkey_kth_address params.initiator_xpub 0) commitment
          context.custom_data.signature)
    responder_signature ← sign commitment none
    initiator_signature ← lift (given context.custom_data.signature)
    final ←
        lift (get_signed_transaction commitment (responder_signature ∷ initiator_signature ∷ []))
    write Protocol.uninstall final params.app_identity_hash
    persist (post ∷ [])
    send (
        answer context.process_id Protocol.uninstall params.initiator_xpub
          (with_signature responder_signature))
    return (insert post.multisig_address post context.state_channels_map)
