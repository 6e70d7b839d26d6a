-- ===== src/Protocol/TakeAction.antt =====
-- The protocol of an action taken on an app: modules/cf-core/src/protocol/take-action.ts, and
-- `computeStateTransition` of modules/cf-core/src/models/app-instance.ts.
use indrav.Prelude.{some, [], ◌∷◌}
use indrav.Prelude.Dict.{Dict, insert}
use indrav.Types.{Platform}
use indrav.Outcome.{Chain, compute_state_transition}
use indrav.FreeBalance.{xkey_kth_address}
use indrav.StateChannel.{StateChannel, get_app_instance}
use indrav.StateChannel.Operations.{set_state}
use indrav.Commitment.{Ethereum, state_commitment, assert_is_valid_signature}
use indrav.Machine.{
  Protocol, TakeActionProtocolParams, take_action_params, Context, Run, return, ◌>>=◌, ◌>>◌, lift,
  sign, send, send_and_wait, persist,
}
use indrav.Protocol.{channel_of, with_signature, opening, answer}
pub mod Safety
pub mod Exchange

module _ ⦃p : Platform⦄ ⦃eth : Ethereum⦄ ⦃chain : Chain⦄ where
  unfoldable pub take_action_initiating : Context TakeActionProtocolParams → Run (Dict StateChannel)
  take_action_initiating context = do
    let params = context.params
    pre ← lift (channel_of params.multisig_address context.state_channels_map)
    old_app ← lift (get_app_instance params.app_identity_hash pre)
    new_state ← lift (compute_state_transition params.action old_app)
    post ← lift (set_state params.app_identity_hash new_state pre)
    app ← lift (get_app_instance params.app_identity_hash post)
    commitment ← lift (state_commitment context.network app)
    initiator_signature ← sign commitment (some app.app_seq_no)
    reply ← send_and_wait (
        opening context.process_id Protocol.take_action (take_action_params params)
          params.responder_xpub initiator_signature)
    lift (
        assert_is_valid_signature (xkey_kth_address params.responder_xpub app.app_seq_no) commitment
          reply.custom_data.signature)
    persist (post ∷ [])
    return (insert post.multisig_address post context.state_channels_map)

  unfoldable pub take_action_responding : Context TakeActionProtocolParams → Run (Dict StateChannel)
  take_action_responding context = do
    let params = context.params
    pre ← lift (channel_of params.multisig_address context.state_channels_map)
    old_app ← lift (get_app_instance params.app_identity_hash pre)
    new_state ← lift (compute_state_transition params.action old_app)
    post ← lift (set_state params.app_identity_hash new_state pre)
    app ← lift (get_app_instance params.app_identity_hash post)
    commitment ← lift (state_commitment context.network app)
    lift (
        assert_is_valid_signature (xkey_kth_address params.initiator_xpub app.app_seq_no) commitment
          context.custom_data.signature)
    responder_signature ← sign commitment (some app.app_seq_no)
    persist (post ∷ [])
    send (
        answer context.process_id Protocol.take_action params.initiator_xpub
          (with_signature responder_signature))
    return (insert post.multisig_address post context.state_channels_map)
