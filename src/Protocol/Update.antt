-- ===== src/Protocol/Update.antt =====
-- The update protocol: modules/cf-core/src/protocol/update.ts.
use indrav.Prelude.{some, [], ◌∷◌}
use indrav.Prelude.Dict.{Dict, insert}
use indrav.Types.{Platform}
use indrav.FreeBalance.{xkey_kth_address}
use indrav.StateChannel.{StateChannel, get_app_instance}
use indrav.StateChannel.Operations.{set_state}
use indrav.Commitment.{Ethereum, state_commitment, assert_is_valid_signature}
use indrav.Machine.{
  Protocol, UpdateProtocolParams, update_params, Context, Run, return, ◌>>=◌, ◌>>◌, lift, sign,
  send, send_and_wait, persist,
}
use indrav.Protocol.{channel_of, with_signature, opening, answer}
pub mod Safety
pub mod Exchange

module _ ⦃p : Platform⦄ ⦃eth : Ethereum⦄ where
  unfoldable pub update_initiating : Context UpdateProtocolParams → Run (Dict StateChannel)
  update_initiating context = do
    let params = context.params
    pre ← lift (channel_of params.multisig_address context.state_channels_map)
    post ← lift (set_state params.app_identity_hash params.new_state pre)
    app ← lift (get_app_instance params.app_identity_hash post)
    commitment ← lift (state_commitment context.network app)
    initiator_signature ← sign commitment (some app.app_seq_no)
    reply ← send_and_wait (
        opening context.process_id Protocol.update (update_params params) params.responder_xpub
          initiator_signature)
    lift (
        assert_is_valid_signature (xkey_kth_address params.responder_xpub app.app_seq_no) commitment
          reply.custom_data.signature)
    persist (post ∷ [])
    return (insert post.multisig_address post context.state_channels_map)

  unfoldable pub update_responding : Context UpdateProtocolParams → Run (Dict StateChannel)
  update_responding context = do
    let params = context.params
    pre ← lift (channel_of params.multisig_address context.state_channels_map)
    post ← lift (set_state params.app_identity_hash params.new_state pre)
    app ← lift (get_app_instance params.app_identity_hash post)
    commitment ← lift (state_commitment context.network app)
    lift (
        assert_is_valid_signature (xkey_kth_address params.initiator_xpub app.app_seq_no) commitment
          context.custom_data.signature)
    responder_signature ← sign commitment (some app.app_seq_no)
    persist (post ∷ [])
    send (
        answer context.process_id Protocol.update params.initiator_xpub
          (with_signature responder_signature))
    return (insert post.multisig_address post context.state_channels_map)
