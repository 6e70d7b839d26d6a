-- ===== src/Protocol/UninstallVirtual/Intermediary.antt =====
-- The intermediary of `UNINSTALL_VIRTUAL_APP_PROTOCOL`:
-- modules/cf-core/src/protocol/uninstall-virtual-app.ts, up to the initiator's second message, and
-- from there on.
use indrav.Prelude.{none, some, [], ◌∷◌}
use indrav.Prelude.Dict.{Dict}
use indrav.Types.{Platform}
use indrav.FreeBalance.{xkey_kth_address}
use indrav.StateChannel.{StateChannel, free_balance}
use indrav.Outcome.{Chain}
use indrav.Commitment.{Ethereum, state_commitment, assert_is_valid_signature}
use indrav.Machine.{
  Protocol, UninstallVirtualAppProtocolParams, uninstall_virtual_app_params, no_data, Context, Run,
  return, ◌>>=◌, ◌>>◌, lift, sign, send, send_and_wait, persist, ProtocolMessage,
}
use indrav.Protocol.{with_signature, answer, forwarding, stored}
use indrav.Protocol.UninstallVirtual.{pass_through_commitment}
use indrav.Protocol.UninstallVirtual.Objects.{
  IntermediaryObjects, uninstall_objects_for_intermediary,
}

module _ ⦃p : Platform⦄ ⦃eth : Ethereum⦄ ⦃chain : Chain⦄ where
  -- From the initiator's signature on the free balance on.
  unfoldable pub uninstall_virtual_intermediary_balances :
      Context UninstallVirtualAppProtocolParams
      → IntermediaryObjects
      → ProtocolMessage
      → Run (Dict StateChannel)
  uninstall_virtual_intermediary_balances context o m5 = do
    let params = context.params
    let initiator_address = xkey_kth_address params.initiator_xpub 0
    let responder_address = xkey_kth_address params.responder_xpub 0
    initiating_fb ← lift (free_balance o.with_initiating)
    initiating_disactivation ← lift (state_commitment context.network initiating_fb)
    lift (
        assert_is_valid_signature initiator_address initiating_disactivation
          m5.custom_data.signature)
    my_initiating_signature ← sign initiating_disactivation none
    responding_fb ← lift (free_balance o.with_responding)
    responding_disactivation ← lift (state_commitment context.network responding_fb)
    my_responding_signature ← sign responding_disactivation none
    m7 ← send_and_wait (
        answer context.process_id Protocol.uninstall_virtual_app params.responder_xpub
          (with_signature my_responding_signature))
    lift (
        assert_is_valid_signature responder_address responding_disactivation
          m7.custom_data.signature)
    persist (o.with_initiating ∷ o.with_all ∷ o.with_responding ∷ [])
    send (
        answer context.process_id Protocol.uninstall_virtual_app params.initiator_xpub
          (with_signature my_initiating_signature))
    return (stored o.with_responding (stored o.with_all (stored o.with_initiating o.channels)))

  unfoldable pub uninstall_virtual_intermediary :
      Context UninstallVirtualAppProtocolParams → Run (Dict StateChannel)
  uninstall_virtual_intermediary context = do
    let params = context.params
    let initiator_address = xkey_kth_address params.initiator_xpub 0
    let responder_address = xkey_kth_address params.responder_xpub 0
    o ← lift (uninstall_objects_for_intermediary context.state_channels_map params context.network)
    pass_state ← lift (pass_through_commitment context.network o.pass_through)
    lift (assert_is_valid_signature initiator_address pass_state context.custom_data.signature)
    my_pass_signature ← sign pass_state none
    m3 ← send_and_wait (
        forwarding context.process_id Protocol.uninstall_virtual_app
          (uninstall_virtual_app_params params) params.responder_xpub
          (record no_data {
            signature = context.custom_data.signature;
            signature2 = some my_pass_signature;
          }))
    lift (assert_is_valid_signature responder_address pass_state m3.custom_data.signature)
    m5 ← send_and_wait (
        answer context.process_id Protocol.uninstall_virtual_app params.initiator_xpub
          (record no_data {
            signature = m3.custom_data.signature;
            signature2 = some my_pass_signature;
          }))
    uninstall_virtual_intermediary_balances context o m5
