-- ===== src/Protocol/UninstallVirtual/Responding.antt =====
-- The responding side of `UNINSTALL_VIRTUAL_APP_PROTOCOL`:
-- modules/cf-core/src/protocol/uninstall-virtual-app.ts.
use indrav.Prelude.{none, [], ◌∷◌}
use indrav.Prelude.Dict.{Dict}
use indrav.Types.{Platform}
use indrav.FreeBalance.{xkey_kth_address}
use indrav.StateChannel.{StateChannel, free_balance}
use indrav.Outcome.{Chain}
use indrav.Commitment.{Ethereum, state_commitment, assert_is_valid_signature}
use indrav.Machine.{
  Protocol, UninstallVirtualAppProtocolParams, Context, Run, return, ◌>>=◌, ◌>>◌, lift, sign, send,
  send_and_wait, persist,
}
use indrav.Protocol.{with_signature, answer, stored}
use indrav.Protocol.UninstallVirtual.{pass_through_commitment}
use indrav.Protocol.UninstallVirtual.Objects.{uninstall_objects_for_responding}

module _ ⦃p : Platform⦄ ⦃eth : Ethereum⦄ ⦃chain : Chain⦄ where
  unfoldable pub uninstall_virtual_responding :
      Context UninstallVirtualAppProtocolParams → Run (Dict StateChannel)
  uninstall_virtual_responding context = do
    let params = context.params
    let initiator_address = xkey_kth_address params.initiator_xpub 0
    let intermediary_address = xkey_kth_address params.intermediary_xpub 0
    o ← lift (uninstall_objects_for_responding context.state_channels_map params context.network)
    pass_state ← lift (pass_through_commitment context.network o.pass_through)
    lift (assert_is_valid_signature initiator_address pass_state context.custom_data.signature)
    lift (assert_is_valid_signature intermediary_address pass_state context.custom_data.signature2)
    my_pass_signature ← sign pass_state none
    m6 ← send_and_wait (
        answer context.process_id Protocol.uninstall_virtual_app params.intermediary_xpub
          (with_signature my_pass_signature))
    fb ← lift (free_balance o.with_intermediary)
    disactivation ← lift (state_commitment context.network fb)
    lift (assert_is_valid_signature intermediary_address disactivation m6.custom_data.signature)
    my_disactivation_signature ← sign disactivation none
    persist (o.with_user ∷ o.with_all ∷ o.with_intermediary ∷ [])
    send (
        answer context.process_id Protocol.uninstall_virtual_app params.intermediary_xpub
          (with_signature my_disactivation_signature))
    return (stored o.with_user (stored o.with_all (stored o.with_intermediary o.channels)))
