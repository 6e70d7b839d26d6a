-- ===== src/Protocol/UninstallVirtual/Initiating.antt =====
-- The initiating side of `UNINSTALL_VIRTUAL_APP_PROTOCOL`:
-- modules/cf-core/src/protocol/uninstall-virtual-app.ts.
use indrav.Prelude.{none, [], ◌∷◌}
use indrav.Prelude.Dict.{Dict}
use indrav.Types.{Platform}
use indrav.FreeBalance.{xkey_kth_address}
use indrav.StateChannel.{StateChannel, free_balance}
use indrav.Outcome.{Chain}
use indrav.Commitment.{Ethereum, state_commitment, assert_is_valid_signature}
use indrav.Machine.{
  Protocol, UninstallVirtualAppProtocolParams, uninstall_virtual_app_params, Context, Run, return,
  ◌>>=◌, ◌>>◌, lift, sign, send_and_wait, persist,
}
use indrav.Protocol.{with_signature, opening, answer, stored}
use indrav.Protocol.UninstallVirtual.{pass_through_commitment}
use indrav.Protocol.UninstallVirtual.Objects.{uninstall_objects_for_initiating}

module _ ⦃p : Platform⦄ ⦃eth : Ethereum⦄ ⦃chain : Chain⦄ where
  unfoldable pub uninstall_virtual_initiating :
      Context UninstallVirtualAppProtocolParams → Run (Dict StateChannel)
  uninstall_virtual_initiating context = do
    let params = context.params
    let intermediary_address = xkey_kth_address params.intermediary_xpub 0
    let responder_address = xkey_kth_address params.responder_xpub 0
    o ← lift (uninstall_objects_for_initiating context.state_channels_map params context.network)
    pass_state ← lift (pass_through_commitment context.network o.pass_through)
    my_pass_signature ← sign pass_state none
    m4 ← send_and_wait (
        opening context.process_id Protocol.uninstall_virtual_app
          (uninstall_virtual_app_params params) params.intermediary_xpub my_pass_signature)
    lift (assert_is_valid_signature responder_address pass_state m4.custom_data.signature)
    lift (assert_is_valid_signature intermediary_address pass_state m4.custom_data.signature2)
    fb ← lift (free_balance o.with_intermediary)
    disactivation ← lift (state_commitment context.network fb)
    my_disactivation_signature ← sign disactivation none
    m8 ← send_and_wait (
        answer context.process_id Protocol.uninstall_virtual_app params.intermediary_xpub
          (with_signature my_disactivation_signature))
    lift (assert_is_valid_signature intermediary_address disactivation m8.custom_data.signature)
    persist (o.with_intermediary ∷ o.with_all ∷ o.with_user ∷ [])
    return (stored o.with_user (stored o.with_all (stored o.with_intermediary o.channels)))
