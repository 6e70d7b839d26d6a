-- ===== src/Protocol/Setup.antt =====
-- The setup protocol: modules/cf-core/src/protocol/setup.ts.
use indrav.Prelude.{none, [], ◌∷◌}
use indrav.Prelude.Dict.{Dict, insert}
use indrav.Prelude.Result.{Result}
use indrav.Types.{Platform}
use indrav.AppInstance.{AppInstance, identity}
use indrav.FreeBalance.{xkey_kth_address}
use indrav.StateChannel.{StateChannel, setup_channel, multisig_owners, free_balance}
use indrav.Commitment.{
  Ethereum, Commitment, NetworkContext, multisig_commitment, setup_commitment,
  assert_is_valid_signature,
}
use indrav.Machine.{
  Protocol, SetupProtocolParams, setup_params, Context, Run, return, ◌>>=◌, ◌>>◌, lift, sign, send,
  send_and_wait, persist,
}
use indrav.Protocol.{with_signature, opening, answer}
pub mod Safety
pub mod Exchange

module _ ⦃p : Platform⦄ ⦃eth : Ethereum⦄ where
  -- The channel that both sides set up from the parameters.
  abbrev pub new_channel : Context SetupProtocolParams → Result StateChannel
  new_channel context =
      setup_channel context.network.identity_app context.params.multisig_address
        (context.params.initiator_xpub ∷ context.params.responder_xpub ∷ []) none

  abbrev pub setup_commitment_of : NetworkContext → StateChannel → AppInstance → Commitment
  setup_commitment_of network sc fb =
      multisig_commitment
        (setup_commitment network sc.multisig_address (multisig_owners sc) (identity fb))

  unfoldable pub setup_initiating : Context SetupProtocolParams → Run (Dict StateChannel)
  setup_initiating context = do
    let params = context.params
    state_channel ← lift (new_channel context)
    fb ← lift (free_balance state_channel)
    let commitment = setup_commitment_of context.network state_channel fb
    initiator_signature ← sign commitment none
    reply ← send_and_wait (
        opening context.process_id Protocol.setup (setup_params params) params.responder_xpub
          initiator_signature)
    lift (
        assert_is_valid_signature (xkey_kth_address params.responder_xpub 0) commitment
          reply.custom_data.signature)
    persist (state_channel ∷ [])
    return (insert state_channel.multisig_address state_channel context.state_channels_map)

  unfoldable pub setup_responding : Context SetupProtocolParams → Run (Dict StateChannel)
  setup_responding context = do
    let params = context.params
    state_channel ← lift (new_channel context)
    fb ← lift (free_balance state_channel)
    let commitment = setup_commitment_of context.network state_channel fb
    lift (
        assert_is_valid_signature (xkey_kth_address params.initiator_xpub 0) commitment
          context.custom_data.signature)
    responder_signature ← sign commitment none
    persist (state_channel ∷ [])
    send (
        answer context.process_id Protocol.setup params.initiator_xpub
          (with_signature responder_signature))
    return (insert state_channel.multisig_address state_channel context.state_channels_map)
