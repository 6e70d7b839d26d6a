-- ===== src/Protocol/Propose.antt =====
-- The propose protocol: modules/cf-core/src/protocol/propose.ts. A timeout is small enough that
-- `toNumber` returns it.
use indrav.Prelude.{ℕ, ◌+◌, Option, none, some, [], ◌∷◌, ◌==◌, if◌then◌else◌}
use indrav.Prelude.Int.{pos}
use indrav.Prelude.Dict.{Dict, lookup, insert}
use indrav.Prelude.Result
use indrav.Prelude.Result.{Result, ok}
use indrav.Types.{Address, Hash, AppIdentity, AppInstanceProposal, Platform}
use indrav.AppInstance.{app_identity_to_hash}
use indrav.FreeBalance.{xkey_kth_address}
use indrav.StateChannel.{
  StateChannel, create_empty_channel, get_signing_keys_for, num_proposed_apps,
}
use indrav.StateChannel.Operations.{add_proposal}
use indrav.Commitment.{
  Ethereum, Commitment, NetworkContext, set_state_commitment, assert_is_valid_signature,
}
use indrav.Machine.{
  Protocol, ProposeInstallProtocolParams, propose_params, Context, Run, return, ◌>>=◌, ◌>>◌, lift,
  sign, send, send_and_wait, persist,
}
use indrav.Protocol.{with_signature, opening, answer}
pub mod Agreement

module _ ⦃p : Platform⦄ ⦃eth : Ethereum⦄ where
  -- `address || CONVENTION_FOR_ETH_TOKEN_ADDRESS`
  abbrev token_or_eth : Option Address → Address
  token_or_eth none = p.address_zero
  token_or_eth (some a) = if a == 0 then p.address_zero else a

  -- The channel of the map, or an empty one.
  unfoldable pub pre_propose_channel :
      ProposeInstallProtocolParams → Dict StateChannel → Result StateChannel
  pre_propose_channel params channels = elim (lookup params.multisig_address channels) [
    | some sc ↦ ok sc
    | none ↦
        create_empty_channel params.multisig_address
          (params.initiator_xpub ∷ params.responder_xpub ∷ [])
  ]

  -- The identity of the proposed app.
  abbrev pub proposed_identity : ProposeInstallProtocolParams → StateChannel → AppIdentity
  proposed_identity params pre = record {
    participants = get_signing_keys_for (num_proposed_apps pre + 1) pre;
    app_definition = params.app_definition;
    default_timeout = params.timeout;
    channel_nonce = num_proposed_apps pre + 1;
  }

  -- The proposal as the initiator stores it.
  unfoldable pub initiator_proposal :
      ProposeInstallProtocolParams → StateChannel → AppInstanceProposal
  initiator_proposal params pre = record {
    identity_hash = app_identity_to_hash (proposed_identity params pre);
    app_definition = params.app_definition;
    state_encoding = params.state_encoding;
    action_encoding = params.action_encoding;
    initiator_deposit = p.to_hex_string params.initiator_deposit;
    initiator_deposit_token_address = token_or_eth params.initiator_deposit_token_address;
    responder_deposit = p.to_hex_string params.responder_deposit;
    responder_deposit_token_address = token_or_eth params.responder_deposit_token_address;
    timeout = p.to_hex_string (pos params.timeout);
    initial_state = params.initial_state;
    app_seq_no = num_proposed_apps pre + 1;
    proposed_by_identifier = params.initiator_xpub;
    proposed_to_identifier = params.responder_xpub;
    outcome_type = params.outcome_type;
  }

  -- The proposal as the responder stores it, with the deposits exchanged.
  unfoldable pub responder_proposal :
      ProposeInstallProtocolParams → StateChannel → AppInstanceProposal
  responder_proposal params pre = record {
    identity_hash = app_identity_to_hash (proposed_identity params pre);
    app_definition = params.app_definition;
    state_encoding = params.state_encoding;
    action_encoding = params.action_encoding;
    initiator_deposit = p.to_hex_string params.responder_deposit;
    initiator_deposit_token_address = token_or_eth params.responder_deposit_token_address;
    responder_deposit = p.to_hex_string params.initiator_deposit;
    responder_deposit_token_address = token_or_eth params.initiator_deposit_token_address;
    timeout = p.to_hex_string (pos params.timeout);
    initial_state = params.initial_state;
    app_seq_no = num_proposed_apps pre + 1;
    proposed_by_identifier = params.initiator_xpub;
    proposed_to_identifier = params.responder_xpub;
    outcome_type = params.outcome_type;
  }

  -- The commitment to the proposed app's initial state.
  unfoldable pub initial_commitment :
      NetworkContext → ProposeInstallProtocolParams → StateChannel → Result Commitment
  initial_commitment network params pre =
      Result.◌>>=◌ (p.encode_state params.state_encoding params.initial_state) (λ bytes. ok (
        set_state_commitment network (proposed_identity params pre) (p.keccak256 bytes) 0
          params.timeout))

  unfoldable pub propose_initiating : Context ProposeInstallProtocolParams → Run (Dict StateChannel)
  propose_initiating context = do
    let params = context.params
    pre ← lift (pre_propose_channel params context.state_channels_map)
    post ← lift (add_proposal (initiator_proposal params pre) pre)
    persist (post ∷ [])
    commitment ← lift (initial_commitment context.network params pre)
    signature ← sign commitment none
    reply ← send_and_wait (
        opening context.process_id Protocol.propose (propose_params params) params.responder_xpub
          signature)
    lift (
        assert_is_valid_signature (xkey_kth_address params.responder_xpub 0) commitment
          reply.custom_data.signature)
    return (insert post.multisig_address post context.state_channels_map)

  unfoldable pub propose_responding : Context ProposeInstallProtocolParams → Run (Dict StateChannel)
  propose_responding context = do
    let params = context.params
    pre ← lift (pre_propose_channel params context.state_channels_map)
    commitment ← lift (initial_commitment context.network params pre)
    lift (
        assert_is_valid_signature (xkey_kth_address params.initiator_xpub 0) commitment
          context.custom_data.signature)
    post ← lift (add_proposal (responder_proposal params pre) pre)
    persist (post ∷ [])
    signature ← sign commitment none
    send (
        answer context.process_id Protocol.propose params.initiator_xpub (with_signature signature))
    return (insert post.multisig_address post context.state_channels_map)
