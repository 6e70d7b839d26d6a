-- ===== src/Protocol/Withdraw.antt =====
-- The withdraw protocol: modules/cf-core/src/protocol/withdraw.ts. The functions at its end are
-- here, its two sides are in Withdraw/Sides.
use indrav.Prelude.{false, none, some, [], ◌∷◌, ◌==◌, if◌then◌else◌}
use indrav.Prelude.Result.{Result, ok, type_error, ◌>>=◌, or_throw}
use indrav.Types.{AppState, single_asset_two_party_coin_transfer, Platform}
use indrav.AppInstance.{AppInstance, identity_hash, single_asset_interpreter_params}
use indrav.StateChannel.{
  StateChannel, num_proposed_apps, get_free_balance_addr_of, get_next_signing_keys,
  most_recently_installed_app_instance, multisig_owners, free_balance,
}
use indrav.StateChannel.Installs.{install_app}
use indrav.Commitment.{
  Commitment, NetworkContext, multisig_commitment, conditional_transaction, withdraw_eth_commitment,
  withdraw_erc20_commitment,
}
use indrav.Machine.{WithdrawProtocolParams}
use indrav.Protocol.Install.{max_uint256}
pub mod Sides
pub mod Agreed
pub mod Safety
pub mod Exchange
pub mod Balances
pub mod Collision

module _ ⦃p : Platform⦄ where
  -- The `refundAppInstance` of `addRefundAppToStateChannel`. The encoding of its state is a
  -- constant of the code, which only an encoding of its state would read.
  abbrev pub refund_app : WithdrawProtocolParams → NetworkContext → StateChannel → AppInstance
  refund_app params network sc = record {
    participants = get_next_signing_keys sc;
    default_timeout = 1008;
    app_interface = record {
      addr = network.coin_balance_refund_app;
      state_encoding = p.coin_balance_refund_encoding;
      action_encoding = none;
    };
    is_virtual_app = false;
    app_seq_no = num_proposed_apps sc;
    latest_state = AppState.refund (record {
      recipient = params.recipient;
      multisig = params.multisig_address;
      threshold = params.amount;
      token_address = none;
    });
    latest_version_number = 0;
    latest_timeout = 1008;
    outcome_type = single_asset_two_party_coin_transfer;
    two_party_internal = none;
    multi_asset_internal = none;
    single_asset_internal =
        some (record { limit = max_uint256; token_address = params.token_address });
  }

  -- `addRefundAppToStateChannel`
  unfoldable pub add_refund_app :
      WithdrawProtocolParams → NetworkContext → StateChannel → Result StateChannel
  add_refund_app params network sc = do
    initiator_address ← get_free_balance_addr_of params.initiator_xpub sc
    install_app (refund_app params network sc)
        ((params.token_address, (initiator_address, params.amount) ∷ []) ∷ []) sc

  -- `constructConditionalTransactionForRefundApp`
  unfoldable pub refund_conditional : NetworkContext → StateChannel → Result Commitment
  refund_conditional network sc = do
    app ← most_recently_installed_app_instance sc
    fb ← free_balance sc
    single_asset ← single_asset_interpreter_params app
    params ← or_throw single_asset type_error
    encoded ← p.encode_single_asset_params params
    ok (
        multisig_commitment (
          conditional_transaction network sc.multisig_address (multisig_owners sc)
            (identity_hash app) (identity_hash fb)
            network.single_asset_two_party_coin_transfer_interpreter encoded))

  -- `constructWithdrawalCommitment`
  unfoldable pub withdrawal_commitment : WithdrawProtocolParams → StateChannel → Commitment
  withdrawal_commitment params sc =
      if params.token_address == p.address_zero
      then multisig_commitment (
          withdraw_eth_commitment sc.multisig_address (multisig_owners sc) params.recipient
            params.amount)
      else multisig_commitment (
          withdraw_erc20_commitment sc.multisig_address (multisig_owners sc) params.recipient
            params.amount params.token_address)
