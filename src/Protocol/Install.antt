-- ===== src/Protocol/Install.antt =====
-- The install protocol: modules/cf-core/src/protocol/install.ts. What it computes is here, its two
-- sides are in Install/Sides.
use indrav.Prelude.{
  ℕ, ◌-◌, ◌^◌, Bool, false, not, Option, none, some, List, [], ◌∷◌, ◌==◌, if◌then◌else◌,
}
use indrav.Prelude.Int.{ℤ, pos, ◌+ℤ◌}
use indrav.Prelude.Dict.{Dict, insert}
use indrav.Prelude.Result.{Result, ok, err, different_assets, ◌>>=◌}
use indrav.Types.{
  Address, TokenIndexedCoinTransferMap, OutcomeType, two_party_fixed_outcome,
  multi_asset_multi_party_coin_transfer, single_asset_two_party_coin_transfer,
  TwoPartyFixedOutcomeInterpreterParams, MultiAssetMultiPartyCoinTransferInterpreterParams,
  SingleAssetTwoPartyCoinTransferInterpreterParams, Platform,
}
use indrav.AppInstance.{AppInstance, identity_hash, encoded_interpreter_params}
use indrav.StateChannel.{
  StateChannel, get_free_balance_addr_of, most_recently_installed_app_instance, multisig_owners,
  free_balance,
}
use indrav.StateChannel.Installs.{install_app}
use indrav.Commitment.{Commitment, NetworkContext, multisig_commitment, conditional_transaction}
use indrav.Machine.{InstallProtocolParams}
pub mod Sides
pub mod Safety
pub mod Exchange
pub mod Transition

-- `MaxUint256`
abbrev pub max_uint256 : ℤ
max_uint256 = pos (2 ^ 256 - 1)

-- What `computeInterpreterParameters` returns: one of the three is set.
pub record InterpreterParams : Type 0 where
  pub two_party : Option TwoPartyFixedOutcomeInterpreterParams
  pub multi_asset : Option MultiAssetMultiPartyCoinTransferInterpreterParams
  pub single_asset : Option SingleAssetTwoPartyCoinTransferInterpreterParams

-- `computeInterpreterParameters`, on the parameters and the two free balance addresses.
unfoldable pub compute_interpreter_parameters :
    InstallProtocolParams → Address → Address → Result InterpreterParams
compute_interpreter_parameters params initiator_fb_address responder_fb_address =
    let same_token =
      params.initiator_deposit_token_address == params.responder_deposit_token_address in
    let total = params.initiator_balance_decrement +ℤ params.responder_balance_decrement in
    elim params.outcome_type [
      | two_party_fixed_outcome ↦
          if not same_token
          then err different_assets
          else ok (record {
            two_party = some (record {
              player_addrs = (initiator_fb_address, responder_fb_address);
              amount = total;
              token_address = params.initiator_deposit_token_address;
            });
            multi_asset = none;
            single_asset = none;
          })
      | multi_asset_multi_party_coin_transfer ↦ ok (record {
        two_party = none;
        multi_asset = some (
            if same_token
            then record {
              limit = total ∷ [];
              token_addresses = params.initiator_deposit_token_address ∷ [];
            }
            else record {
              limit = params.initiator_balance_decrement ∷ params.responder_balance_decrement ∷ [];
              token_addresses =
                  params.initiator_deposit_token_address ∷ params.responder_deposit_token_address
                  ∷ [];
            });
        single_asset = none;
      })
      | single_asset_two_party_coin_transfer ↦
          if not same_token
          then err different_assets
          else ok (record {
            two_party = none;
            multi_asset = none;
            single_asset = some (record {
              limit = if params.disable_limit then max_uint256 else total;
              token_address = params.initiator_deposit_token_address;
            });
          })
    ]

-- `tokenIndexedBalanceDecrement`
abbrev pub token_indexed_balance_decrement :
    InstallProtocolParams → Address → Address → TokenIndexedCoinTransferMap
token_indexed_balance_decrement params initiator_fb_address responder_fb_address =
    if not (params.initiator_deposit_token_address == params.responder_deposit_token_address)
    then (insert params.responder_deposit_token_address
        ((responder_fb_address, params.responder_balance_decrement) ∷ [])
        ((
          params.initiator_deposit_token_address,
          (initiator_fb_address, params.initiator_balance_decrement) ∷ [],
        )
          ∷ []))
    else ((
      params.initiator_deposit_token_address,
      insert responder_fb_address params.responder_balance_decrement
          ((initiator_fb_address, params.initiator_balance_decrement) ∷ []),
    )
        ∷ [])

-- The app that the parameters describe.
abbrev pub app_to_be_installed : InstallProtocolParams → InterpreterParams → AppInstance
app_to_be_installed params interpreter = record {
  participants = params.participants;
  default_timeout = params.default_timeout;
  app_interface = params.app_interface;
  is_virtual_app = false;
  app_seq_no = params.app_seq_no;
  latest_state = params.initial_state;
  latest_version_number = 0;
  latest_timeout = params.default_timeout;
  outcome_type = params.outcome_type;
  two_party_internal = interpreter.two_party;
  multi_asset_internal = interpreter.multi_asset;
  single_asset_internal = interpreter.single_asset;
}

-- `getInterpreterAddressFromOutcomeType`
unfoldable pub interpreter_address : OutcomeType → NetworkContext → Address
interpreter_address multi_asset_multi_party_coin_transfer network =
    network.multi_asset_multi_party_coin_transfer_interpreter
interpreter_address single_asset_two_party_coin_transfer network =
    network.single_asset_two_party_coin_transfer_interpreter
interpreter_address two_party_fixed_outcome network = network.two_party_fixed_outcome_interpreter

module _ ⦃p : Platform⦄ where
  -- `computeStateChannelTransition`
  unfoldable pub install_transition : InstallProtocolParams → StateChannel → Result StateChannel
  install_transition params sc = do
    initiator_fb_address ← get_free_balance_addr_of params.initiator_xpub sc
    responder_fb_address ← get_free_balance_addr_of params.responder_xpub sc
    interpreter ← compute_interpreter_parameters params initiator_fb_address responder_fb_address
    install_app (app_to_be_installed params interpreter)
        (token_indexed_balance_decrement params initiator_fb_address responder_fb_address) sc

  -- `constructConditionalTransactionData`
  unfoldable pub conditional_transaction_data : NetworkContext → StateChannel → Result Commitment
  conditional_transaction_data network sc = do
    app ← most_recently_installed_app_instance sc
    fb ← free_balance sc
    params ← encoded_interpreter_params app
    ok (
        multisig_commitment (
          conditional_transaction network sc.multisig_address (multisig_owners sc)
            (identity_hash app) (identity_hash fb) (interpreter_address app.outcome_type network)
            params))
