-- ===== src/Outcome.antt =====
-- What an app's outcome adds to the free balance:
-- modules/cf-core/src/protocol/utils/get-outcome-increments.ts.
use indrav.Prelude.{
  ℕ, zero, suc, ◌+◌, Bool, true, false, Option, none, some, List, [], ◌∷◌, ◌==◌, if◌then◌else◌,
}
use indrav.Prelude.Int.{ℤ, pos, ◌-ℤ◌, ltb_ℤ, half}
use indrav.Prelude.Dict.{insert}
use indrav.Prelude.Lists.{get_elem?}
use indrav.Prelude.Result.{Result, ok, err, type_error, no_deposit_found, ◌>>=◌, or_throw}
use indrav.Types.{
  Address, CoinTransfer, TokenIndexedCoinTransferMap, AppState, RefundState,
  two_party_fixed_outcome, multi_asset_multi_party_coin_transfer,
  single_asset_two_party_coin_transfer, TwoPartyFixedOutcomeInterpreterParams,
  MultiAssetMultiPartyCoinTransferInterpreterParams,
  SingleAssetTwoPartyCoinTransferInterpreterParams, Platform,
}
use indrav.CoinTransfers.{coin_transfers_to_map}
use indrav.AppInstance.{
  AppInstance, two_party_outcome_interpreter_params, multi_asset_interpreter_params,
  single_asset_interpreter_params, encoded_latest_state,
}
pub mod Splits
pub mod Refunds

-- The contracts that an app instance is queried through, and the ABI decoder of their answers. An
-- encoded answer is a text; the chain may have changed from one query to the next.
pub record Chain : Type 0 where
  -- `computeOutcomeWithCurrentState(provider)`, at its n-th call
  pub compute_outcome : ℕ → AppInstance → Result ℕ
  -- `provider.getBlockNumber()`
  pub block_number : Result ℤ
  -- `tuple(address to, uint256 amount)[2]`
  pub decode_two_transfers : ℕ → Result (CoinTransfer × CoinTransfer)
  -- `tuple(address to, uint256 amount)[][]`
  pub decode_transfer_lists : ℕ → Result (List (List CoinTransfer))
  -- `uint256`, by `toNumber`
  pub decode_number : ℕ → Result ℕ
  -- `defaultAbiCoder.encode([actionEncoding], [action])`
  pub encode_action : Option ℕ → ℕ → Result ℕ
  -- `applyAction(encodedState, encodedAction)` of the contract at an address
  pub apply_action : Address → ℕ → ℕ → Result ℕ
  -- `decodeAppState`, by the named components of the answer
  pub decode_state : ℕ → ℕ → Result AppState

-- `{ [tokenAddress]: { [a]: x, [b]: y } }`: if the addresses are one, the second amount stays.
abbrev pub two_entries : Address → Address × ℤ → Address × ℤ → TokenIndexedCoinTransferMap
two_entries token (a, x) (b, y) = (token, insert b y ((a, x) ∷ [])) ∷ []

-- `handleTwoPartyFixedOutcome`, on the decoded number.
unfoldable pub two_party_increments :
    ℕ → TwoPartyFixedOutcomeInterpreterParams → TokenIndexedCoinTransferMap
two_party_increments outcome params =
    if outcome == 0
    then (params.token_address, (params.player_addrs.0, params.amount) ∷ []) ∷ []
    else if outcome == 1
    then (params.token_address, (params.player_addrs.1, params.amount) ∷ []) ∷ []
    else two_entries params.token_address (params.player_addrs.0, half params.amount)
        (params.player_addrs.1, params.amount -ℤ half params.amount)

-- The `reduce` of `handleMultiAssetMultiPartyCoinTransfer`; `none` where the index is past the end.
abbrev pub multi_asset_onto :
    List Address
    → List (List CoinTransfer)
    → TokenIndexedCoinTransferMap
    → TokenIndexedCoinTransferMap
multi_asset_onto [] transfers acc = acc
multi_asset_onto (token ∷ ts) [] acc =
    multi_asset_onto ts [] (insert token (coin_transfers_to_map none) acc)
multi_asset_onto (token ∷ ts) (l ∷ ls) acc =
    multi_asset_onto ts ls (insert token (coin_transfers_to_map (some l)) acc)

module _ ⦃p : Platform⦄ ⦃chain : Chain⦄ where
  handle_two_party_fixed_outcome :
      ℕ → TwoPartyFixedOutcomeInterpreterParams → Result TokenIndexedCoinTransferMap
  handle_two_party_fixed_outcome encoded_outcome params = do
    outcome ← chain.decode_number encoded_outcome
    ok (two_party_increments outcome params)

  handle_multi_asset_multi_party_coin_transfer :
      ℕ → MultiAssetMultiPartyCoinTransferInterpreterParams → Result TokenIndexedCoinTransferMap
  handle_multi_asset_multi_party_coin_transfer encoded_outcome params = do
    decoded_transfers ← chain.decode_transfer_lists encoded_outcome
    ok (multi_asset_onto params.token_addresses decoded_transfers [])

  handle_single_asset_two_party_coin_transfer :
      ℕ → SingleAssetTwoPartyCoinTransferInterpreterParams → Result TokenIndexedCoinTransferMap
  handle_single_asset_two_party_coin_transfer encoded_outcome params = do
    (t1, t2) ← chain.decode_two_transfers encoded_outcome
    ok (two_entries params.token_address (t1.to, t1.amount) (t2.to, t2.amount))

  abbrev pub refund_token : RefundState → Address
  refund_token state = elim state.token_address [ none ↦ p.undefined_text | some t ↦ t ]

  -- The loop of `handleRefundAppOutcomeSpecialCase`, with the rounds that are left; the waits
  -- between the queries are left out.
  unfoldable pub refund_loop :
      AppInstance → RefundState → ℕ → ℕ → ℕ → Result TokenIndexedCoinTransferMap
  refund_loop app state zero attempts mutable_outcome = err no_deposit_found
  refund_loop app state (suc left) attempts mutable_outcome = do
    (t, _) ← chain.decode_two_transfers mutable_outcome
    elim (ltb_ℤ (pos 0) t.amount) [
      | true ↦ ok ((refund_token state, (t.to, t.amount) ∷ []) ∷ [])
      | false ↦ do
        next_outcome ← chain.compute_outcome attempts app
        refund_loop app state left (attempts + 1) next_outcome
    ]

  unfoldable pub handle_refund_app_outcome_special_case :
      ℕ → AppInstance → RefundState → Result TokenIndexedCoinTransferMap
  handle_refund_app_outcome_special_case encoded_outcome app state =
      refund_loop app state 10 1 encoded_outcome

  by_outcome_type : ℕ → AppInstance → Result TokenIndexedCoinTransferMap
  by_outcome_type encoded_outcome app = elim app.outcome_type [
    | two_party_fixed_outcome ↦ do
      params ← two_party_outcome_interpreter_params app
      handle_two_party_fixed_outcome encoded_outcome (← or_throw params type_error)
    | single_asset_two_party_coin_transfer ↦ do
      params ← single_asset_interpreter_params app
      handle_single_asset_two_party_coin_transfer encoded_outcome (← or_throw params type_error)
    | multi_asset_multi_party_coin_transfer ↦ do
      params ← multi_asset_interpreter_params app
      handle_multi_asset_multi_party_coin_transfer encoded_outcome (← or_throw params type_error)
  ]

  -- `computeTokenIndexedFreeBalanceIncrements`; the empty text asks for the outcome on chain.
  unfoldable pub compute_token_indexed_free_balance_increments :
      AppInstance → ℕ → Result TokenIndexedCoinTransferMap
  unfolding by_outcome_type handle_two_party_fixed_outcome
      handle_single_asset_two_party_coin_transfer handle_multi_asset_multi_party_coin_transfer
  compute_token_indexed_free_balance_increments app encoded_outcome_override = do
    encoded_outcome ←
        if encoded_outcome_override == 0
        then chain.compute_outcome 0 app
        else ok encoded_outcome_override
    elim app.latest_state [
      | AppState.refund state ↦ handle_refund_app_outcome_special_case encoded_outcome app state
      | _ ↦ by_outcome_type encoded_outcome app
    ]

  -- `computeStateTransition` of modules/cf-core/src/models/app-instance.ts: the app's contract
  -- applies the action.
  unfoldable pub compute_state_transition : ℕ → AppInstance → Result AppState
  compute_state_transition action app = do
    encoded_state ← encoded_latest_state app
    encoded_action ← chain.encode_action app.app_interface.action_encoding action
    computed ← chain.apply_action app.app_interface.addr encoded_state encoded_action
    chain.decode_state app.app_interface.state_encoding computed
