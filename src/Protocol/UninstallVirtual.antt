-- ===== src/Protocol/UninstallVirtual.antt =====
-- The virtual app uninstallation: modules/cf-core/src/protocol/uninstall-virtual-app.ts. What its
-- sides share is here, what they compute in UninstallVirtual/Objects, the sides in
-- UninstallVirtual/Initiating, Intermediary and Responding.
use indrav.Prelude.{ℕ, Bool, Option, none, some, List, [], ◌∷◌, not}
use indrav.Prelude.Int.{ℤ, pos, ltb_ℤ}
use indrav.Prelude.Dict.{Dict, lookup, insert}
use indrav.Prelude.Result.{Result, ok, err, Error, type_error, ◌>>=◌, or_throw}
use indrav.Types.{
  Address, Xpub, CoinTransferMap, TokenIndexedCoinTransferMap, AppState, PassThroughState, Platform,
}
use indrav.CoinTransfers.{get_or_zero}
use indrav.AppInstance.{AppInstance, identity, hash_of_latest_state, set_app_state}
use indrav.StateChannel.{StateChannel}
use indrav.Outcome.{Chain}
use indrav.Commitment.{Commitment, NetworkContext, set_state_commitment}
use indrav.Store.Owners.{get_multisig_address_with_counterparty_from_map}
pub mod Objects
pub mod Initiating
pub mod Intermediary
pub mod Responding
pub mod Agreed
pub mod Safety
pub mod Balances
pub mod Stakes

-- `tokenIndexedIncrements[tokenAddress]`, of which properties are read at once.
abbrev pub increments_of : Address → TokenIndexedCoinTransferMap → Result CoinTransferMap
increments_of token increments = or_throw (lookup token increments) type_error

-- `{ [a]: increments[x], [b]: increments[y] }`; `merge` reads an absent amount as zero.
abbrev pub two_amounts : Address → Address → Address → Address → CoinTransferMap → CoinTransferMap
two_amounts a x b y increments =
    insert b (get_or_zero y increments) ((a, get_or_zero x increments) ∷ [])

-- The state of a pass-through app; of any other state the properties read are absent, which the
-- code throws on with the given error.
abbrev pub pass_through_state : Error → AppInstance → Result PassThroughState
pass_through_state e app = elim app.latest_state [ AppState.pass_through t ↦ ok t | _ ↦ err e ]

module _ ⦃p : Platform⦄ where
  -- `getStateChannelFromMapWithOwners`: `none` where the map has no channel at the address.
  unfoldable pub get_state_channel_from_map_with_owners :
      Dict StateChannel
      → List Xpub
      → NetworkContext
      → Bool
      → Result (Option StateChannel × Dict StateChannel)
  get_state_channel_from_map_with_owners channels users network allow_generated_multisig = do
    (address, channels') ←
        get_multisig_address_with_counterparty_from_map channels users network.proxy_factory
          network.minimum_viable_multisig allow_generated_multisig
    ok (lookup address channels', channels')

  -- `setState({ ...state, switchesOutcomeAt: 0, defaultOutcome: outcome })`
  unfoldable pub lock_outcome : ℕ → PassThroughState → AppInstance → Result AppInstance
  lock_outcome outcome state app =
      set_app_state
        (AppState.pass_through
          (record state { switches_outcome_at = pos 0; default_outcome = outcome }))
        none app

  -- The `SetStateCommitment` of the pass-through app, which has the app's sequence number where
  -- the version number stands elsewhere.
  unfoldable pub pass_through_commitment : NetworkContext → AppInstance → Result Commitment
  pass_through_commitment network app = do
    hash ← hash_of_latest_state app
    ok (set_state_commitment network (identity app) hash app.app_seq_no app.default_timeout)

  -- `virtualAppHasExpired`
  abbrev pub has_expired : ⦃chain : Chain⦄ → PassThroughState → Result Bool
  has_expired ⦃chain⦄ state = do
    block ← chain.block_number
    ok (not (ltb_ℤ block state.switches_outcome_at))
