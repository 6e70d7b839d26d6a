-- ===== src/StateChannel/Installs.antt =====
-- Installing and uninstalling apps and virtual app agreements: the last methods of
-- modules/cf-core/src/models/state-channel.ts that return a new `StateChannel`.
use indrav.Prelude.{true, false, Option, none, some, [], ◌∷◌, ◌==◌}
use indrav.Prelude.Dict.{Dict, has, insert, erase}
use indrav.Prelude.Result.{
  Result, ok, incorrect_participants, inconsistent_app_key, agreement_not_found, ◌>>=◌, ◌>>◌, guard,
}
use indrav.Types.{
  Address, Hash, CoinTransferMap, TokenIndexedCoinTransferMap, AppInstanceProposal, Agreement,
  Platform,
}
use indrav.CoinTransfers.{flip, flip_token_indexed_balances}
use indrav.AppInstance.{AppInstance, identity_hash}
use indrav.StateChannel.{StateChannel, get_app_instance, get_signing_keys_for}
use indrav.StateChannel.Operations.{
  build, no_args, matches_participants, remove_proposal, add_active_app_and_increment_free_balance,
  remove_active_app_and_increment_free_balance,
}

module _ ⦃p : Platform⦄ where
  -- The proposals that `installApp` hands to `build`: `undefined` unless the app was proposed.
  abbrev pub proposals_without : Hash → StateChannel → Result (Option (Dict AppInstanceProposal))
  proposals_without hash sc = elim (has hash sc.proposed_app_instances) [
    | false ↦ ok none
    | true ↦ do
      without_proposal ← remove_proposal hash sc
      ok (some without_proposal.proposed_app_instances)
  ]

  unfoldable pub install_app :
      AppInstance → TokenIndexedCoinTransferMap → StateChannel → Result StateChannel
  install_app app_instance token_indexed_decrements sc = do
    guard
        (matches_participants (get_signing_keys_for app_instance.app_seq_no sc)
          app_instance.participants)
        incorrect_participants
    proposals ← proposals_without (identity_hash app_instance) sc
    sc' ←
        build
          (record no_args {
            app_instances =
                some (insert (identity_hash app_instance) app_instance sc.app_instances);
            proposed_app_instances = proposals;
          })
          sc
    add_active_app_and_increment_free_balance (identity_hash app_instance)
        (flip_token_indexed_balances token_indexed_decrements) sc'

  unfoldable pub uninstall_app :
      Hash → TokenIndexedCoinTransferMap → StateChannel → Result StateChannel
  uninstall_app app_instance_identity_hash token_indexed_increments sc = do
    app ← get_app_instance app_instance_identity_hash sc
    guard (identity_hash app == app_instance_identity_hash) inconsistent_app_key
    guard (has (identity_hash app) sc.app_instances) inconsistent_app_key
    sc' ←
        build (record no_args { app_instances = some (erase (identity_hash app) sc.app_instances) })
          sc
    remove_active_app_and_increment_free_balance app_instance_identity_hash token_indexed_increments
        sc'

  -- `addSingleAssetTwoPartyIntermediaryAgreement`
  unfoldable pub add_agreement :
      Hash → Agreement → CoinTransferMap → Address → StateChannel → Result StateChannel
  add_agreement target_identity_hash agreement decrements token_address sc = do
    sc' ←
        build
          (record no_args {
            agreements = some (insert target_identity_hash agreement sc.agreements);
          })
          sc
    add_active_app_and_increment_free_balance target_identity_hash
        ((token_address, flip decrements) ∷ []) sc'

  -- `removeSingleAssetTwoPartyIntermediaryAgreement`
  unfoldable pub remove_agreement :
      Hash → CoinTransferMap → Address → StateChannel → Result StateChannel
  remove_agreement target_identity_hash increments token_address sc = do
    guard (has target_identity_hash sc.agreements) agreement_not_found
    sc' ← build (record no_args { agreements = some (erase target_identity_hash sc.agreements) }) sc
    remove_active_app_and_increment_free_balance target_identity_hash
        ((token_address, increments) ∷ []) sc'
