-- ===== src/StateChannel/Operations.antt =====
-- What changes a channel: `build` and the methods of modules/cf-core/src/models/state-channel.ts
-- that return a new `StateChannel`.
use indrav.Prelude.{
  ℕ, ◌+◌, Bool, true, false, ◌&&◌, Option, none, some, List, [], ◌∷◌, ◌==◌, if◌then◌else◌,
}
use indrav.Prelude.Dict.{Dict, insert, erase}
use indrav.Prelude.Result.{Result, ◌>>=◌}
use indrav.Types.{
  Address, Hash, TokenIndexedCoinTransferMap, AppState, AppInstanceProposal, Agreement, Platform,
}
use indrav.AppInstance.{AppInstance, identity_hash, set_app_state}
use indrav.FreeBalance.{
  FreeBalance, increment, free_balance_add_active_app, free_balance_remove_active_app,
  to_app_instance,
}
use indrav.StateChannel.{
  StateChannel, new_state_channel, free_balance, get_free_balance_class, get_app_instance,
}

-- The arguments of `build`; no caller gives an address or keys.
pub record BuildArgs : Type 0 where
  pub app_instances : Option (Dict AppInstance)
  pub proposed_app_instances : Option (Dict AppInstanceProposal)
  pub agreements : Option (Dict Agreement)
  pub free_balance_app_instance : Option AppInstance
  pub monotonic_num_proposed_apps : Option ℕ

abbrev pub no_args : BuildArgs
no_args = record {
  app_instances = none;
  proposed_app_instances = none;
  agreements = none;
  free_balance_app_instance = none;
  monotonic_num_proposed_apps = none;
}

-- `arg || current`, for an object and for a number: 0 is falsy.
abbrev pub or_else {ℓ} : {A : Type ℓ} → Option A → A → A
or_else none current = current
or_else (some arg) current = arg

abbrev pub or_else_number : Option ℕ → ℕ → ℕ
or_else_number none current = current
or_else_number (some arg) current = if arg == 0 then current else arg

-- `participants.every((v, idx) => v === appInstance.participants[idx])`
abbrev pub matches_participants : List Address → List Address → Bool
matches_participants [] others = true
matches_participants (v ∷ vs) [] = false
matches_participants (v ∷ vs) (o ∷ others) = v == o && matches_participants vs others

module _ ⦃p : Platform⦄ where
  unfoldable pub build : BuildArgs → StateChannel → Result StateChannel
  build args sc = new_state_channel (record sc {
    proposed_app_instances = or_else args.proposed_app_instances sc.proposed_app_instances;
    app_instances = or_else args.app_instances sc.app_instances;
    agreements = or_else args.agreements sc.agreements;
    free_balance_app_instance = elim args.free_balance_app_instance [
      | none ↦ sc.free_balance_app_instance
      | some fb ↦ some fb
    ];
    monotonic_num_proposed_apps =
        or_else_number args.monotonic_num_proposed_apps sc.monotonic_num_proposed_apps;
  })

  -- `setFreeBalance`, and the end of each method that changes the free balance.
  unfoldable pub set_free_balance : FreeBalance → StateChannel → Result StateChannel
  set_free_balance new_free_balance sc = do
    old ← free_balance sc
    fb ← to_app_instance new_free_balance old
    build (record no_args { free_balance_app_instance = some fb }) sc

  unfoldable pub increment_free_balance :
      TokenIndexedCoinTransferMap → StateChannel → Result StateChannel
  increment_free_balance increments sc = do
    fb ← get_free_balance_class sc
    fb' ← increment increments fb
    set_free_balance fb' sc

  unfoldable pub add_active_app : Hash → StateChannel → Result StateChannel
  add_active_app active_app sc = do
    fb ← get_free_balance_class sc
    set_free_balance (free_balance_add_active_app active_app fb) sc

  unfoldable pub remove_active_app : Hash → StateChannel → Result StateChannel
  remove_active_app active_app sc = do
    fb ← get_free_balance_class sc
    set_free_balance (free_balance_remove_active_app active_app fb) sc

  unfoldable pub add_active_app_and_increment_free_balance :
      Hash → TokenIndexedCoinTransferMap → StateChannel → Result StateChannel
  add_active_app_and_increment_free_balance active_app increments sc = do
    sc' ← increment_free_balance increments sc
    add_active_app active_app sc'

  unfoldable pub remove_active_app_and_increment_free_balance :
      Hash → TokenIndexedCoinTransferMap → StateChannel → Result StateChannel
  remove_active_app_and_increment_free_balance active_app increments sc = do
    sc' ← remove_active_app active_app sc
    increment_free_balance increments sc'

  unfoldable pub add_proposal : AppInstanceProposal → StateChannel → Result StateChannel
  add_proposal proposal sc =
      build
        (record no_args {
          proposed_app_instances =
              some (insert proposal.identity_hash proposal sc.proposed_app_instances);
          monotonic_num_proposed_apps = some (sc.monotonic_num_proposed_apps + 1);
        })
        sc

  unfoldable pub remove_proposal : Hash → StateChannel → Result StateChannel
  remove_proposal app_instance_id sc =
      build
        (record no_args {
          proposed_app_instances = some (erase app_instance_id sc.proposed_app_instances);
        })
        sc

  unfoldable pub add_app_instance : AppInstance → StateChannel → Result StateChannel
  add_app_instance app_instance sc =
      build
        (record no_args {
          app_instances = some (insert (identity_hash app_instance) app_instance sc.app_instances);
          monotonic_num_proposed_apps = some (sc.monotonic_num_proposed_apps + 1);
        })
        sc

  unfoldable pub remove_app_instance : Hash → StateChannel → Result StateChannel
  remove_app_instance app_instance_id sc =
      build (record no_args { app_instances = some (erase app_instance_id sc.app_instances) }) sc

  unfoldable pub set_state : Hash → AppState → StateChannel → Result StateChannel
  set_state app_instance_identity_hash state sc = do
    app_instance ← get_app_instance app_instance_identity_hash sc
    new_instance ← set_app_state state none app_instance
    build
        (record no_args {
          app_instances = some (insert app_instance_identity_hash new_instance sc.app_instances);
        })
        sc
