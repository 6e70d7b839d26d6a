-- ===== src/Tests/Virtual.antt =====
-- The theorems on virtual apps at concrete channels and contexts.
use indrav.Prelude.{ℕ, ◌≡◌, refl, none, some, [], ◌∷◌, arith}
use indrav.Prelude.Int.{pos, ◌+ℤ◌, ◌-ℤ◌}
use indrav.Prelude.Result.{ok}
use indrav.Types.{
  AppState, CoinTransferMap, two_party_fixed_outcome, TwoPartyFixedOutcomeInterpreterParams,
}
use indrav.CoinTransfers.{merge, flip}
use indrav.AppInstance.{AppInstance, set_app_state, app_to_json, app_from_json}
use indrav.FreeBalance.{
  increment, from_app_instance, to_app_instance, serialize_free_balance_state,
  deserialize_free_balance_state, free_balance_add_active_app, free_balance_remove_active_app,
}
use indrav.StateChannel.{StateChannel, new_state_channel, free_balance, get_free_balance_class}
use indrav.StateChannel.Operations.{
  build, set_free_balance, add_active_app, increment_free_balance, remove_active_app,
  add_active_app_and_increment_free_balance, remove_active_app_and_increment_free_balance,
}
use indrav.StateChannel.Installs.{add_agreement, remove_agreement}
use indrav.Outcome.{two_party_increments}
use indrav.Machine.{InstallVirtualAppProtocolParams}
use indrav.Protocol.InstallVirtual.{virtual_app_instance, virtual_interpreter_parameters}
use indrav.Protocol.InstallVirtual.Objects.{add_initiator_agreement, add_responder_agreement}
use indrav.Protocol.UninstallVirtual.{increments_of}
use indrav.Protocol.UninstallVirtual.Objects.{
  remove_initiator_agreement, remove_responder_agreement,
}
use indrav.Protocol.UninstallVirtual.Balances.{uninstalling, Neutral, virtual_app-Neutral}
use indrav.Protocol.UninstallVirtual.Stakes.{virtual_app-loses_stakes}
use indrav.Tests.Toy.{toy, toy_laws, toy_chain, toy_ethereum, game, blank, value_of}
use indrav.Tests.Table.{table, balance_app}

-- A virtual game of the keys 1 and 2 through the intermediary with the key 3.
abbrev pub virtual : InstallVirtualAppProtocolParams
virtual = record {
  initiator_xpub = 1;
  responder_xpub = 2;
  intermediary_xpub = 3;
  default_timeout = 12;
  app_interface = record { addr = 71; state_encoding = 53; action_encoding = none };
  initial_state = AppState.opaque 4;
  initiator_balance_decrement = pos 1;
  responder_balance_decrement = pos 2;
  token_address = 0;
  app_seq_no = 5;
  outcome_type = two_party_fixed_outcome;
}

-- The channel of the key `x`, at the address `a`, with the intermediary.
abbrev pub ledger_of : ℕ → ℕ → StateChannel
ledger_of x a = record table {
  user_neutered_extended_keys = x ∷ 3 ∷ [];
  app_instances = [];
  free_balance_app_instance = some (record balance_app {
    participants = a ∷ 300 ∷ [];
    latest_state = AppState.free_balance (record {
      token_addresses = 0 ∷ [];
      balances =
          (record { to = a; amount_hex = 14 } ∷ record { to = 300; amount_hex = 32 } ∷ []) ∷ [];
      active_apps = [];
    });
  });
}

abbrev paid_i : StateChannel
paid_i = value_of blank (add_initiator_agreement virtual game 888 (ledger_of 1 100))

abbrev paid_r : StateChannel
paid_r = value_of blank (add_responder_agreement virtual game 888 (ledger_of 2 200))

abbrev settled_i : CoinTransferMap → StateChannel
settled_i m =
    value_of blank (remove_initiator_agreement (uninstalling virtual 888 1) 888 m 0 paid_i)

abbrev settled_r : CoinTransferMap → StateChannel
settled_r m =
    value_of blank (remove_responder_agreement (uninstalling virtual 888 1) 888 m 0 paid_r)

-- All that was paid goes to the initiator.
abbrev won : CoinTransferMap
won = (100, pos 3) ∷ []

pays_i : add_initiator_agreement virtual game 888 (ledger_of 1 100) ≡ ok paid_i
unfolding add_agreement remove_agreement new_state_channel increment_free_balance
    get_free_balance_class free_balance from_app_instance deserialize_free_balance_state
    serialize_free_balance_state increment merge ◌+ℤ◌ set_free_balance app_from_json app_to_json
    set_app_state flip free_balance_add_active_app free_balance_remove_active_app remove_active_app
    to_app_instance ◌-ℤ◌ add_active_app add_active_app_and_increment_free_balance
    remove_active_app_and_increment_free_balance build
pays_i = refl

pays_r : add_responder_agreement virtual game 888 (ledger_of 2 200) ≡ ok paid_r
unfolding add_agreement remove_agreement new_state_channel increment_free_balance
    get_free_balance_class free_balance from_app_instance deserialize_free_balance_state
    serialize_free_balance_state increment merge ◌+ℤ◌ set_free_balance app_from_json app_to_json
    set_app_state flip free_balance_add_active_app free_balance_remove_active_app remove_active_app
    to_app_instance ◌-ℤ◌ add_active_app add_active_app_and_increment_free_balance
    remove_active_app_and_increment_free_balance build
pays_r = refl

settles_i :
    remove_initiator_agreement (uninstalling virtual 888 1) 888 won 0 paid_i ≡ ok (settled_i won)
unfolding add_agreement remove_agreement new_state_channel increment_free_balance
    get_free_balance_class free_balance from_app_instance deserialize_free_balance_state
    serialize_free_balance_state increment merge ◌+ℤ◌ set_free_balance app_from_json app_to_json
    set_app_state flip free_balance_add_active_app free_balance_remove_active_app remove_active_app
    to_app_instance ◌-ℤ◌ add_active_app add_active_app_and_increment_free_balance
    remove_active_app_and_increment_free_balance build
settles_i = refl

settles_r :
    remove_responder_agreement (uninstalling virtual 888 1) 888 won 0 paid_r ≡ ok (settled_r won)
unfolding add_agreement remove_agreement new_state_channel increment_free_balance
    get_free_balance_class free_balance from_app_instance deserialize_free_balance_state
    serialize_free_balance_state increment merge ◌+ℤ◌ set_free_balance app_from_json app_to_json
    set_app_state flip free_balance_add_active_app free_balance_remove_active_app remove_active_app
    to_app_instance ◌-ℤ◌ add_active_app add_active_app_and_increment_free_balance
    remove_active_app_and_increment_free_balance build
settles_r = refl

virtual_app-Neutral_example :
    Neutral virtual won (ledger_of 1 100) (ledger_of 2 200) (settled_i won) (settled_r won)
virtual_app-Neutral_example =
    virtual_app-Neutral toy_laws virtual game 888 1 won (ledger_of 1 100) (ledger_of 2 200)
      (λ e. absurd (omega arith)) (λ e. absurd (omega arith)) refl pays_i pays_r settles_i settles_r

abbrev fixed : TwoPartyFixedOutcomeInterpreterParams
fixed = record { player_addrs = (105, 205); amount = pos 3; token_address = 0 }

abbrev of_players : CoinTransferMap
of_players = (105, pos 3) ∷ []

abbrev pub virtual_game : AppInstance
virtual_game = value_of game (virtual_app_instance virtual)

makes : virtual_app_instance virtual ≡ ok virtual_game
unfolding virtual_app_instance virtual_interpreter_parameters
makes = refl

players_are : virtual_game.two_party_internal ≡ some fixed
unfolding virtual_app_instance virtual_interpreter_parameters ◌+ℤ◌
players_are = refl

increments_are : increments_of 0 (two_party_increments 0 fixed) ≡ ok of_players
unfolding two_party_increments
increments_are = refl

settles_nothing_i :
    remove_initiator_agreement (uninstalling virtual 888 1) 888 of_players 0 paid_i
    ≡ ok (settled_i of_players)
unfolding add_agreement remove_agreement new_state_channel increment_free_balance
    get_free_balance_class free_balance from_app_instance deserialize_free_balance_state
    serialize_free_balance_state increment merge ◌+ℤ◌ set_free_balance app_from_json app_to_json
    set_app_state flip free_balance_add_active_app free_balance_remove_active_app remove_active_app
    to_app_instance ◌-ℤ◌ add_active_app add_active_app_and_increment_free_balance
    remove_active_app_and_increment_free_balance build
settles_nothing_i = refl

settles_nothing_r :
    remove_responder_agreement (uninstalling virtual 888 1) 888 of_players 0 paid_r
    ≡ ok (settled_r of_players)
unfolding add_agreement remove_agreement new_state_channel increment_free_balance
    get_free_balance_class free_balance from_app_instance deserialize_free_balance_state
    serialize_free_balance_state increment merge ◌+ℤ◌ set_free_balance app_from_json app_to_json
    set_app_state flip free_balance_add_active_app free_balance_remove_active_app remove_active_app
    to_app_instance ◌-ℤ◌ add_active_app add_active_app_and_increment_free_balance
    remove_active_app_and_increment_free_balance build
settles_nothing_r = refl

virtual_app-loses_stakes_example :
    (n : Neutral virtual of_players
      (ledger_of 1 100)
      (ledger_of 2 200)
      (settled_i of_players)
      (settled_r of_players))
    × (n.gain_i ≡ pos 0 -ℤ pos 1)
    × (n.gain_r ≡ pos 0 -ℤ pos 2)
virtual_app-loses_stakes_example =
    virtual_app-loses_stakes toy_laws virtual game 888 1 0 of_players (ledger_of 1 100)
      (ledger_of 2 200) refl makes players_are increments_are (λ e. absurd (omega arith))
      (λ e. absurd (omega arith)) (λ e. absurd (omega arith)) (λ e. absurd (omega arith))
      (λ e. absurd (omega arith)) (λ e. absurd (omega arith)) refl pays_i pays_r settles_nothing_i
      settles_nothing_r
