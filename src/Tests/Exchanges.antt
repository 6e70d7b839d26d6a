-- ===== src/Tests/Exchanges.antt =====
-- The theorems on two honest sides at concrete contexts: both sides of each protocol are played.
use indrav.Prelude.{ℕ, ◌+◌, ◌≡◌, refl, some, [], ◌∷◌}
use indrav.Prelude.Int.{pos, ◌+ℤ◌}
use indrav.Prelude.Result.{ok}
use indrav.Types.{AppState}
use indrav.CoinTransfers.{merge}
use indrav.AppInstance.{
  AppInstance, identity, set_app_state, app_to_json, app_from_json, hash_of_latest_state,
  encoded_latest_state, two_party_outcome_interpreter_params,
}
use indrav.FreeBalance.{
  increment, from_app_instance, to_app_instance, serialize_free_balance_state,
  deserialize_free_balance_state, free_balance_remove_active_app,
}
use indrav.StateChannel.{
  StateChannel, get_app_instance, new_state_channel, free_balance, get_free_balance_class,
}
use indrav.StateChannel.Operations.{
  build, set_state, set_free_balance, remove_active_app, increment_free_balance,
  remove_active_app_and_increment_free_balance,
}
use indrav.StateChannel.Installs.{uninstall_app}
use indrav.Outcome.{
  compute_state_transition, compute_token_indexed_free_balance_increments, two_party_increments,
}
use indrav.Commitment.{
  Commitment, MinimalTransaction, set_state_commitment, state_commitment, get_signed_transaction,
}
use indrav.Machine.{Protocol, update_params, take_action_params, uninstall_params, ProtocolMessage}
use indrav.Machine.Play.{play}
use indrav.Protocol.{opening, answer, with_signature}
use indrav.Protocol.Update.{update_initiating, update_responding}
use indrav.Protocol.Update.Exchange.{update-completes}
use indrav.Protocol.TakeAction.{take_action_initiating, take_action_responding}
use indrav.Protocol.TakeAction.Exchange.{take_action-completes}
use indrav.Protocol.Uninstall.{uninstall_transition, uninstall_initiating, uninstall_responding}
use indrav.Protocol.Uninstall.Exchange.{uninstall-completes}
use indrav.Tests.Toy.{toy, toy_chain, toy_ethereum, network, game}
use indrav.Tests.Table.{
  table, balance_app, context_of, receives, signer_of, update, action, uninstall,
}

abbrev new_game : ℕ → AppInstance
new_game n = record game { latest_state = AppState.opaque n; latest_version_number = 1 }

abbrev new_table : ℕ → StateChannel
new_table n = record table { app_instances = (3306, new_game n) ∷ [] }

abbrev game_commitment : ℕ → Commitment
game_commitment n = set_state_commitment network (identity game) (53 + n) 1 8

sets : (n : ℕ) → set_state 3306 (AppState.opaque n) table ≡ ok (new_table n)
unfolding set_state get_app_instance set_app_state app_to_json app_from_json build new_state_channel
sets n = refl

finds : (n : ℕ) → get_app_instance 3306 (new_table n) ≡ ok (new_game n)
unfolding get_app_instance
finds n = refl

commits : (n : ℕ) → state_commitment network (new_game n) ≡ ok (game_commitment n)
unfolding state_commitment hash_of_latest_state encoded_latest_state
commits n = refl

-- What the responder and the initiator of a run end with.
abbrev response : Protocol → ℕ → ProtocolMessage
response protocol s = answer 1 protocol 1 (with_signature s)

update-completes_example :
    (play (signer_of 2) [] (update_responding (receives update 103)) ≡ record {
      persisted = (new_table 5 ∷ []) ∷ [];
      sent = response Protocol.update 203 ∷ [];
      result = some ((77, new_table 5) ∷ []);
    })
    × (play
          (signer_of 1)
          (response Protocol.update 203 ∷ [])
          (update_initiating (context_of update))
        ≡ record {
          persisted = (new_table 5 ∷ []) ∷ [];
          sent = opening 1 Protocol.update (update_params update) 2 103 ∷ [];
          result = some ((77, new_table 5) ∷ []);
        })
update-completes_example =
    update-completes update (context_of update) (receives update 103) (signer_of 1) (signer_of 2)
      refl refl refl refl refl (sets 5) (finds 5) (commits 5) refl refl refl

had : get_app_instance 3306 table ≡ ok game
unfolding get_app_instance
had = refl

computes : compute_state_transition 9 game ≡ ok (AppState.opaque 63)
unfolding compute_state_transition encoded_latest_state
computes = refl

take_action-completes_example :
    (play (signer_of 2) [] (take_action_responding (receives action 103)) ≡ record {
      persisted = (new_table 63 ∷ []) ∷ [];
      sent = response Protocol.take_action 203 ∷ [];
      result = some ((77, new_table 63) ∷ []);
    })
    × (play
          (signer_of 1)
          (response Protocol.take_action 203 ∷ [])
          (take_action_initiating (context_of action))
        ≡ record {
          persisted = (new_table 63 ∷ []) ∷ [];
          sent = opening 1 Protocol.take_action (take_action_params action) 2 103 ∷ [];
          result = some ((77, new_table 63) ∷ []);
        })
take_action-completes_example =
    take_action-completes action (context_of action) (receives action 103) (signer_of 1)
      (signer_of 2) refl refl refl refl refl had computes (sets 63) (finds 63) (commits 63) refl
      refl refl

-- The free balance after the first player has won the 7 wei at stake.
abbrev won_balance : AppInstance
won_balance = record balance_app {
  latest_state = AppState.free_balance (record {
    token_addresses = 0 ∷ [];
    balances =
        (record { to = 100; amount_hex = 28 } ∷ record { to = 200; amount_hex = 32 } ∷ []) ∷ [];
    active_apps = [];
  });
  latest_version_number = 4;
}

abbrev cleared : StateChannel
cleared = record table { app_instances = []; free_balance_app_instance = some won_balance }

clears : uninstall_transition uninstall ((77, table) ∷ []) ≡ ok cleared
unfolding uninstall_transition get_app_instance compute_token_indexed_free_balance_increments
    two_party_increments uninstall_app build new_state_channel
    remove_active_app_and_increment_free_balance remove_active_app increment_free_balance
    get_free_balance_class free_balance from_app_instance deserialize_free_balance_state
    serialize_free_balance_state set_free_balance to_app_instance set_app_state app_to_json
    app_from_json free_balance_remove_active_app increment merge ◌+ℤ◌
    two_party_outcome_interpreter_params
clears = refl

has_balance : free_balance cleared ≡ ok won_balance
unfolding free_balance
has_balance = refl

abbrev won_commitment : Commitment
won_commitment = set_state_commitment network (identity balance_app) 50 4 172800

commits_won : state_commitment network won_balance ≡ ok won_commitment
unfolding state_commitment hash_of_latest_state encoded_latest_state
commits_won = refl

abbrev won_transaction : MinimalTransaction
won_transaction = record { to = 60; value = pos 0; call_data = 4 }

joins_i : get_signed_transaction won_commitment (100 ∷ 200 ∷ []) ≡ ok won_transaction
unfolding get_signed_transaction
joins_i = refl

joins_r : get_signed_transaction won_commitment (200 ∷ 100 ∷ []) ≡ ok won_transaction
unfolding get_signed_transaction
joins_r = refl

uninstall-completes_example :
    (play (signer_of 2) [] (uninstall_responding (receives uninstall 100)) ≡ record {
      persisted = (cleared ∷ []) ∷ [];
      sent = response Protocol.uninstall 200 ∷ [];
      result = some ((77, cleared) ∷ []);
    })
    × (play
          (signer_of 1)
          (response Protocol.uninstall 200 ∷ [])
          (uninstall_initiating (context_of uninstall))
        ≡ record {
          persisted = (cleared ∷ []) ∷ [];
          sent = opening 1 Protocol.uninstall (uninstall_params uninstall) 2 100 ∷ [];
          result = some ((77, cleared) ∷ []);
        })
uninstall-completes_example =
    uninstall-completes uninstall (context_of uninstall) (receives uninstall 100) (signer_of 1)
      (signer_of 2) refl refl refl clears clears has_balance commits_won refl refl joins_i joins_r
      refl
