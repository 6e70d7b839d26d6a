-- ===== src/Tests/Installation.antt =====
-- The theorems on the install protocol at a concrete context.
use indrav.Prelude.{ℕ, zero, suc, ◌≡◌, refl, some, List, [], ◌∷◌, arith}
use indrav.Prelude.Int.{pos, ◌+ℤ◌, ◌-ℤ◌}
use indrav.Prelude.Dict.{insert}
use indrav.Prelude.Result.{ok}
use indrav.Types.{Address}
use indrav.CoinTransfers.{merge, flip, flip_token_indexed_balances, flip_tokens_onto}
use indrav.AppInstance.{
  AppInstance, set_app_state, app_to_json, app_from_json, hash_of_latest_state,
  encoded_latest_state, two_party_outcome_interpreter_params, encoded_interpreter_params,
}
use indrav.FreeBalance.{
  increment, from_app_instance, to_app_instance, serialize_free_balance_state,
  deserialize_free_balance_state, free_balance_add_active_app, sort_addresses,
}
use indrav.FreeBalance.Ledger.{amount_of}
use indrav.StateChannel.{
  StateChannel, new_state_channel, free_balance, get_free_balance_class, get_signing_keys_for,
  get_free_balance_addr_of, most_recently_installed_app_instance,
}
use indrav.StateChannel.Operations.{
  build, set_free_balance, add_active_app, increment_free_balance,
  add_active_app_and_increment_free_balance, remove_proposal,
}
use indrav.StateChannel.Installs.{install_app}
use indrav.StateChannel.Installed.{Installed}
use indrav.Commitment.{
  Commitment, MinimalTransaction, state_commitment, get_signed_transaction, hash_to_sign,
  get_transaction_details,
}
use indrav.Machine.{Protocol, install_params, InstallProtocolParams}
use indrav.Machine.Play.{play}
use indrav.Protocol.{opening, answer, with_signature}
use indrav.Protocol.Install.{
  InterpreterParams, compute_interpreter_parameters, install_transition, app_to_be_installed,
  token_indexed_balance_decrement, conditional_transaction_data, interpreter_address,
}
use indrav.Protocol.Install.Transition.{install_transition_pays, owed}
use indrav.Protocol.Install.Sides.{install_initiating, install_responding}
use indrav.Protocol.Install.Exchange.{Agreeable, counter_signed, data_persisted, install-completes}
use indrav.Tests.Toy.{toy, toy_laws, toy_chain, toy_ethereum, network, game, blank, value_of}
use indrav.Tests.Table.{
  table, balance_app, context_of, receives, signer_of, some_commitment, install,
}

abbrev installed : StateChannel
installed = value_of blank (install_transition install table)

abbrev conditions : Commitment
conditions = value_of some_commitment (conditional_transaction_data network installed)

abbrev new_balance : AppInstance
new_balance = value_of balance_app (free_balance installed)

abbrev balance_update : Commitment
balance_update = value_of some_commitment (state_commitment network new_balance)

abbrev joined : Commitment → List ℕ → MinimalTransaction
joined c signatures =
    value_of (record { to = 0; value = pos 0; call_data = 0 }) (get_signed_transaction c signatures)

address_1 : get_free_balance_addr_of 1 table ≡ ok 100
unfolding get_free_balance_addr_of
address_1 = refl

address_2 : get_free_balance_addr_of 2 table ≡ ok 200
unfolding get_free_balance_addr_of
address_2 = refl

installs : install_transition install table ≡ ok installed
unfolding install_transition compute_interpreter_parameters get_free_balance_addr_of install_app
    get_signing_keys_for sort_addresses new_state_channel increment_free_balance
    get_free_balance_class free_balance from_app_instance deserialize_free_balance_state
    serialize_free_balance_state increment merge ◌+ℤ◌ set_free_balance app_from_json app_to_json
    set_app_state flip flip_token_indexed_balances flip_tokens_onto free_balance_add_active_app
    to_app_instance ◌-ℤ◌ add_active_app add_active_app_and_increment_free_balance build
    remove_proposal
installs = refl

install_transition_pays_example :
    (interpreter : InterpreterParams) × (compute_interpreter_parameters install 100 200
      ≡ ok interpreter)
    × Installed
        (app_to_be_installed install interpreter)
        (token_indexed_balance_decrement install 100 200)
        table
        installed
    × ((t u : Address)
        → amount_of (token_indexed_balance_decrement install 100 200) t u
          ≡ owed install 100 200 t u)
install_transition_pays_example =
    install_transition_pays toy_laws install table address_1 address_2 (λ e. absurd (omega arith))
      refl refl installs

abbrev mixed : InstallProtocolParams
mixed = record install { responder_deposit_token_address = 5 }

install-Agreeable :
    Agreeable install
      (context_of install)
      (receives install 100)
      (signer_of 1)
      (signer_of 2)
      installed
      conditions
      balance_update
unfolding install_transition compute_interpreter_parameters get_free_balance_addr_of install_app
    get_signing_keys_for sort_addresses new_state_channel increment_free_balance
    get_free_balance_class free_balance from_app_instance deserialize_free_balance_state
    serialize_free_balance_state increment merge ◌+ℤ◌ set_free_balance app_from_json app_to_json
    set_app_state flip flip_token_indexed_balances flip_tokens_onto free_balance_add_active_app
    to_app_instance ◌-ℤ◌ add_active_app add_active_app_and_increment_free_balance build
    remove_proposal conditional_transaction_data most_recently_installed_app_instance
    encoded_interpreter_params two_party_outcome_interpreter_params interpreter_address
    state_commitment hash_of_latest_state encoded_latest_state get_signed_transaction hash_to_sign
    get_transaction_details
install-Agreeable = record {
  pre = table;
  app = value_of game (most_recently_installed_app_instance installed);
  fb = new_balance;
  initiator = 100;
  responder = 200;
  tx = λ i. elim i [
    | zero ↦ joined conditions (100 ∷ 200 ∷ [])
    | suc j ↦ elim j [
      | zero ↦ joined conditions (200 ∷ 100 ∷ [])
      | suc k ↦ elim k [
        | zero ↦ joined balance_update (100 ∷ 200 ∷ [])
        | suc _ ↦ joined balance_update (200 ∷ 100 ∷ [])
      ]
    ]
  ];
  params_i = refl;
  params_r = refl;
  network = refl;
  stored_i = refl;
  stored_r = refl;
  installs = refl;
  latest = refl;
  conditions = refl;
  has_fb = refl;
  commits = refl;
  address_i = refl;
  address_r = refl;
  conditional_i = refl;
  conditional_r = refl;
  update_i = refl;
  update_r = refl;
  joins_0 = refl;
  joins_1 = refl;
  joins_2 = refl;
  joins_3 = refl;
  custom = refl;
}

install-completes_example :
    (play
        (signer_of 2)
        (answer 1 Protocol.install 2 (with_signature 100) ∷ [])
        (install_responding (receives install 100))
      ≡ record {
        persisted = (installed ∷ []) ∷ [];
        sent =
            counter_signed (receives install 100) install 200 200
            ∷ data_persisted (receives install 100) install
            ∷ [];
        result = some (insert installed.multisig_address installed ((77, table) ∷ []));
      })
    × (play
          (signer_of 1)
          (counter_signed (receives install 100) install 200 200
            ∷ data_persisted (receives install 100) install
            ∷ [])
          (install_initiating (context_of install))
        ≡ record {
          persisted = (installed ∷ []) ∷ [];
          sent =
              opening 1 Protocol.install (install_params install) 2 100
              ∷ answer 1 Protocol.install 2 (with_signature 100)
              ∷ [];
          result = some (insert installed.multisig_address installed ((77, table) ∷ []));
        })
install-completes_example =
    install-completes install (context_of install) (receives install 100) (signer_of 1)
      (signer_of 2) installed conditions balance_update install-Agreeable
