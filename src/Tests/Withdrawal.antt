-- ===== src/Tests/Withdrawal.antt =====
-- The theorems on the withdraw protocol at a concrete context.
use indrav.Prelude.{◌≡◌, refl, none, some, [], ◌∷◌, arith}
use indrav.Prelude.Int.{pos, ◌+ℤ◌, ◌-ℤ◌}
use indrav.Prelude.Dict.{lookup}
use indrav.Prelude.Result.{ok}
use indrav.CoinTransfers.{merge, flip, flip_token_indexed_balances, flip_tokens_onto}
use indrav.AppInstance.{
  AppInstance, set_app_state, app_to_json, app_from_json, hash_of_latest_state, identity_hash,
  encoded_latest_state, single_asset_interpreter_params,
}
use indrav.FreeBalance.{
  increment, from_app_instance, to_app_instance, serialize_free_balance_state,
  deserialize_free_balance_state, free_balance_add_active_app, free_balance_remove_active_app,
  sort_addresses,
}
use indrav.StateChannel.{
  StateChannel, new_state_channel, free_balance, get_free_balance_class, get_signing_keys_for,
  get_free_balance_addr_of, most_recently_installed_app_instance, get_next_signing_keys,
  get_app_instance,
}
use indrav.StateChannel.Operations.{
  build, set_free_balance, add_active_app, increment_free_balance, remove_active_app,
  add_active_app_and_increment_free_balance, remove_proposal,
  remove_active_app_and_increment_free_balance,
}
use indrav.StateChannel.Installs.{install_app, uninstall_app}
use indrav.Commitment.{
  Commitment, state_commitment, get_signed_transaction, hash_to_sign, get_transaction_details,
}
use indrav.Machine.{Protocol, Context, WithdrawProtocolParams}
use indrav.Machine.Play.{play}
use indrav.Protocol.{answer, with_signature, with_two_signatures}
use indrav.Protocol.Withdraw.{add_refund_app, refund_app, refund_conditional, withdrawal_commitment}
use indrav.Protocol.Withdraw.Sides.{withdraw_initiating, withdraw_responding}
use indrav.Protocol.Withdraw.Balances.{refund_hash, Withdrawn, withdraw_moves}
use indrav.Protocol.Withdraw.Collision.{withdraw-restores_apps, withdraw-removes_latest}
use indrav.Protocol.Withdraw.Exchange.{
  Withdrawable, responder_messages, initiator_messages, both_stored, withdraw-completes,
}
use indrav.Tests.Toy.{toy, toy_laws, toy_chain, toy_ethereum, network, game, blank, value_of}
use indrav.Tests.Table.{table, balance_app, context_of, receives, signer_of, some_commitment}

abbrev withdraw : WithdrawProtocolParams
withdraw = record {
  initiator_xpub = 1;
  responder_xpub = 2;
  multisig_address = 77;
  recipient = 400;
  amount = pos 1;
  token_address = 0;
}

-- The table once another app has been proposed.
abbrev later : StateChannel
later = record table { monotonic_num_proposed_apps = 4 }

abbrev with_refund : StateChannel → StateChannel
with_refund sc = value_of blank (add_refund_app withdraw network sc)

abbrev without_refund : StateChannel → StateChannel
without_refund sc =
    value_of blank (uninstall_app (refund_hash withdraw network sc) [] (with_refund sc))

address_of : get_free_balance_addr_of 1 table ≡ ok 100
unfolding get_free_balance_addr_of
address_of = refl

address_of_later : get_free_balance_addr_of 1 later ≡ ok 100
unfolding get_free_balance_addr_of
address_of_later = refl

adds : add_refund_app withdraw network table ≡ ok (with_refund table)
unfolding add_refund_app get_free_balance_addr_of install_app uninstall_app get_app_instance
    get_next_signing_keys get_signing_keys_for sort_addresses new_state_channel
    increment_free_balance get_free_balance_class free_balance from_app_instance
    deserialize_free_balance_state serialize_free_balance_state increment merge ◌+ℤ◌
    set_free_balance app_from_json app_to_json set_app_state flip flip_token_indexed_balances
    flip_tokens_onto free_balance_add_active_app free_balance_remove_active_app remove_active_app
    to_app_instance ◌-ℤ◌ add_active_app add_active_app_and_increment_free_balance
    remove_active_app_and_increment_free_balance build remove_proposal refund_conditional
    most_recently_installed_app_instance single_asset_interpreter_params withdrawal_commitment
    state_commitment hash_of_latest_state encoded_latest_state get_signed_transaction hash_to_sign
    get_transaction_details
adds = refl

adds_later : add_refund_app withdraw network later ≡ ok (with_refund later)
unfolding add_refund_app get_free_balance_addr_of install_app uninstall_app get_app_instance
    get_next_signing_keys get_signing_keys_for sort_addresses new_state_channel
    increment_free_balance get_free_balance_class free_balance from_app_instance
    deserialize_free_balance_state serialize_free_balance_state increment merge ◌+ℤ◌
    set_free_balance app_from_json app_to_json set_app_state flip flip_token_indexed_balances
    flip_tokens_onto free_balance_add_active_app free_balance_remove_active_app remove_active_app
    to_app_instance ◌-ℤ◌ add_active_app add_active_app_and_increment_free_balance
    remove_active_app_and_increment_free_balance build remove_proposal refund_conditional
    most_recently_installed_app_instance single_asset_interpreter_params withdrawal_commitment
    state_commitment hash_of_latest_state encoded_latest_state get_signed_transaction hash_to_sign
    get_transaction_details
adds_later = refl

removes :
    uninstall_app (refund_hash withdraw network table) [] (with_refund table)
    ≡ ok (without_refund table)
unfolding add_refund_app get_free_balance_addr_of install_app uninstall_app get_app_instance
    get_next_signing_keys get_signing_keys_for sort_addresses new_state_channel
    increment_free_balance get_free_balance_class free_balance from_app_instance
    deserialize_free_balance_state serialize_free_balance_state increment merge ◌+ℤ◌
    set_free_balance app_from_json app_to_json set_app_state flip flip_token_indexed_balances
    flip_tokens_onto free_balance_add_active_app free_balance_remove_active_app remove_active_app
    to_app_instance ◌-ℤ◌ add_active_app add_active_app_and_increment_free_balance
    remove_active_app_and_increment_free_balance build remove_proposal refund_conditional
    most_recently_installed_app_instance single_asset_interpreter_params withdrawal_commitment
    state_commitment hash_of_latest_state encoded_latest_state get_signed_transaction hash_to_sign
    get_transaction_details
removes = refl

removes_later :
    uninstall_app (refund_hash withdraw network later) [] (with_refund later)
    ≡ ok (without_refund later)
unfolding add_refund_app get_free_balance_addr_of install_app uninstall_app get_app_instance
    get_next_signing_keys get_signing_keys_for sort_addresses new_state_channel
    increment_free_balance get_free_balance_class free_balance from_app_instance
    deserialize_free_balance_state serialize_free_balance_state increment merge ◌+ℤ◌
    set_free_balance app_from_json app_to_json set_app_state flip flip_token_indexed_balances
    flip_tokens_onto free_balance_add_active_app free_balance_remove_active_app remove_active_app
    to_app_instance ◌-ℤ◌ add_active_app add_active_app_and_increment_free_balance
    remove_active_app_and_increment_free_balance build remove_proposal refund_conditional
    most_recently_installed_app_instance single_asset_interpreter_params withdrawal_commitment
    state_commitment hash_of_latest_state encoded_latest_state get_signed_transaction hash_to_sign
    get_transaction_details
removes_later = refl

withdraw_moves_example : Withdrawn withdraw network 100 later (without_refund later)
withdraw_moves_example =
    withdraw_moves toy_laws withdraw network later refl address_of_later adds_later removes_later

fresh : lookup (refund_hash withdraw network later) later.app_instances ≡ none
unfolding get_next_signing_keys get_signing_keys_for sort_addresses
fresh = refl

withdraw-restores_apps_example :
    (most_recently_installed_app_instance (with_refund later)
      ≡ ok (refund_app withdraw network later))
    × ((without_refund later).app_instances ≡ later.app_instances)
withdraw-restores_apps_example =
    withdraw-restores_apps toy_laws withdraw network later refl address_of_later (omega arith, tt)
      fresh adds_later removes_later

participants : game.participants ≡ get_next_signing_keys table
unfolding get_next_signing_keys get_signing_keys_for sort_addresses
participants = refl

withdraw-removes_latest_example :
    (lookup (identity_hash game) (without_refund table).app_instances ≡ none)
    × Withdrawn withdraw network 100 table (without_refund table)
withdraw-removes_latest_example =
    withdraw-removes_latest toy_laws withdraw network table game refl address_of (refl, tt) refl
      participants refl adds removes

abbrev initiator : Context WithdrawProtocolParams
initiator = record (context_of withdraw) { state_channels_map = (77, later) ∷ [] }

abbrev responder : Context WithdrawProtocolParams
responder = record (receives withdraw 100) { state_channels_map = (77, later) ∷ [] }

abbrev conditions : Commitment
conditions = value_of some_commitment (refund_conditional network (with_refund later))

abbrev balance_of : StateChannel → AppInstance
balance_of sc = value_of balance_app (free_balance sc)

abbrev balance_update : StateChannel → Commitment
balance_update sc = value_of some_commitment (state_commitment network (balance_of sc))

can_withdraw :
    Withdrawable withdraw initiator responder
      (signer_of 1)
      (signer_of 2)
      (with_refund later)
      (without_refund later)
      conditions
      (balance_update (with_refund later))
      (balance_update (without_refund later))
unfolding add_refund_app get_free_balance_addr_of install_app uninstall_app get_app_instance
    get_next_signing_keys get_signing_keys_for sort_addresses new_state_channel
    increment_free_balance get_free_balance_class free_balance from_app_instance
    deserialize_free_balance_state serialize_free_balance_state increment merge ◌+ℤ◌
    set_free_balance app_from_json app_to_json set_app_state flip flip_token_indexed_balances
    flip_tokens_onto free_balance_add_active_app free_balance_remove_active_app remove_active_app
    to_app_instance ◌-ℤ◌ add_active_app add_active_app_and_increment_free_balance
    remove_active_app_and_increment_free_balance build remove_proposal refund_conditional
    most_recently_installed_app_instance single_asset_interpreter_params withdrawal_commitment
    state_commitment hash_of_latest_state encoded_latest_state get_signed_transaction hash_to_sign
    get_transaction_details
can_withdraw = record {
  pre = later;
  refund = refund_app withdraw network later;
  fb = balance_of (with_refund later);
  final_fb = balance_of (without_refund later);
  initiator = 100;
  responder = 200;
  params_i = refl;
  params_r = refl;
  network = refl;
  stored_i = refl;
  stored_r = refl;
  address_i = refl;
  address_r = refl;
  adds = refl;
  latest = refl;
  conditions = refl;
  has_fb = refl;
  commits = refl;
  removes = refl;
  has_final_fb = refl;
  commits_final = refl;
  conditional_signable = record {
    initiator_signs = refl;
    responder_signs = refl;
    tx_i = _;
    tx_r = _;
    joins_i = refl;
    joins_r = refl;
  };
  update_signable = record {
    initiator_signs = refl;
    responder_signs = refl;
    tx_i = _;
    tx_r = _;
    joins_i = refl;
    joins_r = refl;
  };
  withdrawal_signable = record {
    initiator_signs = refl;
    responder_signs = refl;
    tx_i = _;
    tx_r = _;
    joins_i = refl;
    joins_r = refl;
  };
  uninstall_signable = record {
    initiator_signs = refl;
    responder_signs = refl;
    tx_i = _;
    tx_r = _;
    joins_i = refl;
    joins_r = refl;
  };
  custom = refl;
}

withdraw-completes_example :
    (play
        (signer_of 2)
        (answer 1 Protocol.withdraw 2 (with_two_signatures 100 100)
          ∷ answer 1 Protocol.withdraw 2 (with_signature 100)
          ∷ [])
        (withdraw_responding responder)
      ≡ record {
        persisted = (without_refund later ∷ []) ∷ [];
        sent =
            responder_messages responder withdraw
              (signer_of 2)
              conditions
              (balance_update (with_refund later))
              (withdrawal_commitment withdraw (with_refund later))
              (balance_update (without_refund later));
        result = some (both_stored (with_refund later) (without_refund later) ((77, later) ∷ []));
      })
    × (play
          (signer_of 1)
          (responder_messages responder withdraw
            (signer_of 2)
            conditions
            (balance_update (with_refund later))
            (withdrawal_commitment withdraw (with_refund later))
            (balance_update (without_refund later)))
          (withdraw_initiating initiator)
        ≡ record {
          persisted = (without_refund later ∷ []) ∷ [];
          sent =
              initiator_messages initiator withdraw
                (signer_of 1)
                conditions
                (balance_update (with_refund later))
                (withdrawal_commitment withdraw (with_refund later))
                (balance_update (without_refund later));
          result = some (both_stored (with_refund later) (without_refund later) ((77, later) ∷ []));
        })
withdraw-completes_example =
    withdraw-completes withdraw initiator responder (signer_of 1) (signer_of 2) (with_refund later)
      (without_refund later) conditions (balance_update (with_refund later))
      (balance_update (without_refund later)) can_withdraw
