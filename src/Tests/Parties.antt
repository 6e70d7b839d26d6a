-- ===== src/Tests/Parties.antt =====
-- The theorems on the sides of a virtual app at contexts in which every side runs to its end.
use indrav.Prelude.{ℕ, ◌≡◌, refl, none, some, List, [], ◌∷◌, map}
use indrav.Prelude.Int.{◌+ℤ◌, ◌-ℤ◌}
use indrav.Prelude.Dict.{Dict}
use indrav.StateChannel.{
  StateChannel, create_empty_channel, new_state_channel, free_balance,
  get_agreement_from_virtual_app, get_free_balance_class, get_multisig_owner_addr_of,
  get_signing_keys_for, get_app_instance,
}
use indrav.AppInstance.{
  identity_hash, app_from_json, app_to_json, encoded_latest_state, hash_of_latest_state,
  set_app_state, two_party_outcome_interpreter_params,
}
use indrav.Commitment.{
  assert_is_valid_signature, get_signed_transaction, get_transaction_details, hash_to_sign,
  state_commitment,
}
use indrav.Machine.{
  Context, CustomData, no_data, Protocol, ProtocolMessage, InstallVirtualAppProtocolParams,
  UninstallVirtualAppProtocolParams,
}
use indrav.Machine.Play.{Trace, play}
use indrav.Machine.Rules.{Ensures}
use indrav.Protocol.{answer, with_signature, with_two_signatures, with_three_signatures}
use indrav.Protocol.InstallVirtual.Agreed.{
  Persists, Returns, InitiatingAgreed, MediatingAgreed, RespondingAgreed, user_map,
  intermediary_map, initiating_list, intermediary_list, responding_list,
}
use indrav.Protocol.InstallVirtual.Initiating.{
  install_virtual_initiating, install_virtual_initiating_apps,
}
use indrav.Protocol.InstallVirtual.Intermediary.{
  install_virtual_intermediary, install_virtual_intermediary_apps, install_virtual_intermediary_end,
}
use indrav.Protocol.InstallVirtual.Responding.{
  install_virtual_responding, install_virtual_responding_apps,
}
use indrav.Protocol.InstallVirtual.Safety.{install_virtual-Ensures}
use indrav.Protocol.UninstallVirtual.Agreed.{
  InitiatingAgreed as InitiatingLeft, MediatingAgreed as MediatingLeft,
  RespondingAgreed as RespondingLeft, user_map as user_map_left,
  intermediary_map as intermediary_map_left, initiating_list as initiating_left,
  intermediary_list as intermediary_left, responding_list as responding_left,
}
use indrav.Protocol.UninstallVirtual.Initiating.{uninstall_virtual_initiating}
use indrav.Protocol.UninstallVirtual.Intermediary.{
  uninstall_virtual_intermediary, uninstall_virtual_intermediary_balances,
}
use indrav.Protocol.UninstallVirtual.Responding.{uninstall_virtual_responding}
use indrav.Protocol.UninstallVirtual.Safety.{uninstall_virtual-Ensures}
use indrav.Protocol.UninstallVirtual.Balances.{uninstalling}
use indrav.Protocol.InstallVirtual.Objects.{
  objects_for_initiating, objects_for_intermediary, objects_for_responding,
}
use indrav.Protocol.InstallVirtual.{
  get_or_create_state_channel_with_users, virtual_app_instance, virtual_interpreter_parameters,
  time_locked_pass_through_app, agreement_conditional, default_timeout_commitment,
}
use indrav.Store.Owners.{
  get_multisig_address_with_counterparty_from_map, search_owners, sort_texts, insert_text,
  get_create2_multisig_address,
}
use indrav.FreeBalance.{
  xkeys_to_sorted_kth_addresses, sort_addresses, deserialize_free_balance_state,
  free_balance_add_active_app, from_app_instance, increment, serialize_free_balance_state,
  to_app_instance, free_balance_remove_active_app,
}
use indrav.StateChannel.Installs.{add_agreement, remove_agreement}
use indrav.StateChannel.Operations.{
  build, add_active_app_and_increment_free_balance, add_active_app, add_app_instance,
  increment_free_balance, set_free_balance, remove_app_instance,
  remove_active_app_and_increment_free_balance, remove_active_app,
}
use indrav.CoinTransfers.{flip, merge}
use indrav.Protocol.UninstallVirtual.Objects.{
  uninstall_objects_for_initiating, uninstall_objects_for_intermediary,
  uninstall_objects_for_responding,
}
use indrav.Protocol.UninstallVirtual.{
  get_state_channel_from_map_with_owners, lock_outcome, pass_through_commitment,
}
use indrav.Outcome.{compute_token_indexed_free_balance_increments, two_party_increments}
use indrav.Tests.Toy.{toy, toy_chain, toy_ethereum, network}
use indrav.Tests.Table.{signer_of}
use indrav.Tests.Virtual.{virtual, ledger_of, virtual_game}

-- The channels of the two users with the intermediary, at addresses of their own.
abbrev initiator_channel : StateChannel
initiator_channel = record (ledger_of 1 100) { multisig_address = 81 }

abbrev responder_channel : StateChannel
responder_channel = record (ledger_of 2 200) { multisig_address = 82 }

-- A party's context: its stored channels and the data of the message that it received.
abbrev party : {P : Type 0} → P → Dict StateChannel → CustomData → Context P
party params channels received = record {
  network = network;
  state_channels_map = channels;
  process_id = 1;
  params = params;
  custom_data = received;
}

abbrev reply : CustomData → ProtocolMessage
reply = answer 1 Protocol.install_virtual_app 0

-- The addresses of the channels in each list that is persisted.
abbrev addresses : {A : Type 0} → Trace A → List (List ℕ)
addresses t = map (map (λ sc. sc.multisig_address)) t.persisted

abbrev installs_i : Context InstallVirtualAppProtocolParams
installs_i = party virtual ((81, initiator_channel) ∷ []) no_data

abbrev installs_m : Context InstallVirtualAppProtocolParams
installs_m =
    party virtual ((81, initiator_channel) ∷ (82, responder_channel) ∷ [])
      (with_three_signatures 100 (identity_hash virtual_game) 0)

abbrev installs_r : Context InstallVirtualAppProtocolParams
installs_r = party virtual ((82, responder_channel) ∷ []) (with_signature 300)

abbrev installed_i : Trace (Dict StateChannel)
installed_i =
    play (signer_of 1)
      (reply (with_two_signatures 300 300) ∷ reply (with_three_signatures 300 200 200) ∷ [])
      (install_virtual_initiating installs_i)

abbrev installed_m : Trace (Dict StateChannel)
installed_m =
    play (signer_of 3)
      (reply (with_two_signatures 200 200)
        ∷ reply (with_three_signatures 100 100 100)
        ∷ reply (with_two_signatures 200 200)
        ∷ [])
      (install_virtual_intermediary installs_m)

abbrev installed_r : Trace (Dict StateChannel)
installed_r =
    play (signer_of 2)
      (reply (record (with_three_signatures 300 300 100) { signature4 = some 100 }) ∷ [])
      (install_virtual_responding installs_r)

all_install :
    (addresses installed_i ≡ (81 ∷ 441 ∷ 741 ∷ []) ∷ [])
    × (addresses installed_m ≡ (741 ∷ 82 ∷ 81 ∷ []) ∷ [])
    × (addresses installed_r ≡ (82 ∷ 741 ∷ 441 ∷ []) ∷ [])
unfolding install_virtual_initiating install_virtual_intermediary install_virtual_responding
    objects_for_initiating get_or_create_state_channel_with_users
    get_multisig_address_with_counterparty_from_map search_owners sort_texts insert_text
    get_create2_multisig_address xkeys_to_sorted_kth_addresses sort_addresses create_empty_channel
    new_state_channel virtual_app_instance virtual_interpreter_parameters
    time_locked_pass_through_app add_agreement build add_active_app_and_increment_free_balance
    app_from_json app_to_json encoded_latest_state hash_of_latest_state set_app_state flip merge
    assert_is_valid_signature get_signed_transaction get_transaction_details hash_to_sign
    state_commitment deserialize_free_balance_state free_balance_add_active_app from_app_instance
    increment serialize_free_balance_state to_app_instance ◌+ℤ◌ ◌-ℤ◌ install_virtual_initiating_apps
    install_virtual_intermediary_apps install_virtual_intermediary_end objects_for_intermediary
    objects_for_responding install_virtual_responding_apps agreement_conditional
    default_timeout_commitment add_active_app add_app_instance increment_free_balance
    set_free_balance free_balance get_agreement_from_virtual_app get_free_balance_class
    get_multisig_owner_addr_of get_signing_keys_for
all_install = (refl, refl, refl)

install_virtual-Ensures_example :
    Ensures
      (Persists (InitiatingAgreed installs_i) initiating_list)
      (Returns (InitiatingAgreed installs_i) user_map)
      (install_virtual_initiating installs_i)
    × Ensures
        (Persists (MediatingAgreed installs_m) intermediary_list)
        (Returns (MediatingAgreed installs_m) intermediary_map)
        (install_virtual_intermediary installs_m)
    × Ensures
        (Persists (RespondingAgreed installs_r) responding_list)
        (Returns (RespondingAgreed installs_r) user_map)
        (install_virtual_responding installs_r)
install_virtual-Ensures_example = install_virtual-Ensures installs_i installs_m installs_r

-- The channels that a party has when the installation has returned.
abbrev left_with : Trace (Dict StateChannel) → Dict StateChannel
left_with t = elim t.result [ none ↦ [] | some channels ↦ channels ]

abbrev leaving : UninstallVirtualAppProtocolParams
leaving = uninstalling virtual (identity_hash virtual_game) 11

abbrev leaves_i : Context UninstallVirtualAppProtocolParams
leaves_i = party leaving (left_with installed_i) no_data

abbrev leaves_m : Context UninstallVirtualAppProtocolParams
leaves_m = party leaving (left_with installed_m) (with_signature 100)

abbrev leaves_r : Context UninstallVirtualAppProtocolParams
leaves_r = party leaving (left_with installed_r) (with_two_signatures 100 300)

abbrev left_i : Trace (Dict StateChannel)
left_i =
    play (signer_of 1) (reply (with_two_signatures 200 300) ∷ reply (with_signature 300) ∷ [])
      (uninstall_virtual_initiating leaves_i)

abbrev left_m : Trace (Dict StateChannel)
left_m =
    play (signer_of 3)
      (reply (with_signature 200) ∷ reply (with_signature 100) ∷ reply (with_signature 200) ∷ [])
      (uninstall_virtual_intermediary leaves_m)

abbrev left_r : Trace (Dict StateChannel)
left_r =
    play (signer_of 2) (reply (with_signature 300) ∷ []) (uninstall_virtual_responding leaves_r)

all_leave :
    (addresses left_i ≡ (81 ∷ 741 ∷ 441 ∷ []) ∷ [])
    × (addresses left_m ≡ (81 ∷ 741 ∷ 82 ∷ []) ∷ [])
    × (addresses left_r ≡ (441 ∷ 741 ∷ 82 ∷ []) ∷ [])
unfolding uninstall_virtual_initiating uninstall_virtual_intermediary uninstall_virtual_responding
    install_virtual_initiating install_virtual_intermediary install_virtual_responding
    objects_for_initiating get_or_create_state_channel_with_users
    get_multisig_address_with_counterparty_from_map search_owners sort_texts insert_text
    get_create2_multisig_address xkeys_to_sorted_kth_addresses sort_addresses create_empty_channel
    new_state_channel virtual_app_instance virtual_interpreter_parameters
    time_locked_pass_through_app add_agreement build add_active_app_and_increment_free_balance
    app_from_json app_to_json encoded_latest_state hash_of_latest_state set_app_state flip merge
    assert_is_valid_signature get_signed_transaction get_transaction_details hash_to_sign
    state_commitment deserialize_free_balance_state free_balance_add_active_app from_app_instance
    increment serialize_free_balance_state to_app_instance ◌+ℤ◌ ◌-ℤ◌ install_virtual_initiating_apps
    install_virtual_intermediary_apps install_virtual_intermediary_end objects_for_intermediary
    objects_for_responding install_virtual_responding_apps agreement_conditional
    default_timeout_commitment add_active_app add_app_instance increment_free_balance
    set_free_balance free_balance get_agreement_from_virtual_app get_free_balance_class
    get_multisig_owner_addr_of get_signing_keys_for uninstall_objects_for_initiating
    get_state_channel_from_map_with_owners get_app_instance
    compute_token_indexed_free_balance_increments two_party_outcome_interpreter_params
    remove_app_instance two_party_increments remove_agreement
    remove_active_app_and_increment_free_balance remove_active_app free_balance_remove_active_app
    lock_outcome pass_through_commitment uninstall_objects_for_intermediary
    uninstall_virtual_intermediary_balances uninstall_objects_for_responding
all_leave = (refl, refl, refl)

uninstall_virtual-Ensures_example :
    Ensures
      (Persists (InitiatingLeft leaves_i) initiating_left)
      (Returns (InitiatingLeft leaves_i) user_map_left)
      (uninstall_virtual_initiating leaves_i)
    × Ensures
        (Persists (MediatingLeft leaves_m) intermediary_left)
        (Returns (MediatingLeft leaves_m) intermediary_map_left)
        (uninstall_virtual_intermediary leaves_m)
    × Ensures
        (Persists (RespondingLeft leaves_r) responding_left)
        (Returns (RespondingLeft leaves_r) user_map_left)
        (uninstall_virtual_responding leaves_r)
uninstall_virtual-Ensures_example = uninstall_virtual-Ensures leaves_i leaves_m leaves_r
