-- ===== src/Tests/Channel.antt =====
-- The theorems on channels at a concrete one: a game is installed in it and uninstalled.
use indrav.Prelude.{◌≡◌, refl, inl, none, arith}
use indrav.Prelude.Dict.{lookup}
use indrav.Prelude.Int.{◌+ℤ◌, ◌-ℤ◌}
use indrav.Prelude.Result.{ok}
use indrav.CoinTransfers.{flip, flip_token_indexed_balances, flip_tokens_onto, merge}
use indrav.AppInstance.{identity_hash, app_from_json, app_to_json, set_app_state}
use indrav.FreeBalance.{
  FreeBalance, increment, sort_addresses, from_app_instance, create_free_balance,
  deserialize_free_balance_state, serialize_free_balance_state, xkeys_to_sorted_kth_addresses,
  free_balance_add_active_app, free_balance_remove_active_app, to_app_instance,
}
use indrav.FreeBalance.Ledger.{IsNonnegative}
use indrav.StateChannel.{
  StateChannel, get_signing_keys_for, setup_channel, new_state_channel, get_free_balance_class,
  free_balance, get_app_instance,
}
use indrav.StateChannel.Operations.{
  build, increment_free_balance, set_free_balance, add_active_app, remove_active_app,
  remove_proposal, add_active_app_and_increment_free_balance,
  remove_active_app_and_increment_free_balance,
}
use indrav.StateChannel.Installs.{install_app, uninstall_app}
use indrav.StateChannel.Installed.{Installed, install_app-Installed}
use indrav.StateChannel.Uninstalled.{Uninstalled, uninstall_app-Uninstalled}
use indrav.StateChannel.RoundTrip.{
  SameHoldings, uninstall_app-install_app, others_untouched, install-IsNonnegative,
}
use indrav.Tests.Toy.{toy, toy_laws, funded, stakes, game, value_of, blank, empty_balance}

abbrev playing : StateChannel
playing = value_of blank (install_app game stakes funded)

abbrev finished : StateChannel
finished = value_of blank (uninstall_app 3306 stakes playing)

abbrev balance_before : FreeBalance
balance_before = value_of empty_balance (get_free_balance_class funded)

abbrev balance_after : FreeBalance
balance_after = value_of empty_balance (get_free_balance_class playing)

installs : install_app game stakes funded ≡ ok playing
unfolding install_app get_signing_keys_for sort_addresses setup_channel new_state_channel
    increment_free_balance get_free_balance_class free_balance from_app_instance create_free_balance
    deserialize_free_balance_state serialize_free_balance_state increment merge
    xkeys_to_sorted_kth_addresses ◌+ℤ◌ set_free_balance app_from_json app_to_json set_app_state flip
    flip_token_indexed_balances flip_tokens_onto free_balance_add_active_app to_app_instance ◌-ℤ◌
    add_active_app add_active_app_and_increment_free_balance build remove_proposal
installs = refl

uninstalls : uninstall_app 3306 stakes playing ≡ ok finished
unfolding install_app get_signing_keys_for sort_addresses setup_channel new_state_channel
    increment_free_balance get_free_balance_class free_balance from_app_instance create_free_balance
    deserialize_free_balance_state serialize_free_balance_state increment merge
    xkeys_to_sorted_kth_addresses ◌+ℤ◌ set_free_balance app_from_json app_to_json set_app_state flip
    flip_token_indexed_balances flip_tokens_onto free_balance_add_active_app to_app_instance ◌-ℤ◌
    add_active_app add_active_app_and_increment_free_balance build remove_proposal uninstall_app
    get_app_instance free_balance_remove_active_app remove_active_app
    remove_active_app_and_increment_free_balance
uninstalls = refl

not_installed : lookup (identity_hash game) funded.app_instances ≡ none
unfolding setup_channel new_state_channel increment_free_balance get_free_balance_class free_balance
    from_app_instance create_free_balance deserialize_free_balance_state
    serialize_free_balance_state increment merge xkeys_to_sorted_kth_addresses sort_addresses ◌+ℤ◌
    set_free_balance app_from_json app_to_json set_app_state to_app_instance build
not_installed = refl

reads_before : get_free_balance_class funded ≡ ok balance_before
unfolding setup_channel new_state_channel increment_free_balance get_free_balance_class free_balance
    from_app_instance create_free_balance deserialize_free_balance_state
    serialize_free_balance_state increment merge xkeys_to_sorted_kth_addresses sort_addresses ◌+ℤ◌
    set_free_balance app_from_json app_to_json set_app_state to_app_instance build
reads_before = refl

reads_after : get_free_balance_class playing ≡ ok balance_after
unfolding install_app get_signing_keys_for sort_addresses setup_channel new_state_channel
    increment_free_balance get_free_balance_class free_balance from_app_instance create_free_balance
    deserialize_free_balance_state serialize_free_balance_state increment merge
    xkeys_to_sorted_kth_addresses ◌+ℤ◌ set_free_balance app_from_json app_to_json set_app_state flip
    flip_token_indexed_balances flip_tokens_onto free_balance_add_active_app to_app_instance ◌-ℤ◌
    add_active_app add_active_app_and_increment_free_balance build remove_proposal
reads_after = refl

IsNonnegative-before : IsNonnegative balance_before
unfolding setup_channel new_state_channel increment_free_balance get_free_balance_class free_balance
    from_app_instance create_free_balance deserialize_free_balance_state
    serialize_free_balance_state increment merge xkeys_to_sorted_kth_addresses sort_addresses ◌+ℤ◌
    set_free_balance app_from_json app_to_json set_app_state to_app_instance build
IsNonnegative-before t u = ground arith

install_app-Installed_example : Installed game stakes funded playing
install_app-Installed_example =
    install_app-Installed toy_laws game stakes funded (refl, (refl, (refl, tt)), tt) (refl, tt)
      installs

uninstall_app-Uninstalled_example : Uninstalled 3306 stakes playing finished
uninstall_app-Uninstalled_example =
    uninstall_app-Uninstalled toy_laws 3306 stakes playing (refl, tt) (refl, tt) uninstalls

uninstall_app-install_app_example : SameHoldings funded finished
uninstall_app-install_app_example =
    uninstall_app-install_app toy_laws game stakes funded (refl, (refl, (refl, tt)), tt) (refl, tt)
      not_installed installs uninstalls

others_untouched_example : lookup 5 playing.app_instances ≡ lookup 5 funded.app_instances
others_untouched_example =
    others_untouched toy_laws game stakes funded 5 (refl, (refl, (refl, tt)), tt) (refl, tt)
      (λ e. absurd (omega arith)) (inl installs)

install-IsNonnegative_example : IsNonnegative balance_after
install-IsNonnegative_example =
    install-IsNonnegative toy_laws game stakes funded (refl, (refl, (refl, tt)), tt) (refl, tt)
      (inl installs) reads_before reads_after IsNonnegative-before
