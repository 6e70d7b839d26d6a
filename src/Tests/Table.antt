-- ===== src/Tests/Table.antt =====
-- A stored channel with a game in it, and the parameters of a run of each protocol on it.
use indrav.Prelude.{ℕ, ◌+◌, ◌*◌, false, Option, none, some, [], ◌∷◌}
use indrav.Prelude.Int.{pos}
use indrav.Types.{AppState, two_party_fixed_outcome, multi_asset_multi_party_coin_transfer}
use indrav.AppInstance.{AppInstance, identity}
use indrav.StateChannel.{StateChannel}
use indrav.Machine.{
  Context, no_data, UpdateProtocolParams, TakeActionProtocolParams, UninstallProtocolParams,
  SetupProtocolParams, InstallProtocolParams, ProposeInstallProtocolParams,
}
use indrav.Protocol.{with_signature}
use indrav.Commitment.{set_state_commitment, Signature, Commitment}
use indrav.Tests.Toy.{toy, network, game}

-- The channel 77 with the game in it, as it is stored, and the deposits without the stakes.
abbrev pub balance_app : AppInstance
balance_app = record {
  participants = 100 ∷ 200 ∷ [];
  default_timeout = 172800;
  app_interface = record { addr = 62; state_encoding = 50; action_encoding = none };
  is_virtual_app = false;
  app_seq_no = 0;
  latest_state = AppState.free_balance (record {
    token_addresses = 0 ∷ [];
    balances =
        (record { to = 100; amount_hex = 14 } ∷ record { to = 200; amount_hex = 32 } ∷ []) ∷ [];
    active_apps = 3306 ∷ [];
  });
  latest_version_number = 2;
  latest_timeout = 172800;
  outcome_type = multi_asset_multi_party_coin_transfer;
  two_party_internal = none;
  multi_asset_internal = none;
  single_asset_internal = none;
}

abbrev pub table : StateChannel
table = record {
  multisig_address = 77;
  user_neutered_extended_keys = 1 ∷ 2 ∷ [];
  proposed_app_instances = [];
  app_instances = (3306, game) ∷ [];
  agreements = [];
  free_balance_app_instance = some balance_app;
  monotonic_num_proposed_apps = 3;
}

-- A message's context at either side, without a signature and with one.
abbrev pub context_of : {P : Type 0} → P → Context P
context_of params = record {
  network = network;
  state_channels_map = (77, table) ∷ [];
  process_id = 1;
  params = params;
  custom_data = no_data;
}

abbrev pub receives : {P : Type 0} → P → Signature → Context P
receives params s = record (context_of params) { custom_data = with_signature s }

-- A party signs with the key that it is asked for.
abbrev pub signer_of : ℕ → Commitment → Option ℕ → Signature
signer_of xpub c none = xpub * 100
signer_of xpub c (some k) = xpub * 100 + k

-- The parameters of a run of each protocol on the table.
abbrev pub update : UpdateProtocolParams
update = record {
  initiator_xpub = 1;
  responder_xpub = 2;
  multisig_address = 77;
  app_identity_hash = 3306;
  new_state = AppState.opaque 5;
}

abbrev pub action : TakeActionProtocolParams
action = record {
  initiator_xpub = 1;
  responder_xpub = 2;
  multisig_address = 77;
  app_identity_hash = 3306;
  action = 9;
}

abbrev pub uninstall : UninstallProtocolParams
uninstall = record {
  app_identity_hash = 3306;
  initiator_xpub = 1;
  responder_xpub = 2;
  multisig_address = 77;
}

abbrev pub setup : SetupProtocolParams
setup = record { initiator_xpub = 1; responder_xpub = 2; multisig_address = 78 }

abbrev pub propose : ProposeInstallProtocolParams
propose = record {
  multisig_address = 77;
  initiator_xpub = 1;
  responder_xpub = 2;
  app_definition = 71;
  state_encoding = 53;
  action_encoding = none;
  initiator_deposit = pos 1;
  initiator_deposit_token_address = none;
  responder_deposit = pos 2;
  responder_deposit_token_address = some 5;
  timeout = 12;
  initial_state = AppState.opaque 4;
  outcome_type = multi_asset_multi_party_coin_transfer;
}

abbrev pub install : InstallProtocolParams
install = record {
  initiator_xpub = 1;
  initiator_deposit_token_address = 0;
  responder_xpub = 2;
  responder_deposit_token_address = 0;
  multisig_address = 77;
  initiator_balance_decrement = pos 1;
  responder_balance_decrement = pos 2;
  participants = 104 ∷ 204 ∷ [];
  initial_state = AppState.opaque 4;
  app_interface = record { addr = 71; state_encoding = 53; action_encoding = none };
  default_timeout = 12;
  app_seq_no = 4;
  outcome_type = two_party_fixed_outcome;
  disable_limit = false;
}

abbrev pub some_commitment : Commitment
some_commitment = set_state_commitment network (identity game) 0 0 0
