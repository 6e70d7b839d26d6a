-- ===== src/Tests/Toy.antt =====
-- A platform, a chain and a signature scheme that can be computed with, and a funded channel.
use indrav.Prelude.{ℕ, zero, suc, ◌+◌, ◌*◌, ◌≡◌, refl, false, none, some, List, [], ◌∷◌, ltb}
use indrav.Prelude.Int.{ℤ, pos, negsuc}
use indrav.Prelude.Result
use indrav.Prelude.Result.{Result, ok, err, decode_failed}
use indrav.Types.{
  TokenIndexedCoinTransferMap, AppState, two_party_fixed_outcome, Platform, IsPlatform,
}
use indrav.AppInstance.{AppInstance}
use indrav.FreeBalance.{FreeBalance}
use indrav.StateChannel.{StateChannel, setup_channel}
use indrav.StateChannel.Operations.{increment_free_balance}
use indrav.Outcome.{Chain}
use indrav.Commitment.{Ethereum, NetworkContext}

abbrev double : ℕ → ℕ
double zero = zero
double (suc n) = suc (suc (double n))

abbrev hex_of : ℤ → ℕ
hex_of (pos n) = double n
hex_of (negsuc n) = suc (double n)

abbrev away_from_zero : ℤ → ℤ
away_from_zero (pos n) = pos (suc n)
away_from_zero (negsuc n) = negsuc (suc n)

abbrev pub number_of : ℕ → ℤ
number_of zero = pos zero
number_of (suc zero) = negsuc zero
number_of (suc (suc n)) = away_from_zero (number_of n)

number_of-double : (n : ℕ) → number_of (double n) ≡ pos n
number_of-double zero = refl
number_of-double (suc n) = rw (number_of-double n)

number_of-suc-double : (n : ℕ) → number_of (suc (double n)) ≡ negsuc n
number_of-suc-double zero = refl
number_of-suc-double (suc n) = rw (number_of-suc-double n)

number_of-hex_of : (a : ℤ) → number_of (hex_of a) ≡ a
number_of-hex_of (pos n) = number_of-double n
number_of-hex_of (negsuc n) = number_of-suc-double n

abbrev sum : List ℕ → ℕ
sum [] = 0
sum (x ∷ xs) = x + sum xs

instance abbrev pub toy : Platform
toy = record {
  address_zero = 0;
  undefined_text = 9;
  get_address = λ a. a;
  to_hex_string = hex_of;
  big_numberify = number_of;
  parse_hex = λ a. a;
  is_xpub = λ x. ltb 0 x;
  derive_address = λ x k. x * 100 + k;
  hash_identity = λ nonce participants. nonce * 1000 + sum participants;
  encode_state = λ encoding s. elim s [
    | AppState.free_balance _ ↦ ok encoding
    | AppState.refund _ ↦ ok (encoding + 1)
    | AppState.pass_through t ↦ ok (encoding + 3)
    | AppState.opaque n ↦ ok (encoding + 2 + n)
  ];
  encode_two_party_params = λ _. ok 21;
  encode_multi_asset_params = λ _. ok 22;
  encode_single_asset_params = λ _. ok 23;
  encode_virtual_agreement = λ _. ok 24;
  keccak256 = λ n. n;
  free_balance_encoding = 50;
  pass_through_encoding = 54;
  text_before = ltb;
  create2_hash = λ owners proxy copy. sum owners + proxy + copy;
  coin_balance_refund_encoding = 51;
}

pub toy_laws : IsPlatform toy
toy_laws = record {
  get_address_idem = λ a. refl;
  address_zero_fixed = refl;
  hex_round_trip = number_of-hex_of;
}

-- Every outcome is a pair of transfers whose first amount is the number of the query.
instance abbrev pub toy_chain : Chain
toy_chain = record {
  compute_outcome = λ n _. ok n;
  block_number = ok (pos 1000);
  decode_two_transfers =
      λ n. ok (record { to = 100; amount = number_of n }, record { to = 200; amount = pos 0 });
  decode_transfer_lists = λ _. err decode_failed;
  decode_number = λ n. ok n;
  encode_action = λ _ n. ok n;
  apply_action = λ _ s a. ok (s + a);
  decode_state = λ _ n. ok (AppState.opaque n);
}

-- A signature is the address of its signer.
instance abbrev pub toy_ethereum : Ethereum
toy_ethereum = record {
  pack_set_state = λ identity version timeout hash. identity + version + timeout + hash;
  pack_multisig = λ owners t. sum owners + t.call_data;
  encode_execute_effect_of_app = λ _ app _ _ _. app;
  encode_execute_effect_of_free_balance = λ _ fb _. fb;
  encode_erc20_transfer = λ to _. to;
  empty_call_data = 0;
  encode_exec_transaction = λ t signatures. t.call_data + sum signatures;
  encode_set_state = λ _ update. update.version_number;
  join_signature = λ s. s;
  recover_address = λ _ s. ok s;
  address_number = λ a. a;
}

abbrev pub network : NetworkContext
network = record {
  challenge_registry = 60;
  conditional_transaction_delegate_target = 61;
  identity_app = 62;
  coin_balance_refund_app = 63;
  multi_asset_multi_party_coin_transfer_interpreter = 64;
  single_asset_two_party_coin_transfer_interpreter = 65;
  two_party_fixed_outcome_interpreter = 66;
  two_party_fixed_outcome_from_virtual_app_interpreter = 67;
  time_locked_pass_through = 68;
  minimum_viable_multisig = 69;
  proxy_factory = 72;
}

abbrev pub value_of {ℓ} : {A : Type ℓ} → A → Result A → A
value_of default (ok a) = a
value_of default (err _) = default

abbrev pub blank : StateChannel
blank = record {
  multisig_address = 0;
  user_neutered_extended_keys = [];
  proposed_app_instances = [];
  app_instances = [];
  agreements = [];
  free_balance_app_instance = none;
  monotonic_num_proposed_apps = 0;
}

abbrev deposits : TokenIndexedCoinTransferMap
deposits = (0, (100, pos 10) ∷ (200, pos 20) ∷ []) ∷ []

-- The channel at the multisig 77 of the keys 1 and 2, with 10 and 20 wei in it.
abbrev pub funded : StateChannel
funded =
    value_of blank
      (Result.◌>>=◌ (setup_channel 62 77 (1 ∷ 2 ∷ []) none) (increment_free_balance deposits))

abbrev pub stakes : TokenIndexedCoinTransferMap
stakes = (0, (100, pos 3) ∷ (200, pos 4) ∷ []) ∷ []

abbrev pub game : AppInstance
game = record {
  participants = 103 ∷ 203 ∷ [];
  default_timeout = 8;
  app_interface = record { addr = 70; state_encoding = 51; action_encoding = some 52 };
  is_virtual_app = false;
  app_seq_no = 3;
  latest_state = AppState.opaque 1;
  latest_version_number = 0;
  latest_timeout = 8;
  outcome_type = two_party_fixed_outcome;
  two_party_internal =
      some (record { player_addrs = (100, 200); amount = pos 7; token_address = 0 });
  multi_asset_internal = none;
  single_asset_internal = none;
}

abbrev pub empty_balance : FreeBalance
empty_balance = record { active_apps_map = []; balances_indexed_by_token = [] }

-- A chain on which the deposit never grows.
abbrev pub dry_chain : Chain
dry_chain = record toy_chain {
  decode_two_transfers =
      λ n. ok (record { to = 100; amount = pos 0 }, record { to = 200; amount = pos 0 });
}
