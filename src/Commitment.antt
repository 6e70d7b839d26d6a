-- ===== src/Commitment.antt =====
-- The commitments that the parties sign: the classes of modules/cf-core/src/ethereum, the signature
-- functions of modules/cf-core/src/utils.ts and
-- modules/cf-core/src/protocol/utils/signature-validator.ts.
use indrav.Prelude.{ℕ, Option, none, some, List, [], ◌∷◌, map, ◌==◌, ltb, if◌then◌else◌}
use indrav.Prelude.Int.{ℤ, pos}
use indrav.Prelude.Result.{Result, ok, err, undefined_signature, invalid_signature, ◌>>=◌, guard}
use indrav.Types.{Address, Hash, AppIdentity, Platform}
use indrav.AppInstance.{AppInstance, identity, app_identity_to_hash, hash_of_latest_state}

abbrev pub Signature : Type 0
Signature = ℕ

-- `MultisigOperation`
pub data MultisigOperation : Type 0 where
  call delegate_call create : MultisigOperation

-- `Node.MinimalTransaction`
pub record MinimalTransaction : Type 0 where
  pub to : Address
  pub value : ℤ
  pub call_data : ℕ

-- `MultisigTransaction`
pub record MultisigTransaction : Type 0 where
  pub to : Address
  pub value : ℤ
  pub call_data : ℕ
  pub operation : MultisigOperation

-- `SignedStateHashUpdate`
pub record SignedStateHashUpdate : Type 0 where
  pub app_state_hash : Hash
  pub version_number : ℕ
  pub timeout : ℕ
  pub signatures : List ℕ

-- The addresses of a `NetworkContext` that cf-core uses.
pub record NetworkContext : Type 0 where
  pub challenge_registry : Address
  pub conditional_transaction_delegate_target : Address
  pub identity_app : Address
  pub coin_balance_refund_app : Address
  pub multi_asset_multi_party_coin_transfer_interpreter : Address
  pub single_asset_two_party_coin_transfer_interpreter : Address
  pub two_party_fixed_outcome_interpreter : Address
  pub two_party_fixed_outcome_from_virtual_app_interpreter : Address
  pub time_locked_pass_through : Address
  pub minimum_viable_multisig : Address
  pub proxy_factory : Address

-- The subclasses of `MultisigCommitment`, with their constructors' arguments in order.
pub data MultisigCommitment : Type 0 where
  conditional_transaction :
      NetworkContext → Address → List Address → Hash → Hash → Address → ℕ → MultisigCommitment
  setup_commitment : NetworkContext → Address → List Address → AppIdentity → MultisigCommitment
  withdraw_eth_commitment : Address → List Address → Address → ℤ → MultisigCommitment
  withdraw_erc20_commitment : Address → List Address → Address → ℤ → Address → MultisigCommitment

-- `EthereumCommitment`
pub data Commitment : Type 0 where
  set_state_commitment : NetworkContext → AppIdentity → Hash → ℕ → ℕ → Commitment
  multisig_commitment : MultisigCommitment → Commitment

-- What the commitments call of ethers: packing with hashing, the ABI encoders of the contracts'
-- functions, and the signature functions.
pub record Ethereum : Type 0 where
  pub pack_set_state : Hash → ℕ → ℕ → Hash → Hash
  pub pack_multisig : List Address → MultisigTransaction → Hash
  pub encode_execute_effect_of_app : Address → Hash → Hash → Address → ℕ → ℕ
  pub encode_execute_effect_of_free_balance : Address → Hash → Address → ℕ
  pub encode_erc20_transfer : Address → ℤ → ℕ
  pub empty_call_data : ℕ
  pub encode_exec_transaction : MultisigTransaction → List ℕ → ℕ
  pub encode_set_state : AppIdentity → SignedStateHashUpdate → ℕ
  pub join_signature : Signature → ℕ
  pub recover_address : Hash → Signature → Result Address
  pub address_number : Address → ℕ

abbrev owners_of : MultisigCommitment → List Address
owners_of (conditional_transaction network multisig owners app fb interpreter params) = owners
owners_of (setup_commitment network multisig owners fb_identity) = owners
owners_of (withdraw_eth_commitment multisig owners to value) = owners
owners_of (withdraw_erc20_commitment multisig owners to value token) = owners

abbrev multisig_of : MultisigCommitment → Address
multisig_of (conditional_transaction network multisig owners app fb interpreter params) = multisig
multisig_of (setup_commitment network multisig owners fb_identity) = multisig
multisig_of (withdraw_eth_commitment multisig owners to value) = multisig
multisig_of (withdraw_erc20_commitment multisig owners to value token) = multisig

module _ ⦃p : Platform⦄ ⦃eth : Ethereum⦄ where
  -- `getTransactionDetails` of each subclass, and the choice between them.
  abbrev conditional_transaction_details :
      NetworkContext → Hash → Hash → Address → ℕ → MultisigTransaction
  conditional_transaction_details network app fb interpreter params = record {
    to = network.conditional_transaction_delegate_target;
    value = pos 0;
    call_data =
        eth.encode_execute_effect_of_app network.challenge_registry fb app interpreter params;
    operation = delegate_call;
  }

  abbrev setup_details : NetworkContext → AppIdentity → MultisigTransaction
  setup_details network fb_identity = record {
    to = network.conditional_transaction_delegate_target;
    value = pos 0;
    call_data =
        eth.encode_execute_effect_of_free_balance network.challenge_registry
          (app_identity_to_hash fb_identity)
          network.multi_asset_multi_party_coin_transfer_interpreter;
    operation = delegate_call;
  }

  abbrev withdraw_eth_details : Address → ℤ → MultisigTransaction
  withdraw_eth_details to value = record {
    to = to;
    value = value;
    call_data = eth.empty_call_data;
    operation = call;
  }

  abbrev withdraw_erc20_details : Address → ℤ → Address → MultisigTransaction
  withdraw_erc20_details to value token = record {
    to = token;
    value = pos 0;
    call_data = eth.encode_erc20_transfer to value;
    operation = call;
  }

  unfoldable pub get_transaction_details : MultisigCommitment → MultisigTransaction
  get_transaction_details
        (conditional_transaction network multisig owners app fb interpreter params) =
      conditional_transaction_details network app fb interpreter params
  get_transaction_details (setup_commitment network multisig owners fb_identity) =
      setup_details network fb_identity
  get_transaction_details (withdraw_eth_commitment multisig owners to value) =
      withdraw_eth_details to value
  get_transaction_details (withdraw_erc20_commitment multisig owners to value token) =
      withdraw_erc20_details to value token

  -- `hashToSign` of a `MultisigCommitment`, and of either kind of commitment.
  multisig_hash_to_sign : MultisigCommitment → Hash
  multisig_hash_to_sign m = eth.pack_multisig (owners_of m) (get_transaction_details m)

  unfoldable pub hash_to_sign : Commitment → Hash
  unfolding multisig_hash_to_sign
  hash_to_sign (set_state_commitment network app_identity hash version timeout) =
      eth.pack_set_state (app_identity_to_hash app_identity) version timeout hash
  hash_to_sign (multisig_commitment m) = multisig_hash_to_sign m

  -- The sort of `sortSignaturesBySignerAddress`, on the signers' addresses as numbers.
  insert_signature : ℕ → Signature → List (ℕ × Signature) → List (ℕ × Signature)
  insert_signature n s [] = (n, s) ∷ []
  insert_signature n s ((m, t) ∷ rest) =
      if ltb n m then (n, s) ∷ (m, t) ∷ rest else (m, t) ∷ insert_signature n s rest

  sort_signatures_onto :
      Hash → List Signature → List (ℕ × Signature) → Result (List (ℕ × Signature))
  sort_signatures_onto digest [] sorted = ok sorted
  sort_signatures_onto digest (s ∷ signatures) sorted = do
    signer ← eth.recover_address digest s
    sort_signatures_onto digest signatures (insert_signature (eth.address_number signer) s sorted)

  -- `sortSignaturesBySignerAddress(digest, signatures).map(joinSignature)`
  joined_signatures : Hash → List Signature → Result (List ℕ)
  joined_signatures digest signatures = do
    sorted ← sort_signatures_onto digest signatures []
    ok (map (λ e. eth.join_signature e.1) sorted)

  -- `getSignedTransaction` of a `MultisigCommitment`, and of either kind of commitment.
  multisig_signed_transaction : MultisigCommitment → List Signature → Result MinimalTransaction
  multisig_signed_transaction m sigs = do
    signatures ← joined_signatures (hash_to_sign (multisig_commitment m)) sigs
    ok (record {
      to = multisig_of m;
      value = pos 0;
      call_data = eth.encode_exec_transaction (get_transaction_details m) signatures;
    })

  unfoldable pub get_signed_transaction : Commitment → List Signature → Result MinimalTransaction
  unfolding joined_signatures sort_signatures_onto insert_signature multisig_signed_transaction
  get_signed_transaction (set_state_commitment network app_identity hash version timeout) sigs = do
    signatures ←
        joined_signatures
          (hash_to_sign (set_state_commitment network app_identity hash version timeout)) sigs
    ok (record {
      to = network.challenge_registry;
      value = pos 0;
      call_data = eth.encode_set_state app_identity (record {
        app_state_hash = hash;
        version_number = version;
        timeout = timeout;
        signatures = signatures;
      });
    })
  get_signed_transaction (multisig_commitment m) sigs = multisig_signed_transaction m sigs

  -- `assertIsValidSignature`, on the signature that a message may lack.
  unfoldable pub assert_is_valid_signature :
      Address → Commitment → Option Signature → Result (Unit {0})
  assert_is_valid_signature expected_signer commitment none = err undefined_signature
  assert_is_valid_signature expected_signer commitment (some signature) = do
    signer ← eth.recover_address (hash_to_sign commitment) signature
    guard (p.get_address expected_signer == signer) invalid_signature

  -- The `SetStateCommitment` on an app's latest state.
  unfoldable pub state_commitment : NetworkContext → AppInstance → Result Commitment
  state_commitment network app = do
    hash ← hash_of_latest_state app
    ok (
        set_state_commitment network (identity app) hash app.latest_version_number
          app.latest_timeout)
