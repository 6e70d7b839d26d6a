-- ===== src/Protocol/InstallVirtual.antt =====
-- The virtual app installation: modules/cf-core/src/protocol/install-virtual-app.ts. The apps and
-- the channels that its three sides compute are here and in InstallVirtual/Objects, the sides in
-- InstallVirtual/Initiating, Intermediary and Responding.
use indrav.Prelude.{ℕ, Bool, true, Option, none, some, [], ◌∷◌, List}
use indrav.Prelude.Int.{ℤ, pos, ◌+ℤ◌}
use indrav.Prelude.Dict.{Dict, lookup}
use indrav.Prelude.Result.{Result, ok, err, type_error, unsupported_outcome_type, ◌>>=◌}
use indrav.Types.{
  Address, Xpub, Hash, AppState, Agreement, OutcomeType, two_party_fixed_outcome,
  multi_asset_multi_party_coin_transfer, single_asset_two_party_coin_transfer, Platform,
}
use indrav.AppInstance.{AppInstance, identity, identity_hash, hash_of_latest_state}
use indrav.FreeBalance.{sort_addresses, xkey_kth_address}
use indrav.StateChannel.{
  StateChannel, create_empty_channel, num_proposed_apps, free_balance, multisig_owners,
  get_agreement_from_virtual_app,
}
use indrav.Store.Owners.{get_multisig_address_with_counterparty_from_map, owners_after}
use indrav.Commitment.{
  Commitment, NetworkContext, multisig_commitment, conditional_transaction, set_state_commitment,
}
use indrav.Machine.{InstallVirtualAppProtocolParams}
use indrav.Protocol.Install.{InterpreterParams, max_uint256}
pub mod Objects
pub mod Initiating
pub mod Intermediary
pub mod Responding
pub mod Agreed
pub mod InitiatingSafe
pub mod RespondingSafe
pub mod IntermediarySafe
pub mod Safety

-- `computeInterpreterParameters`
unfoldable pub virtual_interpreter_parameters :
    OutcomeType → Address → Address → ℤ → ℤ → Address → Result InterpreterParams
virtual_interpreter_parameters outcome_type initiating responding initiating_decrement
      responding_decrement token =
    elim outcome_type [
      | two_party_fixed_outcome ↦ ok (record {
        two_party = some (record {
          player_addrs = (initiating, responding);
          amount = initiating_decrement +ℤ responding_decrement;
          token_address = token;
        });
        multi_asset = none;
        single_asset = none;
      })
      | single_asset_two_party_coin_transfer ↦ ok (record {
        two_party = none;
        multi_asset = none;
        single_asset = some (record {
          limit = initiating_decrement +ℤ responding_decrement;
          token_address = token;
        });
      })
      | multi_asset_multi_party_coin_transfer ↦ err unsupported_outcome_type
    ]

module _ ⦃p : Platform⦄ where
  -- `constructVirtualAppInstance`
  unfoldable pub virtual_app_instance : InstallVirtualAppProtocolParams → Result AppInstance
  virtual_app_instance params = do
    let initiator_address = xkey_kth_address params.initiator_xpub params.app_seq_no
    let responder_address = xkey_kth_address params.responder_xpub params.app_seq_no
    interpreter ←
        virtual_interpreter_parameters params.outcome_type initiator_address responder_address
          params.initiator_balance_decrement params.responder_balance_decrement params.token_address
    ok (record {
      participants = sort_addresses (initiator_address ∷ responder_address ∷ []);
      default_timeout = params.default_timeout;
      app_interface = params.app_interface;
      is_virtual_app = true;
      app_seq_no = params.app_seq_no;
      latest_state = params.initial_state;
      latest_version_number = 0;
      latest_timeout = params.default_timeout;
      outcome_type = params.outcome_type;
      two_party_internal = interpreter.two_party;
      multi_asset_internal = interpreter.multi_asset;
      single_asset_internal = interpreter.single_asset;
    })

  -- `constructTimeLockedPassThroughAppInstance`
  unfoldable pub time_locked_pass_through_app :
      StateChannel
      → Hash
      → ℕ
      → NetworkContext
      → InstallVirtualAppProtocolParams
      → Result AppInstance
  time_locked_pass_through_app three_party virtual_hash default_outcome network params = do
    let seq_no = num_proposed_apps three_party
    let intermediary_address = xkey_kth_address params.intermediary_xpub seq_no
    let initiator_address = xkey_kth_address params.initiator_xpub seq_no
    let responder_address = xkey_kth_address params.responder_xpub seq_no
    interpreter ←
        virtual_interpreter_parameters params.outcome_type initiator_address responder_address
          params.initiator_balance_decrement params.responder_balance_decrement params.token_address
    ok (record {
      participants =
          sort_addresses (initiator_address ∷ responder_address ∷ intermediary_address ∷ []);
      default_timeout = 100;
      app_interface = record {
        addr = network.time_locked_pass_through;
        state_encoding = p.pass_through_encoding;
        action_encoding = none;
      };
      is_virtual_app = true;
      app_seq_no = seq_no;
      latest_state = AppState.pass_through (record {
        challenge_registry_address = network.challenge_registry;
        target_app_identity_hash = virtual_hash;
        switches_outcome_at = max_uint256;
        default_outcome = default_outcome;
      });
      latest_version_number = 0;
      latest_timeout = 100;
      outcome_type = params.outcome_type;
      two_party_internal = interpreter.two_party;
      multi_asset_internal = interpreter.multi_asset;
      single_asset_internal = interpreter.single_asset;
    })

  -- `getOrCreateStateChannelWithUsers`, with the map that the search leaves.
  unfoldable pub get_or_create_state_channel_with_users :
      Dict StateChannel
      → List Xpub
      → NetworkContext
      → Bool
      → Result (StateChannel × Dict StateChannel)
  get_or_create_state_channel_with_users channels users network allow_generated_multisig = do
    (address, channels') ←
        get_multisig_address_with_counterparty_from_map channels users network.proxy_factory
          network.minimum_viable_multisig allow_generated_multisig
    elim (lookup address channels') [
      | some sc ↦ ok (sc, channels')
      | none ↦ do
        sc ← create_empty_channel address (owners_after channels users)
        ok (sc, channels')
    ]

  -- The agreement on the virtual app between one user and the intermediary.
  abbrev pub intermediary_agreement :
      InstallVirtualAppProtocolParams → AppInstance → Address → Agreement
  intermediary_agreement params pass_through user = record {
    time_locked_pass_through_identity_hash = identity_hash pass_through;
    capital_provided =
        p.to_hex_string (params.initiator_balance_decrement +ℤ params.responder_balance_decrement);
    capital_provider = xkey_kth_address params.intermediary_xpub 0;
    virtual_app_user = user;
    token_address = params.token_address;
  }

  -- `encodeSingleAssetTwoPartyIntermediaryAgreementParams`: the encoder reads the hex text.
  abbrev pub encode_agreement : Agreement → Result ℕ
  encode_agreement agreement = p.encode_virtual_agreement (record {
    capital_provided = p.big_numberify agreement.capital_provided;
    capital_provider = agreement.capital_provider;
    virtual_app_user = agreement.virtual_app_user;
    token_address = agreement.token_address;
  })

  -- The conditional transaction on an agreement of a channel.
  unfoldable pub agreement_conditional :
      NetworkContext → StateChannel → AppInstance → Hash → Result Commitment
  agreement_conditional network sc pass_through virtual_hash = do
    fb ← free_balance sc
    agreement ← get_agreement_from_virtual_app virtual_hash sc
    encoded ← encode_agreement agreement
    ok (
        multisig_commitment (
          conditional_transaction network sc.multisig_address (multisig_owners sc)
            (identity_hash pass_through) (identity_hash fb)
            network.two_party_fixed_outcome_from_virtual_app_interpreter encoded))

  -- The `SetStateCommitment` on an app's latest state with the app's own timeout.
  unfoldable pub default_timeout_commitment : NetworkContext → AppInstance → Result Commitment
  default_timeout_commitment network app = do
    hash ← hash_of_latest_state app
    ok (
        set_state_commitment network (identity app) hash app.latest_version_number
          app.default_timeout)

  -- What stands for a text that a message lacks.
  abbrev pub text_of : Option ℕ → ℕ
  text_of none = p.undefined_text
  text_of (some text) = text

-- `state["defaultOutcome"]` of the pass-through app, which has it.
abbrev pub default_outcome_of : AppInstance → Result ℕ
default_outcome_of app = elim app.latest_state [
  | AppState.pass_through t ↦ ok t.default_outcome
  | _ ↦ err type_error
]
