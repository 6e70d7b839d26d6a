-- ===== src/AppInstance.antt =====
-- The model of an installed app: modules/cf-core/src/models/app-instance.ts, with
-- modules/cf-core/src/ethereum/utils/app-identity.ts. The getters are memoized there, which a
-- value does not show.
use indrav.Prelude.{ℕ, ◌+◌, Bool, not, Option, none, some, List, if◌then◌else◌}
use indrav.Prelude.Lists.{get_or}
use indrav.Prelude.Result.{
  Result, ok, err, invalid_state_object, invalid_accessor, type_error,
  unimplemented_interpreter_params, ◌>>=◌, or_throw,
}
use indrav.Types.{
  Address, Hash, AppState, OutcomeType, two_party_fixed_outcome,
  multi_asset_multi_party_coin_transfer, single_asset_two_party_coin_transfer, AppInterface,
  AppIdentity, TwoPartyFixedOutcomeInterpreterParams,
  MultiAssetMultiPartyCoinTransferInterpreterParams,
  SingleAssetTwoPartyCoinTransferInterpreterParams, Platform,
}

pub record AppInstance : Type 0 where
  pub participants : List Address
  pub default_timeout : ℕ
  pub app_interface : AppInterface
  pub is_virtual_app : Bool
  pub app_seq_no : ℕ
  pub latest_state : AppState
  pub latest_version_number : ℕ
  pub latest_timeout : ℕ
  pub outcome_type : OutcomeType
  pub two_party_internal : Option TwoPartyFixedOutcomeInterpreterParams
  pub multi_asset_internal : Option MultiAssetMultiPartyCoinTransferInterpreterParams
  pub single_asset_internal : Option SingleAssetTwoPartyCoinTransferInterpreterParams

-- `AppInstanceJson`: `bigNumberifyJson` copies the value, drops what is `undefined`, and reads
-- each `{ _hex }` as the number, so the fields are those of the model, and the hash.
pub record AppInstanceJson : Type 0 where
  pub participants : List Address
  pub default_timeout : ℕ
  pub app_interface : AppInterface
  pub is_virtual_app : Bool
  pub app_seq_no : ℕ
  pub latest_state : AppState
  pub latest_version_number : ℕ
  pub latest_timeout : ℕ
  pub outcome_type : OutcomeType
  pub two_party_params : Option TwoPartyFixedOutcomeInterpreterParams
  pub multi_asset_params : Option MultiAssetMultiPartyCoinTransferInterpreterParams
  pub single_asset_params : Option SingleAssetTwoPartyCoinTransferInterpreterParams
  pub identity_hash : Hash

unfoldable pub two_party_outcome_interpreter_params :
    AppInstance → Result (Option TwoPartyFixedOutcomeInterpreterParams)
two_party_outcome_interpreter_params a = elim a.outcome_type [
  | two_party_fixed_outcome ↦ ok a.two_party_internal
  | _ ↦ err invalid_accessor
]

unfoldable pub multi_asset_interpreter_params :
    AppInstance → Result (Option MultiAssetMultiPartyCoinTransferInterpreterParams)
multi_asset_interpreter_params a = elim a.outcome_type [
  | multi_asset_multi_party_coin_transfer ↦ ok a.multi_asset_internal
  | _ ↦ err invalid_accessor
]

unfoldable pub single_asset_interpreter_params :
    AppInstance → Result (Option SingleAssetTwoPartyCoinTransferInterpreterParams)
single_asset_interpreter_params a = elim a.outcome_type [
  | single_asset_two_party_coin_transfer ↦ ok a.single_asset_internal
  | _ ↦ err invalid_accessor
]

-- `identity`
abbrev pub identity : AppInstance → AppIdentity
identity a = record {
  participants = a.participants;
  app_definition = a.app_interface.addr;
  default_timeout = a.default_timeout;
  channel_nonce = a.app_seq_no;
}

-- `AppInstance.fromJson`
unfoldable pub app_from_json : AppInstanceJson → AppInstance
app_from_json json = record {
  participants = json.participants;
  default_timeout = json.default_timeout;
  app_interface = json.app_interface;
  is_virtual_app = json.is_virtual_app;
  app_seq_no = json.app_seq_no;
  latest_state = json.latest_state;
  latest_version_number = json.latest_version_number;
  latest_timeout = json.latest_timeout;
  outcome_type = json.outcome_type;
  two_party_internal = json.two_party_params;
  multi_asset_internal = json.multi_asset_params;
  single_asset_internal = json.single_asset_params;
}

module _ ⦃p : Platform⦄ where
  -- `appIdentityToHash`: the app's address and timeout do not enter the hash.
  abbrev pub app_identity_to_hash : AppIdentity → Hash
  app_identity_to_hash i = p.hash_identity i.channel_nonce i.participants

  abbrev pub identity_hash : AppInstance → Hash
  identity_hash a = app_identity_to_hash (identity a)

  -- `toJson`
  unfoldable pub app_to_json : AppInstance → AppInstanceJson
  app_to_json a = record {
    participants = a.participants;
    default_timeout = a.default_timeout;
    app_interface = a.app_interface;
    is_virtual_app = a.is_virtual_app;
    app_seq_no = a.app_seq_no;
    latest_state = a.latest_state;
    latest_version_number = a.latest_version_number;
    latest_timeout = a.latest_timeout;
    outcome_type = a.outcome_type;
    two_party_params = a.two_party_internal;
    multi_asset_params = a.multi_asset_internal;
    single_asset_params = a.single_asset_internal;
    identity_hash = identity_hash a;
  }

  unfoldable pub encoded_latest_state : AppInstance → Result ℕ
  encoded_latest_state a = p.encode_state a.app_interface.state_encoding a.latest_state

  unfoldable pub hash_of_latest_state : AppInstance → Result Hash
  hash_of_latest_state a = encoded_latest_state a >>= λ bytes. ok (p.keccak256 bytes)

  -- `setState`: the timeout defaults to the app's own.
  unfoldable pub set_app_state : AppState → Option ℕ → AppInstance → Result AppInstance
  set_app_state new_state timeout a =
      elim (p.encode_state a.app_interface.state_encoding new_state) [
        | err _ ↦ err invalid_state_object
        | ok _ ↦
            let json = app_to_json a in
            ok (
              app_from_json (record json {
                latest_state = new_state;
                latest_version_number = a.latest_version_number + 1;
                latest_timeout = elim timeout [ none ↦ a.default_timeout | some t ↦ t ];
              }))
      ]

  -- `encodedInterpreterParams` of an app that a multisig funds.
  direct_interpreter_params : AppInstance → Result ℕ
  direct_interpreter_params a = elim a.outcome_type [
    | single_asset_two_party_coin_transfer ↦ do
      params ← single_asset_interpreter_params a
      p.encode_single_asset_params (← or_throw params type_error)
    | multi_asset_multi_party_coin_transfer ↦ do
      params ← multi_asset_interpreter_params a
      p.encode_multi_asset_params (← or_throw params type_error)
    | two_party_fixed_outcome ↦ do
      params ← two_party_outcome_interpreter_params a
      p.encode_two_party_params (← or_throw params type_error)
  ]

  -- `encodedInterpreterParams` of a virtual app.
  virtual_interpreter_params : AppInstance → Result ℕ
  virtual_interpreter_params a = elim a.outcome_type [
    | single_asset_two_party_coin_transfer ↦ do
      params ← single_asset_interpreter_params a
      s ← or_throw params type_error
      p.encode_virtual_agreement (record {
        capital_provided = s.limit;
        capital_provider = get_or a.participants 0 0;
        virtual_app_user = get_or a.participants 1 0;
        token_address = s.token_address;
      })
    | multi_asset_multi_party_coin_transfer ↦ err unimplemented_interpreter_params
    | two_party_fixed_outcome ↦ do
      params ← two_party_outcome_interpreter_params a
      t ← or_throw params type_error
      p.encode_virtual_agreement (record {
        capital_provided = t.amount;
        capital_provider = t.player_addrs.0;
        virtual_app_user = t.player_addrs.1;
        token_address = t.token_address;
      })
  ]

  unfoldable pub encoded_interpreter_params : AppInstance → Result ℕ
  unfolding direct_interpreter_params virtual_interpreter_params
  encoded_interpreter_params a =
      if not a.is_virtual_app then direct_interpreter_params a else virtual_interpreter_params a
