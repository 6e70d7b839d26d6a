-- ===== src/Types.antt =====
-- The data of cf-core: the types of modules/cf-types/src/data-types.ts and index.ts that the
-- models and protocols share, and what the code takes from ethers and from the shape of texts.
-- A text (address, extended key, hash, hex string, ABI encoding) is only compared or handed to
-- such a function, so it is a number here; 0 is the empty text.
use indrav.Prelude.{ℕ, ◌≡◌, Bool, Option, List}
use indrav.Prelude.Int.{ℤ}
use indrav.Prelude.Dict.{Dict}
use indrav.Prelude.Result.{Result}

abbrev pub Address : Type 0
Address = ℕ

abbrev pub Xpub : Type 0
Xpub = ℕ

abbrev pub Hash : Type 0
Hash = ℕ

-- The hexadecimal text in the `_hex` field of a serialized `BigNumber`.
abbrev pub Hex : Type 0
Hex = ℕ

-- `CoinTransfer`
pub record CoinTransfer : Type 0 where
  pub to : Address
  pub amount : ℤ

-- `CoinTransferJSON`
pub record CoinTransferJson : Type 0 where
  pub to : Address
  pub amount_hex : Hex

abbrev pub CoinTransferMap : Type 0
CoinTransferMap = Dict ℤ

abbrev pub TokenIndexedCoinTransferMap : Type 0
TokenIndexedCoinTransferMap = Dict CoinTransferMap

-- `FreeBalanceStateJSON`
pub record FreeBalanceStateJson : Type 0 where
  pub token_addresses : List Address
  pub balances : List (List CoinTransferJson)
  pub active_apps : List Hash

-- `CoinBalanceRefundState`; the withdraw protocol leaves the token address out.
pub record RefundState : Type 0 where
  pub recipient : Address
  pub multisig : Address
  pub threshold : ℤ
  pub token_address : Option Address

-- The state of the time-locked pass-through app.
pub record PassThroughState : Type 0 where
  pub challenge_registry_address : Address
  pub target_app_identity_hash : Hash
  pub switches_outcome_at : ℤ
  pub default_outcome : ℕ

-- A `SolidityValueType` by the properties that cf-core reads; `opaque` has none of them.
pub data AppState : Type 0 where
  free_balance : FreeBalanceStateJson → AppState
  refund : RefundState → AppState
  pass_through : PassThroughState → AppState
  opaque : ℕ → AppState

pub data OutcomeType : Type 0 where
  two_party_fixed_outcome : OutcomeType
  multi_asset_multi_party_coin_transfer : OutcomeType
  single_asset_two_party_coin_transfer : OutcomeType

pub record AppInterface : Type 0 where
  pub addr : Address
  pub state_encoding : ℕ
  pub action_encoding : Option ℕ

pub record TwoPartyFixedOutcomeInterpreterParams : Type 0 where
  pub player_addrs : Address × Address
  pub amount : ℤ
  pub token_address : Address

pub record MultiAssetMultiPartyCoinTransferInterpreterParams : Type 0 where
  pub limit : List ℤ
  pub token_addresses : List Address

pub record SingleAssetTwoPartyCoinTransferInterpreterParams : Type 0 where
  pub limit : ℤ
  pub token_address : Address

-- The tuple of `virtualAppAgreementEncoding`.
pub record VirtualAppAgreement : Type 0 where
  pub capital_provided : ℤ
  pub capital_provider : Address
  pub virtual_app_user : Address
  pub token_address : Address

pub record AppIdentity : Type 0 where
  pub participants : List Address
  pub app_definition : Address
  pub default_timeout : ℕ
  pub channel_nonce : ℕ

-- `AppInstanceProposal`
pub record AppInstanceProposal : Type 0 where
  pub identity_hash : Hash
  pub app_definition : Address
  pub state_encoding : ℕ
  pub action_encoding : Option ℕ
  pub initiator_deposit : Hex
  pub initiator_deposit_token_address : Address
  pub responder_deposit : Hex
  pub responder_deposit_token_address : Address
  pub timeout : Hex
  pub initial_state : AppState
  pub app_seq_no : ℕ
  pub proposed_by_identifier : Xpub
  pub proposed_to_identifier : Xpub
  pub outcome_type : OutcomeType

-- `SingleAssetTwoPartyIntermediaryAgreement`
pub record Agreement : Type 0 where
  pub time_locked_pass_through_identity_hash : Hash
  pub capital_provided : Hex
  pub capital_provider : Address
  pub virtual_app_user : Address
  pub token_address : Address

-- What cf-core calls and does not implement: ethers' hex, address and hash functions, and the
-- reading of a text by `parseInt(text, 16)` and `startsWith("xpub")`.
pub record Platform : Type 0 where
  pub address_zero : Address
  -- the text "undefined", which an absent value is as the key of an object
  pub undefined_text : Address
  pub get_address : Address → Address
  pub to_hex_string : ℤ → Hex
  pub big_numberify : Hex → ℤ
  pub parse_hex : Address → ℕ
  pub is_xpub : Xpub → Bool
  -- `computeAddress(fromExtendedKey(xkey).derivePath(k).publicKey)`
  pub derive_address : Xpub → ℕ → Address
  -- `keccak256(defaultAbiCoder.encode(["uint256", "address[]"], [nonce, participants]))`
  pub hash_identity : ℕ → List Address → Hash
  -- `defaultAbiCoder.encode([encoding], [state])`, which throws on a state of another shape
  pub encode_state : ℕ → AppState → Result ℕ
  -- the encoding of what has another type than a state
  pub encode_two_party_params : TwoPartyFixedOutcomeInterpreterParams → Result ℕ
  pub encode_multi_asset_params : MultiAssetMultiPartyCoinTransferInterpreterParams → Result ℕ
  pub encode_single_asset_params : SingleAssetTwoPartyCoinTransferInterpreterParams → Result ℕ
  pub encode_virtual_agreement : VirtualAppAgreement → Result ℕ
  pub keccak256 : ℕ → Hash
  -- the `stateEncoding` of the free balance app
  pub free_balance_encoding : ℕ
  -- the `stateEncoding` of the time-locked pass-through app
  pub pass_through_encoding : ℕ
  -- whether a text comes before another in the order of `sort()`
  pub text_before : ℕ → ℕ → Bool
  -- the last twenty bytes of the hash that `getCreate2MultisigAddress` makes of the sorted owner
  -- addresses, the proxy factory and the multisig's master copy
  pub create2_hash : List Address → Address → Address → Address
  -- `coinBalanceRefundStateEncoding`
  pub coin_balance_refund_encoding : ℕ

-- The documented laws: `getAddress` returns the checksum form, and a number survives its hex text.
pub record IsPlatform (p : Platform) : Type 0 where
  pub get_address_idem : (a : Address) → p.get_address (p.get_address a) ≡ p.get_address a
  pub address_zero_fixed : p.get_address p.address_zero ≡ p.address_zero
  pub hex_round_trip : (a : ℤ) → p.big_numberify (p.to_hex_string a) ≡ a
