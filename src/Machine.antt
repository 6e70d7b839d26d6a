-- ===== src/Machine.antt =====
-- Protocol execution: modules/cf-core/src/machine (types.ts, enums.ts, protocol-runner.ts). A
-- protocol is a generator that yields instructions and is resumed with their results; here it is
-- the tree of all its runs.
use indrav.Prelude.{ℕ, Bool, Option, none, some, List, []}
use indrav.Prelude.Int.{ℤ}
use indrav.Prelude.Dict.{Dict}
use indrav.Prelude.Result.{Result, ok, err, Error, type_error}
use indrav.Types.{Address, Xpub, Hash, AppState, AppInterface, OutcomeType, Platform}
use indrav.StateChannel.{StateChannel}
use indrav.Commitment.{Signature, Commitment, MinimalTransaction, NetworkContext}
pub mod Rules
pub mod Play

-- `Protocol`
pub data Protocol : Type 0 where
  install install_virtual_app setup propose take_action uninstall : Protocol
  uninstall_virtual_app update withdraw : Protocol

pub record SetupProtocolParams : Type 0 where
  pub initiator_xpub : Xpub
  pub responder_xpub : Xpub
  pub multisig_address : Address

pub record ProposeInstallProtocolParams : Type 0 where
  pub multisig_address : Address
  pub initiator_xpub : Xpub
  pub responder_xpub : Xpub
  pub app_definition : Address
  pub state_encoding : ℕ
  pub action_encoding : Option ℕ
  pub initiator_deposit : ℤ
  pub initiator_deposit_token_address : Option Address
  pub responder_deposit : ℤ
  pub responder_deposit_token_address : Option Address
  pub timeout : ℕ
  pub initial_state : AppState
  pub outcome_type : OutcomeType

pub record UpdateProtocolParams : Type 0 where
  pub initiator_xpub : Xpub
  pub responder_xpub : Xpub
  pub multisig_address : Address
  pub app_identity_hash : Hash
  pub new_state : AppState

pub record TakeActionProtocolParams : Type 0 where
  pub initiator_xpub : Xpub
  pub responder_xpub : Xpub
  pub multisig_address : Address
  pub app_identity_hash : Hash
  pub action : ℕ

pub record InstallProtocolParams : Type 0 where
  pub initiator_xpub : Xpub
  pub initiator_deposit_token_address : Address
  pub responder_xpub : Xpub
  pub responder_deposit_token_address : Address
  pub multisig_address : Address
  pub initiator_balance_decrement : ℤ
  pub responder_balance_decrement : ℤ
  pub participants : List Address
  pub initial_state : AppState
  pub app_interface : AppInterface
  pub default_timeout : ℕ
  pub app_seq_no : ℕ
  pub outcome_type : OutcomeType
  pub disable_limit : Bool

pub record UninstallProtocolParams : Type 0 where
  pub app_identity_hash : Hash
  pub initiator_xpub : Xpub
  pub responder_xpub : Xpub
  pub multisig_address : Address

pub record WithdrawProtocolParams : Type 0 where
  pub initiator_xpub : Xpub
  pub responder_xpub : Xpub
  pub multisig_address : Address
  pub recipient : Address
  pub amount : ℤ
  pub token_address : Address

pub record InstallVirtualAppProtocolParams : Type 0 where
  pub initiator_xpub : Xpub
  pub responder_xpub : Xpub
  pub intermediary_xpub : Xpub
  pub default_timeout : ℕ
  pub app_interface : AppInterface
  pub initial_state : AppState
  pub initiator_balance_decrement : ℤ
  pub responder_balance_decrement : ℤ
  pub token_address : Address
  pub app_seq_no : ℕ
  pub outcome_type : OutcomeType

pub record UninstallVirtualAppProtocolParams : Type 0 where
  pub initiator_xpub : Xpub
  pub responder_xpub : Xpub
  pub intermediary_xpub : Xpub
  pub target_app_identity_hash : Hash
  pub target_outcome : ℕ

-- `ProtocolParameters`, with the take action parameters, which the source casts to it.
pub data ProtocolParameters : Type 0 where
  setup_params : SetupProtocolParams → ProtocolParameters
  propose_params : ProposeInstallProtocolParams → ProtocolParameters
  update_params : UpdateProtocolParams → ProtocolParameters
  take_action_params : TakeActionProtocolParams → ProtocolParameters
  install_params : InstallProtocolParams → ProtocolParameters
  uninstall_params : UninstallProtocolParams → ProtocolParameters
  withdraw_params : WithdrawProtocolParams → ProtocolParameters
  install_virtual_app_params : InstallVirtualAppProtocolParams → ProtocolParameters
  uninstall_virtual_app_params : UninstallVirtualAppProtocolParams → ProtocolParameters

-- The `customData` of the protocols; a key that is not set is `none`. The first message of the
-- virtual app installation puts two texts where signatures stand.
pub record CustomData : Type 0 where
  pub signature : Option Signature
  pub signature2 : Option Signature
  pub signature3 : Option Signature
  pub signature4 : Option Signature
  pub data_persisted : Option Bool

abbrev pub no_data : CustomData
no_data = record {
  signature = none;
  signature2 = none;
  signature3 = none;
  signature4 = none;
  data_persisted = none;
}

-- `ProtocolMessage`; a sequence number of `none` is `UNASSIGNED_SEQ_NO`.
pub record ProtocolMessage : Type 0 where
  pub process_id : ℕ
  pub protocol : Protocol
  pub params : Option ProtocolParameters
  pub to_xpub : Xpub
  pub seq : Option ℕ
  pub custom_data : CustomData

-- `Context`, for a message with the parameters `P`.
pub record Context (P : Type 0) : Type 0 where
  pub network : NetworkContext
  pub state_channels_map : Dict StateChannel
  pub process_id : ℕ
  pub params : P
  pub custom_data : CustomData

-- What is left of a run: each instruction of `Opcode` with the run after each result.
pub data Run (A : Type 0) : Type 0 where
  return : A → Run A
  throw : Error → Run A
  op_sign : Commitment → Option ℕ → (Signature → Run A) → Run A
  io_send : ProtocolMessage → Run A → Run A
  io_send_and_wait : ProtocolMessage → (ProtocolMessage → Run A) → Run A
  write_commitment : Protocol → MinimalTransaction → Hash → Run A → Run A
  persist_state_channel : List StateChannel → Run A → Run A

infixl 5 ◌>>=◌ ◌>>◌
abbrev pub ◌>>=◌ : {A B : Type 0} → Run A → (A → Run B) → Run B
return a >>= f = f a
throw e >>= f = throw e
op_sign c index k >>= f = op_sign c index (λ s. k s >>= f)
io_send m k >>= f = io_send m (k >>= f)
io_send_and_wait m k >>= f = io_send_and_wait m (λ r. k r >>= f)
write_commitment protocol c hash k >>= f = write_commitment protocol c hash (k >>= f)
persist_state_channel scs k >>= f = persist_state_channel scs (k >>= f)

abbrev pub ◌>>◌ : {B : Type 0} → Run (Unit {0}) → Run B → Run B
m >> k = m >>= λ _. k

-- Code between two instructions, which may throw.
abbrev pub lift : {A : Type 0} → Result A → Run A
lift (ok a) = return a
lift (err e) = throw e

abbrev pub sign : Commitment → Option ℕ → Run Signature
sign c index = op_sign c index return

abbrev pub send : ProtocolMessage → Run (Unit {0})
send m = io_send m (return tt)

abbrev pub send_and_wait : ProtocolMessage → Run ProtocolMessage
send_and_wait m = io_send_and_wait m return

abbrev pub write : Protocol → MinimalTransaction → Hash → Run (Unit {0})
write protocol c hash = write_commitment protocol c hash (return tt)

abbrev pub persist : List StateChannel → Run (Unit {0})
persist scs = persist_state_channel scs (return tt)
