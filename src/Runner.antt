-- ===== src/Runner.antt =====
-- The choice of a protocol's step and the start of a run: modules/cf-core/src/protocol/index.ts and
-- the class `ProtocolRunner` of modules/cf-core/src/machine/protocol-runner.ts, whose loop is
-- Machine/Play and Store/Middleware.
use indrav.Prelude.{ℕ, zero, suc, Bool, Option, none, some, [], ltb, ◌==◌}
use indrav.Prelude.Dict.{Dict}
use indrav.Prelude.Result.{
  Result, ok, err, type_error, invalid_seq, unknown_protocol, ◌>>=◌, ◌>>◌, guard,
}
use indrav.Types.{Xpub, Platform}
use indrav.StateChannel.{StateChannel}
use indrav.Outcome.{Chain}
use indrav.Commitment.{Ethereum, NetworkContext}
use indrav.Machine.{
  Protocol, ProtocolParameters, setup_params, propose_params, update_params, take_action_params,
  install_params, uninstall_params, withdraw_params, install_virtual_app_params,
  uninstall_virtual_app_params, SetupProtocolParams, Context, CustomData, no_data, ProtocolMessage,
  Run,
}
use indrav.Protocol.Setup.{setup_initiating, setup_responding}
use indrav.Protocol.Propose.{propose_initiating, propose_responding}
use indrav.Protocol.Update.{update_initiating, update_responding}
use indrav.Protocol.TakeAction.{take_action_initiating, take_action_responding}
use indrav.Protocol.Install.Sides.{install_initiating, install_responding}
use indrav.Protocol.Uninstall.{uninstall_initiating, uninstall_responding}
use indrav.Protocol.Withdraw.Sides.{withdraw_initiating, withdraw_responding}
use indrav.Protocol.InstallVirtual.Initiating.{install_virtual_initiating}
use indrav.Protocol.InstallVirtual.Intermediary.{install_virtual_intermediary}
use indrav.Protocol.InstallVirtual.Responding.{install_virtual_responding}
use indrav.Protocol.UninstallVirtual.Initiating.{uninstall_virtual_initiating}
use indrav.Protocol.UninstallVirtual.Intermediary.{uninstall_virtual_intermediary}
use indrav.Protocol.UninstallVirtual.Responding.{uninstall_virtual_responding}
pub mod Opening
pub mod Starts

-- How many steps a protocol has, numbered from 0.
unfoldable pub steps_of : Protocol → ℕ
steps_of protocol = elim protocol [
  | Protocol.install_virtual_app ↦ 3
  | Protocol.uninstall_virtual_app ↦ 3
  | _ ↦ 2
]

-- The steps that come after the first two are only asked for where there are three.
abbrev pub one_of_two {ℓ} : {A : Type ℓ} → ℕ → A → A → A
one_of_two zero first second = first
one_of_two (suc _) first second = second

abbrev pub one_of_three {ℓ} : {A : Type ℓ} → ℕ → A → A → A → A
one_of_three zero first second third = first
one_of_three (suc zero) first second third = second
one_of_three (suc (suc _)) first second third = third

-- `params[firstRecipientFromProtocolName(protocolName)]`
unfoldable pub first_recipient : ProtocolParameters → Result Xpub
first_recipient (setup_params params) = err unknown_protocol
first_recipient (propose_params params) = ok params.responder_xpub
first_recipient (update_params params) = ok params.responder_xpub
first_recipient (take_action_params params) = ok params.responder_xpub
first_recipient (install_params params) = ok params.responder_xpub
first_recipient (uninstall_params params) = ok params.responder_xpub
first_recipient (withdraw_params params) = ok params.responder_xpub
first_recipient (install_virtual_app_params params) = ok params.intermediary_xpub
first_recipient (uninstall_virtual_app_params params) = ok params.intermediary_xpub

-- The protocol whose parameters these are.
abbrev pub protocol_of : ProtocolParameters → Protocol
protocol_of (setup_params params) = Protocol.setup
protocol_of (propose_params params) = Protocol.propose
protocol_of (update_params params) = Protocol.update
protocol_of (take_action_params params) = Protocol.take_action
protocol_of (install_params params) = Protocol.install
protocol_of (uninstall_params params) = Protocol.uninstall
protocol_of (withdraw_params params) = Protocol.withdraw
protocol_of (install_virtual_app_params params) = Protocol.install_virtual_app
protocol_of (uninstall_virtual_app_params params) = Protocol.uninstall_virtual_app

-- The numbers of the enumeration, by which two protocols are compared.
abbrev pub protocol_number : Protocol → ℕ
protocol_number Protocol.install = 0
protocol_number Protocol.install_virtual_app = 1
protocol_number Protocol.setup = 2
protocol_number Protocol.propose = 3
protocol_number Protocol.take_action = 4
protocol_number Protocol.uninstall = 5
protocol_number Protocol.uninstall_virtual_app = 6
protocol_number Protocol.update = 7
protocol_number Protocol.withdraw = 8

abbrev pub same_protocol : Protocol → Protocol → Bool
same_protocol p q = protocol_number p == protocol_number q

-- The `context` that a run starts with.
abbrev pub context_for :
    {P : Type 0} → NetworkContext → Dict StateChannel → ℕ → CustomData → P → Context P
context_for network channels process_id custom_data params = record {
  network = network;
  state_channels_map = channels;
  process_id = process_id;
  params = params;
  custom_data = custom_data;
}

module _ ⦃p : Platform⦄ ⦃eth : Ethereum⦄ ⦃chain : Chain⦄ where
  -- The step of the parameters' protocol with the given number.
  unfoldable pub step :
      NetworkContext
      → Dict StateChannel
      → ℕ
      → CustomData
      → ℕ
      → ProtocolParameters
      → Run (Dict StateChannel)
  step network channels process_id custom_data n parameters = elim parameters [
    | setup_params params ↦
        let context = context_for network channels process_id custom_data params in
        one_of_two n (setup_initiating context) (setup_responding context)
    | propose_params params ↦
        let context = context_for network channels process_id custom_data params in
        one_of_two n (propose_initiating context) (propose_responding context)
    | update_params params ↦
        let context = context_for network channels process_id custom_data params in
        one_of_two n (update_initiating context) (update_responding context)
    | take_action_params params ↦
        let context = context_for network channels process_id custom_data params in
        one_of_two n (take_action_initiating context) (take_action_responding context)
    | install_params params ↦
        let context = context_for network channels process_id custom_data params in
        one_of_two n (install_initiating context) (install_responding context)
    | uninstall_params params ↦
        let context = context_for network channels process_id custom_data params in
        one_of_two n (uninstall_initiating context) (uninstall_responding context)
    | withdraw_params params ↦
        let context = context_for network channels process_id custom_data params in
        one_of_two n (withdraw_initiating context) (withdraw_responding context)
    | install_virtual_app_params params ↦
        let context = context_for network channels process_id custom_data params in
        one_of_three n (install_virtual_initiating context) (install_virtual_intermediary context)
          (install_virtual_responding context)
    | uninstall_virtual_app_params params ↦
        let context = context_for network channels process_id custom_data params in
        one_of_three n (uninstall_virtual_initiating context)
          (uninstall_virtual_intermediary context) (uninstall_virtual_responding context)
  ]

  -- `runProtocolWithMessage`. A step that finds no parameters throws when it reads them; a message
  -- with the parameters of another protocol is ill-typed (`ParamTypeOf`) and an error here.
  unfoldable pub run_protocol_with_message :
      NetworkContext → Dict StateChannel → ProtocolMessage → Result (Run (Dict StateChannel))
  run_protocol_with_message network channels message = elim message.seq [
    | none ↦ err invalid_seq
    | some n ↦ do
      guard (ltb n (steps_of message.protocol)) invalid_seq
      elim message.params [
        | none ↦ err type_error
        | some parameters ↦ do
          guard (same_protocol message.protocol (protocol_of parameters)) type_error
          ok (step network channels message.process_id message.custom_data n parameters)
      ]
  ]

  -- `initiateProtocol`, of the parameters' protocol and with the identifier that `uuid` returns.
  unfoldable pub initiate_protocol :
      NetworkContext → Dict StateChannel → ℕ → ProtocolParameters → Result (Run (Dict StateChannel))
  initiate_protocol network channels process_id parameters = do
    to_xpub ← first_recipient parameters
    ok (step network channels process_id no_data 0 parameters)

  -- `runSetupProtocol`
  unfoldable pub run_setup_protocol :
      NetworkContext → ℕ → SetupProtocolParams → Run (Dict StateChannel)
  run_setup_protocol network process_id params =
      step network [] process_id no_data 0 (setup_params params)
