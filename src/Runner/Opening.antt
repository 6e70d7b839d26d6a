-- ===== src/Runner/Opening.antt =====
-- The messages with which the first steps of the protocols of modules/cf-core/src/protocol begin.
use indrav.Prelude.{ℕ, ◌≡◌, refl, some}
use indrav.Prelude.Result.{Result, ok, err}
use indrav.Types.{Xpub, Platform}
use indrav.Outcome.{Chain}
use indrav.Commitment.{Signature, Ethereum}
use indrav.Machine.{
  ProtocolParameters, setup_params, propose_params, update_params, take_action_params,
  install_params, uninstall_params, withdraw_params, install_virtual_app_params,
  uninstall_virtual_app_params, SetupProtocolParams, ProposeInstallProtocolParams,
  UpdateProtocolParams, TakeActionProtocolParams, InstallProtocolParams, UninstallProtocolParams,
  WithdrawProtocolParams, InstallVirtualAppProtocolParams, UninstallVirtualAppProtocolParams,
  Context, CustomData, ProtocolMessage, Run, return, throw, op_sign, io_send, io_send_and_wait,
  write_commitment, persist_state_channel, ◌>>=◌, lift,
}
use indrav.Protocol.Setup.{setup_initiating}
use indrav.Protocol.Propose.{
  pre_propose_channel, initiator_proposal, initial_commitment, propose_initiating,
}
use indrav.StateChannel.Operations.{add_proposal}
use indrav.Protocol.Update.{update_initiating}
use indrav.Protocol.TakeAction.{take_action_initiating}
use indrav.Protocol.Install.Sides.{install_initiating}
use indrav.Protocol.Uninstall.{uninstall_initiating}
use indrav.Protocol.Withdraw.Sides.{withdraw_initiating}
use indrav.AppInstance.{identity_hash}
use indrav.StateChannel.{get_multisig_owner_addr_of}
use indrav.Protocol.InstallVirtual.{agreement_conditional, default_outcome_of}
use indrav.Protocol.InstallVirtual.Objects.{objects_for_initiating}
use indrav.Protocol.InstallVirtual.Initiating.{install_virtual_initiating}
use indrav.Protocol.UninstallVirtual.Initiating.{uninstall_virtual_initiating}
use indrav.Runner.{protocol_of}

-- The run throws, or else it sends a message, of which the first satisfies `P`, and before that it
-- writes no commitment.
abbrev pub Opens : {A : Type 0} → (ProtocolMessage → Type 0) → Run A → Type 0
Opens P (return a) = ⊥
Opens P (throw e) = Unit
Opens P (op_sign c index k) = (s : Signature) → Opens P (k s)
Opens P (io_send m k) = P m
Opens P (io_send_and_wait m k) = P m
Opens P (write_commitment protocol c hash k) = ⊥
Opens P (persist_state_channel scs k) = Opens P k

Opens-lift :
    (P : ProtocolMessage → Type 0) {A B : Type 0} (r : Result A) (f : A → Run B)
    → ((a : A) → Opens P (f a))
    → Opens P (lift r >>= f)
Opens-lift P (ok a) f h = h a
Opens-lift P (err e) f h = tt

-- The message to start the second step of a protocol.
abbrev pub first_message : ℕ → ProtocolParameters → Xpub → CustomData → ProtocolMessage
first_message process_id parameters to_xpub custom_data = record {
  process_id = process_id;
  protocol = protocol_of parameters;
  params = some parameters;
  to_xpub = to_xpub;
  seq = some 1;
  custom_data = custom_data;
}

abbrev pub IsOpening : ℕ → ProtocolParameters → Xpub → ProtocolMessage → Type 0
IsOpening process_id parameters to_xpub m =
    m ≡ first_message process_id parameters to_xpub m.custom_data

module _ ⦃p : Platform⦄ ⦃eth : Ethereum⦄ ⦃chain : Chain⦄ where
  pub setup_initiating-Opens :
      (c : Context SetupProtocolParams)
      → Opens
          (IsOpening c.process_id (setup_params c.params) c.params.responder_xpub)
          (setup_initiating c)
  unfolding setup_initiating
  setup_initiating-Opens c = search Opens-lift

  pub propose_initiating-Opens :
      (c : Context ProposeInstallProtocolParams)
      → Opens
          (IsOpening c.process_id (propose_params c.params) c.params.responder_xpub)
          (propose_initiating c)
  unfolding propose_initiating
  propose_initiating-Opens c =
      Opens-lift _ (pre_propose_channel c.params c.state_channels_map) _ λ pre.
        Opens-lift _ (add_proposal (initiator_proposal c.params pre) pre) _ λ post.
          Opens-lift _ (initial_commitment c.network c.params pre) _ λ commitment signature. refl

  pub update_initiating-Opens :
      (c : Context UpdateProtocolParams)
      → Opens
          (IsOpening c.process_id (update_params c.params) c.params.responder_xpub)
          (update_initiating c)
  unfolding update_initiating
  update_initiating-Opens c = search Opens-lift

  pub take_action_initiating-Opens :
      (c : Context TakeActionProtocolParams)
      → Opens
          (IsOpening c.process_id (take_action_params c.params) c.params.responder_xpub)
          (take_action_initiating c)
  unfolding take_action_initiating
  take_action_initiating-Opens c = search Opens-lift depth 9

  pub install_initiating-Opens :
      (c : Context InstallProtocolParams)
      → Opens
          (IsOpening c.process_id (install_params c.params) c.params.responder_xpub)
          (install_initiating c)
  unfolding install_initiating
  install_initiating-Opens c = search Opens-lift

  pub uninstall_initiating-Opens :
      (c : Context UninstallProtocolParams)
      → Opens
          (IsOpening c.process_id (uninstall_params c.params) c.params.responder_xpub)
          (uninstall_initiating c)
  unfolding uninstall_initiating
  uninstall_initiating-Opens c = search Opens-lift

  pub withdraw_initiating-Opens :
      (c : Context WithdrawProtocolParams)
      → Opens
          (IsOpening c.process_id (withdraw_params c.params) c.params.responder_xpub)
          (withdraw_initiating c)
  unfolding withdraw_initiating
  withdraw_initiating-Opens c = search Opens-lift depth 9

  pub install_virtual_initiating-Opens :
      (c : Context InstallVirtualAppProtocolParams)
      → Opens
          (IsOpening c.process_id (install_virtual_app_params c.params) c.params.intermediary_xpub)
          (install_virtual_initiating c)
  unfolding install_virtual_initiating
  install_virtual_initiating-Opens c =
      Opens-lift _ (objects_for_initiating c.params c.state_channels_map c.network) _ λ o.
        Opens-lift _ (get_multisig_owner_addr_of c.params.intermediary_xpub o.with_intermediary) _
          λ i. Opens-lift _ (get_multisig_owner_addr_of c.params.responder_xpub o.with_user) _ λ r.
            Opens-lift _
              (agreement_conditional c.network o.with_intermediary o.pass_through
                (identity_hash o.virtual_app))
              _
              λ agreement signature.
                Opens-lift _ (default_outcome_of o.pass_through) _ λ outcome. refl

  pub uninstall_virtual_initiating-Opens :
      (c : Context UninstallVirtualAppProtocolParams)
      → Opens
          (IsOpening c.process_id
            (uninstall_virtual_app_params c.params)
            c.params.intermediary_xpub)
          (uninstall_virtual_initiating c)
  unfolding uninstall_virtual_initiating
  uninstall_virtual_initiating-Opens c = search Opens-lift
