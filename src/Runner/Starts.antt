-- ===== src/Runner/Starts.antt =====
-- That the first message of a run that modules/cf-core/src/machine/protocol-runner.ts initiates starts
-- the next step at its recipient.
use indrav.Prelude.{sym, ℕ, ◌≡◌, refl}
use mathlib.Core.Path.{subst}
use indrav.Prelude.Dict.{Dict}
use indrav.Prelude.Result
use indrav.Prelude.Result.{Result, ok, err}
use indrav.Types.{Xpub, Platform}
use indrav.StateChannel.{StateChannel}
use indrav.Outcome.{Chain}
use indrav.Commitment.{Ethereum, NetworkContext}
use indrav.Machine.{
  ProtocolParameters, setup_params, propose_params, update_params, take_action_params,
  install_params, uninstall_params, withdraw_params, install_virtual_app_params,
  uninstall_virtual_app_params, CustomData, no_data, ProtocolMessage, Run, return, throw, op_sign,
  io_send, io_send_and_wait, write_commitment, persist_state_channel,
}
use indrav.Protocol.Propose.{propose_initiating}
use indrav.Protocol.Update.{update_initiating}
use indrav.Protocol.TakeAction.{take_action_initiating}
use indrav.Protocol.Install.Sides.{install_initiating}
use indrav.Protocol.Uninstall.{uninstall_initiating}
use indrav.Protocol.Withdraw.Sides.{withdraw_initiating}
use indrav.Protocol.InstallVirtual.Initiating.{install_virtual_initiating}
use indrav.Protocol.UninstallVirtual.Initiating.{uninstall_virtual_initiating}
use indrav.Runner.{
  steps_of, first_recipient, context_for, step, run_protocol_with_message, initiate_protocol,
}
use indrav.Runner.Opening.{
  Opens, first_message, IsOpening, propose_initiating-Opens, update_initiating-Opens,
  take_action_initiating-Opens, install_initiating-Opens, uninstall_initiating-Opens,
  withdraw_initiating-Opens, install_virtual_initiating-Opens, uninstall_virtual_initiating-Opens,
}

-- What follows from the property follows of the first message.
Opens-weaken :
    {A : Type 0} (P Q : ProtocolMessage → Type 0) (h : (m : ProtocolMessage) → P m → Q m)
    (run : Run A)
    → Opens P run
    → Opens Q run
Opens-weaken P Q h (return a) o = o
Opens-weaken P Q h (throw e) o = tt
Opens-weaken P Q h (op_sign c index k) o = λ s. Opens-weaken P Q h (k s) (o s)
Opens-weaken P Q h (io_send m k) o = h m o
Opens-weaken P Q h (io_send_and_wait m k) o = h m o
Opens-weaken P Q h (write_commitment protocol c hash k) o = o
Opens-weaken P Q h (persist_state_channel scs k) o = Opens-weaken P Q h k o

ok_injective : {A : Type 0} {a b : A} → ok a ≡ ok b → a ≡ b
ok_injective q = cc

-- A run that is only made for a recipient has one.
recipient_found :
    {A : Type 0} (r : Result Xpub) (s run : A)
    → Result.◌>>=◌ r (λ x. ok s) ≡ ok run
    → (x : Xpub) × (r ≡ ok x) × (s ≡ run)
recipient_found (ok x) s run h = (x, refl, ok_injective h)
recipient_found (err e) s run h = cc

module _ ⦃p : Platform⦄ ⦃eth : Ethereum⦄ ⦃chain : Chain⦄ where
  -- A first message is accepted and starts the second step.
  first_message-starts :
      (network : NetworkContext) (channels : Dict StateChannel) (process_id : ℕ)
      (parameters : ProtocolParameters) (to_xpub : Xpub) (custom_data : CustomData)
      → run_protocol_with_message network channels
          (first_message process_id parameters to_xpub custom_data)
        ≡ ok (step network channels process_id custom_data 1 parameters)
  unfolding run_protocol_with_message steps_of step
  first_message-starts network channels process_id (setup_params params) to_xpub custom_data = refl
  first_message-starts network channels process_id (propose_params params) to_xpub custom_data =
      refl
  first_message-starts network channels process_id (update_params params) to_xpub custom_data = refl
  first_message-starts network channels process_id (take_action_params params) to_xpub custom_data =
      refl
  first_message-starts network channels process_id (install_params params) to_xpub custom_data =
      refl
  first_message-starts network channels process_id (uninstall_params params) to_xpub custom_data =
      refl
  first_message-starts network channels process_id (withdraw_params params) to_xpub custom_data =
      refl
  first_message-starts network channels process_id (install_virtual_app_params params) to_xpub
        custom_data =
      refl
  first_message-starts network channels process_id (uninstall_virtual_app_params params) to_xpub
        custom_data =
      refl

  to_recipient :
      (process_id : ℕ) (parameters : ProtocolParameters) {a to_xpub : Xpub}
      (run : Run (Dict StateChannel))
      → ok a ≡ ok to_xpub
      → Opens (IsOpening process_id parameters a) run
      → Opens (IsOpening process_id parameters to_xpub) run
  to_recipient process_id parameters run h =
      subst (λ x. Opens (IsOpening process_id parameters x) run) (ok_injective h)

  -- The first step of each protocol opens with a first message to the first recipient.
  step-Opens :
      (network : NetworkContext) (channels : Dict StateChannel) (process_id : ℕ)
      (parameters : ProtocolParameters) (to_xpub : Xpub)
      → first_recipient parameters ≡ ok to_xpub
      → Opens
          (IsOpening process_id parameters to_xpub)
          (step network channels process_id no_data 0 parameters)
  unfolding step first_recipient
  step-Opens network channels process_id (setup_params params) to_xpub h = cc
  step-Opens network channels process_id (propose_params params) to_xpub h =
      let c = context_for network channels process_id no_data params in
      to_recipient process_id (propose_params params) (propose_initiating c) h
        (propose_initiating-Opens c)
  step-Opens network channels process_id (update_params params) to_xpub h =
      let c = context_for network channels process_id no_data params in
      to_recipient process_id (update_params params) (update_initiating c) h
        (update_initiating-Opens c)
  step-Opens network channels process_id (take_action_params params) to_xpub h =
      let c = context_for network channels process_id no_data params in
      to_recipient process_id (take_action_params params) (take_action_initiating c) h
        (take_action_initiating-Opens c)
  step-Opens network channels process_id (install_params params) to_xpub h =
      let c = context_for network channels process_id no_data params in
      to_recipient process_id (install_params params) (install_initiating c) h
        (install_initiating-Opens c)
  step-Opens network channels process_id (uninstall_params params) to_xpub h =
      let c = context_for network channels process_id no_data params in
      to_recipient process_id (uninstall_params params) (uninstall_initiating c) h
        (uninstall_initiating-Opens c)
  step-Opens network channels process_id (withdraw_params params) to_xpub h =
      let c = context_for network channels process_id no_data params in
      to_recipient process_id (withdraw_params params) (withdraw_initiating c) h
        (withdraw_initiating-Opens c)
  step-Opens network channels process_id (install_virtual_app_params params) to_xpub h =
      let c = context_for network channels process_id no_data params in
      to_recipient process_id (install_virtual_app_params params) (install_virtual_initiating c) h
        (install_virtual_initiating-Opens c)
  step-Opens network channels process_id (uninstall_virtual_app_params params) to_xpub h =
      let c = context_for network channels process_id no_data params in
      to_recipient process_id (uninstall_virtual_app_params params) (uninstall_virtual_initiating c)
        h (uninstall_virtual_initiating-Opens c)

  -- A message goes to the first recipient and, whatever channels the recipient has, its runner
  -- accepts the message and runs the second step of the protocol with the parameters.
  unfoldable pub Starts : ℕ → ProtocolParameters → ProtocolMessage → Type 0
  Starts process_id parameters m =
      (first_recipient parameters ≡ ok m.to_xpub)
      × ((network : NetworkContext) (channels : Dict StateChannel)
          → run_protocol_with_message network channels m
            ≡ ok (step network channels process_id m.custom_data 1 parameters))

  opening-Starts :
      (process_id : ℕ) (parameters : ProtocolParameters) (to_xpub : Xpub) (m : ProtocolMessage)
      → first_recipient parameters ≡ ok to_xpub
      → IsOpening process_id parameters to_xpub m
      → Starts process_id parameters m
  unfolding Starts
  opening-Starts process_id parameters to_xpub m h q = (
    subst (λ x. first_recipient parameters ≡ ok x) (λ i. (sym q i).to_xpub) h,
    λ network channels.
        subst
          (λ n.
            run_protocol_with_message network channels n
            ≡ ok (step network channels process_id m.custom_data 1 parameters))
          (sym q)
          (first_message-starts network channels process_id parameters to_xpub m.custom_data),
  )

  -- A protocol that is initiated throws, or it sends a message before it writes any commitment or
  -- returns, and its first message goes to the first recipient, at whom it starts the second step
  -- of the same protocol with the same parameters, whatever the recipient has stored.
  pub initiate_protocol-Starts :
      (network : NetworkContext) (channels : Dict StateChannel) (process_id : ℕ)
      (parameters : ProtocolParameters) (run : Run (Dict StateChannel))
      → initiate_protocol network channels process_id parameters ≡ ok run
      → Opens (Starts process_id parameters) run
  unfolding initiate_protocol
  initiate_protocol-Starts network channels process_id parameters run initiated =
      let (to_xpub, recipient, is_step) =
        recipient_found (first_recipient parameters) _ run initiated in
      subst (Opens (Starts process_id parameters)) is_step (
        Opens-weaken _ _ (λ m. opening-Starts process_id parameters to_xpub m recipient)
          (step network channels process_id no_data 0 parameters)
          (step-Opens network channels process_id parameters to_xpub recipient))
