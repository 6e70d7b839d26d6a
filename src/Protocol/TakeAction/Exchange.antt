-- ===== src/Protocol/TakeAction/Exchange.antt =====
-- Two honest sides of the protocol of an action bring it to its end.
use indrav.Prelude.{ℕ, ◌≡◌, refl, Option, some, [], ◌∷◌}
use indrav.Prelude.Dict.{lookup, insert}
use indrav.Prelude.Result.{ok}
use indrav.Types.{AppState, Platform}
use indrav.AppInstance.{AppInstance}
use indrav.FreeBalance.{xkey_kth_address}
use indrav.StateChannel.{StateChannel, get_app_instance}
use indrav.StateChannel.Operations.{set_state}
use indrav.Outcome.{Chain, compute_state_transition}
use indrav.Commitment.{Signature, Ethereum, Commitment, state_commitment}
use indrav.Machine.{Protocol, Context, TakeActionProtocolParams, take_action_params}
use indrav.Machine.Play.{play}
use indrav.Protocol.{opening, answer, with_signature}
use indrav.Protocol.Signatures.{Honest, assert-Honest}
use indrav.Protocol.TakeAction.{take_action_initiating, take_action_responding}

module _ ⦃p : Platform⦄ ⦃eth : Ethereum⦄ ⦃chain : Chain⦄ where
  -- If both parties store the same channel, the app's contract computes the same new state for
  -- both and it can be set, and both sign with their keys of the app, then the responder, started by the initiator's message, and the
  -- initiator, resumed by the answer, both persist the channel with the new state and return the
  -- map that has it.
  pub take_action-completes :
      (params : TakeActionProtocolParams) (ci cr : Context TakeActionProtocolParams)
      (sign_i sign_r : Commitment → Option ℕ → Signature) {pre post : StateChannel}
      {old_app app : AppInstance} {new_state : AppState} {commitment : Commitment}
      → ci.params ≡ params
      → cr.params ≡ params
      → cr.network ≡ ci.network
      → lookup params.multisig_address ci.state_channels_map ≡ some pre
      → lookup params.multisig_address cr.state_channels_map ≡ some pre
      → get_app_instance params.app_identity_hash pre ≡ ok old_app
      → compute_state_transition params.action old_app ≡ ok new_state
      → set_state params.app_identity_hash new_state pre ≡ ok post
      → get_app_instance params.app_identity_hash post ≡ ok app
      → state_commitment ci.network app ≡ ok commitment
      → Honest sign_i
          (xkey_kth_address params.initiator_xpub app.app_seq_no)
          commitment
          (some app.app_seq_no)
      → Honest sign_r
          (xkey_kth_address params.responder_xpub app.app_seq_no)
          commitment
          (some app.app_seq_no)
      → cr.custom_data ≡ with_signature (sign_i commitment (some app.app_seq_no))
      → (play sign_r [] (take_action_responding cr) ≡ record {
        persisted = (post ∷ []) ∷ [];
        sent =
            answer cr.process_id Protocol.take_action params.initiator_xpub
              (with_signature (sign_r commitment (some app.app_seq_no)))
            ∷ [];
        result = some (insert post.multisig_address post cr.state_channels_map);
      })
        × (play sign_i
              (answer cr.process_id Protocol.take_action params.initiator_xpub
                  (with_signature (sign_r commitment (some app.app_seq_no)))
                ∷ [])
              (take_action_initiating ci)
            ≡ record {
              persisted = (post ∷ []) ∷ [];
              sent =
                  opening ci.process_id Protocol.take_action
                    (take_action_params params)
                    params.responder_xpub
                    (sign_i commitment (some app.app_seq_no))
                  ∷ [];
              result = some (insert post.multisig_address post ci.state_channels_map);
            })
  unfolding take_action_initiating take_action_responding
  take_action-completes params ci cr sign_i sign_r {app = app} {commitment = commitment} pi pr net
        li lr old computes set finds commits hi hr custom =
      (
        rw
            (
              pr,
              net,
              lr,
              old,
              computes,
              set,
              finds,
              commits,
              custom,
              assert-Honest sign_i (xkey_kth_address params.initiator_xpub app.app_seq_no)
                  commitment (some app.app_seq_no) hi,
            )
            refl,
        rw
            (
              pi,
              li,
              old,
              computes,
              set,
              finds,
              commits,
              assert-Honest sign_r (xkey_kth_address params.responder_xpub app.app_seq_no)
                  commitment (some app.app_seq_no) hr,
            )
            refl,
      )
