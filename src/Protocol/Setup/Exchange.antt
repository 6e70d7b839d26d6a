-- ===== src/Protocol/Setup/Exchange.antt =====
-- Two honest sides of the setup protocol bring it to its end.
use indrav.Prelude.{ℕ, ◌≡◌, refl, Option, none, some, [], ◌∷◌}
use indrav.Prelude.Dict.{insert}
use indrav.Prelude.Result.{ok}
use indrav.Types.{Platform}
use indrav.AppInstance.{AppInstance}
use indrav.FreeBalance.{xkey_kth_address}
use indrav.StateChannel.{StateChannel, free_balance}
use indrav.Commitment.{Signature, Ethereum, Commitment}
use indrav.Machine.{Protocol, Context, SetupProtocolParams, setup_params}
use indrav.Machine.Play.{play}
use indrav.Protocol.{opening, answer, with_signature}
use indrav.Protocol.Signatures.{Honest, assert-Honest}
use indrav.Protocol.Setup.{new_channel, setup_commitment_of, setup_initiating, setup_responding}

module _ ⦃p : Platform⦄ ⦃eth : Ethereum⦄ where
  -- If the channel of the two keys can be made, and both parties sign the setup commitment with
  -- their keys, then the responder, started by the initiator's message, and the initiator,
  -- resumed by the answer, both persist that channel and return the map that has it.
  pub setup-completes :
      (params : SetupProtocolParams) (ci cr : Context SetupProtocolParams)
      (sign_i sign_r : Commitment → Option ℕ → Signature) {sc : StateChannel} {fb : AppInstance}
      → ci.params ≡ params
      → cr.params ≡ params
      → cr.network ≡ ci.network
      → new_channel ci ≡ ok sc
      → free_balance sc ≡ ok fb
      → Honest sign_i
          (xkey_kth_address params.initiator_xpub 0)
          (setup_commitment_of ci.network sc fb)
          none
      → Honest sign_r
          (xkey_kth_address params.responder_xpub 0)
          (setup_commitment_of ci.network sc fb)
          none
      → cr.custom_data ≡ with_signature (sign_i (setup_commitment_of ci.network sc fb) none)
      → (play sign_r [] (setup_responding cr) ≡ record {
        persisted = (sc ∷ []) ∷ [];
        sent =
            answer cr.process_id Protocol.setup params.initiator_xpub
              (with_signature (sign_r (setup_commitment_of ci.network sc fb) none))
            ∷ [];
        result = some (insert sc.multisig_address sc cr.state_channels_map);
      })
        × (play sign_i
              (answer cr.process_id Protocol.setup params.initiator_xpub
                  (with_signature (sign_r (setup_commitment_of ci.network sc fb) none))
                ∷ [])
              (setup_initiating ci)
            ≡ record {
              persisted = (sc ∷ []) ∷ [];
              sent =
                  opening ci.process_id Protocol.setup
                    (setup_params params)
                    params.responder_xpub
                    (sign_i (setup_commitment_of ci.network sc fb) none)
                  ∷ [];
              result = some (insert sc.multisig_address sc ci.state_channels_map);
            })
  unfolding setup_initiating setup_responding
  setup-completes params ci cr sign_i sign_r {sc} {fb} pi pr net makes has_fb hi hr custom =
      let made = rw pi at makes in
      (
        rw
            (
              pr,
              net,
              made,
              has_fb,
              custom,
              assert-Honest sign_i (xkey_kth_address params.initiator_xpub 0)
                  (setup_commitment_of ci.network sc fb) none hi,
            )
            refl,
        rw
            (
              pi,
              made,
              has_fb,
              assert-Honest sign_r (xkey_kth_address params.responder_xpub 0)
                  (setup_commitment_of ci.network sc fb) none hr,
            )
            refl,
      )
