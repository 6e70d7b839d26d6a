-- ===== src/Protocol/Uninstall/Exchange.antt =====
-- Two honest sides of the uninstall protocol bring it to its end.
use indrav.Prelude.{ℕ, ◌≡◌, refl, Option, none, some, [], ◌∷◌}
use indrav.Prelude.Dict.{insert}
use indrav.Prelude.Result.{ok}
use indrav.Types.{Platform}
use indrav.AppInstance.{AppInstance}
use indrav.FreeBalance.{xkey_kth_address}
use indrav.StateChannel.{StateChannel, free_balance}
use indrav.Outcome.{Chain}
use indrav.Commitment.{
  Signature, Ethereum, Commitment, MinimalTransaction, state_commitment, get_signed_transaction,
}
use indrav.Machine.{Protocol, Context, UninstallProtocolParams, uninstall_params}
use indrav.Machine.Play.{play}
use indrav.Protocol.{opening, answer, with_signature}
use indrav.Protocol.Signatures.{Honest, assert-Honest}
use indrav.Protocol.Uninstall.{uninstall_transition, uninstall_initiating, uninstall_responding}

module _ ⦃p : Platform⦄ ⦃eth : Ethereum⦄ ⦃chain : Chain⦄ where
  -- If both parties compute the same channel without the app, both sign its free balance with
  -- their keys, and both can order the two signatures, then the responder, started by the
  -- initiator's message, and the initiator, resumed by the answer, both persist that channel and
  -- return the map that has it.
  pub uninstall-completes :
      (params : UninstallProtocolParams) (ci cr : Context UninstallProtocolParams)
      (sign_i sign_r : Commitment → Option ℕ → Signature) {post : StateChannel} {fb : AppInstance}
      {commitment : Commitment} {final_i final_r : MinimalTransaction}
      → ci.params ≡ params
      → cr.params ≡ params
      → cr.network ≡ ci.network
      → uninstall_transition params ci.state_channels_map ≡ ok post
      → uninstall_transition params cr.state_channels_map ≡ ok post
      → free_balance post ≡ ok fb
      → state_commitment ci.network fb ≡ ok commitment
      → Honest sign_i (xkey_kth_address params.initiator_xpub 0) commitment none
      → Honest sign_r (xkey_kth_address params.responder_xpub 0) commitment none
      → get_signed_transaction commitment (sign_i commitment none ∷ sign_r commitment none ∷ [])
        ≡ ok final_i
      → get_signed_transaction commitment (sign_r commitment none ∷ sign_i commitment none ∷ [])
        ≡ ok final_r
      → cr.custom_data ≡ with_signature (sign_i commitment none)
      → (play sign_r [] (uninstall_responding cr) ≡ record {
        persisted = (post ∷ []) ∷ [];
        sent =
            answer cr.process_id Protocol.uninstall params.initiator_xpub
              (with_signature (sign_r commitment none))
            ∷ [];
        result = some (insert post.multisig_address post cr.state_channels_map);
      })
        × (play sign_i
              (answer cr.process_id Protocol.uninstall params.initiator_xpub
                  (with_signature (sign_r commitment none))
                ∷ [])
              (uninstall_initiating ci)
            ≡ record {
              persisted = (post ∷ []) ∷ [];
              sent =
                  opening ci.process_id Protocol.uninstall
                    (uninstall_params params)
                    params.responder_xpub
                    (sign_i commitment none)
                  ∷ [];
              result = some (insert post.multisig_address post ci.state_channels_map);
            })
  unfolding uninstall_initiating uninstall_responding
  uninstall-completes params ci cr sign_i sign_r {commitment = commitment} pi pr net makes_i makes_r
        has_fb commits hi hr joins_i joins_r custom =
      (
        rw
            (
              pr,
              net,
              makes_r,
              has_fb,
              commits,
              custom,
              assert-Honest sign_i (xkey_kth_address params.initiator_xpub 0) commitment none hi,
            )
            (rw (joins_r, play) refl),
        rw
            (
              pi,
              makes_i,
              has_fb,
              commits,
              assert-Honest sign_r (xkey_kth_address params.responder_xpub 0) commitment none hr,
            )
            (rw (joins_i, play) refl),
      )
