-- ===== src/Protocol/Withdraw/Exchange.antt =====
-- Two honest sides of the withdraw protocol bring it to its end.
use indrav.Prelude.{ℕ, ◌≡◌, refl, Option, none, some, true, List, [], ◌∷◌}
use indrav.Prelude.Dict.{Dict, lookup, insert}
use indrav.Prelude.Result.{ok}
use indrav.Types.{Address, Platform}
use indrav.AppInstance.{AppInstance, identity_hash}
use indrav.StateChannel.{
  StateChannel, free_balance, get_free_balance_addr_of, most_recently_installed_app_instance,
}
use indrav.StateChannel.Installs.{uninstall_app}
use indrav.Commitment.{
  Signature, Ethereum, Commitment, MinimalTransaction, state_commitment, get_signed_transaction,
}
use indrav.Machine.{
  Protocol, Context, WithdrawProtocolParams, withdraw_params, ProtocolMessage, no_data,
}
use indrav.Machine.Play.{play}
use indrav.Protocol.{opening, answer, with_signature, with_two_signatures}
use indrav.Protocol.Signatures.{Honest, assert-Honest}
use indrav.Protocol.Withdraw.{add_refund_app, refund_conditional, withdrawal_commitment}
use indrav.Protocol.Withdraw.Sides.{
  withdraw_initiating, withdraw_responding, withdraw_initiating_exit, withdraw_responding_exit,
}

module _ ⦃p : Platform⦄ ⦃eth : Ethereum⦄ where
  -- Both parties sign the commitment with the keys of their addresses, and the signatures can be
  -- joined in either order.
  pub record Signable (sign_i sign_r : Commitment → Option ℕ → Signature)
      (initiator responder : Address) (commitment : Commitment) : Type 0 where
    pub initiator_signs : Honest sign_i initiator commitment none
    pub responder_signs : Honest sign_r responder commitment none
    pub tx_i : MinimalTransaction
    pub tx_r : MinimalTransaction
    pub joins_i :
        get_signed_transaction commitment (sign_i commitment none ∷ sign_r commitment none ∷ [])
        ≡ ok tx_i
    pub joins_r :
        get_signed_transaction commitment (sign_r commitment none ∷ sign_i commitment none ∷ [])
        ≡ ok tx_r

  -- What a withdrawal from `pre` commits both parties to, and that both can sign it: `post` has the
  -- refund app, and `final` is without it again.
  pub record Withdrawable (params : WithdrawProtocolParams) (ci cr : Context WithdrawProtocolParams)
      (sign_i sign_r : Commitment → Option ℕ → Signature) (post final : StateChannel)
      (conditional update uninstall : Commitment) : Type 0 where
    pub pre : StateChannel
    pub refund : AppInstance
    pub fb : AppInstance
    pub final_fb : AppInstance
    pub initiator : Address
    pub responder : Address
    pub params_i : ci.params ≡ params
    pub params_r : cr.params ≡ params
    pub network : cr.network ≡ ci.network
    pub stored_i : lookup params.multisig_address ci.state_channels_map ≡ some pre
    pub stored_r : lookup params.multisig_address cr.state_channels_map ≡ some pre
    pub address_i : get_free_balance_addr_of params.initiator_xpub pre ≡ ok initiator
    pub address_r : get_free_balance_addr_of params.responder_xpub pre ≡ ok responder
    pub adds : add_refund_app params ci.network pre ≡ ok post
    pub latest : most_recently_installed_app_instance post ≡ ok refund
    pub conditions : refund_conditional ci.network post ≡ ok conditional
    pub has_fb : free_balance post ≡ ok fb
    pub commits : state_commitment ci.network fb ≡ ok update
    pub removes : uninstall_app (identity_hash refund) [] post ≡ ok final
    pub has_final_fb : free_balance final ≡ ok final_fb
    pub commits_final : state_commitment ci.network final_fb ≡ ok uninstall
    pub conditional_signable : Signable sign_i sign_r initiator responder conditional
    pub update_signable : Signable sign_i sign_r initiator responder update
    pub withdrawal_signable :
        Signable sign_i sign_r initiator responder (withdrawal_commitment params post)
    pub uninstall_signable : Signable sign_i sign_r initiator responder uninstall
    pub custom : cr.custom_data ≡ with_signature (sign_i conditional none)

  -- The three messages of the initiator.
  abbrev pub initiator_messages :
      Context WithdrawProtocolParams
      → WithdrawProtocolParams
      → (Commitment → Option ℕ → Signature)
      → Commitment
      → Commitment
      → Commitment
      → Commitment
      → List ProtocolMessage
  initiator_messages ci params sign_i conditional update withdrawal uninstall =
      opening ci.process_id Protocol.withdraw (withdraw_params params) params.responder_xpub
        (sign_i conditional none)
      ∷ answer ci.process_id Protocol.withdraw params.responder_xpub
          (with_two_signatures (sign_i update none) (sign_i withdrawal none))
      ∷ answer ci.process_id Protocol.withdraw params.responder_xpub
          (with_signature (sign_i uninstall none))
      ∷ []

  -- The two answers of the responder, and its notice that it has persisted.
  abbrev pub responder_messages :
      Context WithdrawProtocolParams
      → WithdrawProtocolParams
      → (Commitment → Option ℕ → Signature)
      → Commitment
      → Commitment
      → Commitment
      → Commitment
      → List ProtocolMessage
  responder_messages cr params sign_r conditional update withdrawal uninstall =
      answer cr.process_id Protocol.withdraw params.initiator_xpub
        (with_two_signatures (sign_r conditional none) (sign_r update none))
      ∷ answer cr.process_id Protocol.withdraw params.initiator_xpub
          (with_two_signatures (sign_r withdrawal none) (sign_r uninstall none))
      ∷ answer cr.process_id Protocol.withdraw params.initiator_xpub
          (record no_data { data_persisted = some true })
      ∷ []

  -- The map that a side returns.
  abbrev pub both_stored : StateChannel → StateChannel → Dict StateChannel → Dict StateChannel
  both_stored post final channels =
      insert final.multisig_address final (insert post.multisig_address post channels)

  -- If both parties compute the same channels with and without the refund app, and both sign the
  -- four commitments with the keys of their free balance addresses, then the messages of each,
  -- given those of the other in order, bring both sides to persist the channel without the refund
  -- app and to return the map that has it.
  pub withdraw-completes :
      (params : WithdrawProtocolParams) (ci cr : Context WithdrawProtocolParams)
      (sign_i sign_r : Commitment → Option ℕ → Signature) (post final : StateChannel)
      (conditional update uninstall : Commitment)
      → Withdrawable params ci cr sign_i sign_r post final conditional update uninstall
      → (play sign_r
            (answer ci.process_id Protocol.withdraw params.responder_xpub (
                with_two_signatures
                  (sign_i update none)
                  (sign_i (withdrawal_commitment params post) none))
              ∷ answer ci.process_id Protocol.withdraw params.responder_xpub
                  (with_signature (sign_i uninstall none))
              ∷ [])
            (withdraw_responding cr)
          ≡ record {
            persisted = (final ∷ []) ∷ [];
            sent =
                responder_messages cr params sign_r conditional update
                  (withdrawal_commitment params post)
                  uninstall;
            result = some (both_stored post final cr.state_channels_map);
          })
        × (play sign_i
              (responder_messages cr params sign_r conditional update
                (withdrawal_commitment params post)
                uninstall)
              (withdraw_initiating ci)
            ≡ record {
              persisted = (final ∷ []) ∷ [];
              sent =
                  initiator_messages ci params sign_i conditional update
                    (withdrawal_commitment params post)
                    uninstall;
              result = some (both_stored post final ci.state_channels_map);
            })
  unfolding withdraw_initiating withdraw_responding withdraw_initiating_exit
      withdraw_responding_exit
  withdraw-completes params ci cr sign_i sign_r post final conditional update uninstall a =
      let withdrawal = withdrawal_commitment params post in
      (
        rw
            (
              a.params_r,
              a.network,
              a.stored_r,
              a.address_i,
              a.adds,
              a.latest,
              a.conditions,
              a.custom,
              assert-Honest sign_i a.initiator conditional none
                  a.conditional_signable.initiator_signs,
            )
            (rw (a.conditional_signable.joins_r, a.has_fb, a.commits, play)
              (rw
                (
                  assert-Honest sign_i a.initiator update none a.update_signable.initiator_signs,
                  play,
                )
                (rw (a.update_signable.joins_r, play)
                  (rw
                    (
                      assert-Honest sign_i a.initiator withdrawal none
                          a.withdrawal_signable.initiator_signs,
                      play,
                    )
                    (rw
                      (
                        a.withdrawal_signable.joins_r, a.removes, a.has_final_fb, a.commits_final,
                        play,
                      )
                      (rw
                        (
                          assert-Honest sign_i a.initiator uninstall none
                              a.uninstall_signable.initiator_signs,
                          play,
                        )
                        (rw (a.uninstall_signable.joins_r, play) refl))))))),
        rw
            (
              a.params_i,
              a.stored_i,
              a.address_r,
              a.adds,
              a.latest,
              a.conditions,
              assert-Honest sign_r a.responder conditional none
                  a.conditional_signable.responder_signs,
            )
            (rw (a.conditional_signable.joins_i, a.has_fb, a.commits, play)
              (rw
                (
                  assert-Honest sign_r a.responder update none a.update_signable.responder_signs,
                  play,
                )
                (rw (a.update_signable.joins_i, play)
                  (rw
                    (
                      assert-Honest sign_r a.responder withdrawal none
                          a.withdrawal_signable.responder_signs,
                      play,
                    )
                    (rw (a.removes, a.has_final_fb, a.commits_final, play)
                      (rw
                        (
                          assert-Honest sign_r a.responder uninstall none
                              a.uninstall_signable.responder_signs,
                          play,
                        )
                        (rw (a.withdrawal_signable.joins_i, a.uninstall_signable.joins_i, play)
                          refl))))))),
      )
