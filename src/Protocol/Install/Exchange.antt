-- ===== src/Protocol/Install/Exchange.antt =====
-- Two honest sides of the install protocol bring it to its end.
use indrav.Prelude.{ℕ, ◌≡◌, refl, Option, none, some, true, [], ◌∷◌}
use indrav.Prelude.Dict.{lookup, insert}
use indrav.Prelude.Result.{ok}
use indrav.Types.{Address, Platform}
use indrav.AppInstance.{AppInstance}
use indrav.StateChannel.{
  StateChannel, free_balance, get_free_balance_addr_of, most_recently_installed_app_instance,
}
use indrav.Commitment.{
  Signature, Ethereum, Commitment, MinimalTransaction, state_commitment, get_signed_transaction,
}
use indrav.Machine.{
  Protocol, Context, InstallProtocolParams, install_params, ProtocolMessage, no_data,
}
use indrav.Machine.Play.{play}
use indrav.Protocol.{opening, answer, with_signature, with_two_signatures}
use indrav.Protocol.Signatures.{Honest, assert-Honest}
use indrav.Protocol.Install.{install_transition, conditional_transaction_data}
use indrav.Protocol.Install.Sides.{install_initiating, install_responding}

module _ ⦃p : Platform⦄ ⦃eth : Ethereum⦄ where
  -- What an installation of `post` over `pre` commits both parties to, and that both can sign it.
  pub record Agreeable (params : InstallProtocolParams) (ci cr : Context InstallProtocolParams)
      (sign_i sign_r : Commitment → Option ℕ → Signature) (post : StateChannel)
      (conditional update : Commitment) : Type 0 where
    pub pre : StateChannel
    pub app : AppInstance
    pub fb : AppInstance
    pub initiator : Address
    pub responder : Address
    pub tx : (i : ℕ) → MinimalTransaction
    pub params_i : ci.params ≡ params
    pub params_r : cr.params ≡ params
    pub network : cr.network ≡ ci.network
    pub stored_i : lookup params.multisig_address ci.state_channels_map ≡ some pre
    pub stored_r : lookup params.multisig_address cr.state_channels_map ≡ some pre
    pub installs : install_transition params pre ≡ ok post
    pub latest : most_recently_installed_app_instance post ≡ ok app
    pub conditions : conditional_transaction_data ci.network post ≡ ok conditional
    pub has_fb : free_balance post ≡ ok fb
    pub commits : state_commitment ci.network fb ≡ ok update
    pub address_i : get_free_balance_addr_of params.initiator_xpub pre ≡ ok initiator
    pub address_r : get_free_balance_addr_of params.responder_xpub pre ≡ ok responder
    pub conditional_i : Honest sign_i initiator conditional none
    pub conditional_r : Honest sign_r responder conditional none
    pub update_i : Honest sign_i initiator update none
    pub update_r : Honest sign_r responder update none
    pub joins_0 :
        get_signed_transaction conditional (sign_i conditional none ∷ sign_r conditional none ∷ [])
        ≡ ok (tx 0)
    pub joins_1 :
        get_signed_transaction conditional (sign_r conditional none ∷ sign_i conditional none ∷ [])
        ≡ ok (tx 1)
    pub joins_2 :
        get_signed_transaction update (sign_i update none ∷ sign_r update none ∷ []) ≡ ok (tx 2)
    pub joins_3 :
        get_signed_transaction update (sign_r update none ∷ sign_i update none ∷ []) ≡ ok (tx 3)
    pub custom : cr.custom_data ≡ with_signature (sign_i conditional none)

  -- The responder's two messages: its two signatures, and that it has persisted.
  abbrev pub counter_signed :
      Context InstallProtocolParams
      → InstallProtocolParams
      → Signature
      → Signature
      → ProtocolMessage
  counter_signed cr params s t =
      answer cr.process_id Protocol.install params.initiator_xpub (with_two_signatures s t)

  abbrev pub data_persisted :
      Context InstallProtocolParams → InstallProtocolParams → ProtocolMessage
  data_persisted cr params =
      answer cr.process_id Protocol.install params.initiator_xpub
        (record no_data { data_persisted = some true })

  -- If both parties compute the same channel with the app, and both sign the conditional
  -- transaction and the new free balance with their keys, then the three messages and the last
  -- notice that they exchange bring both sides to persist that channel and to return the map
  -- that has it.
  pub install-completes :
      (params : InstallProtocolParams) (ci cr : Context InstallProtocolParams)
      (sign_i sign_r : Commitment → Option ℕ → Signature) (post : StateChannel)
      (conditional update : Commitment)
      → Agreeable params ci cr sign_i sign_r post conditional update
      → (play sign_r
            (answer ci.process_id Protocol.install params.responder_xpub
                (with_signature (sign_i update none))
              ∷ [])
            (install_responding cr)
          ≡ record {
            persisted = (post ∷ []) ∷ [];
            sent =
                counter_signed cr params (sign_r conditional none) (sign_r update none)
                ∷ data_persisted cr params
                ∷ [];
            result = some (insert post.multisig_address post cr.state_channels_map);
          })
        × (play sign_i
              (counter_signed cr params (sign_r conditional none) (sign_r update none)
                ∷ data_persisted cr params
                ∷ [])
              (install_initiating ci)
            ≡ record {
              persisted = (post ∷ []) ∷ [];
              sent =
                  opening ci.process_id Protocol.install
                    (install_params params)
                    params.responder_xpub
                    (sign_i conditional none)
                  ∷ answer ci.process_id Protocol.install params.responder_xpub
                      (with_signature (sign_i update none))
                  ∷ [];
              result = some (insert post.multisig_address post ci.state_channels_map);
            })
  unfolding install_initiating install_responding
  install-completes params ci cr sign_i sign_r post conditional update a = (
    rw
        (
          a.params_r,
          a.network,
          a.stored_r,
          a.installs,
          a.latest,
          a.conditions,
          a.address_i,
          a.custom,
          assert-Honest sign_i a.initiator conditional none a.conditional_i,
        )
        (rw (a.joins_1, a.has_fb, a.commits, play)
          (rw (assert-Honest sign_i a.initiator update none a.update_i, play)
            (rw (a.joins_3, play) refl))),
    rw
        (
          a.params_i,
          a.stored_i,
          a.installs,
          a.latest,
          a.conditions,
          a.address_r,
          assert-Honest sign_r a.responder conditional none a.conditional_r,
        )
        (rw (a.joins_0, a.has_fb, a.commits, play)
          (rw (assert-Honest sign_r a.responder update none a.update_r, play)
            (rw (a.joins_2, play) refl))),
  )
