-- ===== src/Protocol/Uninstall/Safety.antt =====
-- When a side of the uninstall protocol writes to the store.
use indrav.Prelude.{◌≡◌, refl, List, [], ◌∷◌}
use indrav.Prelude.Dict.{Dict}
use indrav.Prelude.Result.{ok}
use indrav.Types.{Xpub, Platform}
use indrav.AppInstance.{AppInstance}
use indrav.FreeBalance.{xkey_kth_address}
use indrav.StateChannel.{StateChannel, free_balance}
use indrav.Outcome.{Chain}
use indrav.Commitment.{
  Ethereum, Commitment, NetworkContext, state_commitment, assert_is_valid_signature,
  get_signed_transaction,
}
use indrav.Machine.{Context, UninstallProtocolParams}
use indrav.Machine.Rules.{Ensures, Ensures-lift}
use indrav.Protocol.{given}
use indrav.Protocol.Agreed.{Stores}
use indrav.Protocol.Signatures.{SignedBy, assert-SignedBy}
use indrav.Protocol.Uninstall.{uninstall_transition, uninstall_initiating, uninstall_responding}

module _ ⦃p : Platform⦄ ⦃eth : Ethereum⦄ ⦃chain : Chain⦄ where
  -- The list is one channel: the one that `computeStateTransition` returns, for whose free balance
  -- there is a signature by the counterparty's top level key.
  pub record UninstallAgreed (network : NetworkContext) (channels : Dict StateChannel)
      (params : UninstallProtocolParams) (counterparty : Xpub) (persisted : List StateChannel)
      : Type 0 where
    pub post : StateChannel
    pub fb : AppInstance
    pub commitment : Commitment
    pub computed : uninstall_transition params channels ≡ ok post
    pub has_fb : free_balance post ≡ ok fb
    pub commits : state_commitment network fb ≡ ok commitment
    pub countersigned : SignedBy (xkey_kth_address counterparty 0) commitment
    pub is_post : persisted ≡ post ∷ []

  -- The initiator's side.
  uninstall_initiating-Ensures :
      (c : Context UninstallProtocolParams)
      → Ensures
          (UninstallAgreed c.network c.state_channels_map c.params c.params.responder_xpub)
          (Stores
            (UninstallAgreed c.network c.state_channels_map c.params c.params.responder_xpub)
            c.state_channels_map)
          (uninstall_initiating c)
  unfolding uninstall_initiating
  uninstall_initiating-Ensures c =
      Ensures-lift _ _ (uninstall_transition c.params c.state_channels_map) _ λ post computed.
        Ensures-lift _ _ (free_balance post) _ λ fb has_fb.
          Ensures-lift _ _ (state_commitment c.network fb) _ λ commitment commits signature reply.
            Ensures-lift _ _
              (assert_is_valid_signature (xkey_kth_address c.params.responder_xpub 0) commitment
                reply.custom_data.signature)
              _
              λ u valid.
                Ensures-lift _ _ (given reply.custom_data.signature) _ λ counter_signature is_given.
                  Ensures-lift _ _ (get_signed_transaction commitment _) _ λ final signed.
                    let agreed : UninstallAgreed c.network c.state_channels_map c.params
                        c.params.responder_xpub (post ∷ []) =
                      record {
                        post = post;
                        fb = fb;
                        commitment = commitment;
                        computed = computed;
                        has_fb = has_fb;
                        commits = commits;
                        countersigned =
                            assert-SignedBy (xkey_kth_address c.params.responder_xpub 0) commitment
                              reply.custom_data.signature valid;
                        is_post = refl;
                      } in
                    (agreed, (post, agreed, refl))

  -- The responder's side.
  uninstall_responding-Ensures :
      (c : Context UninstallProtocolParams)
      → Ensures
          (UninstallAgreed c.network c.state_channels_map c.params c.params.initiator_xpub)
          (Stores
            (UninstallAgreed c.network c.state_channels_map c.params c.params.initiator_xpub)
            c.state_channels_map)
          (uninstall_responding c)
  unfolding uninstall_responding
  uninstall_responding-Ensures c =
      Ensures-lift _ _ (uninstall_transition c.params c.state_channels_map) _ λ post computed.
        Ensures-lift _ _ (free_balance post) _ λ fb has_fb.
          Ensures-lift _ _ (state_commitment c.network fb) _ λ commitment commits.
            Ensures-lift _ _
              (assert_is_valid_signature (xkey_kth_address c.params.initiator_xpub 0) commitment
                c.custom_data.signature)
              _
              λ u valid signature.
                Ensures-lift _ _ (given c.custom_data.signature) _ λ counter_signature is_given.
                  Ensures-lift _ _ (get_signed_transaction commitment _) _ λ final signed.
                    let agreed : UninstallAgreed c.network c.state_channels_map c.params
                        c.params.initiator_xpub (post ∷ []) =
                      record {
                        post = post;
                        fb = fb;
                        commitment = commitment;
                        computed = computed;
                        has_fb = has_fb;
                        commits = commits;
                        countersigned =
                            assert-SignedBy (xkey_kth_address c.params.initiator_xpub 0) commitment
                              c.custom_data.signature valid;
                        is_post = refl;
                      } in
                    (agreed, (post, agreed, refl))

  -- Whatever the counterparty sends, either side of an uninstallation persists only the channel from
  -- which the app is uninstalled with the increments of its outcome, and only once it has the
  -- counterparty's signature on that channel's free balance; if it returns, the map has that channel.
  pub uninstall-Ensures :
      (c : Context UninstallProtocolParams)
      → Ensures
          (UninstallAgreed c.network c.state_channels_map c.params c.params.responder_xpub)
          (Stores
            (UninstallAgreed c.network c.state_channels_map c.params c.params.responder_xpub)
            c.state_channels_map)
          (uninstall_initiating c)
        × Ensures
            (UninstallAgreed c.network c.state_channels_map c.params c.params.initiator_xpub)
            (Stores
              (UninstallAgreed c.network c.state_channels_map c.params c.params.initiator_xpub)
              c.state_channels_map)
            (uninstall_responding c)
  uninstall-Ensures c = (uninstall_initiating-Ensures c, uninstall_responding-Ensures c)
