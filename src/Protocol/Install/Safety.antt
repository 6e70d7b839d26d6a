-- ===== src/Protocol/Install/Safety.antt =====
-- When a side of the install protocol writes to the store.
use indrav.Prelude.{Option, ◌≡◌, refl, some, List, [], ◌∷◌}
use indrav.Prelude.Dict.{Dict, lookup}
use indrav.Prelude.Result.{ok, type_error, or_throw-eq-ok}
use indrav.Types.{Address, Xpub, Platform}
use indrav.AppInstance.{AppInstance}
use indrav.StateChannel.{
  StateChannel, free_balance, get_free_balance_addr_of, most_recently_installed_app_instance,
}
use indrav.Commitment.{
  Signature, Ethereum, Commitment, NetworkContext, state_commitment, assert_is_valid_signature,
  get_signed_transaction,
}
use indrav.Machine.{Context, InstallProtocolParams}
use indrav.Machine.Rules.{Ensures, Ensures-lift}
use indrav.Protocol.{channel_of, given}
use indrav.Protocol.Agreed.{Stores}
use indrav.Protocol.Signatures.{SignedBy, assert-SignedBy}
use indrav.Protocol.Install.{install_transition, conditional_transaction_data}
use indrav.Protocol.Install.Sides.{install_initiating, install_responding}

module _ ⦃p : Platform⦄ ⦃eth : Ethereum⦄ where
  -- The list is one channel: the stored one with the app installed, for which there are signatures
  -- by the counterparty's free balance address on the conditional transaction and on the new state
  -- of the free balance.
  pub record InstallAgreed (network : NetworkContext) (channels : Dict StateChannel)
      (params : InstallProtocolParams) (counterparty : Xpub) (persisted : List StateChannel)
      : Type 0 where
    pub pre : StateChannel
    pub post : StateChannel
    pub fb : AppInstance
    pub address : Address
    pub conditional : Commitment
    pub update : Commitment
    pub stored : lookup params.multisig_address channels ≡ some pre
    pub computed : install_transition params pre ≡ ok post
    pub has_fb : free_balance post ≡ ok fb
    pub has_address : get_free_balance_addr_of counterparty pre ≡ ok address
    pub conditions : conditional_transaction_data network post ≡ ok conditional
    pub commits : state_commitment network fb ≡ ok update
    pub app_countersigned : SignedBy address conditional
    pub update_countersigned : SignedBy address update
    pub is_post : persisted ≡ post ∷ []

  -- What the two signature checks of a side have established by the time it persists.
  agreed_on :
      (c : Context InstallProtocolParams) (counterparty : Xpub) (s s2 : Option Signature)
      {pre post : StateChannel} {fb : AppInstance} {address : Address}
      {conditional update : Commitment} {u v : Unit {0}}
      → channel_of c.params.multisig_address c.state_channels_map ≡ ok pre
      → install_transition c.params pre ≡ ok post
      → conditional_transaction_data c.network post ≡ ok conditional
      → get_free_balance_addr_of counterparty pre ≡ ok address
      → assert_is_valid_signature address conditional s ≡ ok u
      → free_balance post ≡ ok fb
      → state_commitment c.network fb ≡ ok update
      → assert_is_valid_signature address update s2 ≡ ok v
      → InstallAgreed c.network c.state_channels_map c.params counterparty (post ∷ [])
  agreed_on c counterparty s s2 {pre} {post} {fb} {address} {conditional} {update} found computed
        conditions has_address valid has_fb commits valid2 =
      record {
        pre = pre;
        post = post;
        fb = fb;
        address = address;
        conditional = conditional;
        update = update;
        stored =
            or_throw-eq-ok (lookup c.params.multisig_address c.state_channels_map) type_error found;
        computed = computed;
        has_fb = has_fb;
        has_address = has_address;
        conditions = conditions;
        commits = commits;
        app_countersigned = assert-SignedBy address conditional s valid;
        update_countersigned = assert-SignedBy address update s2 valid2;
        is_post = refl;
      }

  -- The initiator's side.
  install_initiating-Ensures :
      (c : Context InstallProtocolParams)
      → Ensures
          (InstallAgreed c.network c.state_channels_map c.params c.params.responder_xpub)
          (Stores
            (InstallAgreed c.network c.state_channels_map c.params c.params.responder_xpub)
            c.state_channels_map)
          (install_initiating c)
  unfolding install_initiating
  install_initiating-Ensures c =
      Ensures-lift _ _ (channel_of c.params.multisig_address c.state_channels_map) _ λ pre found.
        Ensures-lift _ _ (install_transition c.params pre) _ λ post computed.
          Ensures-lift _ _ (most_recently_installed_app_instance post) _ λ new_app latest.
            Ensures-lift _ _ (conditional_transaction_data c.network post) _
              λ conditional conditions my_signature reply.
                Ensures-lift _ _ (get_free_balance_addr_of c.params.responder_xpub pre) _
                  λ address has_address.
                    Ensures-lift _ _
                      (assert_is_valid_signature address conditional reply.custom_data.signature) _
                      λ u valid.
                        Ensures-lift _ _ (given reply.custom_data.signature) _ λ s is_given.
                          Ensures-lift _ _ (get_signed_transaction conditional _) _ λ t is_signed.
                            Ensures-lift _ _ (free_balance post) _ λ fb has_fb.
                              Ensures-lift _ _ (state_commitment c.network fb) _ λ update commits.
                                Ensures-lift _ _
                                  (assert_is_valid_signature address update
                                    reply.custom_data.signature2)
                                  _
                                  λ u2 valid2 my_update.
                                    Ensures-lift _ _ (given reply.custom_data.signature2) _
                                      λ s2 is_given2.
                                        Ensures-lift _ _ (get_signed_transaction update _) _
                                          λ t2 is_signed2.
                                            let agreed =
                                              agreed_on c c.params.responder_xpub
                                                reply.custom_data.signature
                                                reply.custom_data.signature2 found computed
                                                conditions has_address valid has_fb commits
                                                valid2 in
                                            (agreed, λ done. (post, agreed, refl))

  -- The responder's side.
  install_responding-Ensures :
      (c : Context InstallProtocolParams)
      → Ensures
          (InstallAgreed c.network c.state_channels_map c.params c.params.initiator_xpub)
          (Stores
            (InstallAgreed c.network c.state_channels_map c.params c.params.initiator_xpub)
            c.state_channels_map)
          (install_responding c)
  unfolding install_responding
  install_responding-Ensures c =
      Ensures-lift _ _ (channel_of c.params.multisig_address c.state_channels_map) _ λ pre found.
        Ensures-lift _ _ (install_transition c.params pre) _ λ post computed.
          Ensures-lift _ _ (most_recently_installed_app_instance post) _ λ new_app latest.
            Ensures-lift _ _ (conditional_transaction_data c.network post) _
              λ conditional conditions.
                Ensures-lift _ _ (get_free_balance_addr_of c.params.initiator_xpub pre) _
                  λ address has_address.
                    Ensures-lift _ _
                      (assert_is_valid_signature address conditional c.custom_data.signature) _
                      λ u valid my_signature.
                        Ensures-lift _ _ (given c.custom_data.signature) _ λ s is_given.
                          Ensures-lift _ _ (get_signed_transaction conditional _) _ λ t is_signed.
                            Ensures-lift _ _ (free_balance post) _ λ fb has_fb.
                              Ensures-lift _ _ (state_commitment c.network fb) _
                                λ update commits my_update reply.
                                  Ensures-lift _ _
                                    (assert_is_valid_signature address update
                                      reply.custom_data.signature)
                                    _
                                    λ u2 valid2.
                                      Ensures-lift _ _ (given reply.custom_data.signature) _
                                        λ s2 is_given2.
                                          Ensures-lift _ _ (get_signed_transaction update _) _
                                            λ t2 is_signed2.
                                              let agreed =
                                                agreed_on c c.params.initiator_xpub
                                                  c.custom_data.signature
                                                  reply.custom_data.signature found computed
                                                  conditions has_address valid has_fb commits
                                                  valid2 in
                                              (agreed, (post, agreed, refl))

  -- Whatever the counterparty sends, either side of an installation persists only the channel with the
  -- app installed, and only once it has the counterparty's signatures on both the conditional
  -- transaction and the new free balance; if it returns, the map has that channel.
  pub install-Ensures :
      (c : Context InstallProtocolParams)
      → Ensures
          (InstallAgreed c.network c.state_channels_map c.params c.params.responder_xpub)
          (Stores
            (InstallAgreed c.network c.state_channels_map c.params c.params.responder_xpub)
            c.state_channels_map)
          (install_initiating c)
        × Ensures
            (InstallAgreed c.network c.state_channels_map c.params c.params.initiator_xpub)
            (Stores
              (InstallAgreed c.network c.state_channels_map c.params c.params.initiator_xpub)
              c.state_channels_map)
            (install_responding c)
  install-Ensures c = (install_initiating-Ensures c, install_responding-Ensures c)
