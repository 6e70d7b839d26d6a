-- ===== src/Protocol/Update/Safety.antt =====
-- When a side of the update protocol writes to the store.
use indrav.Prelude.{refl}
use indrav.Types.{Platform}
use indrav.FreeBalance.{xkey_kth_address}
use indrav.StateChannel.{get_app_instance}
use indrav.StateChannel.Operations.{set_state}
use indrav.Commitment.{Ethereum, state_commitment, assert_is_valid_signature}
use indrav.Machine.{Context, UpdateProtocolParams}
use indrav.Machine.Rules.{Ensures, Ensures-lift}
use indrav.Protocol.{channel_of}
use indrav.Protocol.Agreed.{StateAgreed, agreed_on_state, Stores}
use indrav.Protocol.Update.{update_initiating, update_responding}

module _ ⦃p : Platform⦄ ⦃eth : Ethereum⦄ where
  -- The initiator's side.
  update_initiating-Ensures :
      (c : Context UpdateProtocolParams)
      → Ensures
          (StateAgreed c.network c.state_channels_map c.params.multisig_address
            c.params.app_identity_hash c.params.responder_xpub c.params.new_state)
          (Stores
            (StateAgreed c.network c.state_channels_map c.params.multisig_address
              c.params.app_identity_hash c.params.responder_xpub c.params.new_state)
            c.state_channels_map)
          (update_initiating c)
  unfolding update_initiating
  update_initiating-Ensures c =
      Ensures-lift _ _ (channel_of c.params.multisig_address c.state_channels_map) _ λ pre found.
        Ensures-lift _ _ (set_state c.params.app_identity_hash c.params.new_state pre) _
          λ post computed.
            Ensures-lift _ _ (get_app_instance c.params.app_identity_hash post) _ λ app finds_app.
              Ensures-lift _ _ (state_commitment c.network app) _
                λ commitment commits signature reply.
                  Ensures-lift _ _
                    (assert_is_valid_signature
                      (xkey_kth_address c.params.responder_xpub app.app_seq_no) commitment
                      reply.custom_data.signature)
                    _
                    λ u valid.
                      let agreed =
                        agreed_on_state c.network c.state_channels_map c.params.multisig_address
                          c.params.app_identity_hash c.params.responder_xpub c.params.new_state
                          reply.custom_data.signature found computed finds_app commits valid in
                      (agreed, (post, agreed, refl))

  -- The responder's side.
  update_responding-Ensures :
      (c : Context UpdateProtocolParams)
      → Ensures
          (StateAgreed c.network c.state_channels_map c.params.multisig_address
            c.params.app_identity_hash c.params.initiator_xpub c.params.new_state)
          (Stores
            (StateAgreed c.network c.state_channels_map c.params.multisig_address
              c.params.app_identity_hash c.params.initiator_xpub c.params.new_state)
            c.state_channels_map)
          (update_responding c)
  unfolding update_responding
  update_responding-Ensures c =
      Ensures-lift _ _ (channel_of c.params.multisig_address c.state_channels_map) _ λ pre found.
        Ensures-lift _ _ (set_state c.params.app_identity_hash c.params.new_state pre) _
          λ post computed.
            Ensures-lift _ _ (get_app_instance c.params.app_identity_hash post) _ λ app finds_app.
              Ensures-lift _ _ (state_commitment c.network app) _ λ commitment commits.
                Ensures-lift _ _
                  (assert_is_valid_signature
                    (xkey_kth_address c.params.initiator_xpub app.app_seq_no) commitment
                    c.custom_data.signature)
                  _
                  λ u valid signature.
                    let agreed =
                      agreed_on_state c.network c.state_channels_map c.params.multisig_address
                        c.params.app_identity_hash c.params.initiator_xpub c.params.new_state
                        c.custom_data.signature found computed finds_app commits valid in
                    (agreed, (post, agreed, refl))

  -- Whatever the counterparty sends, either side of an update persists only the channel with the new
  -- state of the app, and only once it has the counterparty's signature on that state; if it returns,
  -- the map has that channel.
  pub update-Ensures :
      (c : Context UpdateProtocolParams)
      → Ensures
          (StateAgreed c.network c.state_channels_map c.params.multisig_address
            c.params.app_identity_hash c.params.responder_xpub c.params.new_state)
          (Stores
            (StateAgreed c.network c.state_channels_map c.params.multisig_address
              c.params.app_identity_hash c.params.responder_xpub c.params.new_state)
            c.state_channels_map)
          (update_initiating c)
        × Ensures
            (StateAgreed c.network c.state_channels_map c.params.multisig_address
              c.params.app_identity_hash c.params.initiator_xpub c.params.new_state)
            (Stores
              (StateAgreed c.network c.state_channels_map c.params.multisig_address
                c.params.app_identity_hash c.params.initiator_xpub c.params.new_state)
              c.state_channels_map)
            (update_responding c)
  update-Ensures c = (update_initiating-Ensures c, update_responding-Ensures c)
