-- ===== src/Protocol/TakeAction/Safety.antt =====
-- When a side of the take action protocol writes to the store.
use indrav.Prelude.{◌≡◌, refl, some, List, [], ◌∷◌}
use indrav.Prelude.Dict.{Dict, lookup}
use indrav.Prelude.Result.{ok, type_error, or_throw-eq-ok}
use indrav.Types.{AppState, Platform}
use indrav.AppInstance.{AppInstance}
use indrav.FreeBalance.{xkey_kth_address}
use indrav.StateChannel.{StateChannel, get_app_instance}
use indrav.StateChannel.Operations.{set_state}
use indrav.Commitment.{Ethereum, state_commitment, assert_is_valid_signature}
use indrav.Machine.{Context, TakeActionProtocolParams}
use indrav.Machine.Rules.{Ensures, Ensures-lift}
use indrav.Protocol.{channel_of}
use indrav.Protocol.Agreed.{agreed_on_state, StateAgreed, Stores}
use indrav.Prelude.{ℕ}
use indrav.Types.{Xpub, Hash, Address}
use indrav.Commitment.{NetworkContext}
use indrav.Outcome.{Chain, compute_state_transition}
use indrav.Protocol.TakeAction.{take_action_initiating, take_action_responding}

module _ ⦃p : Platform⦄ ⦃eth : Ethereum⦄ ⦃chain : Chain⦄ where
  -- The state that the parties agreed on is what the contract computed from the stored state.
  pub record ActionAgreed (network : NetworkContext) (channels : Dict StateChannel)
      (multisig : Address) (hash : Hash) (counterparty : Xpub) (action : ℕ)
      (persisted : List StateChannel) : Type 0 where
    pub before : StateChannel
    pub old_app : AppInstance
    pub new_state : AppState
    pub was_stored : lookup multisig channels ≡ some before
    pub had_app : get_app_instance hash before ≡ ok old_app
    pub transition : compute_state_transition action old_app ≡ ok new_state
    pub agreed : StateAgreed network channels multisig hash counterparty new_state persisted

  -- The initiator's side.
  take_action_initiating-Ensures :
      (c : Context TakeActionProtocolParams)
      → Ensures
          (ActionAgreed c.network c.state_channels_map c.params.multisig_address
            c.params.app_identity_hash c.params.responder_xpub c.params.action)
          (Stores
            (ActionAgreed c.network c.state_channels_map c.params.multisig_address
              c.params.app_identity_hash c.params.responder_xpub c.params.action)
            c.state_channels_map)
          (take_action_initiating c)
  unfolding take_action_initiating
  take_action_initiating-Ensures c =
      Ensures-lift _ _ (channel_of c.params.multisig_address c.state_channels_map) _ λ pre found.
        Ensures-lift _ _ (get_app_instance c.params.app_identity_hash pre) _ λ old_app had_app.
          Ensures-lift _ _ (compute_state_transition c.params.action old_app) _
            λ new_state transition.
              Ensures-lift _ _ (set_state c.params.app_identity_hash new_state pre) _
                λ post computed.
                  Ensures-lift _ _ (get_app_instance c.params.app_identity_hash post) _
                    λ app finds_app.
                      Ensures-lift _ _ (state_commitment c.network app) _
                        λ commitment commits signature reply.
                          Ensures-lift _ _
                            (assert_is_valid_signature
                              (xkey_kth_address c.params.responder_xpub app.app_seq_no) commitment
                              reply.custom_data.signature)
                            _
                            λ u valid.
                              let agreed : ActionAgreed c.network c.state_channels_map
                                  c.params.multisig_address c.params.app_identity_hash
                                  c.params.responder_xpub c.params.action (post ∷ []) =
                                record {
                                  before = pre;
                                  old_app = old_app;
                                  new_state = new_state;
                                  was_stored =
                                      or_throw-eq-ok
                                        (lookup c.params.multisig_address c.state_channels_map)
                                        type_error found;
                                  had_app = had_app;
                                  transition = transition;
                                  agreed =
                                      agreed_on_state c.network c.state_channels_map
                                        c.params.multisig_address c.params.app_identity_hash
                                        c.params.responder_xpub new_state
                                        reply.custom_data.signature found computed finds_app commits
                                        valid;
                                } in
                              (agreed, (post, agreed, refl))

  -- The responder's side.
  take_action_responding-Ensures :
      (c : Context TakeActionProtocolParams)
      → Ensures
          (ActionAgreed c.network c.state_channels_map c.params.multisig_address
            c.params.app_identity_hash c.params.initiator_xpub c.params.action)
          (Stores
            (ActionAgreed c.network c.state_channels_map c.params.multisig_address
              c.params.app_identity_hash c.params.initiator_xpub c.params.action)
            c.state_channels_map)
          (take_action_responding c)
  unfolding take_action_responding
  take_action_responding-Ensures c =
      Ensures-lift _ _ (channel_of c.params.multisig_address c.state_channels_map) _ λ pre found.
        Ensures-lift _ _ (get_app_instance c.params.app_identity_hash pre) _ λ old_app had_app.
          Ensures-lift _ _ (compute_state_transition c.params.action old_app) _
            λ new_state transition.
              Ensures-lift _ _ (set_state c.params.app_identity_hash new_state pre) _
                λ post computed.
                  Ensures-lift _ _ (get_app_instance c.params.app_identity_hash post) _
                    λ app finds_app.
                      Ensures-lift _ _ (state_commitment c.network app) _ λ commitment commits.
                        Ensures-lift _ _
                          (assert_is_valid_signature
                            (xkey_kth_address c.params.initiator_xpub app.app_seq_no) commitment
                            c.custom_data.signature)
                          _
                          λ u valid signature.
                            let agreed : ActionAgreed c.network c.state_channels_map
                                c.params.multisig_address c.params.app_identity_hash
                                c.params.initiator_xpub c.params.action (post ∷ []) =
                              record {
                                before = pre;
                                old_app = old_app;
                                new_state = new_state;
                                was_stored =
                                    or_throw-eq-ok
                                      (lookup c.params.multisig_address c.state_channels_map)
                                      type_error found;
                                had_app = had_app;
                                transition = transition;
                                agreed =
                                    agreed_on_state c.network c.state_channels_map
                                      c.params.multisig_address c.params.app_identity_hash
                                      c.params.initiator_xpub new_state c.custom_data.signature
                                      found computed finds_app commits valid;
                              } in
                            (agreed, (post, agreed, refl))

  -- Whatever the counterparty sends, either side of an action persists only the channel in which the
  -- app has the state that its contract computed from the stored one and the action, and only once it
  -- has the counterparty's signature on that state; if it returns, the map has that channel.
  pub take_action-Ensures :
      (c : Context TakeActionProtocolParams)
      → Ensures
          (ActionAgreed c.network c.state_channels_map c.params.multisig_address
            c.params.app_identity_hash c.params.responder_xpub c.params.action)
          (Stores
            (ActionAgreed c.network c.state_channels_map c.params.multisig_address
              c.params.app_identity_hash c.params.responder_xpub c.params.action)
            c.state_channels_map)
          (take_action_initiating c)
        × Ensures
            (ActionAgreed c.network c.state_channels_map c.params.multisig_address
              c.params.app_identity_hash c.params.initiator_xpub c.params.action)
            (Stores
              (ActionAgreed c.network c.state_channels_map c.params.multisig_address
                c.params.app_identity_hash c.params.initiator_xpub c.params.action)
              c.state_channels_map)
            (take_action_responding c)
  take_action-Ensures c = (take_action_initiating-Ensures c, take_action_responding-Ensures c)
