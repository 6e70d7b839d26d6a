-- ===== src/Protocol/InstallVirtual/IntermediarySafe.antt =====
-- When the intermediary of the virtual app installation writes to the store.
use indrav.Prelude.{refl}
use indrav.Types.{Platform}
use indrav.StateChannel.{get_multisig_owner_addr_of, free_balance}
use indrav.Outcome.{Chain}
use indrav.Commitment.{
  Ethereum, state_commitment, assert_is_valid_signature, get_signed_transaction,
}
use indrav.Machine.{Context, InstallVirtualAppProtocolParams}
use indrav.Machine.Rules.{Ensures, Ensures-lift}
use indrav.Protocol.{given}
use indrav.Protocol.Signatures.{assert-SignedBy}
use indrav.Protocol.InstallVirtual.{agreement_conditional, default_timeout_commitment, text_of}
use indrav.Protocol.InstallVirtual.Objects.{objects_for_intermediary}
use indrav.Protocol.InstallVirtual.Agreed.{
  MediatingAgreed, Persists, Returns, intermediary_map, intermediary_list,
}
use indrav.Protocol.InstallVirtual.Intermediary.{
  install_virtual_intermediary, install_virtual_intermediary_apps, install_virtual_intermediary_end,
}

module _ ⦃p : Platform⦄ ⦃eth : Ethereum⦄ ⦃chain : Chain⦄ where
  pub intermediary-Ensures :
      (c : Context InstallVirtualAppProtocolParams)
      → Ensures
          (Persists (MediatingAgreed c) intermediary_list)
          (Returns (MediatingAgreed c) intermediary_map)
          (install_virtual_intermediary c)
  unfolding install_virtual_intermediary install_virtual_intermediary_apps
      install_virtual_intermediary_end
  intermediary-Ensures c =
      Ensures-lift _ _
        (objects_for_intermediary c.params c.state_channels_map (text_of c.custom_data.signature2)
          (text_of c.custom_data.signature3) c.network)
        _
        λ o computed.
          Ensures-lift _ _ (get_multisig_owner_addr_of c.params.initiator_xpub o.with_initiating) _
            λ ia has_ia.
              Ensures-lift _ _
                (get_multisig_owner_addr_of c.params.responder_xpub o.with_responding) _
                λ ra has_ra.
                  Ensures-lift _ _
                    (agreement_conditional c.network o.with_initiating o.pass_through
                      (text_of c.custom_data.signature2))
                    _
                    λ agreement_i agrees_i.
                      Ensures-lift _ _
                        (assert_is_valid_signature ia agreement_i c.custom_data.signature) _
                        λ u1 v1.
                          Ensures-lift _ _
                            (agreement_conditional c.network o.with_responding o.pass_through
                              (text_of c.custom_data.signature2))
                            _
                            λ agreement_r agrees_r s m3.
                              Ensures-lift _ _
                                (assert_is_valid_signature ra agreement_r m3.custom_data.signature)
                                _
                                λ u2 v2.
                                  Ensures-lift _ _ (free_balance o.with_responding) _
                                    λ fb_r has_fb_r.
                                      Ensures-lift _ _ (state_commitment c.network fb_r) _
                                        λ activation_r activates_r.
                                          Ensures-lift _ _
                                            (assert_is_valid_signature ra activation_r
                                              m3.custom_data.signature2)
                                            _
                                            λ u3 v3.
                                              Ensures-lift _ _ (free_balance o.with_initiating) _
                                                λ fb_i has_fb_i.
                                                  Ensures-lift _ _ (state_commitment c.network fb_i)
                                                    _
                                                    λ activation_i activates_i s2 s3.
                                                      Ensures-lift _ _
                                                        (given c.custom_data.signature) _
                                                        λ g1 h1.
                                                          Ensures-lift _ _
                                                            (get_signed_transaction agreement_i _) _
                                                            λ t1 j1.
                                                            Ensures-lift _ _
                                                            (given m3.custom_data.signature2) _
                                                            λ g2 h2 m5.
                                                            Ensures-lift _ _
                                                            (assert_is_valid_signature ia
                                                            activation_i m5.custom_data.signature)
                                                            _
                                                            λ u4 v4.
                                                            Ensures-lift _ _
                                                            (given m5.custom_data.signature) _
                                                            λ g3 h3.
                                                            Ensures-lift _ _
                                                            (get_signed_transaction activation_r _)
                                                            _
                                                            λ t2 j2.
                                                            Ensures-lift _ _
                                                            (default_timeout_commitment c.network
                                                            o.pass_through)
                                                            _
                                                            λ pass_state pass_commits.
                                                            Ensures-lift _ _
                                                            (assert_is_valid_signature ia pass_state
                                                            m5.custom_data.signature2)
                                                            _
                                                            λ u5 v5 s4.
                                                            Ensures-lift _ _
                                                            (get_signed_transaction activation_r _)
                                                            _
                                                            λ t3 j3 s5 m7.
                                                            Ensures-lift _ _
                                                            (given m5.custom_data.signature2) _
                                                            λ g4 h4.
                                                            Ensures-lift _ _
                                                            (assert_is_valid_signature ra pass_state
                                                            m7.custom_data.signature)
                                                            _
                                                            λ u6 v6.
                                                            Ensures-lift _ _
                                                            (given m7.custom_data.signature) _
                                                            λ g5 h5.
                                                            Ensures-lift _ _
                                                            (get_signed_transaction pass_state _) _
                                                            λ t4 j4.
                                                            let agreed : MediatingAgreed c o =
                                                            record {
                                                            initiator_address = ia;
                                                            responder_address = ra;
                                                            initiating_fb = fb_i;
                                                            responding_fb = fb_r;
                                                            initiating_agreement = agreement_i;
                                                            responding_agreement = agreement_r;
                                                            initiating_activation = activation_i;
                                                            responding_activation = activation_r;
                                                            pass_state = pass_state;
                                                            computed = computed;
                                                            has_initiator = has_ia;
                                                            has_responder = has_ra;
                                                            initiating_agrees = agrees_i;
                                                            responding_agrees = agrees_r;
                                                            has_initiating_fb = has_fb_i;
                                                            has_responding_fb = has_fb_r;
                                                            initiating_activates = activates_i;
                                                            responding_activates = activates_r;
                                                            pass_commits = pass_commits;
                                                            initiator_agreed =
                                                            assert-SignedBy ia agreement_i
                                                            c.custom_data.signature v1;
                                                            initiator_activated =
                                                            assert-SignedBy ia activation_i
                                                            m5.custom_data.signature v4;
                                                            initiator_passed =
                                                            assert-SignedBy ia pass_state
                                                            m5.custom_data.signature2 v5;
                                                            responder_agreed =
                                                            assert-SignedBy ra agreement_r
                                                            m3.custom_data.signature v2;
                                                            responder_activated =
                                                            assert-SignedBy ra activation_r
                                                            m3.custom_data.signature2 v3;
                                                            responder_passed =
                                                            assert-SignedBy ra pass_state
                                                            m7.custom_data.signature v6;
                                                            } in
                                                            ((o, agreed, refl), (o, agreed, refl))
