-- ===== src/Protocol/InstallVirtual/RespondingSafe.antt =====
-- When the responder of the virtual app installation writes to the store.
use indrav.Prelude.{refl}
use indrav.Types.{Platform}
use indrav.AppInstance.{identity_hash}
use indrav.StateChannel.{get_multisig_owner_addr_of, free_balance}
use indrav.Outcome.{Chain}
use indrav.Commitment.{
  Ethereum, state_commitment, assert_is_valid_signature, get_signed_transaction,
}
use indrav.Machine.{Context, InstallVirtualAppProtocolParams}
use indrav.Machine.Rules.{Ensures, Ensures-lift}
use indrav.Protocol.{given}
use indrav.Protocol.Signatures.{assert-SignedBy}
use indrav.Protocol.InstallVirtual.{agreement_conditional, default_timeout_commitment}
use indrav.Protocol.InstallVirtual.Objects.{objects_for_responding}
use indrav.Protocol.InstallVirtual.Agreed.{
  RespondingAgreed, Persists, Returns, user_map, responding_list,
}
use indrav.Protocol.InstallVirtual.Responding.{
  install_virtual_responding, install_virtual_responding_apps,
}

module _ ⦃p : Platform⦄ ⦃eth : Ethereum⦄ ⦃chain : Chain⦄ where
  pub responding-Ensures :
      (c : Context InstallVirtualAppProtocolParams)
      → Ensures
          (Persists (RespondingAgreed c) responding_list)
          (Returns (RespondingAgreed c) user_map)
          (install_virtual_responding c)
  unfolding install_virtual_responding install_virtual_responding_apps
  responding-Ensures c =
      Ensures-lift _ _ (objects_for_responding c.params c.state_channels_map c.network) _
        λ o computed.
          Ensures-lift _ _
            (get_multisig_owner_addr_of c.params.intermediary_xpub o.with_intermediary) _
            λ ia has_ia.
              Ensures-lift _ _ (get_multisig_owner_addr_of c.params.initiator_xpub o.with_user) _
                λ ra has_ra.
                  Ensures-lift _ _
                    (agreement_conditional c.network o.with_intermediary o.pass_through
                      (identity_hash o.virtual_app))
                    _
                    λ agreement agrees.
                      Ensures-lift _ _
                        (assert_is_valid_signature ia agreement c.custom_data.signature) _
                        λ u1 v1 s. Ensures-lift _ _ (given c.custom_data.signature) _ λ g1 h1.
                          Ensures-lift _ _ (get_signed_transaction agreement _) _ λ t1 j1.
                            Ensures-lift _ _ (free_balance o.with_intermediary) _ λ fb has_fb.
                              Ensures-lift _ _ (state_commitment c.network fb) _
                                λ activation activates s2 m6.
                                  Ensures-lift _ _
                                    (assert_is_valid_signature ia activation
                                      m6.custom_data.signature)
                                    _
                                    λ u2 v2.
                                      Ensures-lift _ _ (given m6.custom_data.signature) _ λ g2 h2.
                                        Ensures-lift _ _ (get_signed_transaction activation _) _
                                          λ t2 j2.
                                            Ensures-lift _ _
                                              (default_timeout_commitment c.network o.virtual_app) _
                                              λ virtual_state virtual_commits.
                                                Ensures-lift _ _
                                                  (default_timeout_commitment c.network
                                                    o.pass_through)
                                                  _
                                                  λ pass_state pass_commits.
                                                    Ensures-lift _ _
                                                      (assert_is_valid_signature ia pass_state
                                                        m6.custom_data.signature2)
                                                      _
                                                      λ u3 v3.
                                                        Ensures-lift _ _
                                                          (assert_is_valid_signature ra pass_state
                                                            m6.custom_data.signature3)
                                                          _
                                                          λ u4 v4.
                                                            Ensures-lift _ _
                                                            (assert_is_valid_signature ra
                                                            virtual_state m6.custom_data.signature4)
                                                            _
                                                            λ u5 v5 s3 s4.
                                                            Ensures-lift _ _
                                                            (given m6.custom_data.signature2) _
                                                            λ g3 h3.
                                                            Ensures-lift _ _
                                                            (given m6.custom_data.signature3) _
                                                            λ g4 h4.
                                                            Ensures-lift _ _
                                                            (get_signed_transaction pass_state _) _
                                                            λ t3 j3.
                                                            Ensures-lift _ _
                                                            (given m6.custom_data.signature4) _
                                                            λ g5 h5.
                                                            Ensures-lift _ _
                                                            (get_signed_transaction virtual_state _)
                                                            _
                                                            λ t4 j4.
                                                            let agreed : RespondingAgreed c o =
                                                            record {
                                                            intermediary_address = ia;
                                                            other_address = ra;
                                                            fb = fb;
                                                            agreement = agreement;
                                                            activation = activation;
                                                            virtual_state = virtual_state;
                                                            pass_state = pass_state;
                                                            computed = computed;
                                                            has_intermediary = has_ia;
                                                            has_other = has_ra;
                                                            agrees = agrees;
                                                            has_fb = has_fb;
                                                            activates = activates;
                                                            virtual_commits = virtual_commits;
                                                            pass_commits = pass_commits;
                                                            agreement_signed =
                                                            assert-SignedBy ia agreement
                                                            c.custom_data.signature v1;
                                                            activation_signed =
                                                            assert-SignedBy ia activation
                                                            m6.custom_data.signature v2;
                                                            pass_signed =
                                                            assert-SignedBy ia pass_state
                                                            m6.custom_data.signature2 v3;
                                                            pass_signed_by_other =
                                                            assert-SignedBy ra pass_state
                                                            m6.custom_data.signature3 v4;
                                                            virtual_signed_by_other =
                                                            assert-SignedBy ra virtual_state
                                                            m6.custom_data.signature4 v5;
                                                            } in
                                                            ((o, agreed, refl), (o, agreed, refl))
