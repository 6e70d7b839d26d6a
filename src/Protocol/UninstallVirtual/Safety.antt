-- ===== src/Protocol/UninstallVirtual/Safety.antt =====
-- When a side of the virtual app uninstallation writes to the store.
use indrav.Prelude.{refl}
use indrav.Types.{Platform}
use indrav.FreeBalance.{xkey_kth_address}
use indrav.StateChannel.{free_balance}
use indrav.Outcome.{Chain}
use indrav.Commitment.{Ethereum, state_commitment, assert_is_valid_signature}
use indrav.Machine.{Context, UninstallVirtualAppProtocolParams}
use indrav.Machine.Rules.{Ensures, Ensures-lift}
use indrav.Protocol.Signatures.{assert-SignedBy}
use indrav.Protocol.InstallVirtual.Agreed.{Persists, Returns}
use indrav.Protocol.UninstallVirtual.{pass_through_commitment}
use indrav.Protocol.UninstallVirtual.Objects.{
  uninstall_objects_for_initiating, uninstall_objects_for_responding,
  uninstall_objects_for_intermediary,
}
use indrav.Protocol.UninstallVirtual.Agreed.{
  InitiatingAgreed, RespondingAgreed, MediatingAgreed, user_map, intermediary_map, initiating_list,
  responding_list, intermediary_list,
}
use indrav.Protocol.UninstallVirtual.Initiating.{uninstall_virtual_initiating}
use indrav.Protocol.UninstallVirtual.Responding.{uninstall_virtual_responding}
use indrav.Protocol.UninstallVirtual.Intermediary.{
  uninstall_virtual_intermediary, uninstall_virtual_intermediary_balances,
}

module _ ⦃p : Platform⦄ ⦃eth : Ethereum⦄ ⦃chain : Chain⦄ where
  initiating-Ensures :
      (c : Context UninstallVirtualAppProtocolParams)
      → Ensures
          (Persists (InitiatingAgreed c) initiating_list)
          (Returns (InitiatingAgreed c) user_map)
          (uninstall_virtual_initiating c)
  unfolding uninstall_virtual_initiating
  initiating-Ensures c =
      Ensures-lift _ _ (uninstall_objects_for_initiating c.state_channels_map c.params c.network) _
        λ o computed.
          Ensures-lift _ _ (pass_through_commitment c.network o.pass_through) _
            λ pass_state pass_commits s m4.
              Ensures-lift _ _
                (assert_is_valid_signature (xkey_kth_address c.params.responder_xpub 0) pass_state
                  m4.custom_data.signature)
                _
                λ u1 v1.
                  Ensures-lift _ _
                    (assert_is_valid_signature (xkey_kth_address c.params.intermediary_xpub 0)
                      pass_state m4.custom_data.signature2)
                    _
                    λ u2 v2. Ensures-lift _ _ (free_balance o.with_intermediary) _ λ fb has_fb.
                      Ensures-lift _ _ (state_commitment c.network fb) _
                        λ disactivation disactivates s2 m8.
                          Ensures-lift _ _
                            (assert_is_valid_signature
                              (xkey_kth_address c.params.intermediary_xpub 0) disactivation
                              m8.custom_data.signature)
                            _
                            λ u3 v3.
                              let agreed : InitiatingAgreed c o = record {
                                fb = fb;
                                pass_state = pass_state;
                                disactivation = disactivation;
                                computed = computed;
                                pass_commits = pass_commits;
                                has_fb = has_fb;
                                disactivates = disactivates;
                                pass_signed =
                                    assert-SignedBy (xkey_kth_address c.params.intermediary_xpub 0)
                                      pass_state m4.custom_data.signature2 v2;
                                pass_signed_by_other =
                                    assert-SignedBy (xkey_kth_address c.params.responder_xpub 0)
                                      pass_state m4.custom_data.signature v1;
                                disactivation_signed =
                                    assert-SignedBy (xkey_kth_address c.params.intermediary_xpub 0)
                                      disactivation m8.custom_data.signature v3;
                              } in
                              ((o, agreed, refl), (o, agreed, refl))

  responding-Ensures :
      (c : Context UninstallVirtualAppProtocolParams)
      → Ensures
          (Persists (RespondingAgreed c) responding_list)
          (Returns (RespondingAgreed c) user_map)
          (uninstall_virtual_responding c)
  unfolding uninstall_virtual_responding
  responding-Ensures c =
      Ensures-lift _ _ (uninstall_objects_for_responding c.state_channels_map c.params c.network) _
        λ o computed.
          Ensures-lift _ _ (pass_through_commitment c.network o.pass_through) _
            λ pass_state pass_commits.
              Ensures-lift _ _
                (assert_is_valid_signature (xkey_kth_address c.params.initiator_xpub 0) pass_state
                  c.custom_data.signature)
                _
                λ u1 v1.
                  Ensures-lift _ _
                    (assert_is_valid_signature (xkey_kth_address c.params.intermediary_xpub 0)
                      pass_state c.custom_data.signature2)
                    _
                    λ u2 v2 s m6. Ensures-lift _ _ (free_balance o.with_intermediary) _ λ fb has_fb.
                      Ensures-lift _ _ (state_commitment c.network fb) _
                        λ disactivation disactivates.
                          Ensures-lift _ _
                            (assert_is_valid_signature
                              (xkey_kth_address c.params.intermediary_xpub 0) disactivation
                              m6.custom_data.signature)
                            _
                            λ u3 v3 s2.
                              let agreed : RespondingAgreed c o = record {
                                fb = fb;
                                pass_state = pass_state;
                                disactivation = disactivation;
                                computed = computed;
                                pass_commits = pass_commits;
                                has_fb = has_fb;
                                disactivates = disactivates;
                                pass_signed =
                                    assert-SignedBy (xkey_kth_address c.params.intermediary_xpub 0)
                                      pass_state c.custom_data.signature2 v2;
                                pass_signed_by_other =
                                    assert-SignedBy (xkey_kth_address c.params.initiator_xpub 0)
                                      pass_state c.custom_data.signature v1;
                                disactivation_signed =
                                    assert-SignedBy (xkey_kth_address c.params.intermediary_xpub 0)
                                      disactivation m6.custom_data.signature v3;
                              } in
                              ((o, agreed, refl), (o, agreed, refl))

  intermediary-Ensures :
      (c : Context UninstallVirtualAppProtocolParams)
      → Ensures
          (Persists (MediatingAgreed c) intermediary_list)
          (Returns (MediatingAgreed c) intermediary_map)
          (uninstall_virtual_intermediary c)
  unfolding uninstall_virtual_intermediary uninstall_virtual_intermediary_balances
  intermediary-Ensures c =
      Ensures-lift _ _ (uninstall_objects_for_intermediary c.state_channels_map c.params c.network)
        _
        λ o computed.
          Ensures-lift _ _ (pass_through_commitment c.network o.pass_through) _
            λ pass_state pass_commits.
              Ensures-lift _ _
                (assert_is_valid_signature (xkey_kth_address c.params.initiator_xpub 0) pass_state
                  c.custom_data.signature)
                _
                λ u1 v1 s m3.
                  Ensures-lift _ _
                    (assert_is_valid_signature (xkey_kth_address c.params.responder_xpub 0)
                      pass_state m3.custom_data.signature)
                    _
                    λ u2 v2 m5. Ensures-lift _ _ (free_balance o.with_initiating) _ λ fb_i has_fb_i.
                      Ensures-lift _ _ (state_commitment c.network fb_i) _
                        λ disactivation_i disactivates_i.
                          Ensures-lift _ _
                            (assert_is_valid_signature (xkey_kth_address c.params.initiator_xpub 0)
                              disactivation_i m5.custom_data.signature)
                            _
                            λ u3 v3 s2.
                              Ensures-lift _ _ (free_balance o.with_responding) _ λ fb_r has_fb_r.
                                Ensures-lift _ _ (state_commitment c.network fb_r) _
                                  λ disactivation_r disactivates_r s3 m7.
                                    Ensures-lift _ _
                                      (assert_is_valid_signature
                                        (xkey_kth_address c.params.responder_xpub 0) disactivation_r
                                        m7.custom_data.signature)
                                      _
                                      λ u4 v4.
                                        let agreed : MediatingAgreed c o = record {
                                          initiating_fb = fb_i;
                                          responding_fb = fb_r;
                                          pass_state = pass_state;
                                          initiating_disactivation = disactivation_i;
                                          responding_disactivation = disactivation_r;
                                          computed = computed;
                                          pass_commits = pass_commits;
                                          has_initiating_fb = has_fb_i;
                                          has_responding_fb = has_fb_r;
                                          initiating_disactivates = disactivates_i;
                                          responding_disactivates = disactivates_r;
                                          initiator_passed =
                                              assert-SignedBy
                                                (xkey_kth_address c.params.initiator_xpub 0)
                                                pass_state c.custom_data.signature v1;
                                          responder_passed =
                                              assert-SignedBy
                                                (xkey_kth_address c.params.responder_xpub 0)
                                                pass_state m3.custom_data.signature v2;
                                          initiator_disactivated =
                                              assert-SignedBy
                                                (xkey_kth_address c.params.initiator_xpub 0)
                                                disactivation_i m5.custom_data.signature v3;
                                          responder_disactivated =
                                              assert-SignedBy
                                                (xkey_kth_address c.params.responder_xpub 0)
                                                disactivation_r m7.custom_data.signature v4;
                                        } in
                                        ((o, agreed, refl), (o, agreed, refl))

  -- Whatever each party has stored and the others send it, each of the three sides of a virtual app uninstallation persists
  -- only the three channels that it computed, without the agreement and the apps, and returns its map
  -- with them put in, and either only when it has signatures that recover to the top level keys of
  -- the others: both users, those of the two others on the locked pass-through app, and that of the
  -- intermediary on their free balance with it; the intermediary, those of both users on the
  -- pass-through app, and that of each on its free balance.
  pub uninstall_virtual-Ensures :
      (ci cm cr : Context UninstallVirtualAppProtocolParams)
      → Ensures
          (Persists (InitiatingAgreed ci) initiating_list)
          (Returns (InitiatingAgreed ci) user_map)
          (uninstall_virtual_initiating ci)
        × Ensures
            (Persists (MediatingAgreed cm) intermediary_list)
            (Returns (MediatingAgreed cm) intermediary_map)
            (uninstall_virtual_intermediary cm)
        × Ensures
            (Persists (RespondingAgreed cr) responding_list)
            (Returns (RespondingAgreed cr) user_map)
            (uninstall_virtual_responding cr)
  uninstall_virtual-Ensures ci cm cr =
      (initiating-Ensures ci, intermediary-Ensures cm, responding-Ensures cr)
