-- ===== src/Protocol/Setup/Safety.antt =====
-- When a side of the setup protocol writes to the store.
use indrav.Prelude.{◌≡◌, refl, List, [], ◌∷◌}
use indrav.Prelude.Result.{ok}
use indrav.Types.{Xpub, Platform}
use indrav.AppInstance.{AppInstance}
use indrav.FreeBalance.{xkey_kth_address}
use indrav.StateChannel.{StateChannel, free_balance}
use indrav.Commitment.{Ethereum, assert_is_valid_signature}
use indrav.Machine.{Context, SetupProtocolParams}
use indrav.Machine.Rules.{Ensures, Ensures-lift}
use indrav.Protocol.Agreed.{Stores}
use indrav.Protocol.Signatures.{SignedBy, assert-SignedBy}
use indrav.Protocol.Setup.{new_channel, setup_commitment_of, setup_initiating, setup_responding}

module _ ⦃p : Platform⦄ ⦃eth : Ethereum⦄ where
  -- The list is one channel: the new one, for whose setup commitment there is a signature by the
  -- counterparty's top level key.
  pub record SetupAgreed (c : Context SetupProtocolParams) (counterparty : Xpub)
      (persisted : List StateChannel) : Type 0 where
    pub channel : StateChannel
    pub fb : AppInstance
    pub computed : new_channel c ≡ ok channel
    pub has_fb : free_balance channel ≡ ok fb
    pub countersigned :
        SignedBy (xkey_kth_address counterparty 0) (setup_commitment_of c.network channel fb)
    pub is_channel : persisted ≡ channel ∷ []

  -- The initiator's side.
  setup_initiating-Ensures :
      (c : Context SetupProtocolParams)
      → Ensures
          (SetupAgreed c c.params.responder_xpub)
          (Stores (SetupAgreed c c.params.responder_xpub) c.state_channels_map)
          (setup_initiating c)
  unfolding setup_initiating
  setup_initiating-Ensures c = Ensures-lift _ _ (new_channel c) _ λ sc computed.
      Ensures-lift _ _ (free_balance sc) _ λ fb has_fb signature reply.
        Ensures-lift _ _
          (assert_is_valid_signature (xkey_kth_address c.params.responder_xpub 0)
            (setup_commitment_of c.network sc fb) reply.custom_data.signature)
          _
          λ u valid.
            let agreed : SetupAgreed c c.params.responder_xpub (sc ∷ []) = record {
              channel = sc;
              fb = fb;
              computed = computed;
              has_fb = has_fb;
              countersigned =
                  assert-SignedBy (xkey_kth_address c.params.responder_xpub 0)
                    (setup_commitment_of c.network sc fb) reply.custom_data.signature valid;
              is_channel = refl;
            } in
            (agreed, (sc, agreed, refl))

  -- The responder's side.
  setup_responding-Ensures :
      (c : Context SetupProtocolParams)
      → Ensures
          (SetupAgreed c c.params.initiator_xpub)
          (Stores (SetupAgreed c c.params.initiator_xpub) c.state_channels_map)
          (setup_responding c)
  unfolding setup_responding
  setup_responding-Ensures c = Ensures-lift _ _ (new_channel c) _ λ sc computed.
      Ensures-lift _ _ (free_balance sc) _ λ fb has_fb.
        Ensures-lift _ _
          (assert_is_valid_signature (xkey_kth_address c.params.initiator_xpub 0)
            (setup_commitment_of c.network sc fb) c.custom_data.signature)
          _
          λ u valid signature.
            let agreed : SetupAgreed c c.params.initiator_xpub (sc ∷ []) = record {
              channel = sc;
              fb = fb;
              computed = computed;
              has_fb = has_fb;
              countersigned =
                  assert-SignedBy (xkey_kth_address c.params.initiator_xpub 0)
                    (setup_commitment_of c.network sc fb) c.custom_data.signature valid;
              is_channel = refl;
            } in
            (agreed, (sc, agreed, refl))

  -- Whatever the counterparty sends, either side of a setup persists only the channel that the
  -- parameters describe, and only once it has the counterparty's signature on its setup commitment; if
  -- it returns, the map has that channel.
  pub setup-Ensures :
      (c : Context SetupProtocolParams)
      → Ensures
          (SetupAgreed c c.params.responder_xpub)
          (Stores (SetupAgreed c c.params.responder_xpub) c.state_channels_map)
          (setup_initiating c)
        × Ensures
            (SetupAgreed c c.params.initiator_xpub)
            (Stores (SetupAgreed c c.params.initiator_xpub) c.state_channels_map)
            (setup_responding c)
  setup-Ensures c = (setup_initiating-Ensures c, setup_responding-Ensures c)
