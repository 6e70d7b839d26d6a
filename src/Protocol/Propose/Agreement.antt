-- ===== src/Protocol/Propose/Agreement.antt =====
-- What the propose protocol agrees on, and that two honest sides bring it to its end.
use indrav.Prelude.{ℕ, ◌≡◌, refl, Option, none, some, List, [], ◌∷◌}
use indrav.Prelude.Dict.{insert}
use indrav.Prelude.Result.{ok}
use indrav.Machine.Rules.{Ensures, Ensures-lift}
use indrav.Protocol.Agreed.{Stores}
use indrav.Protocol.Signatures.{SignedBy, assert-SignedBy}
use indrav.StateChannel.Operations.{add_proposal}
use indrav.Types.{Platform}
use indrav.FreeBalance.{xkey_kth_address}
use indrav.StateChannel.{StateChannel}
use indrav.Commitment.{Signature, Ethereum, Commitment, assert_is_valid_signature}
use indrav.Machine.{Protocol, Context, ProposeInstallProtocolParams, propose_params}
use indrav.Machine.Play.{play}
use indrav.Protocol.{opening, answer, with_signature}
use indrav.Protocol.Signatures.{Honest, assert-Honest}
use indrav.Protocol.Propose.{
  pre_propose_channel, initial_commitment, initiator_proposal, responder_proposal,
  propose_initiating, propose_responding,
}

module _ ⦃p : Platform⦄ ⦃eth : Ethereum⦄ where
  -- The list is one channel: the stored or an empty one with the responder's proposal added, for
  -- whose initial state there is a signature by the initiator's key.
  pub record ProposalAgreed (c : Context ProposeInstallProtocolParams)
      (persisted : List StateChannel) : Type 0 where
    pub pre : StateChannel
    pub post : StateChannel
    pub commitment : Commitment
    pub from : pre_propose_channel c.params c.state_channels_map ≡ ok pre
    pub adds : add_proposal (responder_proposal c.params pre) pre ≡ ok post
    pub commits : initial_commitment c.network c.params pre ≡ ok commitment
    pub countersigned : SignedBy (xkey_kth_address c.params.initiator_xpub 0) commitment
    pub is_post : persisted ≡ post ∷ []

  -- Whatever the initiator sends, the responder of a proposal persists only the channel with the
  -- proposal added, and only once it has the initiator's signature on the proposed app's initial
  -- state; if it returns, the map has that channel.
  pub propose_responding-Ensures :
      (c : Context ProposeInstallProtocolParams)
      → Ensures
          (ProposalAgreed c)
          (Stores (ProposalAgreed c) c.state_channels_map)
          (propose_responding c)
  unfolding propose_responding
  propose_responding-Ensures c =
      Ensures-lift _ _ (pre_propose_channel c.params c.state_channels_map) _ λ pre found.
        Ensures-lift _ _ (initial_commitment c.network c.params pre) _ λ commitment commits.
          Ensures-lift _ _
            (assert_is_valid_signature (xkey_kth_address c.params.initiator_xpub 0) commitment
              c.custom_data.signature)
            _
            λ u valid.
              Ensures-lift _ _ (add_proposal (responder_proposal c.params pre) pre) _ λ post added.
                let agreed : ProposalAgreed c (post ∷ []) = record {
                  pre = pre;
                  post = post;
                  commitment = commitment;
                  from = found;
                  adds = added;
                  commits = commits;
                  countersigned =
                      assert-SignedBy (xkey_kth_address c.params.initiator_xpub 0) commitment
                        c.custom_data.signature valid;
                  is_post = refl;
                } in
                (agreed, λ signature. (post, agreed, refl))

  -- If both parties start from the same channel, both proposals can be added to it, and both sign
  -- the proposed app's initial state with their keys, then the responder, started by the
  -- initiator's message, and the initiator, resumed by the answer, each persist the channel with
  -- their own view of the proposal and return the map that has it.
  pub propose-completes :
      (params : ProposeInstallProtocolParams) (ci cr : Context ProposeInstallProtocolParams)
      (sign_i sign_r : Commitment → Option ℕ → Signature) {pre post_i post_r : StateChannel}
      {commitment : Commitment}
      → ci.params ≡ params
      → cr.params ≡ params
      → cr.network ≡ ci.network
      → pre_propose_channel params ci.state_channels_map ≡ ok pre
      → pre_propose_channel params cr.state_channels_map ≡ ok pre
      → add_proposal (initiator_proposal params pre) pre ≡ ok post_i
      → add_proposal (responder_proposal params pre) pre ≡ ok post_r
      → initial_commitment ci.network params pre ≡ ok commitment
      → Honest sign_i (xkey_kth_address params.initiator_xpub 0) commitment none
      → Honest sign_r (xkey_kth_address params.responder_xpub 0) commitment none
      → cr.custom_data ≡ with_signature (sign_i commitment none)
      → (play sign_r [] (propose_responding cr) ≡ record {
        persisted = (post_r ∷ []) ∷ [];
        sent =
            answer cr.process_id Protocol.propose params.initiator_xpub
              (with_signature (sign_r commitment none))
            ∷ [];
        result = some (insert post_r.multisig_address post_r cr.state_channels_map);
      })
        × (play sign_i
              (answer cr.process_id Protocol.propose params.initiator_xpub
                  (with_signature (sign_r commitment none))
                ∷ [])
              (propose_initiating ci)
            ≡ record {
              persisted = (post_i ∷ []) ∷ [];
              sent =
                  opening ci.process_id Protocol.propose
                    (propose_params params)
                    params.responder_xpub
                    (sign_i commitment none)
                  ∷ [];
              result = some (insert post_i.multisig_address post_i ci.state_channels_map);
            })
  unfolding propose_initiating propose_responding
  propose-completes params ci cr sign_i sign_r {commitment = commitment} pi pr net from_i from_r
        adds_i adds_r commits hi hr custom =
      (
        rw
            (
              pr,
              net,
              from_r,
              commits,
              custom,
              assert-Honest sign_i (xkey_kth_address params.initiator_xpub 0) commitment none hi,
            )
            (rw (adds_r, play) refl),
        rw (pi, from_i, adds_i, play)
            (rw (commits, play)
              (rw
                (
                  assert-Honest sign_r (xkey_kth_address params.responder_xpub 0) commitment none
                      hr,
                  play,
                )
                refl)),
      )
