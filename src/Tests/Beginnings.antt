-- ===== src/Tests/Beginnings.antt =====
-- The theorems on channels that are set up, proposals and installations at concrete contexts.
use indrav.Prelude.{ℕ, ◌≡◌, refl, some, [], ◌∷◌}
use indrav.Prelude.Dict.{insert}
use indrav.Prelude.Result.{ok}
use indrav.Types.{AppState}
use indrav.AppInstance.{AppInstance, set_app_state, app_to_json, app_from_json}
use indrav.StateChannel.{
  StateChannel, get_app_instance, new_state_channel, free_balance, setup_channel,
}
use indrav.StateChannel.Operations.{build, set_state, add_proposal}
use indrav.StateChannel.Updates.{StateSet, set_state-StateSet}
use indrav.Commitment.{Commitment}
use indrav.Machine.{Protocol, setup_params, propose_params, ProtocolMessage}
use indrav.Machine.Play.{play}
use indrav.Protocol.{opening, answer, with_signature}
use indrav.Protocol.Setup.{new_channel, setup_initiating, setup_responding}
use indrav.Protocol.Setup.Exchange.{setup-completes}
use indrav.Protocol.Propose.{
  initial_commitment, initiator_proposal, responder_proposal, pre_propose_channel,
  propose_initiating, propose_responding,
}
use indrav.Protocol.Propose.Agreement.{propose-completes}
use indrav.Tests.Toy.{toy, toy_chain, toy_ethereum, network, blank, value_of}
use indrav.Tests.Table.{
  table, balance_app, context_of, receives, signer_of, some_commitment, setup, propose,
}

abbrev response : Protocol → ℕ → ProtocolMessage
response protocol s = answer 1 protocol 1 (with_signature s)

abbrev fresh : StateChannel
fresh = value_of blank (new_channel (context_of setup))

abbrev fresh_balance : AppInstance
fresh_balance = value_of balance_app (free_balance fresh)

makes : new_channel (context_of setup) ≡ ok fresh
unfolding setup_channel new_state_channel
makes = refl

fresh_has_balance : free_balance fresh ≡ ok fresh_balance
unfolding setup_channel new_state_channel free_balance
fresh_has_balance = refl

setup-completes_example :
    (play (signer_of 2) [] (setup_responding (receives setup 100)) ≡ record {
      persisted = (fresh ∷ []) ∷ [];
      sent = response Protocol.setup 200 ∷ [];
      result = some (insert fresh.multisig_address fresh ((77, table) ∷ []));
    })
    × (play (signer_of 1) (response Protocol.setup 200 ∷ []) (setup_initiating (context_of setup))
        ≡ record {
          persisted = (fresh ∷ []) ∷ [];
          sent = opening 1 Protocol.setup (setup_params setup) 2 100 ∷ [];
          result = some (insert fresh.multisig_address fresh ((77, table) ∷ []));
        })
setup-completes_example =
    setup-completes setup (context_of setup) (receives setup 100) (signer_of 1) (signer_of 2) refl
      refl refl makes fresh_has_balance refl refl refl

abbrev proposed_i : StateChannel
proposed_i = value_of blank (add_proposal (initiator_proposal propose table) table)

abbrev proposed_r : StateChannel
proposed_r = value_of blank (add_proposal (responder_proposal propose table) table)

abbrev proposal_commitment : Commitment
proposal_commitment = value_of some_commitment (initial_commitment network propose table)

starts_from : pre_propose_channel propose ((77, table) ∷ []) ≡ ok table
unfolding pre_propose_channel
starts_from = refl

adds_i : add_proposal (initiator_proposal propose table) table ≡ ok proposed_i
unfolding add_proposal build new_state_channel
adds_i = refl

adds_r : add_proposal (responder_proposal propose table) table ≡ ok proposed_r
unfolding add_proposal build new_state_channel
adds_r = refl

commits_proposal : initial_commitment network propose table ≡ ok proposal_commitment
unfolding initial_commitment
commits_proposal = refl

propose-completes_example :
    (play (signer_of 2) [] (propose_responding (receives propose 100)) ≡ record {
      persisted = (proposed_r ∷ []) ∷ [];
      sent = response Protocol.propose 200 ∷ [];
      result = some (insert proposed_r.multisig_address proposed_r ((77, table) ∷ []));
    })
    × (play
          (signer_of 1)
          (response Protocol.propose 200 ∷ [])
          (propose_initiating (context_of propose))
        ≡ record {
          persisted = (proposed_i ∷ []) ∷ [];
          sent = opening 1 Protocol.propose (propose_params propose) 2 100 ∷ [];
          result = some (insert proposed_i.multisig_address proposed_i ((77, table) ∷ []));
        })
propose-completes_example =
    propose-completes propose (context_of propose) (receives propose 100) (signer_of 1)
      (signer_of 2) refl refl refl starts_from starts_from adds_i adds_r commits_proposal refl refl
      refl

abbrev retold : StateChannel
retold = value_of blank (set_state 3306 (AppState.opaque 5) table)

retells : set_state 3306 (AppState.opaque 5) table ≡ ok retold
unfolding set_state get_app_instance set_app_state app_to_json app_from_json build new_state_channel
retells = refl

set_state-StateSet_example : StateSet 3306 (AppState.opaque 5) table retold
set_state-StateSet_example = set_state-StateSet 3306 (AppState.opaque 5) table retells
