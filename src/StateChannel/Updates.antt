-- ===== src/StateChannel/Updates.antt =====
-- What setting an app's state and adding a proposal do to a channel.
use indrav.Prelude.{◌+◌, ◌≡◌, ◌≢◌, refl, true, none, some, arith}
use indrav.Prelude.Dict.{Dict, lookup, insert, lookup-insert}
use indrav.Prelude.Lists.{every}
use indrav.Prelude.Result.{ok, app_does_not_exist, >>=-eq-ok, or_throw-eq-ok}
use indrav.Types.{Hash, AppState, AppInstanceProposal, Platform}
use indrav.AppInstance.{AppInstance, identity_hash, set_app_state, app_to_json, app_from_json}
use indrav.StateChannel.{StateChannel, get_app_instance, new_state_channel}
use indrav.StateChannel.Operations.{build, no_args, set_state, add_proposal}

module _ ⦃p : Platform⦄ where
  -- `sc'` is `sc` with a new state of the app under `hash`: the version is one more, the timeout
  -- is the app's own again, the rest of the app and of the channel is as it was.
  pub record StateSet (hash : Hash) (state : AppState) (sc sc' : StateChannel) : Type 0 where
    pub before : AppInstance
    pub after : AppInstance
    pub was : lookup hash sc.app_instances ≡ some before
    pub becomes : after ≡ record before {
      latest_state = state;
      latest_version_number = before.latest_version_number + 1;
      latest_timeout = before.default_timeout;
    }
    pub same_hash : identity_hash after ≡ identity_hash before
    pub channel : sc' ≡ record sc { app_instances = insert hash after sc.app_instances }
    pub others :
        (other : Hash)
        → other ≢ hash
        → lookup other sc'.app_instances ≡ lookup other sc.app_instances

  set_app_state_lem :
      (state : AppState) (a : AppInstance) {a' : AppInstance}
      → set_app_state state none a ≡ ok a'
      → a' ≡ record a {
        latest_state = state;
        latest_version_number = a.latest_version_number + 1;
        latest_timeout = a.default_timeout;
      }
  unfolding set_app_state app_to_json app_from_json
  set_app_state_lem state a h = ground arith

  build_apps :
      (apps : Dict AppInstance) (sc : StateChannel) {sc' : StateChannel}
      → build (record no_args { app_instances = some apps }) sc ≡ ok sc'
      → sc' ≡ record sc { app_instances = apps }
  unfolding build new_state_channel
  build_apps apps sc h = ground arith

  -- A successful `setState` found the app, gave it the state with the next version number, kept
  -- its identity, and changed nothing else of the channel.
  pub set_state-StateSet :
      (hash : Hash) (state : AppState) (sc : StateChannel) {sc' : StateChannel}
      → set_state hash state sc ≡ ok sc'
      → StateSet hash state sc sc'
  unfolding set_state get_app_instance
  set_state-StateSet hash state sc {sc'} h =
      let (app, found, h1) = >>=-eq-ok (get_app_instance hash sc) _ h in
      let (app', sets, h2) = >>=-eq-ok (set_app_state state none app) _ h1 in
      let becomes = set_app_state_lem state app sets in
      let channel = build_apps (insert hash app' sc.app_instances) sc h2 in
      record {
        before = app;
        after = app';
        was = or_throw-eq-ok (lookup hash sc.app_instances) app_does_not_exist found;
        becomes = becomes;
        same_hash = rw becomes refl;
        channel = channel;
        others =
            λ other ne. rw channel (ground (arith, lookup-insert other hash app' sc.app_instances));
      }

  -- Adding a proposal to a channel whose keys are extended keys succeeds: the proposal is found
  -- under its hash, the counter has gone up by one, and nothing else has changed.
  pub add_proposal_lem :
      (proposal : AppInstanceProposal) (sc : StateChannel)
      → every p.is_xpub sc.user_neutered_extended_keys ≡ true
      → (sc' : StateChannel) × (add_proposal proposal sc ≡ ok sc')
        × (sc' ≡ record sc {
          proposed_app_instances = insert proposal.identity_hash proposal sc.proposed_app_instances;
          monotonic_num_proposed_apps = sc.monotonic_num_proposed_apps + 1;
        })
        × (lookup proposal.identity_hash sc'.proposed_app_instances ≡ some proposal)
  unfolding add_proposal build new_state_channel
  add_proposal_lem proposal sc h = (
    record sc {
      proposed_app_instances = insert proposal.identity_hash proposal sc.proposed_app_instances;
      monotonic_num_proposed_apps = sc.monotonic_num_proposed_apps + 1;
    },
    ground arith,
    refl,
    ground (
      arith,
      lookup-insert proposal.identity_hash proposal.identity_hash proposal
          sc.proposed_app_instances,
    ),
  )
