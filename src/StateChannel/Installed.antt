-- ===== src/StateChannel/Installed.antt =====
-- `installApp`: what a successful call has done to the channel.
use mathlib.Core.Path.{subst}
use indrav.Prelude.{◌≡◌, Bool, true, Option, some, arith, if◌then◌else◌}
use indrav.Prelude.Int.{ℤ, pos, ◌-ℤ◌}
use indrav.Prelude.Dict.{Dict, has, insert, erase}
use indrav.Prelude.Result.{ok, incorrect_participants, guard, >>=-eq-ok, guard-eq-ok}
use indrav.Types.{
  Address, Hash, TokenIndexedCoinTransferMap, AppInstanceProposal, Platform, IsPlatform,
}
use indrav.CoinTransfers.{flip_token_indexed_balances}
use indrav.CoinTransfers.Laws.{flip_token_indexed_balances-IsObject}
use indrav.AppInstance.{AppInstance, identity_hash}
use indrav.FreeBalance.Ledger.{amount_of}
use indrav.FreeBalance.Codec.{Canonical}
use indrav.StateChannel.{
  StateChannel, get_free_balance_class, free_balance, new_state_channel, get_signing_keys_for,
}
use indrav.StateChannel.Operations.{
  build, no_args, remove_proposal, add_active_app_and_increment_free_balance, matches_participants,
}
use indrav.StateChannel.Installs.{install_app, proposals_without}
use indrav.StateChannel.Funding.{
  IsTransferMap, amount_of-flip, flip-Canonical, Funded, add_active_app_and_increment-Funded,
}

-- A map without an entry that may not be there.
abbrev pub without {ℓ} : {V : Type ℓ} → Hash → Dict V → Dict V
without k d = if has k d then erase k d else d

module _ ⦃p : Platform⦄ where
  -- Only what `build` was given for the apps and the proposals has changed.
  abbrev pub set_maps : Dict AppInstance → Dict AppInstanceProposal → StateChannel → StateChannel
  set_maps apps proposals sc = record sc {
    app_instances = apps;
    proposed_app_instances = proposals;
  }

  -- The two steps of `installApp` before it touches the free balance.
  install-build :
      (app : AppInstance) (sc : StateChannel) {proposals : Option (Dict AppInstanceProposal)}
      {sc1 : StateChannel}
      → proposals_without (identity_hash app) sc ≡ ok proposals
      → build
          (record no_args {
            app_instances = some (insert (identity_hash app) app sc.app_instances);
            proposed_app_instances = proposals;
          })
          sc
        ≡ ok sc1
      → sc1
        ≡ set_maps
            (insert (identity_hash app) app sc.app_instances)
            (without (identity_hash app) sc.proposed_app_instances)
            sc
  unfolding build new_state_channel remove_proposal
  install-build app sc {proposals} h k = ground arith

  -- Both free balance fields of a channel whose maps have changed are the old ones.
  pub Funded-set_maps :
      (apps : Dict AppInstance) (proposals : Dict AppInstanceProposal) (sc : StateChannel)
      {hash : Hash} {active : Bool} {change : Address → Address → ℤ} {sc' : StateChannel}
      → Funded hash active change (set_maps apps proposals sc) sc'
      → Funded hash active change sc sc'
  unfolding get_free_balance_class free_balance
  Funded-set_maps apps proposals sc f = record {
    before = f.before;
    after = f.after;
    reads_before = f.reads_before;
    reads_after = f.reads_after;
    version = f.version;
    settled = f.settled;
    moves = f.moves;
    increments = f.increments;
    start = f.start;
    stop = f.stop;
    incremented = f.incremented;
    same_start = f.same_start;
    same_stop = f.same_stop;
    is_active = f.is_active;
    actives = f.actives;
  }

  -- What a successful installation of `app`, paid by `decrements`, has done: the decrements have
  -- left the free balance, the app is put among the active ones there and stored under its hash,
  -- its proposal is gone, and the channel's other fields are as they were.
  pub record Installed (app : AppInstance) (decrements : TokenIndexedCoinTransferMap)
      (sc sc' : StateChannel) : Type 0 where
    pub funded : Funded (identity_hash app) true (λ t u. pos 0 -ℤ amount_of decrements t u) sc sc'
    pub apps : sc'.app_instances ≡ insert (identity_hash app) app sc.app_instances
    pub proposals :
        sc'.proposed_app_instances ≡ without (identity_hash app) sc.proposed_app_instances
    pub agreements : sc'.agreements ≡ sc.agreements
    pub keys : sc'.user_neutered_extended_keys ≡ sc.user_neutered_extended_keys
    pub multisig : sc'.multisig_address ≡ sc.multisig_address
    pub counter : sc'.monotonic_num_proposed_apps ≡ sc.monotonic_num_proposed_apps
    pub signers :
        matches_participants (get_signing_keys_for app.app_seq_no sc) app.participants ≡ true

  Funded-flip :
      (decrements : TokenIndexedCoinTransferMap) (sc : StateChannel) {hash : Hash} {active : Bool}
      {sc' : StateChannel}
      → IsTransferMap decrements
      → Funded hash active (amount_of (flip_token_indexed_balances decrements)) sc sc'
      → Funded hash active (λ t u. pos 0 -ℤ amount_of decrements t u) sc sc'
  Funded-flip decrements sc d f = record {
    before = f.before;
    after = f.after;
    reads_before = f.reads_before;
    reads_after = f.reads_after;
    version = f.version;
    settled = f.settled;
    moves = λ t u. rw (← amount_of-flip decrements t u d) (f.moves t u);
    increments = f.increments;
    start = f.start;
    stop = f.stop;
    incremented = f.incremented;
    same_start = f.same_start;
    same_stop = f.same_stop;
    is_active = f.is_active;
    actives = f.actives;
  }

  -- On a platform with the documented laws, a successful `installApp`, whatever the app: its
  -- decrements (an object of objects whose tokens are in checksum form) leave the amounts of the
  -- free balance, whose app gains two versions and keeps its identity, and whose set of active apps
  -- has the app put in and is otherwise as it was; the app is stored under its hash among the
  -- channel's apps and its proposal, if any, removed; the agreements, the keys, the address and the
  -- proposal counter are as they were, and the participants begin with the channel's signing keys.
  pub install_app-Installed :
      (laws : IsPlatform p) (app : AppInstance) (decrements : TokenIndexedCoinTransferMap)
      (sc : StateChannel) {sc' : StateChannel}
      → IsTransferMap decrements
      → Canonical decrements
      → install_app app decrements sc ≡ ok sc'
      → Installed app decrements sc sc'
  unfolding install_app
  install_app-Installed laws app decrements sc {sc'} d c h =
      let hash = identity_hash app in
      let (_, signed, h1) =
        >>=-eq-ok
          (guard (matches_participants (get_signing_keys_for app.app_seq_no sc) app.participants)
            incorrect_participants)
          _ h in
      let (proposals, e, h2) = >>=-eq-ok (proposals_without hash sc) _ h1 in
      let (sc1, built, h3) = >>=-eq-ok (build _ sc) _ h2 in
      let sc2 =
        set_maps (insert hash app sc.app_instances) (without hash sc.proposed_app_instances) sc in
      let h4 : add_active_app_and_increment_free_balance hash
            (flip_token_indexed_balances decrements) sc2
          ≡ ok sc' =
        subst
          (λ x.
            add_active_app_and_increment_free_balance hash (flip_token_indexed_balances decrements)
              x
            ≡ ok sc')
          (install-build app sc e built) h3 in
      let (f, s) =
        add_active_app_and_increment-Funded laws hash (flip_token_indexed_balances decrements) sc2
          (flip_token_indexed_balances-IsObject decrements) (flip-Canonical decrements c) h4 in
      record {
        funded = Funded-flip decrements sc d (
            Funded-set_maps (insert hash app sc.app_instances)
              (without hash sc.proposed_app_instances) sc f);
        apps = s.apps;
        proposals = s.proposals;
        agreements = s.agreements;
        keys = s.keys;
        multisig = s.multisig;
        counter = s.counter;
        signers =
            guard-eq-ok
              (matches_participants (get_signing_keys_for app.app_seq_no sc) app.participants)
              incorrect_participants signed;
      }
