-- ===== src/StateChannel/Agreements.antt =====
-- Virtual app agreements: what a successful `addSingleAssetTwoPartyIntermediaryAgreement` or
-- `removeSingleAssetTwoPartyIntermediaryAgreement` has done to the channel.
use mathlib.Core.Path.{subst}
use indrav.Prelude.{◌≡◌, refl, Bool, true, false, some, [], ◌∷◌, arith, ◌==◌, if◌then◌else◌}
use indrav.Prelude.Int.{ℤ, pos, ◌-ℤ◌, int_laws}
use indrav.Prelude.Dict.{Dict, has, insert, erase, IsObject}
use indrav.Prelude.Result.{ok, guard, agreement_not_found, >>=-eq-ok, guard-eq-ok}
use indrav.Types.{Address, Hash, CoinTransferMap, Agreement, Platform, IsPlatform}
use indrav.CoinTransfers.{get_or_zero, flip}
use indrav.CoinTransfers.Laws.{get_or_zero-flip}
use indrav.FreeBalance.Ledger.{amount_of}
use indrav.StateChannel.{StateChannel, get_free_balance_class, free_balance, new_state_channel}
use indrav.StateChannel.Operations.{
  build, no_args, add_active_app_and_increment_free_balance,
  remove_active_app_and_increment_free_balance,
}
use indrav.StateChannel.Installs.{add_agreement, remove_agreement}
use indrav.StateChannel.Funding.{
  Funded, add_active_app_and_increment-Funded, remove_active_app_and_increment-Funded,
}

-- The amount of a token's map that a beneficiary has in it.
abbrev pub amount_in : Address → CoinTransferMap → Address → Address → ℤ
amount_in token m t u = if t == token then get_or_zero u m else pos 0

amount_of-single :
    (token t u : Address) (m : CoinTransferMap)
    → amount_of ((token, m) ∷ []) t u ≡ amount_in token m t u
amount_of-single token t u m = ground arith

amount_of-flipped :
    (token t u : Address) (m : CoinTransferMap)
    → IsObject m
    → amount_of ((token, flip m) ∷ []) t u ≡ pos 0 -ℤ amount_in token m t u
amount_of-flipped token t u m o = grind (arith, int_laws, get_or_zero-flip u m o)

module _ ⦃p : Platform⦄ where
  abbrev set_agreements : Dict Agreement → StateChannel → StateChannel
  set_agreements agreements sc = record sc { agreements = agreements }

  -- The free balance is read alike, and the change of the ledger may be written otherwise.
  Funded-set_agreements :
      (agreements : Dict Agreement) (sc : StateChannel) {hash : Hash} {active : Bool}
      {change change' : Address → Address → ℤ} {sc' : StateChannel}
      → ((t u : Address) → change t u ≡ change' t u)
      → Funded hash active change (set_agreements agreements sc) sc'
      → Funded hash active change' sc sc'
  unfolding get_free_balance_class free_balance
  Funded-set_agreements agreements sc e f = record {
    before = f.before;
    after = f.after;
    reads_before = f.reads_before;
    reads_after = f.reads_after;
    version = f.version;
    settled = f.settled;
    moves = λ t u. rw (← e t u) (f.moves t u);
    increments = f.increments;
    start = f.start;
    stop = f.stop;
    incremented = f.incremented;
    same_start = f.same_start;
    same_stop = f.same_stop;
    is_active = f.is_active;
    actives = f.actives;
  }

  -- The free balance has changed by `change`, lists the virtual app or not, and of the channel's
  -- maps only the agreements are others.
  pub record Agreed (hash : Hash) (active : Bool) (change : Address → Address → ℤ)
      (agreements : Dict Agreement) (sc sc' : StateChannel) : Type 0 where
    pub funded : Funded hash active change sc sc'
    pub agreements_are : sc'.agreements ≡ agreements
    pub apps : sc'.app_instances ≡ sc.app_instances
    pub proposals : sc'.proposed_app_instances ≡ sc.proposed_app_instances
    pub keys : sc'.user_neutered_extended_keys ≡ sc.user_neutered_extended_keys
    pub multisig : sc'.multisig_address ≡ sc.multisig_address
    pub counter : sc'.monotonic_num_proposed_apps ≡ sc.monotonic_num_proposed_apps

  agreements-build :
      (agreements : Dict Agreement) (sc : StateChannel) {sc1 : StateChannel}
      → build (record no_args { agreements = some agreements }) sc ≡ ok sc1
      → sc1 ≡ set_agreements agreements sc
  unfolding build new_state_channel
  agreements-build agreements sc h = ground arith

  -- On a platform with the documented laws, an agreement added with an object of decrements in a
  -- token in checksum form takes exactly the decrements out of the free balance, which then lists
  -- the virtual app; the agreement is stored under the app's hash, and the channel's other fields
  -- are as they were.
  pub add_agreement-Agreed :
      (laws : IsPlatform p) (hash : Hash) (agreement : Agreement) (decrements : CoinTransferMap)
      (token : Address) (sc : StateChannel) {sc' : StateChannel}
      → IsObject decrements
      → p.get_address token ≡ token
      → add_agreement hash agreement decrements token sc ≡ ok sc'
      → Agreed hash true
          (λ t u. pos 0 -ℤ amount_in token decrements t u)
          (insert hash agreement sc.agreements)
          sc
          sc'
  unfolding add_agreement
  add_agreement-Agreed laws hash agreement decrements token sc {sc'} o canonical h =
      let (sc1, built, h1) = >>=-eq-ok (build _ sc) _ h in
      let agreements = insert hash agreement sc.agreements in
      let h2 : add_active_app_and_increment_free_balance hash ((token, flip decrements) ∷ [])
            (set_agreements agreements sc)
          ≡ ok sc' =
        subst
          (λ x.
            add_active_app_and_increment_free_balance hash ((token, flip decrements) ∷ []) x
            ≡ ok sc')
          (agreements-build agreements sc built) h1 in
      let (f, s) =
        add_active_app_and_increment-Funded laws hash ((token, flip decrements) ∷ [])
          (set_agreements agreements sc) (refl, tt) (canonical, tt) h2 in
      record {
        funded =
            Funded-set_agreements agreements sc (λ t u. amount_of-flipped token t u decrements o) f;
        agreements_are = s.agreements;
        apps = s.apps;
        proposals = s.proposals;
        keys = s.keys;
        multisig = s.multisig;
        counter = s.counter;
      }

  -- On a platform with the documented laws, an agreement that is removed with increments in a token
  -- in checksum form was stored; exactly the increments come into the free balance, which no longer
  -- lists the virtual app; the agreement is erased, and the channel's other fields are as
  -- they were.
  pub remove_agreement-Agreed :
      (laws : IsPlatform p) (hash : Hash) (increments : CoinTransferMap) (token : Address)
      (sc : StateChannel) {sc' : StateChannel}
      → p.get_address token ≡ token
      → remove_agreement hash increments token sc ≡ ok sc'
      → (has hash sc.agreements ≡ true)
        × Agreed hash false (amount_in token increments) (erase hash sc.agreements) sc sc'
  unfolding remove_agreement
  remove_agreement-Agreed laws hash increments token sc {sc'} canonical h =
      let (_, stored, h1) = >>=-eq-ok (guard (has hash sc.agreements) agreement_not_found) _ h in
      let (sc1, built, h2) = >>=-eq-ok (build _ sc) _ h1 in
      let agreements = erase hash sc.agreements in
      let h3 : remove_active_app_and_increment_free_balance hash ((token, increments) ∷ [])
            (set_agreements agreements sc)
          ≡ ok sc' =
        subst
          (λ x.
            remove_active_app_and_increment_free_balance hash ((token, increments) ∷ []) x ≡ ok sc')
          (agreements-build agreements sc built) h2 in
      let (f, s) =
        remove_active_app_and_increment-Funded laws hash ((token, increments) ∷ [])
          (set_agreements agreements sc) (refl, tt) (canonical, tt) h3 in
      (
        guard-eq-ok (has hash sc.agreements) agreement_not_found stored,
        record {
          funded =
              Funded-set_agreements agreements sc (λ t u. amount_of-single token t u increments) f;
          agreements_are = s.agreements;
          apps = s.apps;
          proposals = s.proposals;
          keys = s.keys;
          multisig = s.multisig;
          counter = s.counter;
        },
      )
