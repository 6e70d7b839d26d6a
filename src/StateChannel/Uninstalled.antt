-- ===== src/StateChannel/Uninstalled.antt =====
-- `uninstallApp`: what a successful call has done to the channel.
use mathlib.Core.Path.{subst}
use indrav.Prelude.{==_iff, ◌≡◌, false, some, arith, ◌==◌}
use indrav.Prelude.Dict.{lookup, has, erase, IsObject}
use indrav.Prelude.Result.{
  ok, guard, inconsistent_app_key, app_does_not_exist, >>=-eq-ok, guard-eq-ok, or_throw-eq-ok,
}
use indrav.Types.{Hash, TokenIndexedCoinTransferMap, Platform, IsPlatform}
use indrav.AppInstance.{AppInstance, identity_hash}
use indrav.FreeBalance.Ledger.{amount_of}
use indrav.FreeBalance.Codec.{Canonical}
use indrav.StateChannel.{StateChannel, get_app_instance, new_state_channel}
use indrav.StateChannel.Operations.{build, no_args, remove_active_app_and_increment_free_balance}
use indrav.StateChannel.Installs.{uninstall_app}
use indrav.StateChannel.Funding.{Funded, remove_active_app_and_increment-Funded}
use indrav.StateChannel.Installed.{set_maps, Funded-set_maps}

module _ ⦃p : Platform⦄ where
  -- What a successful uninstallation of the app stored under `hash` has done: the increments have
  -- come into the free balance, the app is taken out of the active ones there and of the stored
  -- ones, and the channel's other fields are as they were.
  pub record Uninstalled (hash : Hash) (increments : TokenIndexedCoinTransferMap)
      (sc sc' : StateChannel) : Type 0 where
    pub funded : Funded hash false (amount_of increments) sc sc'
    pub app : AppInstance
    pub was_stored : lookup hash sc.app_instances ≡ some app
    pub has_its_hash : identity_hash app ≡ hash
    pub apps : sc'.app_instances ≡ erase hash sc.app_instances
    pub proposals : sc'.proposed_app_instances ≡ sc.proposed_app_instances
    pub agreements : sc'.agreements ≡ sc.agreements
    pub keys : sc'.user_neutered_extended_keys ≡ sc.user_neutered_extended_keys
    pub multisig : sc'.multisig_address ≡ sc.multisig_address
    pub counter : sc'.monotonic_num_proposed_apps ≡ sc.monotonic_num_proposed_apps

  uninstall-build :
      (hash : Hash) (sc : StateChannel) {sc1 : StateChannel}
      → build (record no_args { app_instances = some (erase hash sc.app_instances) }) sc ≡ ok sc1
      → sc1 ≡ set_maps (erase hash sc.app_instances) sc.proposed_app_instances sc
  unfolding build new_state_channel
  uninstall-build hash sc h = ground arith

  -- On a platform with the documented laws, a successful `uninstallApp` found the app under its
  -- own hash; the increments (an object whose tokens are in checksum form) come into the amounts of
  -- the free balance, whose app gains two versions and keeps its identity, and whose set of active
  -- apps has the hash taken out and is otherwise as it was; the app is erased from the channel's
  -- apps; the proposals, the agreements, the keys, the address and the proposal counter are as they
  -- were.
  pub uninstall_app-Uninstalled :
      (laws : IsPlatform p) (hash : Hash) (increments : TokenIndexedCoinTransferMap)
      (sc : StateChannel) {sc' : StateChannel}
      → IsObject increments
      → Canonical increments
      → uninstall_app hash increments sc ≡ ok sc'
      → Uninstalled hash increments sc sc'
  unfolding uninstall_app get_app_instance
  uninstall_app-Uninstalled laws hash increments sc {sc'} o c h =
      let (app, found, h1) = >>=-eq-ok (get_app_instance hash sc) _ h in
      let (_, consistent, h2) =
        >>=-eq-ok (guard (identity_hash app == hash) inconsistent_app_key) _ h1 in
      let (_, _, h3) =
        >>=-eq-ok (guard (has (identity_hash app) sc.app_instances) inconsistent_app_key) _ h2 in
      let (sc1, built, h4) = >>=-eq-ok (build _ sc) _ h3 in
      let e : identity_hash app ≡ hash =
        (==_iff (identity_hash app) hash).0
          (guard-eq-ok (identity_hash app == hash) inconsistent_app_key consistent) in
      let sc2 = set_maps (erase hash sc.app_instances) sc.proposed_app_instances sc in
      let h5 : remove_active_app_and_increment_free_balance hash increments sc2 ≡ ok sc' =
        subst (λ x. remove_active_app_and_increment_free_balance hash increments x ≡ ok sc')
          (uninstall-build hash sc (
            subst
              (λ x.
                build (record no_args { app_instances = some (erase x sc.app_instances) }) sc
                ≡ ok sc1)
              e built))
          h4 in
      let (f, s) = remove_active_app_and_increment-Funded laws hash increments sc2 o c h5 in
      record {
        funded = Funded-set_maps (erase hash sc.app_instances) sc.proposed_app_instances sc f;
        app = app;
        was_stored = or_throw-eq-ok (lookup hash sc.app_instances) app_does_not_exist found;
        has_its_hash = e;
        apps = s.apps;
        proposals = s.proposals;
        agreements = s.agreements;
        keys = s.keys;
        multisig = s.multisig;
        counter = s.counter;
      }
