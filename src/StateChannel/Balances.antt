-- ===== src/StateChannel/Balances.antt =====
-- What the methods that change a channel's free balance do to it, and what they leave alone.
use mathlib.Core.Path.{subst}
use indrav.Prelude.{ℕ, ◌+◌, ◌≡◌, refl, sym, ◌∙◌, Option, none, some, arith}
use indrav.Prelude.Result.{ok, free_balance_missing, or_throw-eq-ok, >>=-eq-ok}
use indrav.Types.{AppIdentity, Hash, TokenIndexedCoinTransferMap, Platform, IsPlatform}
use indrav.AppInstance.{AppInstance, identity, set_app_state, app_from_json, app_to_json}
use indrav.FreeBalance.{
  FreeBalance, increment, free_balance_add_active_app, free_balance_remove_active_app,
  from_app_instance, to_app_instance,
}
use indrav.FreeBalance.Codec.{
  IsFreeBalance, Canonical, from-to_app_instance, from_app_instance-IsFreeBalance,
  increment-IsFreeBalance, add_active_app-IsFreeBalance, remove_active_app-IsFreeBalance,
}
use indrav.StateChannel.{StateChannel, free_balance, get_free_balance_class, new_state_channel}
use indrav.StateChannel.Operations.{
  build, no_args, set_free_balance, increment_free_balance, add_active_app, remove_active_app,
}

-- The version number of the channel's free balance app.
abbrev pub free_balance_version : StateChannel → ℕ
free_balance_version sc = elim sc.free_balance_app_instance [
  | none ↦ 0
  | some a ↦ a.latest_version_number
]

-- The identity of the channel's free balance app.
abbrev pub free_balance_identity : StateChannel → Option AppIdentity
free_balance_identity sc = elim sc.free_balance_app_instance [
  | none ↦ none
  | some a ↦ some (identity a)
]

-- The two channels agree but for the free balance app.
pub record SameButFreeBalance (sc sc' : StateChannel) : Type 0 where
  pub multisig : sc'.multisig_address ≡ sc.multisig_address
  pub keys : sc'.user_neutered_extended_keys ≡ sc.user_neutered_extended_keys
  pub proposals : sc'.proposed_app_instances ≡ sc.proposed_app_instances
  pub apps : sc'.app_instances ≡ sc.app_instances
  pub agreements : sc'.agreements ≡ sc.agreements
  pub counter : sc'.monotonic_num_proposed_apps ≡ sc.monotonic_num_proposed_apps

module _ ⦃p : Platform⦄ where
  -- `sc'` is `sc` with the free balance `fb`, after `n` more versions of its app, which has the same
  -- identity.
  pub record Rebalanced (n : ℕ) (fb : FreeBalance) (sc sc' : StateChannel) : Type 0 where
    pub reads : get_free_balance_class sc' ≡ ok fb
    pub version : free_balance_version sc' ≡ free_balance_version sc + n
    pub settled : free_balance_identity sc' ≡ free_balance_identity sc
    pub same : SameButFreeBalance sc sc'

  pub get_free_balance_class-IsFreeBalance :
      (laws : IsPlatform p) (sc : StateChannel) {fb : FreeBalance}
      → get_free_balance_class sc ≡ ok fb
      → IsFreeBalance fb
  unfolding get_free_balance_class
  get_free_balance_class-IsFreeBalance laws sc h =
      let (a, _, e) = >>=-eq-ok (free_balance sc) from_app_instance h in
      from_app_instance-IsFreeBalance laws a e

  -- A change of nothing but the free balance app, from `old` to `a`.
  build_free_balance :
      (sc : StateChannel) (a : AppInstance) {sc' : StateChannel}
      → build (record no_args { free_balance_app_instance = some a }) sc ≡ ok sc'
      → sc' ≡ record sc { free_balance_app_instance = some a }
  unfolding build new_state_channel
  build_free_balance sc a h = ground arith

  version-to_app_instance :
      (fb : FreeBalance) (old : AppInstance) {a : AppInstance}
      → to_app_instance fb old ≡ ok a
      → (a.latest_version_number ≡ old.latest_version_number + 1) × (identity a ≡ identity old)
  unfolding to_app_instance set_app_state app_from_json app_to_json
  version-to_app_instance fb old h = ground arith

  Rebalanced-of :
      {fb : FreeBalance} (sc : StateChannel) {old a : AppInstance}
      → sc.free_balance_app_instance ≡ some old
      → (a.latest_version_number ≡ old.latest_version_number + 1) × (identity a ≡ identity old)
      → from_app_instance a ≡ ok fb
      → Rebalanced 1 fb sc (record sc { free_balance_app_instance = some a })
  unfolding get_free_balance_class free_balance
  Rebalanced-of sc e (version, kept) reads = record {
    reads = reads;
    version = ground arith;
    settled = rw (e, kept) refl;
    same = record {
      multisig = refl;
      keys = refl;
      proposals = refl;
      apps = refl;
      agreements = refl;
      counter = refl;
    };
  }

  pub set_free_balance-Rebalanced :
      (laws : IsPlatform p) (fb : FreeBalance) (sc : StateChannel) {sc' : StateChannel}
      → IsFreeBalance fb
      → set_free_balance fb sc ≡ ok sc'
      → Rebalanced 1 fb sc sc'
  unfolding set_free_balance free_balance
  set_free_balance-Rebalanced laws fb sc v h =
      let (old, e, h1) = >>=-eq-ok (free_balance sc) _ h in
      let (a, written, h2) = >>=-eq-ok (to_app_instance fb old) _ h1 in
      subst (Rebalanced 1 fb sc) (sym (build_free_balance sc a h2)) (
        Rebalanced-of sc (or_throw-eq-ok sc.free_balance_app_instance free_balance_missing e)
          (version-to_app_instance fb old written) (from-to_app_instance laws fb old v written))

  pub Rebalanced-trans :
      (m n : ℕ) {fb fb' : FreeBalance} {a b c : StateChannel}
      → Rebalanced m fb a b
      → Rebalanced n fb' b c
      → Rebalanced (m + n) fb' a c
  Rebalanced-trans m n h k = record {
    reads = k.reads;
    version = omega (arith, h.version, k.version);
    settled = k.settled ∙ h.settled;
    same = record {
      multisig = k.same.multisig ∙ h.same.multisig;
      keys = k.same.keys ∙ h.same.keys;
      proposals = k.same.proposals ∙ h.same.proposals;
      apps = k.same.apps ∙ h.same.apps;
      agreements = k.same.agreements ∙ h.same.agreements;
      counter = k.same.counter ∙ h.same.counter;
    };
  }

  -- A successful `incrementFreeBalance` writes the incremented balance.
  pub increment_free_balance-Rebalanced :
      (laws : IsPlatform p) (increments : TokenIndexedCoinTransferMap) (sc : StateChannel)
      {fb : FreeBalance} {sc' : StateChannel}
      → Canonical increments
      → get_free_balance_class sc ≡ ok fb
      → increment_free_balance increments sc ≡ ok sc'
      → (fb' : FreeBalance) × (increment increments fb ≡ ok fb') × Rebalanced 1 fb' sc sc'
  unfolding increment_free_balance
  increment_free_balance-Rebalanced laws increments sc {fb} c g h =
      let (fb1, g1, h1) = >>=-eq-ok (get_free_balance_class sc) _ h in
      let (fb', i, h2) = >>=-eq-ok (increment increments fb1) _ h1 in
      let same_fb : fb1 ≡ fb = cc in
      let v = get_free_balance_class-IsFreeBalance laws sc g1 in
      (
        fb',
        rw (← same_fb) i,
        set_free_balance-Rebalanced laws fb' sc (increment-IsFreeBalance increments c v i) h2,
      )

  pub add_active_app-Rebalanced :
      (laws : IsPlatform p) (hash : Hash) (sc : StateChannel) {fb : FreeBalance}
      {sc' : StateChannel}
      → get_free_balance_class sc ≡ ok fb
      → add_active_app hash sc ≡ ok sc'
      → Rebalanced 1 (free_balance_add_active_app hash fb) sc sc'
  unfolding add_active_app
  add_active_app-Rebalanced laws hash sc {fb} g h =
      set_free_balance-Rebalanced laws (free_balance_add_active_app hash fb) sc
        (add_active_app-IsFreeBalance hash (get_free_balance_class-IsFreeBalance laws sc g))
        (rw g at h)

  pub remove_active_app-Rebalanced :
      (laws : IsPlatform p) (hash : Hash) (sc : StateChannel) {fb : FreeBalance}
      {sc' : StateChannel}
      → get_free_balance_class sc ≡ ok fb
      → remove_active_app hash sc ≡ ok sc'
      → Rebalanced 1 (free_balance_remove_active_app hash fb) sc sc'
  unfolding remove_active_app
  remove_active_app-Rebalanced laws hash sc {fb} g h =
      set_free_balance-Rebalanced laws (free_balance_remove_active_app hash fb) sc
        (remove_active_app-IsFreeBalance hash (get_free_balance_class-IsFreeBalance laws sc g))
        (rw g at h)
