-- ===== src/StateChannel/RoundTrip.antt =====
-- Installing an app and uninstalling it again, and what other apps see of either.
use mathlib.Core.Path.{subst}
use indrav.Prelude.{◌≡◌, ◌≢◌, ◌∙◌, Bool, none, arith, ◌⊎◌, inl, inr}
use indrav.Prelude.Int.{ℤ, pos, ◌+ℤ◌, ◌-ℤ◌, int_laws}
use indrav.Prelude.Dict.{lookup, lookup-insert, lookup-erase_ne, erase-insert}
use indrav.Prelude.Result.{ok}
use indrav.Types.{Address, Hash, TokenIndexedCoinTransferMap, Platform, IsPlatform}
use indrav.AppInstance.{AppInstance, identity_hash}
use indrav.FreeBalance.{FreeBalance}
use indrav.FreeBalance.Ledger.{ledger, amount_of, IsNonnegative}
use indrav.FreeBalance.Codec.{Canonical}
use indrav.StateChannel.{StateChannel, get_free_balance_class}
use indrav.StateChannel.Installs.{install_app, uninstall_app}
use indrav.StateChannel.Funding.{
  Funded, IsTransferMap, IsTransferMap-IsObject, Funded-IsNonnegative,
}
use indrav.StateChannel.Installed.{install_app-Installed}
use indrav.StateChannel.Uninstalled.{uninstall_app-Uninstalled}

paid_back : (x a : ℤ) → x +ℤ (pos 0 -ℤ a) +ℤ a ≡ x
paid_back x a = omega int_laws

module _ ⦃p : Platform⦄ where
  -- Two channels with the same apps and agreements, whose free balances hold the same
  -- amount of each token for each beneficiary.
  pub record SameHoldings (sc sc' : StateChannel) : Type 0 where
    pub before : FreeBalance
    pub after : FreeBalance
    pub reads_before : get_free_balance_class sc ≡ ok before
    pub reads_after : get_free_balance_class sc' ≡ ok after
    pub holdings : (t u : Address) → ledger after t u ≡ ledger before t u
    pub apps : sc'.app_instances ≡ sc.app_instances
    pub agreements : sc'.agreements ≡ sc.agreements

  -- On a platform with the documented laws, an app that was not installed is installed, and uninstalled with exactly the amounts that
  -- were paid in, an object of objects whose tokens are in checksum form: all holdings and the installed apps are those from before.
  pub uninstall_app-install_app :
      (laws : IsPlatform p) (app : AppInstance) (amounts : TokenIndexedCoinTransferMap)
      (sc : StateChannel) {mid sc' : StateChannel}
      → IsTransferMap amounts
      → Canonical amounts
      → lookup (identity_hash app) sc.app_instances ≡ none
      → install_app app amounts sc ≡ ok mid
      → uninstall_app (identity_hash app) amounts mid ≡ ok sc'
      → SameHoldings sc sc'
  uninstall_app-install_app laws app amounts sc {mid} d c new h k =
      let i = install_app-Installed laws app amounts sc d c h in
      let u =
        uninstall_app-Uninstalled laws (identity_hash app) amounts mid
          (IsTransferMap-IsObject amounts d) c k in
      let same : u.funded.before ≡ i.funded.after =
        cc (u.funded.reads_before, i.funded.reads_after) in
      record {
        before = i.funded.before;
        after = u.funded.after;
        reads_before = i.funded.reads_before;
        reads_after = u.funded.reads_after;
        holdings = λ t b.
            subst (λ x. ledger u.funded.after t b ≡ ledger x t b +ℤ amount_of amounts t b) same
              (u.funded.moves t b)
            ∙ rw (i.funded.moves t b)
                (paid_back (ledger i.funded.before t b) (amount_of amounts t b));
        apps = u.apps ∙ rw i.apps (erase-insert (identity_hash app) app sc.app_instances new);
        agreements = u.agreements ∙ i.agreements;
      }

  -- On a platform with the documented laws, a successful installation or uninstallation of one app, with an object of objects of amounts
  -- whose tokens are in checksum form, leaves every other installed app as it was.
  pub others_untouched :
      (laws : IsPlatform p) (app : AppInstance) (amounts : TokenIndexedCoinTransferMap)
      (sc : StateChannel) {sc' : StateChannel} (other : Hash)
      → IsTransferMap amounts
      → Canonical amounts
      → other ≢ identity_hash app
      → (install_app app amounts sc ≡ ok sc')
        ⊎ (uninstall_app (identity_hash app) amounts sc ≡ ok sc')
      → lookup other sc'.app_instances ≡ lookup other sc.app_instances
  others_untouched laws app amounts sc other d c ne (inl h) =
      rw ((install_app-Installed laws app amounts sc d c h).apps)
        (ground (arith, lookup-insert other (identity_hash app) app sc.app_instances))
  others_untouched laws app amounts sc other d c ne (inr h) =
      rw
        ((uninstall_app-Uninstalled laws (identity_hash app) amounts sc
          (IsTransferMap-IsObject amounts d) c h).apps)
        (lookup-erase_ne other (identity_hash app) sc.app_instances ne)

  Funded_before_after :
      (sc : StateChannel) {hash : Hash} {active : Bool} {change : Address → Address → ℤ}
      {sc' : StateChannel} {before after : FreeBalance}
      → Funded hash active change sc sc'
      → get_free_balance_class sc ≡ ok before
      → get_free_balance_class sc' ≡ ok after
      → IsNonnegative before
      → IsNonnegative after
  Funded_before_after sc {before = before} {after = after} f b a n =
      let start : before ≡ f.before = cc (f.reads_before, b) in
      let stop : f.after ≡ after = cc (f.reads_after, a) in
      subst IsNonnegative stop (Funded-IsNonnegative sc f (subst IsNonnegative start n))

  -- On a platform with the documented laws, a successful installation or uninstallation, with an object of objects of amounts whose tokens
  -- are in checksum form, leaves no balance negative, if none was.
  pub install-IsNonnegative :
      (laws : IsPlatform p) (app : AppInstance) (amounts : TokenIndexedCoinTransferMap)
      (sc : StateChannel) {sc' : StateChannel} {before after : FreeBalance}
      → IsTransferMap amounts
      → Canonical amounts
      → (install_app app amounts sc ≡ ok sc')
        ⊎ (uninstall_app (identity_hash app) amounts sc ≡ ok sc')
      → get_free_balance_class sc ≡ ok before
      → get_free_balance_class sc' ≡ ok after
      → IsNonnegative before
      → IsNonnegative after
  install-IsNonnegative laws app amounts sc d c (inl h) b a n =
      Funded_before_after sc (install_app-Installed laws app amounts sc d c h).funded b a n
  install-IsNonnegative laws app amounts sc d c (inr h) b a n =
      Funded_before_after sc
        (uninstall_app-Uninstalled laws (identity_hash app) amounts sc
          (IsTransferMap-IsObject amounts d) c h).funded
        b a n
