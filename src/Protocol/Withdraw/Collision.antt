-- ===== src/Protocol/Withdraw/Collision.antt =====
-- The identity hash of the refund app: it is made of a nonce and the participants alone, and the
-- nonce is the number of the channel's last proposal.
use indrav.Prelude.{ℕ, ◌<◌, ◌++◌, ◌≡◌, refl, ◌∙◌, ap, none, some, List, [], ◌∷◌, arith}
use indrav.Prelude.Dict.{
  Dict, lookup, values, insert, IsObject, erase-insert, insert_fresh, lookup-erase_self,
  insert-IsObject,
}
use indrav.Prelude.Result.{ok, err, no_installed_apps}
use indrav.Types.{Address, Platform, IsPlatform}
use indrav.AppInstance.{AppInstance, identity_hash}
use indrav.StateChannel.{
  StateChannel, get_free_balance_addr_of, get_next_signing_keys, num_proposed_apps, latest_app,
  most_recently_installed_app_instance,
}
use indrav.StateChannel.Installs.{uninstall_app}
use indrav.Commitment.{NetworkContext}
use indrav.Machine.{WithdrawProtocolParams}
use indrav.Protocol.Withdraw.{refund_app, add_refund_app}
use indrav.Protocol.Withdraw.Balances.{
  Withdrawn, withdraw_moves, refund_hash, add_refund_app-Installed,
}

-- Every app's sequence number is below the bound.
abbrev pub AllBelow : ℕ → List AppInstance → Type 0
AllBelow bound [] = Unit
AllBelow bound (a ∷ apps) = (a.app_seq_no < bound) × AllBelow bound apps

latest_app-append :
    (prev last : AppInstance) (apps : List AppInstance)
    → prev.app_seq_no < last.app_seq_no
    → AllBelow last.app_seq_no apps
    → latest_app prev (apps ++ last ∷ []) ≡ last
latest_app-append prev last [] h k = ground arith
latest_app-append prev last (a ∷ apps) h k =
    ground (arith, latest_app-append a last apps, latest_app-append prev last apps)

values-append : (d e : Dict AppInstance) → values (d ++ e) ≡ values d ++ values e
values-append [] e = refl
values-append ((k, v) ∷ d) e = ap (λ x. v ∷ x) (values-append d e)

latest_of-append :
    (apps : List AppInstance) (last : AppInstance)
    → AllBelow last.app_seq_no apps
    → (elim (apps ++ last ∷ []) [ [] ↦ err no_installed_apps | a ∷ rest ↦ ok (latest_app a rest) ])
      ≡ ok last
latest_of-append [] last h = refl
latest_of-append (a ∷ apps) last h = ap ok (latest_app-append a last apps h.0 h.1)

most_recently_installed-append :
    (sc : StateChannel) (apps : List AppInstance) (last : AppInstance)
    → values sc.app_instances ≡ apps ++ last ∷ []
    → AllBelow last.app_seq_no apps
    → most_recently_installed_app_instance sc ≡ ok last
unfolding most_recently_installed_app_instance
most_recently_installed-append sc apps last e h =
    rw (most_recently_installed_app_instance, e) (latest_of-append apps last h)

module _ ⦃p : Platform⦄ where
  -- On a platform with the documented laws, let every installed app have a sequence number below
  -- the number of the channel's proposals, and none be stored under the refund app's hash. Then the
  -- refund app, paid in a token in checksum form, is the app that `mostRecentlyInstalledAppInstance`
  -- returns, and once it is uninstalled the channel has exactly the apps from before.
  pub withdraw-restores_apps :
      (laws : IsPlatform p) (params : WithdrawProtocolParams) (network : NetworkContext)
      (sc : StateChannel) {a : Address} {post final : StateChannel}
      → p.get_address params.token_address ≡ params.token_address
      → get_free_balance_addr_of params.initiator_xpub sc ≡ ok a
      → AllBelow (num_proposed_apps sc) (values sc.app_instances)
      → lookup (refund_hash params network sc) sc.app_instances ≡ none
      → add_refund_app params network sc ≡ ok post
      → uninstall_app (refund_hash params network sc) [] post ≡ ok final
      → (most_recently_installed_app_instance post ≡ ok (refund_app params network sc))
        × (final.app_instances ≡ sc.app_instances)
  withdraw-restores_apps laws params network sc {post = post} canonical has_address below fresh
        added removed =
      let hash = refund_hash params network sc in
      let refund = refund_app params network sc in
      let i = add_refund_app-Installed laws params network sc canonical has_address added in
      let w = withdraw_moves laws params network sc canonical has_address added removed in
      (
        most_recently_installed-append post (values sc.app_instances) refund
            (ap values (i.apps ∙ insert_fresh hash refund sc.app_instances (ground arith))
              ∙ values-append sc.app_instances ((hash, refund) ∷ []))
            below,
        w.apps ∙ erase-insert hash refund sc.app_instances fresh,
      )

  -- On a platform with the documented laws, let an app of the same participants and with the
  -- number of the last proposal be stored under its hash in a channel whose apps are an object, as
  -- the app that was proposed last is once it is installed. Then a withdrawal, paid in a token in
  -- checksum form, removes it: the refund app has the same hash, takes its place and is uninstalled,
  -- and only the amount that is withdrawn moves.
  pub withdraw-removes_latest :
      (laws : IsPlatform p) (params : WithdrawProtocolParams) (network : NetworkContext)
      (sc : StateChannel) (app : AppInstance) {a : Address} {post final : StateChannel}
      → p.get_address params.token_address ≡ params.token_address
      → get_free_balance_addr_of params.initiator_xpub sc ≡ ok a
      → IsObject sc.app_instances
      → app.app_seq_no ≡ num_proposed_apps sc
      → app.participants ≡ get_next_signing_keys sc
      → lookup (identity_hash app) sc.app_instances ≡ some app
      → add_refund_app params network sc ≡ ok post
      → uninstall_app (refund_hash params network sc) [] post ≡ ok final
      → (lookup (identity_hash app) final.app_instances ≡ none)
        × Withdrawn params network a sc final
  withdraw-removes_latest laws params network sc app canonical has_address unique seq participants
        stored added removed =
      let hash = refund_hash params network sc in
      let refund = refund_app params network sc in
      let w = withdraw_moves laws params network sc canonical has_address added removed in
      let same : identity_hash app ≡ hash = rw (seq, participants) refl in
      (
        rw (same, w.apps)
            (lookup-erase_self hash (insert hash refund sc.app_instances)
              (insert-IsObject hash refund sc.app_instances unique)),
        w,
      )
