-- ===== src/Protocol/Withdraw/Balances.antt =====
-- What a withdrawal does to the channel: the amount leaves the initiator's free balance.
use mathlib.Core.Path.{subst}
use indrav.Prelude.{◌+◌, ◌≡◌, Bool, refl, sym, ◌∙◌, ap, ◌&&◌, [], ◌∷◌, arith, ◌==◌, if◌then◌else◌}
use indrav.Prelude.Int.{ℤ, pos, ◌+ℤ◌, ◌-ℤ◌, int_laws}
use indrav.Prelude.Dict.{insert, erase}
use indrav.Prelude.Result.{ok}
use indrav.Types.{Address, Hash, Platform, IsPlatform}
use indrav.AppInstance.{identity_hash}
use indrav.FreeBalance.{FreeBalance}
use indrav.FreeBalance.Ledger.{ledger, amount_of, IsNonnegative}
use indrav.StateChannel.{StateChannel, get_free_balance_addr_of, get_free_balance_class}
use indrav.StateChannel.Balances.{free_balance_version, free_balance_identity}
use indrav.StateChannel.Installs.{uninstall_app}
use indrav.StateChannel.Funding.{Funded-IsNonnegative}
use indrav.StateChannel.Installed.{Installed, install_app-Installed, without}
use indrav.StateChannel.Uninstalled.{uninstall_app-Uninstalled}
use indrav.Commitment.{NetworkContext}
use indrav.Machine.{WithdrawProtocolParams}
use indrav.Protocol.Withdraw.{refund_app, add_refund_app}

-- What the beneficiary `u` pays of the token `t` for a withdrawal by the address `a`.
abbrev pub withdrawn : WithdrawProtocolParams → Address → Address → Address → ℤ
withdrawn params a t u = if (t == params.token_address) && (u == a) then params.amount else pos 0

paid : (x a : ℤ) → x +ℤ (pos 0 -ℤ a) +ℤ pos 0 ≡ x -ℤ a
paid x a = omega int_laws

module _ ⦃p : Platform⦄ where
  abbrev pub refund_hash : WithdrawProtocolParams → NetworkContext → StateChannel → Hash
  refund_hash params network sc = identity_hash (refund_app params network sc)

  -- What is left of the channel `sc` of the initiator `a` after a withdrawal.
  pub record Withdrawn (params : WithdrawProtocolParams) (network : NetworkContext) (a : Address)
      (sc final : StateChannel) : Type 0 where
    pub before : FreeBalance
    pub after : FreeBalance
    pub reads_before : get_free_balance_class sc ≡ ok before
    pub reads_after : get_free_balance_class final ≡ ok after
    pub version : free_balance_version final ≡ free_balance_version sc + 4
    pub settled : free_balance_identity final ≡ free_balance_identity sc
    pub actives :
        after.active_apps_map
        ≡ erase
            (refund_hash params network sc)
            (insert (refund_hash params network sc) Bool.true before.active_apps_map)
    pub moves : (t u : Address) → ledger after t u ≡ ledger before t u -ℤ withdrawn params a t u
    pub nonnegative : IsNonnegative before → IsNonnegative after
    pub apps :
        final.app_instances
        ≡ erase
            (refund_hash params network sc)
            (insert (refund_hash params network sc) (refund_app params network sc) sc.app_instances)
    pub proposals :
        final.proposed_app_instances
        ≡ without (refund_hash params network sc) sc.proposed_app_instances
    pub agreements : final.agreements ≡ sc.agreements
    pub keys : final.user_neutered_extended_keys ≡ sc.user_neutered_extended_keys
    pub multisig : final.multisig_address ≡ sc.multisig_address
    pub counter : final.monotonic_num_proposed_apps ≡ sc.monotonic_num_proposed_apps

  -- `addRefundAppToStateChannel` is an installation that the initiator pays alone.
  pub add_refund_app-Installed :
      (laws : IsPlatform p) (params : WithdrawProtocolParams) (network : NetworkContext)
      (sc : StateChannel) {a : Address} {post : StateChannel}
      → p.get_address params.token_address ≡ params.token_address
      → get_free_balance_addr_of params.initiator_xpub sc ≡ ok a
      → add_refund_app params network sc ≡ ok post
      → Installed
          (refund_app params network sc)
          ((params.token_address, (a, params.amount) ∷ []) ∷ [])
          sc
          post
  unfolding add_refund_app
  add_refund_app-Installed laws params network sc {a} canonical has_address h =
      install_app-Installed laws (refund_app params network sc)
        ((params.token_address, (a, params.amount) ∷ []) ∷ []) sc (refl, (refl, tt), tt)
        (canonical, tt) (ground arith)

  amount_of-withdrawn :
      (params : WithdrawProtocolParams) (a t u : Address)
      → amount_of ((params.token_address, (a, params.amount) ∷ []) ∷ []) t u
        ≡ withdrawn params a t u
  amount_of-withdrawn params a t u = ground arith

  -- On a platform with the documented laws, if the refund app is added to a channel, paid in a
  -- token in checksum form, and then uninstalled with no increments, then exactly the amount has
  -- left the initiator's balance of the token; every other amount is as it was, and if none was
  -- negative, none is. The free balance app has gained four versions and kept its identity, and its
  -- set of active apps and the channel's apps are as they were but for the refund app's hash, which
  -- is put in and taken out. The proposals have lost only that of the hash, if any; the agreements,
  -- the keys, the address and the proposal counter are as they were.
  pub withdraw_moves :
      (laws : IsPlatform p) (params : WithdrawProtocolParams) (network : NetworkContext)
      (sc : StateChannel) {a : Address} {post final : StateChannel}
      → p.get_address params.token_address ≡ params.token_address
      → get_free_balance_addr_of params.initiator_xpub sc ≡ ok a
      → add_refund_app params network sc ≡ ok post
      → uninstall_app (refund_hash params network sc) [] post ≡ ok final
      → Withdrawn params network a sc final
  withdraw_moves laws params network sc {a} {post} canonical has_address added removed =
      let i = add_refund_app-Installed laws params network sc canonical has_address added in
      let o =
        uninstall_app-Uninstalled laws (refund_hash params network sc) [] post tt tt removed in
      let same : o.funded.before ≡ i.funded.after =
        cc (o.funded.reads_before, i.funded.reads_after) in
      record {
        before = i.funded.before;
        after = o.funded.after;
        reads_before = i.funded.reads_before;
        reads_after = o.funded.reads_after;
        version = rw (o.funded.version, i.funded.version) (omega arith);
        settled = o.funded.settled ∙ i.funded.settled;
        actives =
            o.funded.actives
            ∙ ap (λ x. erase (refund_hash params network sc) x.active_apps_map) same
            ∙ ap (erase (refund_hash params network sc)) i.funded.actives;
        moves = λ t u.
            subst (λ x. ledger o.funded.after t u ≡ ledger x t u +ℤ pos 0) same (o.funded.moves t u)
            ∙ rw (i.funded.moves t u, amount_of-withdrawn params a t u)
                (paid (ledger i.funded.before t u) (withdrawn params a t u));
        nonnegative = λ n.
            Funded-IsNonnegative post o.funded
              (subst IsNonnegative (sym same) (Funded-IsNonnegative sc i.funded n));
        apps = o.apps ∙ ap (erase (refund_hash params network sc)) i.apps;
        proposals = o.proposals ∙ i.proposals;
        agreements = o.agreements ∙ i.agreements;
        keys = o.keys ∙ i.keys;
        multisig = o.multisig ∙ i.multisig;
        counter = o.counter ∙ i.counter;
      }
