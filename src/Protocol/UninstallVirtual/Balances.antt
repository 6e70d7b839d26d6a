-- ===== src/Protocol/UninstallVirtual/Balances.antt =====
-- What a virtual app costs and returns: the balances of the two users and of the intermediary over
-- an installation and an uninstallation.
use indrav.Prelude.{ℕ, ◌≡◌, ◌≢◌, refl, true, false, ◌∙◌, [], ◌∷◌, arith}
use indrav.Prelude.Int.{ℤ, pos, ◌+ℤ◌, ◌-ℤ◌, int_laws}
use indrav.Prelude.Dict.{Dict, insert, insert-IsObject}
use indrav.Prelude.Result.{ok}
use indrav.Types.{Address, Hash, Agreement, CoinTransferMap, Platform, IsPlatform}
use indrav.CoinTransfers.{get_or_zero}
use indrav.AppInstance.{AppInstance}
use indrav.FreeBalance.{FreeBalance, xkey_kth_address}
use indrav.FreeBalance.Ledger.{ledger}
use indrav.StateChannel.{StateChannel, get_free_balance_class}
use indrav.StateChannel.Agreements.{Agreed, add_agreement-Agreed, remove_agreement-Agreed}
use indrav.Machine.{InstallVirtualAppProtocolParams, UninstallVirtualAppProtocolParams}
use indrav.Protocol.InstallVirtual.Objects.{add_initiator_agreement, add_responder_agreement}
use indrav.Protocol.UninstallVirtual.{two_amounts}
use indrav.Protocol.UninstallVirtual.Objects.{
  remove_initiator_agreement, remove_responder_agreement,
}

-- The parameters of the uninstallation of an app, by the parties that installed it.
abbrev pub uninstalling :
    InstallVirtualAppProtocolParams → Hash → ℕ → UninstallVirtualAppProtocolParams
uninstalling params hash outcome = record {
  initiator_xpub = params.initiator_xpub;
  responder_xpub = params.responder_xpub;
  intermediary_xpub = params.intermediary_xpub;
  target_app_identity_hash = hash;
  target_outcome = outcome;
}

net : (b x z : ℤ) → b +ℤ (pos 0 -ℤ x) +ℤ z ≡ b +ℤ (z -ℤ x)
net b x z = omega int_laws

both : (m n x y : ℤ) → m +ℤ y +ℤ (n +ℤ x) ≡ m +ℤ n +ℤ (x +ℤ y)
both m n x y = omega int_laws

module _ ⦃p : Platform⦄ where
  -- The amounts of a token that two parties of a channel held before, and hold now.
  pub record Settled (token user other : Address) (user_change other_change : ℤ)
      (sc sc' : StateChannel) : Type 0 where
    pub before : FreeBalance
    pub after : FreeBalance
    pub reads_before : get_free_balance_class sc ≡ ok before
    pub reads_after : get_free_balance_class sc' ≡ ok after
    pub user_has : ledger after token user ≡ ledger before token user +ℤ user_change
    pub other_has : ledger after token other ≡ ledger before token other +ℤ other_change
    pub apps : sc'.app_instances ≡ sc.app_instances

  settle :
      (token user other : Address) (x y z w : ℤ) (sc : StateChannel) {hash : Hash}
      {first last : Address → Address → ℤ} {added_to taken_from : Dict Agreement}
      {mid sc' : StateChannel}
      → Agreed hash true first added_to sc mid
      → Agreed hash false last taken_from mid sc'
      → first token user ≡ pos 0 -ℤ x
      → first token other ≡ pos 0 -ℤ y
      → last token user ≡ z
      → last token other ≡ w
      → Settled token user other (z -ℤ x) (w -ℤ y) sc sc'
  settle token user other x y z w sc {mid = mid} added removed ex ey ez ew =
      let same : removed.funded.before ≡ added.funded.after =
        cc (removed.funded.reads_before, added.funded.reads_after) in
      record {
        before = added.funded.before;
        after = removed.funded.after;
        reads_before = added.funded.reads_before;
        reads_after = removed.funded.reads_after;
        user_has =
            removed.funded.moves token user
            ∙ rw (same, added.funded.moves token user, ex, ez)
                (net (ledger added.funded.before token user) x z);
        other_has =
            removed.funded.moves token other
            ∙ rw (same, added.funded.moves token other, ey, ew)
                (net (ledger added.funded.before token other) y w);
        apps = removed.apps ∙ added.apps;
      }

  abbrev pub initiator_of : InstallVirtualAppProtocolParams → Address
  initiator_of params = xkey_kth_address params.initiator_xpub 0

  abbrev pub responder_of : InstallVirtualAppProtocolParams → Address
  responder_of params = xkey_kth_address params.responder_xpub 0

  abbrev pub intermediary_of : InstallVirtualAppProtocolParams → Address
  intermediary_of params = xkey_kth_address params.intermediary_xpub 0

  -- The two channels of the intermediary, where a user's gain is its increment less its decrement:
  -- in each channel the intermediary has the gain of the user of the other one.
  pub record Neutral (params : InstallVirtualAppProtocolParams) (increments : CoinTransferMap)
      (initiating responding initiating' responding' : StateChannel) : Type 0 where
    pub gain_i : ℤ
    pub gain_r : ℤ
    pub gain_i_is :
        gain_i ≡ get_or_zero (initiator_of params) increments -ℤ params.initiator_balance_decrement
    pub gain_r_is :
        gain_r ≡ get_or_zero (responder_of params) increments -ℤ params.responder_balance_decrement
    pub first :
        Settled params.token_address
          (initiator_of params)
          (intermediary_of params)
          gain_i
          gain_r
          initiating
          initiating'
    pub second :
        Settled params.token_address
          (responder_of params)
          (intermediary_of params)
          gain_r
          gain_i
          responding
          responding'
    pub total :
        ledger first.after params.token_address (intermediary_of params)
          +ℤ ledger second.after params.token_address (intermediary_of params)
        ≡ ledger first.before params.token_address (intermediary_of params)
          +ℤ ledger second.before params.token_address (intermediary_of params)
          +ℤ (gain_i +ℤ gain_r)

  -- On a platform with the documented laws, let the initiator and the responder pay for a virtual
  -- app with the intermediary, in a token in checksum form, and let both agreements be removed with
  -- the same increments, where the users' top level addresses are not the intermediary's. Over the
  -- installation and the uninstallation together, each user gains its increment less its decrement,
  -- and the intermediary has, in each of its two channels, the gain of the other channel's user: so
  -- in both together it holds as much more as the increments exceed the decrements.
  pub virtual_app-Neutral :
      (laws : IsPlatform p) (params : InstallVirtualAppProtocolParams) (pass_through : AppInstance)
      (hash : Hash) (outcome : ℕ) (increments : CoinTransferMap)
      (initiating responding : StateChannel)
      {initiating1 responding1 initiating2 responding2 : StateChannel}
      → initiator_of params ≢ intermediary_of params
      → responder_of params ≢ intermediary_of params
      → p.get_address params.token_address ≡ params.token_address
      → add_initiator_agreement params pass_through hash initiating ≡ ok initiating1
      → add_responder_agreement params pass_through hash responding ≡ ok responding1
      → remove_initiator_agreement
          (uninstalling params hash outcome)
          hash
          increments
          params.token_address
          initiating1
        ≡ ok initiating2
      → remove_responder_agreement
          (uninstalling params hash outcome)
          hash
          increments
          params.token_address
          responding1
        ≡ ok responding2
      → Neutral params increments initiating responding initiating2 responding2
  virtual_app-Neutral laws params pass_through hash outcome increments initiating responding
        {initiating1} {responding1} na nb canonical h1 h2 h3 h4 =
      let a = initiator_of params in
      let b = responder_of params in
      let i = intermediary_of params in
      let d = params.initiator_balance_decrement in
      let e = params.responder_balance_decrement in
      let x = get_or_zero a increments in
      let y = get_or_zero b increments in
      let first =
        settle params.token_address a i d e x y initiating
          (add_agreement-Agreed laws hash _ (insert i e ((a, d) ∷ [])) params.token_address
            initiating (insert-IsObject i e ((a, d) ∷ []) (refl, tt)) canonical h1)
          (remove_agreement-Agreed laws hash (two_amounts i b a a increments) params.token_address
            initiating1 canonical h3).1
          (ground arith) (ground arith) (ground arith) (ground arith) in
      let second =
        settle params.token_address b i e d y x responding
          (add_agreement-Agreed laws hash _ (insert b e ((i, d) ∷ [])) params.token_address
            responding (insert-IsObject b e ((i, d) ∷ []) (refl, tt)) canonical h2)
          (remove_agreement-Agreed laws hash (two_amounts i a b b increments) params.token_address
            responding1 canonical h4).1
          (ground arith) (ground arith) (ground arith) (ground arith) in
      record {
        gain_i = x -ℤ d;
        gain_r = y -ℤ e;
        gain_i_is = refl;
        gain_r_is = refl;
        first = first;
        second = second;
        total =
            rw (first.other_has, second.other_has)
              (both (ledger first.before params.token_address i)
                (ledger second.before params.token_address i) (x -ℤ d) (y -ℤ e));
      }
