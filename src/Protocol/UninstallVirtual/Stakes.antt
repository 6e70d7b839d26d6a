-- ===== src/Protocol/UninstallVirtual/Stakes.antt =====
-- The stakes of a virtual app with a two-party fixed outcome: its players are the parties' keys of
-- the app, while the uninstallation reads the increments of their top level keys.
use mathlib.Core.Path.{subst}
use indrav.Prelude.{ℕ, ◌≡◌, ◌≢◌, sym, ◌∙◌, ap, some, arith}
use indrav.Prelude.Int.{pos, ◌-ℤ◌}
use indrav.Prelude.Result.{ok}
use indrav.Types.{
  Address, Hash, CoinTransferMap, two_party_fixed_outcome, TwoPartyFixedOutcomeInterpreterParams,
  Platform, IsPlatform,
}
use indrav.CoinTransfers.{get_or_zero}
use indrav.AppInstance.{AppInstance}
use indrav.FreeBalance.{xkey_kth_address}
use indrav.StateChannel.{StateChannel}
use indrav.Outcome.{two_party_increments}
use indrav.Machine.{InstallVirtualAppProtocolParams}
use indrav.Protocol.InstallVirtual.{virtual_app_instance, virtual_interpreter_parameters}
use indrav.Protocol.InstallVirtual.Objects.{add_initiator_agreement, add_responder_agreement}
use indrav.Protocol.UninstallVirtual.{increments_of}
use indrav.Protocol.UninstallVirtual.Objects.{
  remove_initiator_agreement, remove_responder_agreement,
}
use indrav.Protocol.UninstallVirtual.Balances.{
  uninstalling, initiator_of, responder_of, intermediary_of, Neutral, virtual_app-Neutral,
}

-- Only the two players have an increment of a fixed outcome.
two_party-others :
    (outcome : ℕ) (t : TwoPartyFixedOutcomeInterpreterParams) (increments : CoinTransferMap)
    (user : Address)
    → user ≢ t.player_addrs.0
    → user ≢ t.player_addrs.1
    → increments_of t.token_address (two_party_increments outcome t) ≡ ok increments
    → get_or_zero user increments ≡ pos 0
unfolding two_party_increments
two_party-others outcome t increments user n m h = ground arith

module _ ⦃p : Platform⦄ where
  players :
      (params : InstallVirtualAppProtocolParams) {app : AppInstance}
      {t : TwoPartyFixedOutcomeInterpreterParams}
      → params.outcome_type ≡ two_party_fixed_outcome
      → virtual_app_instance params ≡ ok app
      → app.two_party_internal ≡ some t
      → (t.player_addrs.0 ≡ xkey_kth_address params.initiator_xpub params.app_seq_no)
        × (t.player_addrs.1 ≡ xkey_kth_address params.responder_xpub params.app_seq_no)
        × (t.token_address ≡ params.token_address)
  unfolding virtual_app_instance virtual_interpreter_parameters
  players params e h k = ground arith

  -- On a platform with the documented laws, let a virtual app with a two-party fixed outcome, as
  -- the installation makes it, be paid for in a token in checksum form, and both agreements be
  -- removed with the increments of any outcome, where the users' top level addresses are neither
  -- the intermediary's nor one of their addresses for the app. Then neither user has gained
  -- anything: each has lost its decrement, and so has the intermediary, once in each channel.
  pub virtual_app-loses_stakes :
      (laws : IsPlatform p) (params : InstallVirtualAppProtocolParams) (pass_through : AppInstance)
      (hash : Hash) (outcome number : ℕ) (increments : CoinTransferMap)
      (initiating responding : StateChannel)
      {initiating1 responding1 initiating2 responding2 : StateChannel} {app : AppInstance}
      {t : TwoPartyFixedOutcomeInterpreterParams}
      → params.outcome_type ≡ two_party_fixed_outcome
      → virtual_app_instance params ≡ ok app
      → app.two_party_internal ≡ some t
      → increments_of params.token_address (two_party_increments number t) ≡ ok increments
      → initiator_of params ≢ xkey_kth_address params.initiator_xpub params.app_seq_no
      → initiator_of params ≢ xkey_kth_address params.responder_xpub params.app_seq_no
      → responder_of params ≢ xkey_kth_address params.initiator_xpub params.app_seq_no
      → responder_of params ≢ xkey_kth_address params.responder_xpub params.app_seq_no
      → initiator_of params ≢ intermediary_of params
      → responder_of params ≢ intermediary_of params
      → p.get_address params.token_address ≡ params.token_address
      → add_initiator_agreement params pass_through hash initiating ≡ ok initiating1
      → add_responder_agreement params pass_through hash responding ≡ ok responding1
      → remove_initiator_agreement
          (uninstalling params hash outcome)
          hash
          increments
          params.token_address
          initiating1
        ≡ ok initiating2
      → remove_responder_agreement
          (uninstalling params hash outcome)
          hash
          increments
          params.token_address
          responding1
        ≡ ok responding2
      → (n : Neutral params increments initiating responding initiating2 responding2) × (n.gain_i
          ≡ pos 0 -ℤ params.initiator_balance_decrement)
        × (n.gain_r ≡ pos 0 -ℤ params.responder_balance_decrement)
  virtual_app-loses_stakes laws params pass_through hash outcome number increments initiating
        responding {t = t} kind made has_t inc ii ir ri rr na nb canonical h1 h2 h3 h4 =
      let (p0, p1, token) = players params kind made has_t in
      let n =
        virtual_app-Neutral laws params pass_through hash outcome increments initiating responding
          na nb canonical h1 h2 h3 h4 in
      let inc' =
        subst (λ x. increments_of x (two_party_increments number t) ≡ ok increments) (sym token)
          inc in
      let none_i =
        two_party-others number t increments (initiator_of params) (λ e. ii (e ∙ p0))
          (λ e. ir (e ∙ p1)) inc' in
      let none_r =
        two_party-others number t increments (responder_of params) (λ e. ri (e ∙ p0))
          (λ e. rr (e ∙ p1)) inc' in
      (
        n,
        n.gain_i_is ∙ ap (λ x. x -ℤ params.initiator_balance_decrement) none_i,
        n.gain_r_is ∙ ap (λ x. x -ℤ params.responder_balance_decrement) none_r,
      )
