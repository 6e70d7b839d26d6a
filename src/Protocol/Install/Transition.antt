-- ===== src/Protocol/Install/Transition.antt =====
-- What each party pays for an installation, and which parameters are refused.
use indrav.Prelude.{◌≡◌, ◌≢◌, ◌&&◌, arith, ◌==◌, if◌then◌else◌}
use indrav.Prelude.Int.{ℤ, pos, ◌+ℤ◌, zero-+ℤ, +ℤ-zero}
use indrav.Prelude.Result.{ok, err, different_assets, ◌>>=◌, >>=-eq-ok}
use indrav.Types.{Address, multi_asset_multi_party_coin_transfer, Platform, IsPlatform}
use indrav.FreeBalance.Ledger.{amount_of}
use indrav.FreeBalance.Codec.{Canonical}
use indrav.StateChannel.{StateChannel, get_free_balance_addr_of}
use indrav.StateChannel.Installs.{install_app}
use indrav.StateChannel.Funding.{IsTransferMap}
use indrav.StateChannel.Installed.{Installed, install_app-Installed}
use indrav.Machine.{InstallProtocolParams}
use indrav.Protocol.Install.{
  InterpreterParams, compute_interpreter_parameters, token_indexed_balance_decrement,
  app_to_be_installed, install_transition,
}

-- What the beneficiary `u` owes of the token `t`: the initiator, at address `a`, its decrement of
-- its token, and the responder, at `b`, its own.
abbrev pub owed : InstallProtocolParams → Address → Address → Address → Address → ℤ
owed params a b t u =
    (if (t == params.initiator_deposit_token_address) && (u == a)
      then params.initiator_balance_decrement
      else pos 0)
    +ℤ (if (t == params.responder_deposit_token_address) && (u == b)
        then params.responder_balance_decrement
        else pos 0)

-- The map of decrements holds what each of two distinct addresses owes, in one token or in two.
pub amount_of-decrement :
    (params : InstallProtocolParams) (a b t u : Address)
    → a ≢ b
    → amount_of (token_indexed_balance_decrement params a b) t u ≡ owed params a b t u
amount_of-decrement params a b t u ne = ground (
  arith,
  zero-+ℤ params.responder_balance_decrement,
  +ℤ-zero params.initiator_balance_decrement,
  zero-+ℤ (pos 0),
)

decrement-IsTransferMap :
    (params : InstallProtocolParams) (a b : Address)
    → IsTransferMap (token_indexed_balance_decrement params a b)
decrement-IsTransferMap params a b = ground arith

module _ ⦃p : Platform⦄ where
  decrement-Canonical :
      (params : InstallProtocolParams) (a b : Address)
      → p.get_address params.initiator_deposit_token_address
        ≡ params.initiator_deposit_token_address
      → p.get_address params.responder_deposit_token_address
        ≡ params.responder_deposit_token_address
      → Canonical (token_indexed_balance_decrement params a b)
  decrement-Canonical params a b h k = ground arith

  -- On a platform with the documented laws, a party of an installation pays what it deposits: after a successful transition each
  -- beneficiary's amount of each token is less by what it owes, where the two free balance
  -- addresses differ and the two tokens are in checksum form; and the free balance has gained two
  -- versions, lists the new app, and the channel stores it.
  pub install_transition_pays :
      (laws : IsPlatform p) (params : InstallProtocolParams) (sc : StateChannel) {a b : Address}
      {sc' : StateChannel}
      → get_free_balance_addr_of params.initiator_xpub sc ≡ ok a
      → get_free_balance_addr_of params.responder_xpub sc ≡ ok b
      → a ≢ b
      → p.get_address params.initiator_deposit_token_address
        ≡ params.initiator_deposit_token_address
      → p.get_address params.responder_deposit_token_address
        ≡ params.responder_deposit_token_address
      → install_transition params sc ≡ ok sc'
      → (interpreter : InterpreterParams) × (compute_interpreter_parameters params a b
          ≡ ok interpreter)
        × Installed
            (app_to_be_installed params interpreter)
            (token_indexed_balance_decrement params a b)
            sc
            sc'
        × ((t u : Address)
            → amount_of (token_indexed_balance_decrement params a b) t u ≡ owed params a b t u)
  unfolding install_transition
  install_transition_pays laws params sc {a} {b} {sc'} ha hb ne hi hr h =
      let h1 : (compute_interpreter_parameters params a b >>= λ interpreter.
      install_app (app_to_be_installed params interpreter)
        (token_indexed_balance_decrement params a b) sc)
          ≡ ok sc' =
        ground arith in
      let (interpreter, computed, h2) =
        >>=-eq-ok (compute_interpreter_parameters params a b) _ h1 in
      (
        interpreter,
        computed,
        install_app-Installed laws (app_to_be_installed params interpreter)
            (token_indexed_balance_decrement params a b) sc (decrement-IsTransferMap params a b)
            (decrement-Canonical params a b hi hr) h2,
        λ t u. amount_of-decrement params a b t u ne,
      )

  -- A two-party or single-asset outcome cannot be staked in two tokens: the transition throws.
  pub install_transition-different_assets :
      (params : InstallProtocolParams) (sc : StateChannel) {a b : Address}
      → get_free_balance_addr_of params.initiator_xpub sc ≡ ok a
      → get_free_balance_addr_of params.responder_xpub sc ≡ ok b
      → params.initiator_deposit_token_address ≢ params.responder_deposit_token_address
      → params.outcome_type ≢ multi_asset_multi_party_coin_transfer
      → install_transition params sc ≡ err different_assets
  unfolding install_transition compute_interpreter_parameters
  install_transition-different_assets params sc ha hb differ other = ground arith
