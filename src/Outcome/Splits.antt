-- ===== src/Outcome/Splits.antt =====
-- How a two party outcome divides the amount at stake.
use indrav.Prelude.{ℕ, ◌≡◌, ◌≢◌, arith, ◌⊎◌, inl, inr}
use indrav.Prelude.Int.{pos, ◌+ℤ◌, zero-+ℤ, +ℤ-zero, half-add-rest}
use indrav.Types.{Address, TwoPartyFixedOutcomeInterpreterParams}
use indrav.FreeBalance.Ledger.{amount_of}
use indrav.Outcome.{two_party_increments}

-- Whatever number the outcome decodes to, the shares of two distinct players in the staked token
-- add up to the amount at stake.
pub two_party_increments_shares :
    (outcome : ℕ) (params : TwoPartyFixedOutcomeInterpreterParams)
    → params.player_addrs.0 ≢ params.player_addrs.1
    → amount_of (two_party_increments outcome params) params.token_address params.player_addrs.0
        +ℤ amount_of
            (two_party_increments outcome params)
            params.token_address
            params.player_addrs.1
      ≡ params.amount
unfolding two_party_increments
two_party_increments_shares outcome params ne =
    grind (arith, zero-+ℤ params.amount, +ℤ-zero params.amount, half-add-rest params.amount)

-- Whatever number the outcome decodes to, an address that is no player gets nothing, and no token
-- but the staked one is paid out.
pub two_party_increments_others :
    (outcome : ℕ) (params : TwoPartyFixedOutcomeInterpreterParams) (t u : Address)
    → (t ≢ params.token_address) ⊎ ((u ≢ params.player_addrs.0) × (u ≢ params.player_addrs.1))
    → amount_of (two_party_increments outcome params) t u ≡ pos 0
unfolding two_party_increments
two_party_increments_others outcome params t u (inl h) = ground arith
two_party_increments_others outcome params t u (inr h) = ground (arith, h.0, h.1)
