-- ===== src/Tests/Values.antt =====
-- The theorems on coin transfers, free balances and outcomes at concrete ones.
use indrav.Prelude.{ℕ, zero, suc, ◌≡◌, ◌<◌, ◌↔◌, refl, Bool, some, [], ◌∷◌, arith}
use indrav.Prelude.Int.{pos, negsuc, ◌+ℤ◌, ◌≤ℤ◌}
use indrav.Prelude.Result.{ok}
use indrav.Types.{
  CoinTransfer, TokenIndexedCoinTransferMap, RefundState, TwoPartyFixedOutcomeInterpreterParams,
}
use indrav.CoinTransfers.{merge}
use indrav.AppInstance.{AppInstance, set_app_state, app_to_json, app_from_json}
use indrav.FreeBalance.{
  FreeBalance, increment, to_app_instance, from_app_instance, serialize_free_balance_state,
  deserialize_free_balance_state,
}
use indrav.FreeBalance.Ledger.{ledger, amount_of, IsNonnegative}
use indrav.FreeBalance.Increment.{increment_iff, Fits, ledger-increment}
use indrav.FreeBalance.Codec.{IsFreeBalance, deserialize-serialize, from-to_app_instance}
use indrav.Outcome.{handle_refund_app_outcome_special_case}
use indrav.Outcome.Refunds.{refund-first_deposit}
use indrav.Tests.Toy.{toy, toy_laws, toy_chain, game, value_of, empty_balance, number_of}

abbrev balance : FreeBalance
balance = record {
  active_apps_map = (3306, Bool.true) ∷ [];
  balances_indexed_by_token =
      (0, record { to = 100; amount = pos 10 } ∷ record { to = 200; amount = pos 20 } ∷ []) ∷ [];
}

abbrev payment : TokenIndexedCoinTransferMap
payment = (0, (100, negsuc 3) ∷ (200, pos 4) ∷ []) ∷ []

abbrev paid : FreeBalance
paid = value_of empty_balance (increment payment balance)

abbrev balance_app : AppInstance
balance_app = value_of game (to_app_instance balance game)

balance-IsFreeBalance : IsFreeBalance balance
balance-IsFreeBalance = record {
  tokens = (refl, tt);
  canonical = (refl, tt);
  actives = (refl, tt);
  all_true = (refl, tt);
}

balance-IsNonnegative : IsNonnegative balance
balance-IsNonnegative t u = ground arith

pays : increment payment balance ≡ ok paid
unfolding increment merge ◌+ℤ◌
pays = refl

writes : to_app_instance balance game ≡ ok balance_app
unfolding to_app_instance set_app_state app_to_json app_from_json serialize_free_balance_state
writes = refl

ledger-increment_example : ledger paid 0 100 ≡ ledger balance 0 100 +ℤ amount_of payment 0 100
ledger-increment_example = ledger-increment payment balance 0 100 (refl, tt) pays

increment_iff_example :
    ((fb : FreeBalance) × (increment payment balance ≡ ok fb)) ↔ Fits payment balance
increment_iff_example = increment_iff payment balance (refl, tt) balance-IsNonnegative

deserialize-serialize_example :
    deserialize_free_balance_state (serialize_free_balance_state balance) ≡ ok balance
deserialize-serialize_example = deserialize-serialize toy_laws balance balance-IsFreeBalance

from-to_app_instance_example : from_app_instance balance_app ≡ ok balance
from-to_app_instance_example =
    from-to_app_instance toy_laws balance game balance-IsFreeBalance writes

abbrev players : TwoPartyFixedOutcomeInterpreterParams
players = record { player_addrs = (100, 200); amount = pos 7; token_address = 0 }

abbrev refund : RefundState
refund = record { recipient = 100; multisig = 77; threshold = pos 0; token_address = some 5 }

-- The n-th answer of the toy chain, whose deposits are 0, -1, 1, -2 and so on.
abbrev answer_of : ℕ → CoinTransfer × CoinTransfer
answer_of n = (record { to = 100; amount = number_of n }, record { to = 200; amount = pos 0 })

abbrev dry_answer : ℕ → CoinTransfer × CoinTransfer
dry_answer n = (record { to = 100; amount = pos 0 }, record { to = 200; amount = pos 0 })

before_first : (m : ℕ) → m < 2 → (answer_of m).0.amount ≤ℤ pos 0
before_first zero h = omega arith
before_first (suc zero) h = omega arith
before_first (suc (suc n)) h = absurd (omega arith)

refund-first_deposit_example :
    handle_refund_app_outcome_special_case 0 game refund ≡ ok ((5, (100, pos 1) ∷ []) ∷ [])
refund-first_deposit_example =
    refund-first_deposit game refund (λ n. n) answer_of (λ n. refl) (λ n. refl) 2 (omega arith)
      before_first (omega arith)
