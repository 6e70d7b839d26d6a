-- ===== src/Outcome/Refunds.antt =====
-- The repeated query for a deposit, `handleRefundAppOutcomeSpecialCase`.
use indrav.Prelude.{ℕ, zero, suc, ◌+◌, ◌∙◌, ◌≤◌, ◌<◌, ◌≡◌, refl, true, false, [], ◌∷◌, arith}
use indrav.Prelude.Int.{ℤ, pos, ◌≤ℤ◌, ltb_ℤ}
use indrav.Prelude.Result.{ok, err, no_deposit_found}
use indrav.Types.{CoinTransfer, TokenIndexedCoinTransferMap, RefundState, Platform}
use indrav.AppInstance.{AppInstance}
use indrav.Outcome.{Chain, refund_token, refund_loop, handle_refund_app_outcome_special_case}

is_positive : (a : ℤ) → pos 1 ≤ℤ a → ltb_ℤ (pos 0) a ≡ true
is_positive a h = ground arith

is_nonpositive : (a : ℤ) → a ≤ℤ pos 0 → ltb_ℤ (pos 0) a ≡ false
is_nonpositive a h = ground arith

module _ ⦃p : Platform⦄ ⦃chain : Chain⦄ (app : AppInstance) (state : RefundState) (outcomes : ℕ → ℕ)
    (transfers : ℕ → CoinTransfer × CoinTransfer)
    (answers : (n : ℕ) → chain.compute_outcome (n + 1) app ≡ ok (outcomes (n + 1)))
    (decoded : (n : ℕ) → chain.decode_two_transfers (outcomes n) ≡ ok (transfers n)) where
  abbrev deposit : ℕ → CoinTransfer
  deposit n = (transfers n).0

  -- What the loop returns for the deposit of the n-th answer.
  abbrev pub credited : ℕ → TokenIndexedCoinTransferMap
  credited n = (refund_token state, ((deposit n).to, (deposit n).amount) ∷ []) ∷ []

  loop_found :
      (left n : ℕ)
      → ltb_ℤ (pos 0) (deposit n).amount ≡ true
      → refund_loop app state (suc left) (n + 1) (outcomes n) ≡ ok (credited n)
  unfolding refund_loop
  loop_found left n h = ground (arith, decoded n)

  loop_again :
      (left n : ℕ)
      → ltb_ℤ (pos 0) (deposit n).amount ≡ false
      → refund_loop app state (suc left) (n + 1) (outcomes n)
        ≡ refund_loop app state left (n + 1 + 1) (outcomes (n + 1))
  unfolding refund_loop
  loop_again left n h = ground (arith, decoded n, answers n)

  loop_first :
      (k left n : ℕ)
      → k < left
      → ((m : ℕ) → n ≤ m → m < n + k → (deposit m).amount ≤ℤ pos 0)
      → pos 1 ≤ℤ (deposit (n + k)).amount
      → refund_loop app state left (n + 1) (outcomes n) ≡ ok (credited (n + k))
  loop_first zero zero n h before now = absurd (omega arith)
  loop_first zero (suc left) n h before now =
      let e : n + zero ≡ n = omega arith in
      rw e (loop_found left n (rw e at (is_positive (deposit (n + zero)).amount now)))
  loop_first (suc k) zero n h before now = absurd (omega arith)
  loop_first (suc k) (suc left) n h before now =
      let e : n + 1 + k ≡ n + suc k = omega arith in
      loop_again left n (is_nonpositive (deposit n).amount (before n (omega arith) (omega arith)))
      ∙ rw (← e) (
          loop_first k left (n + 1) (omega arith)
            (λ m low high. before m (omega arith) (omega arith)) (rw e now))

  loop_none :
      (left n : ℕ)
      → ((m : ℕ) → n ≤ m → m < n + left → (deposit m).amount ≤ℤ pos 0)
      → refund_loop app state left (n + 1) (outcomes n) ≡ err no_deposit_found
  unfolding refund_loop
  loop_none zero n h = refl
  loop_none (suc left) n h =
      loop_again left n (is_nonpositive (deposit n).amount (h n (omega arith) (omega arith)))
      ∙ loop_none left (n + 1) (λ m low high. h m (omega arith) (omega arith))

  -- With answers that all decode, the first of the ten outcomes whose deposit is positive decides
  -- the increments: its amount, for its beneficiary, in the token of the refund app.
  pub refund-first_deposit :
      (k : ℕ)
      → k < 10
      → ((m : ℕ) → m < k → (deposit m).amount ≤ℤ pos 0)
      → pos 1 ≤ℤ (deposit k).amount
      → handle_refund_app_outcome_special_case (outcomes 0) app state ≡ ok (credited k)
  unfolding handle_refund_app_outcome_special_case
  refund-first_deposit k h before now =
      let e : 0 + k ≡ k = omega arith in
      rw (← e) (loop_first k 10 0 h (λ m low high. before m (omega arith)) (rw e now))

  -- With answers that all decode, the call throws if none of the first ten deposits is positive.
  pub refund-no_deposit :
      ((m : ℕ) → m < 10 → (deposit m).amount ≤ℤ pos 0)
      → handle_refund_app_outcome_special_case (outcomes 0) app state ≡ err no_deposit_found
  unfolding handle_refund_app_outcome_special_case
  refund-no_deposit h = loop_none 10 0 (λ m low high. h m (omega arith))
