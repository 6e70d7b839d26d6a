-- ===== src/FreeBalance/Increment.antt =====
-- `FreeBalanceClass.increment`: it adds the increments to the abstract view, keeps every balance
-- from going negative, and succeeds exactly when it can.
use indrav.Prelude.{
  ℕ, ◌≡◌, refl, Bool, true, not, [], ◌∷◌, arith, if◌then◌else◌, Bool-cases, inl, inr, ◌↔◌,
}
use indrav.Prelude.Int.{ℤ, pos, ◌+ℤ◌, ◌≤ℤ◌, ltb_ℤ, int_laws, +ℤ-zero}
use indrav.Prelude.Dict.{lookup, values, IsObject}
use indrav.Prelude.Lists.{every}
use indrav.Prelude.Result.{ok, err, negative_balance}
use indrav.Types.{Address, CoinTransferMap, TokenIndexedCoinTransferMap}
use indrav.CoinTransfers.{get_or_zero, coin_transfers_to_map}
use indrav.CoinTransfers.Laws.{get_or_zero-merge, merge-IsObject}
use indrav.FreeBalance.{FreeBalance, increment}
use indrav.FreeBalance.Ledger.{
  ledger, amount_of, IsNonnegative, put_token, merged, ledger-put_token,
}

-- `!val.lt(Zero)`
abbrev pub nonneg : ℤ → Bool
nonneg val = not (ltb_ℤ val (pos 0))

every-lookup :
    (m : CoinTransferMap) (k : ℕ) → every nonneg (values m) ≡ true → pos 0 ≤ℤ get_or_zero k m
every-lookup [] k h = omega arith
every-lookup ((j, v) ∷ m) k h = ground (arith, every-lookup m k)

lookup-every :
    (m : CoinTransferMap)
    → IsObject m
    → ((k : ℕ) → pos 0 ≤ℤ get_or_zero k m)
    → every nonneg (values m) ≡ true
lookup-every [] object h = refl
lookup-every ((j, v) ∷ m) object h = ground (arith, h j, lookup-every m object.1 (λ k. rest k))
  where
    rest : (k : ℕ) → pos 0 ≤ℤ get_or_zero k m
    rest k = ground (arith, h k, object.0)

increment-cons :
    (token : Address) (m : CoinTransferMap) (es : TokenIndexedCoinTransferMap) (fb : FreeBalance)
    → increment ((token, m) ∷ es) fb ≡ (
        if every nonneg (values (merged fb token m))
        then increment es (put_token token (merged fb token m) fb)
        else err negative_balance)
unfolding increment
increment-cons token m es fb = elim (Bool-cases (every nonneg (values (merged fb token m)))) [
  | inl e ↦ rw e
  | inr e ↦ rw e
]

pub increment-nil : (fb : FreeBalance) → increment [] fb ≡ ok fb
unfolding increment
increment-nil fb = refl

pub increment-cons_ok :
    (token : Address) (m : CoinTransferMap) (es : TokenIndexedCoinTransferMap) (fb : FreeBalance)
    {fb' : FreeBalance}
    → increment ((token, m) ∷ es) fb ≡ ok fb'
    → (every nonneg (values (merged fb token m)) ≡ true)
      × (increment es (put_token token (merged fb token m) fb) ≡ ok fb')
increment-cons_ok token m es fb h = ground (arith, increment-cons token m es fb)

-- A successful increment by an object (each key once) adds to each beneficiary's balance of each token the amount that the
-- increments name for it, and zero where they name none.
pub ledger-increment :
    (increments : TokenIndexedCoinTransferMap) (fb : FreeBalance) {fb' : FreeBalance}
    (t u : Address)
    → IsObject increments
    → increment increments fb ≡ ok fb'
    → ledger fb' t u ≡ ledger fb t u +ℤ amount_of increments t u
ledger-increment [] fb t u object h = same h
  where
    same : {fb' : FreeBalance} → increment [] fb ≡ ok fb' → ledger fb' t u ≡ ledger fb t u +ℤ pos 0
    same e = grind (arith, increment-nil fb, +ℤ-zero (ledger fb t u))
ledger-increment ((token, m) ∷ es) fb t u object h =
    let (_, rest) = increment-cons_ok token m es fb h in
    grind (
      int_laws,
      ledger-increment es (put_token token (merged fb token m) fb) t u object.1 rest,
      ledger-put_token fb token m t u,
      object.0,
    )

put_token-IsNonnegative :
    (token : Address) (m : CoinTransferMap) (fb : FreeBalance)
    → IsNonnegative fb
    → every nonneg (values (merged fb token m)) ≡ true
    → IsNonnegative (put_token token (merged fb token m) fb)
put_token-IsNonnegative token m fb n fits t u = ground (
  arith,
  ledger-put_token fb token m t u,
  n t u,
  every-lookup (merged fb token m) u fits,
  get_or_zero-merge u (coin_transfers_to_map (lookup token fb.balances_indexed_by_token)) m,
)

-- If no balance is negative before a successful increment, none is after it.
pub increment-IsNonnegative :
    (increments : TokenIndexedCoinTransferMap) (fb : FreeBalance) {fb' : FreeBalance}
    → IsNonnegative fb
    → increment increments fb ≡ ok fb'
    → IsNonnegative fb'
increment-IsNonnegative [] fb n h t u = ground (arith, increment-nil fb, n t u)
increment-IsNonnegative ((token, m) ∷ es) fb n h t u =
    let (fits, rest) = increment-cons_ok token m es fb h in
    increment-IsNonnegative es (put_token token (merged fb token m) fb)
      (λ t' u'. put_token-IsNonnegative token m fb n fits t' u') rest t u

-- The increments leave every balance at zero or more.
abbrev pub Fits : TokenIndexedCoinTransferMap → FreeBalance → Type 0
Fits increments fb = (t u : Address) → pos 0 ≤ℤ ledger fb t u +ℤ amount_of increments t u

succeeds :
    (increments : TokenIndexedCoinTransferMap) (fb : FreeBalance)
    → IsObject increments
    → IsNonnegative fb
    → Fits increments fb
    → (fb' : FreeBalance) × (increment increments fb ≡ ok fb')
succeeds [] fb object n fits = (fb, increment-nil fb)
succeeds ((token, m) ∷ es) fb object n fits =
    let enough : every nonneg (values (merged fb token m)) ≡ true =
      lookup-every (merged fb token m) (merge-IsObject _ m) (λ u. grind (
        arith,
        fits token u,
        get_or_zero-merge u (coin_transfers_to_map (lookup token fb.balances_indexed_by_token)) m,
      )) in
    let next = put_token token (merged fb token m) fb in
    let (fb', rest) =
      succeeds es next object.1 (λ t u. put_token-IsNonnegative token m fb n enough t u)
        (λ t u. grind (int_laws, ledger-put_token fb token m t u, fits t u, n t u, object.0)) in
    (fb', rw (increment-cons token m es fb, enough) rest)

-- From balances of which none is negative, an increment by an object succeeds exactly when it leaves no balance
-- negative; otherwise it throws.
pub increment_iff :
    (increments : TokenIndexedCoinTransferMap) (fb : FreeBalance)
    → IsObject increments
    → IsNonnegative fb
    → ((fb' : FreeBalance) × (increment increments fb ≡ ok fb')) ↔ Fits increments fb
increment_iff increments fb object n = (
  λ found t u.
      rw (← ledger-increment increments fb t u object found.1)
        (increment-IsNonnegative increments fb n found.1 t u),
  λ fits. succeeds increments fb object n fits,
)

-- An increment leaves the set of active apps alone.
pub increment-active_apps :
    (increments : TokenIndexedCoinTransferMap) (fb : FreeBalance) {fb' : FreeBalance}
    → increment increments fb ≡ ok fb'
    → fb'.active_apps_map ≡ fb.active_apps_map
increment-active_apps [] fb h = ground (arith, increment-nil fb)
increment-active_apps ((token, m) ∷ es) fb h =
    increment-active_apps es (put_token token (merged fb token m) fb)
      (increment-cons_ok token m es fb h).1
