-- ===== src/StateChannel/Funding.antt =====
-- Installing and uninstalling an app: the funds that move, and what happens to the channel's maps.
use mathlib.Core.Path.{subst}
use indrav.Prelude.{
  ◌+◌, ◌≡◌, refl, sym, ap, if◌then◌else◌, Bool, true, false, none, some, [], ◌∷◌, arith,
}
use indrav.Prelude.Int.{ℤ, pos, ◌+ℤ◌, ◌-ℤ◌, ◌≤ℤ◌, int_laws}
use indrav.Prelude.Dict.{
  Dict, erase, lookup, has, insert, IsObject, lookup-insert, lookup-erase_self,
}
use indrav.Prelude.Result.{ok, >>=-eq-ok}
use indrav.Types.{Address, Hash, TokenIndexedCoinTransferMap, Platform, IsPlatform}
use indrav.CoinTransfers.{get_or_zero, flip, flip_tokens_onto, flip_token_indexed_balances}
use indrav.CoinTransfers.Laws.{get_or_zero-flip, lookup-flip_token_indexed_balances}
use indrav.FreeBalance.{
  FreeBalance, increment, free_balance_add_active_app, free_balance_remove_active_app,
}
use indrav.FreeBalance.Ledger.{ledger, amount_of, IsNonnegative}
use indrav.FreeBalance.Increment.{ledger-increment, increment-IsNonnegative, increment-active_apps}
use indrav.FreeBalance.Codec.{Canonical, insert-Canonical}
use indrav.StateChannel.{StateChannel, get_free_balance_class}
use indrav.StateChannel.Operations.{
  add_active_app_and_increment_free_balance, remove_active_app_and_increment_free_balance,
  increment_free_balance, remove_active_app,
}
use indrav.StateChannel.Balances.{
  get_free_balance_class-IsFreeBalance, Rebalanced-trans, free_balance_version,
  free_balance_identity, SameButFreeBalance, increment_free_balance-Rebalanced,
  add_active_app-Rebalanced, remove_active_app-Rebalanced,
}

-- A doubly nested map as the protocols build it: an object of objects.
abbrev pub IsTransferMap : TokenIndexedCoinTransferMap → Type 0
IsTransferMap [] = Unit
IsTransferMap ((t, m) ∷ d) = (has t d ≡ false) × IsObject m × IsTransferMap d

pub IsTransferMap-IsObject : (d : TokenIndexedCoinTransferMap) → IsTransferMap d → IsObject d
IsTransferMap-IsObject [] h = tt
IsTransferMap-IsObject (e ∷ d) h = (h.0, IsTransferMap-IsObject d h.2)

amount_of-flip_object :
    (d : TokenIndexedCoinTransferMap) (t u : Address)
    → IsTransferMap d
    → (elim (lookup t d) [ none ↦ pos 0 | some m ↦ get_or_zero u (flip m) ])
      ≡ pos 0 -ℤ amount_of d t u
amount_of-flip_object [] t u h = omega int_laws
amount_of-flip_object ((t', m) ∷ d) t u h =
    grind (int_laws, get_or_zero-flip u m h.1, amount_of-flip_object d t u h.2)

-- `flipTokenIndexedBalances` negates every amount of an object of objects.
pub amount_of-flip :
    (d : TokenIndexedCoinTransferMap) (t u : Address)
    → IsTransferMap d
    → amount_of (flip_token_indexed_balances d) t u ≡ pos 0 -ℤ amount_of d t u
amount_of-flip d t u h = ground (
  arith,
  lookup-flip_token_indexed_balances t d (IsTransferMap-IsObject d h),
  amount_of-flip_object d t u h,
)

module _ ⦃p : Platform⦄ where
  flip_tokens_onto-Canonical :
      (d acc : TokenIndexedCoinTransferMap)
      → Canonical d
      → Canonical acc
      → Canonical (flip_tokens_onto d acc)
  unfolding flip_tokens_onto
  flip_tokens_onto-Canonical [] acc h c = c
  flip_tokens_onto-Canonical ((t, m) ∷ d) acc h c =
      flip_tokens_onto-Canonical d (insert t (flip m) acc) h.1
        (insert-Canonical t (flip m) acc h.0 c)

  pub flip-Canonical :
      (d : TokenIndexedCoinTransferMap) → Canonical d → Canonical (flip_token_indexed_balances d)
  unfolding flip_token_indexed_balances
  flip-Canonical d h = flip_tokens_onto-Canonical d [] h tt

  -- The set of active apps with `hash` put in or taken out.
  abbrev pub with_active : Hash → Bool → Dict Bool → Dict Bool
  with_active hash active d = if active then insert hash true d else erase hash d

  -- The channel `sc'` has the ledger of `sc` with `change` added and the app `hash` in its set of
  -- active apps exactly if `active` says so, with the other active apps as they were, after two
  -- more versions of the free balance app, which has the same identity, and
  -- `FreeBalanceClass.increment` made the change.
  pub record Funded (hash : Hash) (active : Bool) (change : Address → Address → ℤ)
      (sc sc' : StateChannel) : Type 0 where
    pub before : FreeBalance
    pub after : FreeBalance
    pub reads_before : get_free_balance_class sc ≡ ok before
    pub reads_after : get_free_balance_class sc' ≡ ok after
    pub version : free_balance_version sc' ≡ free_balance_version sc + 2
    pub settled : free_balance_identity sc' ≡ free_balance_identity sc
    pub moves : (t u : Address) → ledger after t u ≡ ledger before t u +ℤ change t u
    pub increments : TokenIndexedCoinTransferMap
    pub start : FreeBalance
    pub stop : FreeBalance
    pub incremented : increment increments start ≡ ok stop
    pub same_start : (t u : Address) → ledger start t u ≡ ledger before t u
    pub same_stop : (t u : Address) → ledger after t u ≡ ledger stop t u
    pub is_active : has hash after.active_apps_map ≡ active
    pub actives : after.active_apps_map ≡ with_active hash active before.active_apps_map

  pub add_active_app_and_increment-Funded :
      (laws : IsPlatform p) (hash : Hash) (inc : TokenIndexedCoinTransferMap) (sc : StateChannel)
      {sc' : StateChannel}
      → IsObject inc
      → Canonical inc
      → add_active_app_and_increment_free_balance hash inc sc ≡ ok sc'
      → Funded hash true (amount_of inc) sc sc' × SameButFreeBalance sc sc'
  unfolding add_active_app_and_increment_free_balance increment_free_balance
      free_balance_add_active_app
  add_active_app_and_increment-Funded laws hash inc sc o c h =
      let (sc1, incremented, h1) = >>=-eq-ok (increment_free_balance inc sc) _ h in
      let (fb, g, _) = >>=-eq-ok (get_free_balance_class sc) _ incremented in
      let (fb', i, r1) = increment_free_balance-Rebalanced laws inc sc c g incremented in
      let r2 = add_active_app-Rebalanced laws hash sc1 r1.reads h1 in
      let r = Rebalanced-trans 1 1 r1 r2 in
      (
        record {
          before = fb;
          after = free_balance_add_active_app hash fb';
          reads_before = g;
          reads_after = r.reads;
          version = r.version;
          settled = r.settled;
          moves = λ t u. ledger-increment inc fb t u o i;
          increments = inc;
          start = fb;
          stop = fb';
          incremented = i;
          same_start = λ t u. refl;
          same_stop = λ t u. refl;
          is_active = ground (arith, lookup-insert hash hash true fb'.active_apps_map);
          actives = ap (insert hash true) (increment-active_apps inc fb i);
        },
        r.same,
      )

  pub remove_active_app_and_increment-Funded :
      (laws : IsPlatform p) (hash : Hash) (inc : TokenIndexedCoinTransferMap) (sc : StateChannel)
      {sc' : StateChannel}
      → IsObject inc
      → Canonical inc
      → remove_active_app_and_increment_free_balance hash inc sc ≡ ok sc'
      → Funded hash false (amount_of inc) sc sc' × SameButFreeBalance sc sc'
  unfolding remove_active_app_and_increment_free_balance remove_active_app
      free_balance_remove_active_app
  remove_active_app_and_increment-Funded laws hash inc sc o c h =
      let (sc1, removed, h1) = >>=-eq-ok (remove_active_app hash sc) _ h in
      let (fb, g, _) = >>=-eq-ok (get_free_balance_class sc) _ removed in
      let r1 = remove_active_app-Rebalanced laws hash sc g removed in
      let fb1 = free_balance_remove_active_app hash fb in
      let (fb', i, r2) = increment_free_balance-Rebalanced laws inc sc1 c r1.reads h1 in
      let r = Rebalanced-trans 1 1 r1 r2 in
      (
        record {
          before = fb;
          after = fb';
          reads_before = g;
          reads_after = r.reads;
          version = r.version;
          settled = r.settled;
          moves = λ t u. ledger-increment inc fb1 t u o i;
          increments = inc;
          start = fb1;
          stop = fb';
          incremented = i;
          same_start = λ t u. refl;
          same_stop = λ t u. refl;
          is_active = ground (
            arith,
            increment-active_apps inc fb1 i,
            lookup-erase_self hash fb.active_apps_map
                (get_free_balance_class-IsFreeBalance laws sc g).actives,
          );
          actives = increment-active_apps inc fb1 i;
        },
        r.same,
      )

  -- A change that `increment` made leaves no balance negative.
  pub Funded-IsNonnegative :
      (sc : StateChannel) {hash : Hash} {active : Bool} {change : Address → Address → ℤ}
      {sc' : StateChannel} (f : Funded hash active change sc sc')
      → IsNonnegative f.before
      → IsNonnegative f.after
  Funded-IsNonnegative sc f n t u =
      subst (λ x. pos 0 ≤ℤ x) (sym (f.same_stop t u))
        (increment-IsNonnegative f.increments f.start
          (λ a b. subst (λ x. pos 0 ≤ℤ x) (sym (f.same_start a b)) (n a b)) f.incremented t u)
