-- ===== src/Store/Owners.antt =====
-- The search for the channel of given owners: the static method of
-- modules/cf-core/src/store.ts, with `getCreate2MultisigAddress` of modules/cf-core/src/utils.ts.
-- The search sorts the keys of each channel that it looks at in place, so it returns the map too.
use indrav.Prelude.{
  ℕ, Bool, true, false, ◌&&◌, Option, none, some, List, [], ◌∷◌, ◌==◌, if◌then◌else◌,
}
use indrav.Prelude.Dict.{Dict}
use indrav.Prelude.Result.{Result, ok, err, no_multisig_for_counterparties}
use indrav.Types.{Address, Xpub, Platform}
use indrav.FreeBalance.{xkeys_to_sorted_kth_addresses}
use indrav.StateChannel.{StateChannel}

-- `a.toString() === b.toString()`, for lists of texts without a comma, as keys are.
abbrev pub same_texts : List ℕ → List ℕ → Bool
same_texts [] [] = true
same_texts [] (y ∷ ys) = false
same_texts (x ∷ xs) [] = false
same_texts (x ∷ xs) (y ∷ ys) = x == y && same_texts xs ys

module _ ⦃p : Platform⦄ where
  unfoldable pub insert_text : ℕ → List ℕ → List ℕ
  insert_text x [] = x ∷ []
  insert_text x (y ∷ ys) = if p.text_before x y then x ∷ y ∷ ys else y ∷ insert_text x ys

  -- `sort()`
  unfoldable pub sort_texts : List ℕ → List ℕ
  sort_texts [] = []
  sort_texts (x ∷ xs) = insert_text x (sort_texts xs)

  abbrev pub sort_keys : StateChannel → StateChannel
  sort_keys sc = record sc {
    user_neutered_extended_keys = sort_texts sc.user_neutered_extended_keys;
  }

  -- The loop of `getMultisigAddressWithCounterpartyFromMap`, on the sorted owners: the address of
  -- the first channel with these keys, and the channels, whose keys are sorted up to that one.
  unfoldable pub search_owners : List Xpub → Dict StateChannel → Option Address × Dict StateChannel
  search_owners owners [] = (none, [])
  search_owners owners ((address, sc) ∷ rest) =
      if same_texts (sort_texts sc.user_neutered_extended_keys) owners
      then (some sc.multisig_address, (address, sort_keys sc) ∷ rest)
      else ((search_owners owners rest).0, (address, sort_keys sc) ∷ (search_owners owners rest).1)

  -- The owners after the search, which sorts them at each channel.
  abbrev pub owners_after : Dict StateChannel → List Xpub → List Xpub
  owners_after [] owners = owners
  owners_after (e ∷ channels) owners = sort_texts owners

  -- `getCreate2MultisigAddress`; its cache only saves work.
  unfoldable pub get_create2_multisig_address : List Xpub → Address → Address → Address
  get_create2_multisig_address owners proxy_factory minimum_viable_multisig = p.get_address (
      p.create2_hash (xkeys_to_sorted_kth_addresses owners 0) proxy_factory minimum_viable_multisig)

  -- `getMultisigAddressWithCounterpartyFromMap`
  unfoldable pub get_multisig_address_with_counterparty_from_map :
      Dict StateChannel
      → List Xpub
      → Address
      → Address
      → Bool
      → Result (Address × Dict StateChannel)
  get_multisig_address_with_counterparty_from_map channels owners proxy_factory
        minimum_viable_multisig accept_generated_multisig =
      let (found, channels') = search_owners (sort_texts owners) channels in
      elim found [
        | some address ↦ ok (address, channels')
        | none ↦
            if accept_generated_multisig
            then ok (
              get_create2_multisig_address (owners_after channels owners) proxy_factory
                  minimum_viable_multisig,
              channels',
            )
            else err no_multisig_for_counterparties
      ]
