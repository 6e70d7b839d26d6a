-- ===== src/Store/Represents.antt =====
-- The abstract view of the store, a channel or none for each multisig address, and what the
-- methods do to it.
use mathlib.Core.Path.{subst}
use native.Mathlib.Decide.{ℕ_discrete}
use indrav.Prelude.{
  ◌≡◌, ◌≢◌, refl, sym, true, false, Option, none, some, List, [], arith, ◌==◌, ==_iff,
  if◌then◌else◌,
}
use indrav.Prelude.Dict.{IsObject, insert-IsObject, insert_all-IsObject}
use indrav.Prelude.Lists.{every}
use indrav.Prelude.Result.{
  Result, ok, err, no_state_channel, invalid_extended_keys, guard, guard-eq-ok, >>=-eq-ok,
}
use indrav.Types.{Address, Hash, AppState, Platform}
use indrav.StateChannel.{StateChannel, new_state_channel}
use indrav.StateChannel.Json.{
  StateChannelJson, channel_to_json, channel_from_json, drop_nulls, or_empty, apps_from_json,
}
use indrav.StateChannel.Operations.{set_state}
use indrav.StateChannel.Updates.{set_state-StateSet}
use indrav.StateChannel.Stored.{channel_from_json-channel_to_json}
use indrav.Commitment.{MinimalTransaction}
use indrav.Machine.{Protocol}
use indrav.Store.{
  channel, withdrawal, commitment, channel_value, StoreService, IsStoreService, channel_in,
  get_state_channel, save_state_channel, store_withdrawal_commitment, set_commitment,
}

-- What the store is an implementation of.
abbrev pub Channels : Type 0
Channels = Address → Option StateChannel

abbrev pub put : StateChannel → Channels → Channels
put sc m a = if a == sc.multisig_address then some sc else m a

abbrev pub channel_or_missing : Option StateChannel → Result StateChannel
channel_or_missing none = err no_state_channel
channel_or_missing (some sc) = ok sc

channel_injective : {a b : Address} → channel a ≡ channel b → a ≡ b
channel_injective q = cc

ok_injective : {a b : StateChannel} → ok a ≡ ok b → a ≡ b
ok_injective q = cc

differ : {a b : Address} → a ≢ b → (a == b) ≡ false
differ n = ground arith

module _ ⦃p : Platform⦄ where
  -- What the code keeps of every channel: its keys are extended keys and its maps have each key
  -- once.
  pub record Storable (sc : StateChannel) : Type 0 where
    pub keys : every p.is_xpub sc.user_neutered_extended_keys ≡ true
    pub proposals : IsObject sc.proposed_app_instances
    pub apps : IsObject sc.app_instances
    pub agreements : IsObject sc.agreements

  channel_from_json-Storable :
      (json : StateChannelJson) {sc : StateChannel} → channel_from_json json ≡ ok sc → Storable sc
  unfolding channel_from_json new_state_channel
  channel_from_json-Storable json {sc} h =
      let (_, keys, h1) =
        >>=-eq-ok (guard (every p.is_xpub json.user_neutered_extended_keys) invalid_extended_keys) _
          h in
      subst Storable (ok_injective h1) (record {
        keys =
            guard-eq-ok (every p.is_xpub json.user_neutered_extended_keys) invalid_extended_keys
              keys;
        proposals = insert_all-IsObject (drop_nulls (or_empty json.proposed_app_instances)) [] tt;
        apps =
            insert_all-IsObject (apps_from_json (drop_nulls (or_empty json.app_instances))) [] tt;
        agreements = insert_all-IsObject (or_empty json.agreements) [] tt;
      })

  pub set_state-Storable :
      (hash : Hash) (state : AppState) (sc : StateChannel) {sc' : StateChannel}
      → set_state hash state sc ≡ ok sc'
      → Storable sc
      → Storable sc'
  set_state-Storable hash state sc h w =
      let r = set_state-StateSet hash state sc h in
      subst Storable (sym r.channel) (record {
        keys = w.keys;
        proposals = w.proposals;
        apps = insert-IsObject hash r.after sc.app_instances w.apps;
        agreements = w.agreements;
      })

  -- The JSON that stands at an address is that of the channel there, which has this address.
  abbrev pub StoredAs : Address → Option StateChannelJson → Option StateChannel → Type 0
  StoredAs a none none = Unit
  StoredAs a none (some sc) = ⊥
  StoredAs a (some json) none = ⊥
  StoredAs a (some json) (some sc) = (channel_from_json json ≡ ok sc) × (sc.multisig_address ≡ a)

  module _ {S : Type 0} ⦃service : StoreService S⦄ where
    abbrev pub Represents : S → Channels → Type 0
    Represents s m = (a : Address) → StoredAs a (channel_in (service.get (channel a) s)) (m a)

    -- Reading a channel reads the abstract map.
    pub get_state_channel-Represents :
        (s : S) (m : Channels) (a : Address)
        → Represents s m
        → get_state_channel a s ≡ channel_or_missing (m a)
    unfolding get_state_channel
    get_state_channel-Represents s m a r = read (channel_in (service.get (channel a) s)) (m a) (r a)
      where
        read :
            (j : Option StateChannelJson) (o : Option StateChannel)
            → StoredAs a j o
            → (elim j [ none ↦ err no_state_channel | some json ↦ channel_from_json json ])
              ≡ channel_or_missing o
        read none none h = refl
        read none (some sc) h = absurd h
        read (some json) none h = absurd h
        read (some json) (some sc) h = h.0

    -- What is read from the storage can be stored.
    pub Represents-Storable :
        (s : S) (m : Channels) (a : Address) {sc : StateChannel}
        → Represents s m
        → m a ≡ some sc
        → Storable sc
    Represents-Storable s m a {sc} r h =
        of_json (channel_in (service.get (channel a) s))
          (subst (λ x. StoredAs a (channel_in (service.get (channel a) s)) x) h (r a))
      where
        of_json : (j : Option StateChannelJson) → StoredAs a j (some sc) → Storable sc
        of_json none st = absurd st
        of_json (some json) st = channel_from_json-Storable json st.0

    -- With a storage service that behaves as documented, saving a channel whose keys are extended
    -- keys and whose maps have each key once changes the abstract map at the channel's address,
    -- which then has the channel, and nowhere else.
    pub save_state_channel-Represents :
        (laws : IsStoreService service) (s : S) (m : Channels) (sc : StateChannel)
        → Storable sc
        → Represents s m
        → Represents (save_state_channel sc s) (put sc m)
    unfolding save_state_channel
    save_state_channel-Represents laws s m sc w r a = elim (ℕ_discrete a sc.multisig_address) [
      | yes e ↦
          rw
            (
              e,
              laws.get_set_channel s sc.multisig_address (channel_value (channel_to_json sc)),
              (==_iff sc.multisig_address sc.multisig_address).1 refl,
            )
            (channel_from_json-channel_to_json sc w.keys w.proposals w.apps w.agreements, refl)
      | no n ↦
          rw
            (
              laws.get_set_other s a (channel sc.multisig_address)
                  (channel_value (channel_to_json sc)) (λ q. n (sym (channel_injective q))),
              differ n,
            )
            (r a)
    ]

    -- Commitments are stored beside the channels.
    pub store_withdrawal_commitment-Represents :
        (laws : IsStoreService service) (s : S) (m : Channels) (a : Address)
        (c : MinimalTransaction)
        → Represents s m
        → Represents (store_withdrawal_commitment a c s) m
    unfolding store_withdrawal_commitment
    store_withdrawal_commitment-Represents laws s m a c r b =
        rw (laws.get_set_other s b (withdrawal a) _ (λ q. cc)) (r b)

    pub set_commitment-Represents :
        (laws : IsStoreService service) (s : S) (m : Channels) (protocol : Protocol)
        (args : List Hash) (c : MinimalTransaction)
        → Represents s m
        → Represents (set_commitment protocol args c s) m
    unfolding set_commitment
    set_commitment-Represents laws s m protocol args c r b =
        rw (laws.get_set_other s b (commitment (service.hash_commitment c)) _ (λ q. cc)) (r b)
