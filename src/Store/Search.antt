-- ===== src/Store/Search.antt =====
-- The methods that read all channels: the map of them, and the search for an app's channel.
use mathlib.Core.Path.{subst}
use indrav.Prelude.{
  ◌≡◌, refl, sym, ◌∙◌, true, false, Option, none, some, inl, inr, [], if◌then◌else◌,
}
use indrav.Prelude.Dict.{Dict, IsObject, lookup, values}
use indrav.Prelude.Result.{ok, ◌>>=◌, >>=-eq-ok}
use indrav.Types.{Address, Hash, AppState, Platform}
use indrav.StateChannel.{StateChannel}
use indrav.StateChannel.Json.{StateChannelJson, channel_from_json}
use indrav.StateChannel.Operations.{set_state}
use indrav.Store.{
  channels, channel, StoreService, IsStoreService, channel_in, channels_in, index_onto, knows_app,
  find_app, get_state_channels_map, get_multisig_address_from_app_instance,
  get_channel_from_app_instance_id, get_state_channel, save_app_instance_state, save_state_channel,
}
use indrav.Store.Represents.{
  Channels, put, StoredAs, Represents, get_state_channel-Represents, save_state_channel-Represents,
  channel_or_missing, set_state-Storable, Represents-Storable,
}
use indrav.Store.Reading.{index, NotThere, Finds, find_app-Finds}

module _ ⦃p : Platform⦄ where
  module _ {S : Type 0} ⦃service : StoreService S⦄ where
    represented :
        (s : S) (m : Channels)
        → Represents s m
        → (a : Address) (json : StateChannelJson)
        → channel_in (service.get (channel a) s) ≡ some json
        → (sc : StateChannel) × (channel_from_json json ≡ ok sc)
          × (sc.multisig_address ≡ a)
          × (m a ≡ some sc)
    represented s m r a json h = of_option (m a) refl (subst (λ x. StoredAs a x (m a)) h (r a))
      where
        of_option :
            (o : Option StateChannel)
            → m a ≡ o
            → StoredAs a (some json) o
            → (sc : StateChannel) × (channel_from_json json ≡ ok sc)
              × (sc.multisig_address ≡ a)
              × (m a ≡ some sc)
        of_option none e st = absurd st
        of_option (some sc) e st = (sc, st.0, st.1, e)

    missing :
        (s : S) (m : Channels) (a : Address)
        → Represents s m
        → channel_in (service.get (channel a) s) ≡ none
        → m a ≡ none
    missing s m a r h = of_option (m a) refl (subst (λ x. StoredAs a x (m a)) h (r a))
      where
        of_option : (o : Option StateChannel) → m a ≡ o → StoredAs a none o → m a ≡ none
        of_option none e st = e
        of_option (some sc) e st = absurd st

    own_address :
        (s : S) (m : Channels) (a : Address) (sc : StateChannel)
        → Represents s m
        → m a ≡ some sc
        → sc.multisig_address ≡ a
    own_address s m a sc r h =
        of_json (channel_in (service.get (channel a) s))
          (subst (λ x. StoredAs a (channel_in (service.get (channel a) s)) x) h (r a))
      where
        of_json : (j : Option StateChannelJson) → StoredAs a j (some sc) → sc.multisig_address ≡ a
        of_json none st = absurd st
        of_json (some json) st = st.1

    -- With a storage service that behaves as documented, `getStateChannelsMap` returns an object
    -- that has exactly the represented channels, each at its address.
    pub get_state_channels_map-Represents :
        (laws : IsStoreService service) (s : S) (m : Channels)
        → Represents s m
        → (d : Dict StateChannel) × (get_state_channels_map s ≡ ok d)
          × IsObject d
          × ((a : Address) → lookup a d ≡ m a)
    unfolding get_state_channels_map
    get_state_channels_map-Represents laws s m r =
        let jsons = channels_in (service.get channels s) in
        let i =
          index jsons m (laws.channels_object s)
            (λ a json h. represented s m r a json (sym (laws.channels_keyed s a) ∙ h)) in
        (
          index_onto i.scs [],
          rw (i.parsed) refl,
          i.object [] tt,
          λ a.
              i.found a []
              ∙ at (lookup a jsons) (m a)
                  (λ h. missing s m a r (sym (laws.channels_keyed s a) ∙ h)),
        )
      where
        at :
            (j : Option StateChannelJson) (o : Option StateChannel)
            → (j ≡ none → o ≡ none)
            → (if (elim j [ none ↦ false | some _ ↦ true ]) then o else none) ≡ o
        at none o h = sym (h refl)
        at (some json) o h = refl

    -- With a storage service that behaves as documented, the search for an app's channel returns
    -- the address of a represented channel that has the app as a proposal, as an installed app or
    -- as its free balance, or throws where no represented channel has it.
    pub get_multisig_address_from_app_instance-Finds :
        (laws : IsStoreService service) (s : S) (m : Channels) (id : Hash)
        → Represents s m
        → Finds id m (get_multisig_address_from_app_instance id s)
    unfolding get_multisig_address_from_app_instance
    get_multisig_address_from_app_instance-Finds laws s m id r =
        let (d, read, o, same) = get_state_channels_map-Represents laws s m r in
        subst (λ x. Finds id m (x >>= λ scs. find_app id (values scs))) (sym read)
          (transfer d same
            (find_app-Finds id d o (λ a sc h. own_address s m a sc r (sym (same a) ∙ h))))
      where
        transfer :
            (d : Dict StateChannel)
            → ((a : Address) → lookup a d ≡ m a)
            → Finds id (λ a. lookup a d) (find_app id (values d))
            → Finds id m (find_app id (values d))
        transfer d same (inl (a, sc, f, h, own, knows)) =
            inl (a, sc, f, sym (same a) ∙ h, own, knows)
        transfer d same (inr (f, u)) = inr (f, λ a. subst (NotThere id) (same a) (u a))

    -- Reading an app's channel reads a represented channel that knows the app.
    get_channel_from_app_instance_id-finds :
        (laws : IsStoreService service) (s : S) (m : Channels) (id : Hash) {sc : StateChannel}
        → Represents s m
        → get_channel_from_app_instance_id id s ≡ ok sc
        → (m sc.multisig_address ≡ some sc) × (knows_app id sc ≡ true)
    unfolding get_channel_from_app_instance_id
    get_channel_from_app_instance_id-finds laws s m id r h =
        let (a, found, h1) = >>=-eq-ok (get_multisig_address_from_app_instance id s) _ h in
        from_search a found h1 (get_multisig_address_from_app_instance-Finds laws s m id r)
      where
        from_search :
            (a : Address) {sc : StateChannel}
            → get_multisig_address_from_app_instance id s ≡ ok a
            → get_state_channel a s ≡ ok sc
            → Finds id m (get_multisig_address_from_app_instance id s)
            → (m sc.multisig_address ≡ some sc) × (knows_app id sc ≡ true)
        from_search a {sc} found h1 (inl (b, sc', e, at, own, knows)) =
            let address : b ≡ a = cc in
            let at_a : m a ≡ some sc' = subst (λ x. m x ≡ some sc') address at in
            let read : ok sc ≡ channel_or_missing (m a) =
              sym h1 ∙ get_state_channel-Represents s m a r in
            let same : sc' ≡ sc = cc (read, at_a) in
            subst (λ x. (m x.multisig_address ≡ some x) × (knows_app id x ≡ true)) same
              (subst (λ x. m x ≡ some sc') (sym own) at, knows)
        from_search a found h1 (inr (e, u)) = absurd (cc)

    -- With a storage service that behaves as documented, a successful `saveAppInstanceState` has set
    -- the app's state in a represented channel that knows the app, and the storage then represents
    -- the map with the new channel put in.
    pub save_app_instance_state-Represents :
        (laws : IsStoreService service) (s : S) (m : Channels) (id : Hash) (new_state : AppState)
        {s' : S}
        → Represents s m
        → save_app_instance_state id new_state s ≡ ok s'
        → (sc : StateChannel) × (updated : StateChannel) × (m sc.multisig_address ≡ some sc)
          × (knows_app id sc ≡ true)
          × (set_state id new_state sc ≡ ok updated)
          × Represents s' (put updated m)
    unfolding save_app_instance_state
    save_app_instance_state-Represents laws s m id new_state {s' = s'} r h =
        let (sc, found, h1) = >>=-eq-ok (get_channel_from_app_instance_id id s) _ h in
        let (updated, computed, h2) = >>=-eq-ok (set_state id new_state sc) _ h1 in
        let (at, knows) = get_channel_from_app_instance_id-finds laws s m id r found in
        let saved : save_state_channel updated s ≡ s' = cc in
        (
          sc,
          updated,
          at,
          knows,
          computed,
          subst (λ x. Represents x (put updated m)) saved
              (save_state_channel-Represents laws s m updated
                (set_state-Storable id new_state sc computed
                  (Represents-Storable s m sc.multisig_address r at))
                r),
        )
