-- ===== src/Store/Reading.antt =====
-- The list of all channels as it is read and searched: what the loops of the search do.
use indrav.Prelude.{
  ◌≡◌, refl, ◌∙◌, true, false, Bool, Option, none, some, ◌⊎◌, inl, inr, List, [], ◌∷◌, arith, ◌==◌,
  if◌then◌else◌,
}
use indrav.Prelude.Dict.{
  Dict, IsObject, has, lookup, insert, values, lookup-insert, insert-IsObject,
}
use indrav.Prelude.Result.{Result, ok, err, no_multisig_for_app}
use indrav.Types.{Address, Hash, Platform}
use indrav.StateChannel.{StateChannel}
use indrav.StateChannel.Json.{StateChannelJson, channel_from_json}
use indrav.Store.{channels_from_json, index_onto, knows_app, find_app}
use indrav.Store.Represents.{Channels}

module _ ⦃p : Platform⦄ where
  -- Each JSON is that of the channel that the map has at its key.
  abbrev pub Reads : Dict StateChannelJson → Channels → Type 0
  Reads jsons m =
      (a : Address) (json : StateChannelJson)
      → lookup a jsons ≡ some json
      → (sc : StateChannel) × (channel_from_json json ≡ ok sc)
        × (sc.multisig_address ≡ a)
        × (m a ≡ some sc)

  pub record Indexed (jsons : Dict StateChannelJson) (m : Channels) : Type 0 where
    pub scs : List StateChannel
    pub parsed : channels_from_json (values jsons) ≡ ok scs
    pub found :
        (a : Address) (acc : Dict StateChannel)
        → lookup a (index_onto scs acc) ≡ (if has a jsons then m a else lookup a acc)
    pub object : (acc : Dict StateChannel) → IsObject acc → IsObject (index_onto scs acc)

  tail-Reads :
      (k : Address) (json : StateChannelJson) (jsons : Dict StateChannelJson) (m : Channels)
      → has k jsons ≡ false
      → Reads ((k, json) ∷ jsons) m
      → Reads jsons m
  tail-Reads k json jsons m fresh r a j h = r a j (ground arith)

  pub index :
      (jsons : Dict StateChannelJson) (m : Channels)
      → IsObject jsons
      → Reads jsons m
      → Indexed jsons m
  index [] m o r = record { scs = []; parsed = refl; found = λ a acc. refl; object = λ acc h. h }
  index ((k, json) ∷ jsons) m o r =
      let rest = index jsons m o.1 (tail-Reads k json jsons m o.0 r) in
      let (sc, parsed, address, at) = r k json (ground arith) in
      record {
        scs = sc ∷ rest.scs;
        parsed = rw (parsed, rest.parsed) refl;
        found = λ a acc.
            rest.found a (insert sc.multisig_address sc acc)
            ∙ rw address (ground (arith, lookup-insert a k sc acc, at, o.0));
        object = λ acc h.
            rest.object (insert sc.multisig_address sc acc)
              (insert-IsObject sc.multisig_address sc acc h);
      }

  abbrev pub NotThere : Hash → Option StateChannel → Type 0
  NotThere id none = Unit
  NotThere id (some sc) = knows_app id sc ≡ false

  -- No channel of the map knows the app.
  abbrev pub Unknown : Hash → Channels → Type 0
  Unknown id m = (a : Address) → NotThere id (m a)

  -- The search returns the address of a channel that knows the app, or throws where there is none.
  abbrev pub Finds : Hash → Channels → Result Address → Type 0
  Finds id m result =
      ((a : Address) × (sc : StateChannel) × (result ≡ ok a)
        × (m a ≡ some sc)
        × (sc.multisig_address ≡ a)
        × (knows_app id sc ≡ true))
      ⊎ ((result ≡ err no_multisig_for_app) × Unknown id m)

  tail-lookup :
      (b : Address) (sc : StateChannel) (d : Dict StateChannel) (a : Address) (sc' : StateChannel)
      → has b d ≡ false
      → lookup a d ≡ some sc'
      → lookup a ((b, sc) ∷ d) ≡ some sc'
  tail-lookup b sc d a sc' fresh h = ground arith

  pub find_app-Finds :
      (id : Hash) (d : Dict StateChannel)
      → IsObject d
      → ((a : Address) (sc : StateChannel) → lookup a d ≡ some sc → sc.multisig_address ≡ a)
      → Finds id (λ a. lookup a d) (find_app id (values d))
  find_app-Finds id [] o k = inr (refl, λ a. tt)
  find_app-Finds id ((b, sc) ∷ d) o k =
      by_test (knows_app id sc) refl
        (find_app-Finds id d o.1 (λ a sc' h. k a sc' (tail-lookup b sc d a sc' o.0 h)))
    where
      by_test :
          (knows : Bool)
          → knows_app id sc ≡ knows
          → Finds id (λ a. lookup a d) (find_app id (values d))
          → Finds id
              (λ a. lookup a ((b, sc) ∷ d))
              (if knows then ok sc.multisig_address else find_app id (values d))
      by_test true e rest =
          let own : sc.multisig_address ≡ b = k b sc (ground arith) in
          inl (sc.multisig_address, sc, refl, rw own (ground arith), refl, e)
      by_test false e (inl (a, sc', f, h, own, knows)) =
          inl (a, sc', f, tail-lookup b sc d a sc' o.0 h, own, knows)
      by_test false e (inr (f, u)) = inr (f, λ a. add_unknown a (u a))
        where
          add_unknown :
              (a : Address) → NotThere id (lookup a d) → NotThere id (lookup a ((b, sc) ∷ d))
          add_unknown a u =
              elim (a == b) as (λ t. NotThere id (if t then some sc else lookup a d)) [
                | true ↦ e
                | false ↦ u
              ]
