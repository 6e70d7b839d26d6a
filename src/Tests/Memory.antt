-- ===== src/Tests/Memory.antt =====
-- A storage service in memory, and the theorems on the store over it.
use native.Mathlib.Decide.{ℕ_discrete}
use indrav.Prelude.{
  ◌≡◌, ◌≢◌, ◌∙◌, sym, ap, refl, Bool, true, false, ◌==◌, if◌then◌else◌, Option, none, some, [], ◌∷◌,
  arith,
}
use indrav.Prelude.Dict.{
  Dict, IsObject, lookup, insert, erase, lookup-insert, lookup-erase_self, lookup-erase_ne,
  insert-IsObject, erase-IsObject,
}
use indrav.Prelude.Result.{ok, err}
use indrav.Types.{Address, AppState}
use indrav.AppInstance.{
  set_app_state, hash_of_latest_state, encoded_latest_state, app_from_json, app_to_json,
}
use indrav.Commitment.{state_commitment, assert_is_valid_signature}
use indrav.StateChannel.{StateChannel, get_app_instance, new_state_channel}
use indrav.StateChannel.Json.{StateChannelJson, channel_from_json, channel_to_json}
use indrav.StateChannel.Operations.{set_state, build}
use indrav.Store.{
  StorePath, Value, channels, channel, withdrawal, commitment, channels_value, StoreService,
  IsStoreService, channel_in, knows_app, get_state_channels_map,
  get_multisig_address_from_app_instance, save_state_channel, save_app_instance_state,
  get_channel_from_app_instance_id, get_state_channel,
}
use indrav.Store.Represents.{Channels, put, Storable, Represents, save_state_channel-Represents}
use indrav.Store.Reading.{Finds}
use indrav.Store.Search.{
  get_state_channels_map-Represents, get_multisig_address_from_app_instance-Finds,
  save_app_instance_state-Represents,
}
use indrav.Store.Middleware.{ListsStorable, Executed, execute, execute-Executed}
use indrav.Machine.Play.{play}
use indrav.Protocol.Update.{update_responding}
use indrav.Tests.Toy.{toy, toy_ethereum}
use indrav.Tests.Table.{table, signer_of, receives, update}

-- The values set for channels, the last one first; other values are not kept.
abbrev Memory : Type 0
Memory = Dict Value

abbrev set_json : Address → Option StateChannelJson → Dict StateChannelJson → Dict StateChannelJson
set_json a none d = erase a d
set_json a (some json) d = insert a json d

abbrev object_of : Memory → Dict StateChannelJson
object_of [] = []
object_of ((a, v) ∷ s) = set_json a (channel_in (some v)) (object_of s)

abbrev memory_get : StorePath → Memory → Option Value
memory_get channels s = some (channels_value (object_of s))
memory_get (channel a) s = lookup a s
memory_get (withdrawal a) s = none
memory_get (commitment h) s = none

abbrev memory_set : StorePath → Value → Memory → Memory
memory_set channels v s = s
memory_set (channel a) v s = (a, v) ∷ s
memory_set (withdrawal a) v s = s
memory_set (commitment h) v s = s

instance abbrev memory : StoreService Memory
memory = record { get = memory_get; set = memory_set; hash_commitment = λ c. c.call_data }

set_json-IsObject :
    (a : Address) (j : Option StateChannelJson) (d : Dict StateChannelJson)
    → IsObject d
    → IsObject (set_json a j d)
set_json-IsObject a none d h = erase-IsObject a d h
set_json-IsObject a (some json) d h = insert-IsObject a json d h

object_of-IsObject : (s : Memory) → IsObject (object_of s)
object_of-IsObject [] = tt
object_of-IsObject ((a, v) ∷ s) =
    set_json-IsObject a (channel_in (some v)) (object_of s) (object_of-IsObject s)

lookup-set_json :
    (b a : Address) (j : Option StateChannelJson) (d : Dict StateChannelJson)
    → IsObject d
    → lookup b (set_json a j d) ≡ (if b == a then j else lookup b d)
lookup-set_json b a none d o = elim (ℕ_discrete b a) [
  | yes e ↦ rw e (rw (lookup-erase_self a d o) (ground arith))
  | no n ↦ rw (lookup-erase_ne b a d n) (ground arith)
]
lookup-set_json b a (some json) d o = lookup-insert b a json d

keyed : (s : Memory) (b : Address) → lookup b (object_of s) ≡ channel_in (lookup b s)
keyed [] b = refl
keyed ((a, v) ∷ s) b =
    lookup-set_json b a (channel_in (some v)) (object_of s) (object_of-IsObject s)
    ∙ pick (keyed s b) (b == a)
  where
    pick :
        lookup b (object_of s) ≡ channel_in (lookup b s)
        → (same : Bool)
        → (if same then channel_in (some v) else lookup b (object_of s))
          ≡ channel_in (if same then some v else lookup b s)
    pick rest true = refl
    pick rest false = rest

other_path :
    (s : Memory) (a : Address) (path : StorePath) (v : Value)
    → path ≢ channel a
    → memory_get (channel a) (memory_set path v s) ≡ memory_get (channel a) s
other_path s a channels v n = refl
other_path s a (channel b) v n = elim (ℕ_discrete a b) [
  | yes e ↦ absurd (n (ap channel (sym e)))
  | no m ↦ ground arith
]
other_path s a (withdrawal b) v n = refl
other_path s a (commitment h) v n = refl

memory_laws : IsStoreService memory
memory_laws = record {
  get_set_channel = λ s a v. ground arith;
  get_set_other = other_path;
  channels_object = object_of-IsObject;
  channels_keyed = keyed;
}

abbrev nothing : Channels
nothing a = none

empty_store : Represents {S = Memory} [] nothing
empty_store a = tt

table-Storable : Storable table
table-Storable = record { keys = refl; proposals = tt; apps = (refl, tt); agreements = tt }

abbrev saved : Memory
saved = save_state_channel table []

save_state_channel-Represents_example : Represents saved (put table nothing)
save_state_channel-Represents_example =
    save_state_channel-Represents memory_laws [] nothing table table-Storable empty_store

-- The same, for the other theorems to use.
saved-Represents : Represents saved (put table nothing)
saved-Represents =
    save_state_channel-Represents memory_laws [] nothing table table-Storable empty_store

get_state_channels_map-Represents_example :
    (d : Dict StateChannel) × (get_state_channels_map saved ≡ ok d)
    × IsObject d
    × ((a : Address) → lookup a d ≡ put table nothing a)
get_state_channels_map-Represents_example =
    get_state_channels_map-Represents memory_laws saved (put table nothing) saved-Represents

get_multisig_address_from_app_instance-Finds_example :
    Finds 3306 (put table nothing) (get_multisig_address_from_app_instance 3306 saved)
get_multisig_address_from_app_instance-Finds_example =
    get_multisig_address_from_app_instance-Finds memory_laws saved (put table nothing) 3306
      saved-Represents

abbrev moved : Memory
moved = elim (save_app_instance_state 3306 (AppState.opaque 9) saved) [ ok s ↦ s | err _ ↦ [] ]

moves : save_app_instance_state 3306 (AppState.opaque 9) saved ≡ ok moved
unfolding save_app_instance_state get_channel_from_app_instance_id
    get_multisig_address_from_app_instance get_state_channels_map save_state_channel
    channel_from_json new_state_channel channel_to_json get_state_channel set_state get_app_instance
    set_app_state build
moves = refl

save_app_instance_state-Represents_example :
    (sc : StateChannel) × (updated : StateChannel) × (put table nothing sc.multisig_address
      ≡ some sc)
    × (knows_app 3306 sc ≡ true)
    × (set_state 3306 (AppState.opaque 9) sc ≡ ok updated)
    × Represents moved (put updated (put table nothing))
save_app_instance_state-Represents_example =
    save_app_instance_state-Represents memory_laws saved (put table nothing) 3306
      (AppState.opaque 9) saved-Represents moves

persists : ListsStorable (play (signer_of 2) [] (update_responding (receives update 103))).persisted
unfolding update_responding set_state get_app_instance set_app_state build new_state_channel
    state_commitment hash_of_latest_state encoded_latest_state app_from_json app_to_json
    assert_is_valid_signature
persists = ((record { keys = refl; proposals = tt; apps = (refl, tt); agreements = tt }, tt), tt)

execute-Executed_example :
    Executed
      (put table nothing)
      (execute (signer_of 2) [] (update_responding (receives update 103)) saved)
      (play (signer_of 2) [] (update_responding (receives update 103)))
execute-Executed_example =
    execute-Executed memory_laws (signer_of 2) [] (update_responding (receives update 103)) saved
      (put table nothing) persists saved-Represents
