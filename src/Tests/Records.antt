-- ===== src/Tests/Records.antt =====
-- The theorems on stored channels and on the latest app at a concrete channel.
use indrav.FreeBalance.{create_free_balance}
use indrav.FreeBalance.Order.{create_free_balance-swap}
use indrav.Prelude.{arith, ◌≤◌, ◌≡◌, refl, ◌∷◌, []}
use indrav.Prelude.Dict.{values}
use indrav.Prelude.Result.{ok}
use indrav.AppInstance.{AppInstance}
use indrav.StateChannel.{StateChannel, most_recently_installed_app_instance}
use indrav.StateChannel.Json.{channel_to_json, channel_from_json}
use indrav.StateChannel.Stored.{channel_from_json-channel_to_json}
use indrav.StateChannel.Latest.{Among, most_recently_installed-max}
use indrav.Tests.Toy.{toy, game}
use indrav.Tests.Table.{table}

channel_from_json-channel_to_json_example : channel_from_json (channel_to_json table) ≡ ok table
channel_from_json-channel_to_json_example =
    channel_from_json-channel_to_json table refl tt (refl, tt) tt

-- Another app, proposed later than the game.
abbrev later_game : AppInstance
later_game = record game { app_seq_no = 4 }

abbrev two_games : StateChannel
two_games = record table { app_instances = (4306, later_game) ∷ (3306, game) ∷ [] }

latest_of_two : most_recently_installed_app_instance two_games ≡ ok later_game
unfolding most_recently_installed_app_instance
latest_of_two = refl

most_recently_installed-max_example :
    Among later_game (values two_games.app_instances) × (game.app_seq_no ≤ later_game.app_seq_no)
most_recently_installed-max_example = most_recently_installed-max two_games 3306 latest_of_two refl

create_free_balance-swap_example :
    create_free_balance (1 ∷ 2 ∷ []) 62 8 ≡ create_free_balance (2 ∷ 1 ∷ []) 62 8
create_free_balance-swap_example = create_free_balance-swap 1 2 62 8 (λ e. absurd (omega arith))
