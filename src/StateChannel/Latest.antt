-- ===== src/StateChannel/Latest.antt =====
-- Which app counts as the one that was installed last.
use mathlib.Core.Path.{subst}
use indrav.Prelude.{◌≤◌, ◌≡◌, refl, some, ◌⊎◌, inl, inr, List, [], ◌∷◌, arith}
use indrav.Prelude.Dict.{Dict, lookup, values}
use indrav.Prelude.Result.{ok, err, no_installed_apps}
use indrav.Types.{Hash}
use indrav.AppInstance.{AppInstance}
use indrav.StateChannel.{StateChannel, latest_app, most_recently_installed_app_instance}

abbrev pub Among : AppInstance → List AppInstance → Type 0
Among a [] = ⊥
Among a (b ∷ rest) = (a ≡ b) ⊎ Among a rest

latest_app-Among :
    (prev : AppInstance) (rest : List AppInstance) → Among (latest_app prev rest) (prev ∷ rest)
latest_app-Among prev [] = inl refl
latest_app-Among prev (b ∷ rest) =
    ground (arith, latest_app-Among b rest, latest_app-Among prev rest)

latest_app-least :
    (prev : AppInstance) (rest : List AppInstance)
    → prev.app_seq_no ≤ (latest_app prev rest).app_seq_no
latest_app-least prev [] = omega arith
latest_app-least prev (b ∷ rest) =
    ground (arith, latest_app-least b rest, latest_app-least prev rest)

latest_app-max :
    (prev : AppInstance) (rest : List AppInstance) (a : AppInstance)
    → Among a rest
    → a.app_seq_no ≤ (latest_app prev rest).app_seq_no
latest_app-max prev [] a h = absurd h
latest_app-max prev (b ∷ rest) a (inl e) =
    rw e (ground (arith, latest_app-least b rest, latest_app-least prev rest))
latest_app-max prev (b ∷ rest) a (inr h) =
    ground (arith, latest_app-max b rest a h, latest_app-max prev rest a h)

latest_app-bound :
    (prev : AppInstance) (rest : List AppInstance) (a : AppInstance)
    → Among a (prev ∷ rest)
    → a.app_seq_no ≤ (latest_app prev rest).app_seq_no
latest_app-bound prev rest a (inl e) = rw e (latest_app-least prev rest)
latest_app-bound prev rest a (inr h) = latest_app-max prev rest a h

lookup-Among :
    (k : Hash) (d : Dict AppInstance) (a : AppInstance) → lookup k d ≡ some a → Among a (values d)
lookup-Among k [] a h = cc
lookup-Among k (e ∷ d) a h = ground (arith, lookup-Among k d a)

-- The app that `mostRecentlyInstalledAppInstance` returns is one of the channel's, and no app that
-- the channel stores has a higher sequence number: an app that was installed after it but proposed
-- before it is not returned.
pub most_recently_installed-max :
    (sc : StateChannel) (hash : Hash) {latest a : AppInstance}
    → most_recently_installed_app_instance sc ≡ ok latest
    → lookup hash sc.app_instances ≡ some a
    → Among latest (values sc.app_instances) × (a.app_seq_no ≤ latest.app_seq_no)
unfolding most_recently_installed_app_instance
most_recently_installed-max sc hash {latest} {a} h found =
    of_values (values sc.app_instances) h (lookup-Among hash sc.app_instances a found)
  where
    of_values :
        (apps : List AppInstance)
        → (elim apps [ [] ↦ err no_installed_apps | b ∷ rest ↦ ok (latest_app b rest) ]) ≡ ok latest
        → Among a apps
        → Among latest apps × (a.app_seq_no ≤ latest.app_seq_no)
    of_values [] e among = absurd among
    of_values (b ∷ rest) e among =
        subst (λ x. Among x (b ∷ rest) × (a.app_seq_no ≤ x.app_seq_no)) (cc)
          (latest_app-Among b rest, latest_app-bound b rest a among)
