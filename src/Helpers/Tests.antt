-- ===== src/Helpers/Tests.antt =====
-- Command lines.
use jamsys.Prelude.{ℕ, ◌≤◌, ◌≡◌, ◌⊎◌, true, [], ◌∷◌, codes}
use jamsys.Prelude.Results.{ok}
use jamsys.Helpers.Kbd
use jamsys.Helpers.Kbd.{Op, rgb, brightness}
use jamsys.Helpers.Kbd.Main
use jamsys.Helpers.Kbd.Write
use jamsys.Helpers.Kbd.Write.{main_writes}
use jamsys.Helpers.Power
use jamsys.Helpers.Power.Laws
use jamsys.Helpers.Power.Laws.{power_writes}

abbrev laptop : Kbd.Main.Machine
laptop = record { euid = 0; led_dir = true; writable = true }

abbrev with_battery : Power.Machine
with_battery = record { euid = 0; exists = λ path. true; writable = λ path. true }

main_writes_example :
    Kbd.Write.Refused (Kbd.Main.main laptop (codes "brightness" ∷ codes "2" ∷ []))
    ⊎ Kbd.Write.Written laptop
        (codes "brightness" ∷ codes "2" ∷ [])
        (Kbd.Main.main laptop (codes "brightness" ∷ codes "2" ∷ []))
main_writes_example = main_writes laptop (codes "brightness" ∷ codes "2" ∷ [])

power_writes_example :
    Power.Laws.Refused (Power.main with_battery (codes "charge-limit" ∷ codes "80" ∷ []))
    ⊎ ((v : ℕ) × (Power.parse (codes "charge-limit" ∷ codes "80" ∷ []) ≡ ok v)
        × (20 ≤ v)
        × (v ≤ 100)
        × Power.Laws.Written with_battery v
            (Power.main with_battery (codes "charge-limit" ∷ codes "80" ∷ [])))
power_writes_example = power_writes with_battery (codes "charge-limit" ∷ codes "80" ∷ [])
