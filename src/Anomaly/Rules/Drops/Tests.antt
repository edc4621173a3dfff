-- ===== src/Anomaly/Rules/Drops/Tests.antt =====
-- Headphones that dropped a minute ago.
use mathlib.Core.List.{Memᴰ}
use jamsys.Prelude.{ℕ, refl, true, false, [], ◌∷◌, List, codes, arith, text_is_eq, text_eq}
use jamsys.Prelude.Dict.{get, insert}
use jamsys.Prelude.Real.{whole}
use jamsys.Types.Context
use jamsys.Types.Context.{Context, interactive}
use jamsys.Config.{threshold}
use jamsys.Collectors.Snapshot.{Snapshot, BtDevice}
use jamsys.Collectors.Snapshot.Samples.{healthy}
use jamsys.Collectors.Bluetooth.Watch
use jamsys.Collectors.Bluetooth.Watch.{
  Pass, BluetoothCollector, no_bus, label, enumerated, noticed, changes, change_of, forgotten,
  by_address,
}
use jamsys.Collectors.Bluetooth.Watch.Samples.{pass, phones}
use jamsys.Anomaly.Rules.{limit}
use jamsys.Anomaly.Rules.Evaluation
use jamsys.Anomaly.Rules.Evaluation.{evaluate}
use jamsys.Anomaly.Rules.Drops.{IsReported}
use jamsys.Anomaly.Rules.Drops.Noticed.{evaluate-noticed}

abbrev before : BluetoothCollector
before = (enumerated (pass 1_000 no_bus) (phones true ∷ []) true Watch.new).0

abbrev found : List BtDevice
found = phones false ∷ []

abbrev machine : Snapshot ℕ
machine = record healthy { bluetooth = (enumerated (pass 3_000 no_bus) found true before).1 }

abbrev here : Context
here = Context.new false interactive

evaluate-noticed_example :
    IsReported (codes "AXR100") (evaluate machine [] here 60_000 (Evaluation.new 512 120 3))
unfolding enumerated noticed get insert text_eq label threshold limit changes change_of forgotten
    by_address
evaluate-noticed_example =
    evaluate-noticed (pass 3_000 no_bus) (phones false) found true before machine [] here 60_000
      (Evaluation.new 512 120 3) refl refl (Memᴰ.head refl) refl refl refl (omega arith)
      (omega arith) (omega arith)
