-- ===== src/Types/Context/Tests.antt =====
-- The context of a game on battery.
use jamsys.Prelude.{◌≡◌, true, none, some, arith}
use jamsys.Types.Context.{Context, high_load, key, import_context}
use jamsys.Types.Context.Laws.{import_context-key}

abbrev game : Context
game = record { on_battery = true; activity = high_load; tod = some 3 }

import_context-key_example : import_context (key game) ≡ none
import_context-key_example = import_context-key game (omega arith)
