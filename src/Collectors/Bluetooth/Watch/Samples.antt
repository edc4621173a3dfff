-- ===== src/Collectors/Bluetooth/Watch/Samples.antt =====
-- Headphones, and passes that find little else.
use jamsys.Prelude.{ℕ, Bool, true, false, none, Text, codes}
use jamsys.Prelude.Int.{pos}
use jamsys.Collectors.Snapshot.{BtDevice}
use jamsys.Collectors.Bluetooth.Watch.{Pass, Reply}

abbrev pub mac : Text
mac = codes "D8:19"

abbrev pub phones : Bool → BtDevice
phones up = record {
  address = mac;
  name = codes "AXR100";
  icon = codes "audio-headset";
  paired = true;
  connected = up;
  battery = none;
}

abbrev pub pass : ℕ → Reply → Pass
pass now reply = record {
  ts_ms = pos now;
  now = now;
  reply = reply;
  radio = none;
  rfkill_soft = false;
  rfkill_hard = false;
  wifi_runtime_pm = none;
  owner = none;
}
