-- ===== src/Collectors/Bluetooth/Watch.antt =====
-- jamsys-daemon/src/collectors/bluetooth.rs, `BluetoothCollector`: how connections and disconnects are
-- noticed. What BlueZ, /sys and the clocks answer in a pass is an argument; the monotonic clock is read
-- once in a pass. The two sockets are left out: a lost one is opened again by the next pass.
pub mod Latest
pub mod Changes
pub mod Truth
pub mod Flaps
pub mod Twice
pub mod Samples
mod Tests
use jamsys.Prelude.{
  ℕ, ◌+◌, ◌-◌, ◌*◌, Bool, true, false, not, ◌&&◌, ◌||◌, ◌==◌, Option, none, some, List, [], ◌∷◌,
  ◌++◌, map, ltb, leb, if◌then◌else◌, length, drop, any, keep_if, unwrap_or, is_empty, Text, codes,
  text_eq, text_is_eq, contains,
}
use jamsys.Prelude.Dict.{Dict, get, insert}
use jamsys.Prelude.Int.{ℤ}
use jamsys.Prelude.Results.{Result, ok, err}
use jamsys.Collectors.Registry.{CollectorError, gone, bad_data}
use jamsys.Collectors.Snapshot.{
  BtDevice, BtContext, BtEvent, BtEventKind, connected, disconnected, BtState,
}
use jamsys.Collectors.Bluetooth.{attribute, risk_notes, translate_stack_error}
use jamsys.Journal.Entry.{JournalEntry}

abbrev pub max_events : ℕ
max_events = 32

abbrev pub flap_window_ms : ℕ
flap_window_ms = 15 * 60 * 1000

unfoldable pub label : BtDevice → Text
label d = if is_empty d.name then d.address else d.name

-- `last_resume_ms` starts so far in the past that no resume counts as recent.
pub record BluetoothCollector : Type 0 where
  pub last : Dict Text BtDevice
  pub events : List BtEvent
  pub prev_radio_suspended_ms : ℕ
  pub prev_bluez_owner : Option Text
  pub last_resume_ms : Option ℕ
  pub primed : Bool
  pub stack_error : Option Text

unfoldable pub new : BluetoothCollector
new = record {
  last = [];
  events = [];
  prev_radio_suspended_ms = 0;
  prev_bluez_owner = none;
  last_resume_ms = none;
  primed = false;
  stack_error = none;
}

-- The files of the radio's USB node.
pub record UsbRadio : Type 0 where
  pub runtime_status : Option Text
  pub power_control : Option Text
  pub suspended_time : Option ℕ

-- What a pass finds: the devices, by address, and whether the adapter is powered.
pub data Reply : Type 0 where
  no_bus : Reply
  failed : Text → Reply
  nothing : Reply
  managed : List BtDevice → Bool → Reply

pub record Pass : Type 0 where
  pub ts_ms : ℤ
  pub now : ℕ
  pub reply : Reply
  pub radio : Option UsbRadio
  pub rfkill_soft : Bool
  pub rfkill_hard : Bool
  pub wifi_runtime_pm : Option Bool
  pub owner : Option Text

unfoldable pub just_resumed : ℕ → Option ℕ → Bool
just_resumed now none = false
just_resumed now (some since) = ltb now (since + 30_000)

abbrev radio_ms : Option UsbRadio → ℕ
radio_ms none = 0
radio_ms (some r) = unwrap_or 0 r.suspended_time

abbrev radio_text : (UsbRadio → Option Text) → Option UsbRadio → Text
radio_text f none = []
radio_text f (some r) = unwrap_or [] (f r)

-- `observe_context`, with what `collect` adds to it.
unfoldable pub context_of : Pass → Bool → BluetoothCollector → BtContext
unfolding just_resumed
context_of p powered s = record {
  radio_runtime_status = radio_text (λ r. r.runtime_status) p.radio;
  radio_power_control = radio_text (λ r. r.power_control) p.radio;
  radio_suspended_ms = radio_ms p.radio;
  radio_suspended_recently = ltb s.prev_radio_suspended_ms (radio_ms p.radio);
  rfkill_soft = p.rfkill_soft;
  rfkill_hard = p.rfkill_hard;
  adapter_powered = powered;
  wifi_runtime_pm = p.wifi_runtime_pm;
  just_resumed = just_resumed p.now s.last_resume_ms;
  bluetoothd_restarted = elim p.owner [
    | none ↦ false
    | some owner ↦ elim s.prev_bluez_owner [ none ↦ false | some prev ↦ not (text_eq prev owner) ]
  ];
}

unfoldable pub remember : Pass → BluetoothCollector → BluetoothCollector
remember p s = record s {
  prev_radio_suspended_ms = elim p.radio [
    | none ↦ s.prev_radio_suspended_ms
    | some r ↦ radio_ms p.radio
  ];
  prev_bluez_owner = elim p.owner [ none ↦ s.prev_bluez_owner | some owner ↦ some owner ];
}

abbrev pub was_connected : Text → Dict Text BtDevice → Bool
was_connected address last = elim (get address last) [ none ↦ false | some d ↦ d.connected ]

unfoldable pub event_of : Pass → BtContext → BtDevice → BtEventKind → Option Text → BtEvent
unfolding label
event_of p c d kind cause = record {
  at_ms = p.ts_ms;
  at_mono_ms = p.now;
  kind = kind;
  address = d.address;
  name = label d;
  context = c;
  likely_cause = cause;
}

-- A device that is connected and was not, or the other way round.
unfoldable pub change_of : Pass → BtContext → Dict Text BtDevice → BtDevice → List BtEvent
unfolding event_of attribute
change_of p c last d =
    let was = was_connected d.address last in
    if d.connected
    then if was then [] else event_of p c d connected none ∷ []
    else if was
    then event_of p c d disconnected (attribute c) ∷ []
    else []

unfoldable pub changes : Pass → BtContext → Dict Text BtDevice → List BtDevice → List BtEvent
unfolding change_of
changes p c last [] = []
changes p c last (d ∷ ds) = change_of p c last d ++ changes p c last ds

abbrev is_listed : Text → List BtDevice → Bool
is_listed address ds = any (λ d. text_eq d.address address) ds

-- A device that BlueZ forgot while it was connected.
unfoldable pub forgotten : Pass → BtContext → List BtDevice → Dict Text BtDevice → List BtEvent
unfolding label
forgotten p c ds [] = []
forgotten p c ds ((address, prev) ∷ m) =
    let rest = forgotten p c ds m in
    let gone_event : BtEvent = record {
      at_ms = p.ts_ms;
      at_mono_ms = p.now;
      kind = disconnected;
      address = address;
      name = label prev;
      context = c;
      likely_cause = some (codes "the device was removed from BlueZ");
    } in
    if prev.connected && not (is_listed address ds) then gone_event ∷ rest else rest

unfoldable pub by_address : List BtDevice → Dict Text BtDevice → Dict Text BtDevice
by_address [] m = m
by_address (d ∷ ds) m = by_address ds (insert d.address d m)

unfoldable pub trimmed : List BtEvent → List BtEvent
trimmed events = drop (length events - max_events) events

abbrev is_drop : BtEvent → Bool
is_drop e = elim e.kind [ connected ↦ false | disconnected ↦ true ]

-- Disconnects of each name in the window.
unfoldable pub tally : ℕ → List BtEvent → Dict Text ℕ → Dict Text ℕ
tally now [] m = m
tally now (e ∷ es) m = tally now es (
    if leb now (e.at_mono_ms + flap_window_ms) && is_drop e
    then insert e.name (unwrap_or 0 (get e.name m) + 1) m
    else m)

unfoldable pub noticed : Pass → BtContext → List BtDevice → BluetoothCollector → List BtEvent
unfolding changes forgotten
noticed p c ds s = if s.primed then changes p c s.last ds ++ forgotten p c ds s.last else []

unfoldable pub enumerated :
    Pass → List BtDevice → Bool → BluetoothCollector → BluetoothCollector × BtState
unfolding context_of remember noticed by_address trimmed tally risk_notes
enumerated p ds powered s =
    let c = context_of p powered s in
    let events = trimmed (s.events ++ noticed p c ds s) in
    let s' = record (remember p s) { primed = true; last = by_address ds []; events = events } in
    (
      s',
      record {
        bluez_available = true;
        adapter_powered = powered;
        devices = ds;
        connected_count = length (keep_if (λ d. d.connected) ds);
        events = events;
        recent_disconnects = tally p.now events [];
        risk_notes = risk_notes c;
        last_stack_error = s.stack_error;
      },
    )

unfoldable pub collect :
    Pass → BluetoothCollector → BluetoothCollector × Result CollectorError BtState
unfolding enumerated
collect p s = elim p.reply [
  | no_bus ↦ (s, err (gone (codes "system bus unavailable")))
  | failed e ↦ (s, err (gone (codes "GetManagedObjects: " ++ e)))
  | nothing ↦ (s, err (bad_data (codes "GetManagedObjects returned nothing")))
  | managed ds powered ↦ let (s', state) = enumerated p ds powered s in (s', ok state)
]

-- The daemon's events that it listens to; a BlueZ signal is one more pass.
unfoldable pub on_journal : JournalEntry → BluetoothCollector → BluetoothCollector
unfolding translate_stack_error
on_journal entry s =
    if contains (codes "bluetooth") entry.syslog_id
      || contains (codes "bluetooth") entry.unit
      || contains (codes "avdtp") entry.message
    then elim (translate_stack_error entry.message) [
      | none ↦ s
      | some t ↦ record s { stack_error = some t }
    ]
    else s

unfoldable pub on_resumed : ℕ → BluetoothCollector → BluetoothCollector
on_resumed now s = record s { last_resume_ms = some now }
