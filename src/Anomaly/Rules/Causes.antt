-- ===== src/Anomaly/Rules/Causes.antt =====
-- jamsys-daemon/src/anomaly/rules.rs: the helpers that word an explanation, and `is_learnable`.
use jamsys.Prelude.{
  ℕ, ◌+◌, ◌-◌, ◌/◌, ◌%◌, Bool, ◌&&◌, ◌||◌, Option, none, some, List, [], ◌∷◌, ◌++◌, ltb, ◌==◌,
  if◌then◌else◌, Text, codes, text_eq, is_empty, any, map, unwrap_or,
}
use jamsys.Prelude.Decimal.{to_string}
use jamsys.Prelude.Real.{Real}
use jamsys.Util.Sizes.{human_bytes, human_bps}
use jamsys.Collectors.Snapshot.{Snapshot, Reading, NvidiaGpu, BtContext}
use jamsys.Anomaly.Rules.{format}

abbrev pub unknown : Text
unknown = codes "unknown"

-- `join(", ")`.
unfoldable pub join : List Text → Text
join [] = []
join (t ∷ []) = t
join (t ∷ (u ∷ ts)) = t ++ (codes ", " ++ join (u ∷ ts))

unfoldable pub first {ℓ} : {A : Type ℓ} → List A → Option A
first [] = none
first (x ∷ xs) = some x

-- `{x:02x}` of a byte.
abbrev hex_digit : ℕ → ℕ
hex_digit n = if ltb n 10 then b'0' + n else b'a' + n - 10

abbrev pub hex_byte : ℕ → Text
hex_byte n = hex_digit (n / 16 % 16) ∷ hex_digit (n % 16) ∷ []

-- Is the bit of weight `w` set?
abbrev bit : ℕ → ℕ → Bool
bit n w = n / w % 2 == 1

warning_bits : List (ℕ × Text)
warning_bits =
    (0x01, codes "spare capacity below threshold")
    ∷ (0x02, codes "temperature outside its safe range")
    ∷ (0x04, codes "internal reliability degraded")
    ∷ (0x08, codes "media placed in read-only mode")
    ∷ (0x10, codes "volatile memory backup failed")
    ∷ (0x20, codes "persistent memory region read-only")
    ∷ []

set_bits : ℕ → List (ℕ × Text) → List Text
set_bits n [] = []
set_bits n ((w, text) ∷ more) = let rest = set_bits n more in if bit n w then text ∷ rest else rest

unfoldable pub smart_warning_text : ℕ → Text
unfolding warning_bits set_bits join
smart_warning_text cw = elim (set_bits cw warning_bits) [
  | [] ↦ format (codes "unknown warning bits 0x" ∷ hex_byte cw ∷ [])
  | t ∷ ts ↦ join (t ∷ ts)
]

learnable_metrics : List (Text × Text)
learnable_metrics =
    (codes "power", codes "system_w")
    ∷ (codes "power", codes "cpu_package_w")
    ∷ (codes "cpu", codes "usage_pct")
    ∷ (codes "memory", codes "used_bytes")
    ∷ (codes "thermal", codes "cpu_package_c")
    ∷ (codes "thermal", codes "temp_c")
    ∷ (codes "thermal", codes "fan_rpm")
    ∷ (codes "network", codes "rx_bps")
    ∷ (codes "network", codes "tx_bps")
    ∷ (codes "storage", codes "write_bps")
    ∷ (codes "storage", codes "read_bps")
    ∷ (codes "gpu", codes "power_w")
    ∷ (codes "gpu", codes "util_pct")
    ∷ []

unfoldable pub is_learnable : Text → Text → Bool
unfolding learnable_metrics
is_learnable subsystem name = any (λ m. text_eq m.0 subsystem && text_eq m.1 name) learnable_metrics

unfoldable pub radio_phrase : BtContext → Text
radio_phrase c =
    if c.rfkill_hard
    then codes "hard-blocked"
    else if c.rfkill_soft
    then codes "soft-blocked"
    else if text_eq c.radio_runtime_status (codes "suspended") || c.radio_suspended_recently
    then codes "USB-autosuspended around the drop"
    else if is_empty c.radio_runtime_status
    then unknown
    else format (
        c.radio_runtime_status
        ∷ codes " (autosuspend "
        ∷ (if text_eq c.radio_power_control (codes "auto") then codes "allowed" else codes "off")
        ∷ codes ")"
        ∷ [])

module _ {ℓ} {F : Type ℓ} ⦃d : Real F⦄ where
  -- `unwrap_or(0.0)`.
  abbrev pub or_zero : Option F → F
  or_zero o = unwrap_or (d.of_ℕ 0) o

  unfoldable pub fan_summary : Snapshot F → Text
  unfolding join
  fan_summary s = elim s.thermal.fans [
    | [] ↦ codes "no fan sensors"
    | f ∷ fs ↦ join (
        map
          (λ (r : Reading F). format (r.label ∷ codes " " ∷ d.fixed 0 r.value ∷ codes " rpm" ∷ []))
          s.thermal.fans)
  ]

  unfoldable pub top_mem_text : Snapshot F → Text
  unfolding human_bytes
  top_mem_text s = elim (first s.process.top_mem) [
    | none ↦ unknown
    | some p ↦ format (
        p.name
        ∷ codes " (pid "
        ∷ to_string p.pid
        ∷ codes ") using "
        ∷ human_bytes (d.of_ℕ p.rss_bytes)
        ∷ [])
  ]

  -- The busiest process, if it uses more than `limit` percent, with `rest` at the end.
  busy_process : F → Text → Snapshot F → Option Text
  busy_process limit rest s = elim (first s.process.top_cpu) [
    | none ↦ none
    | some p ↦
        if d.lt limit p.cpu_pct
        then some (
            format (
              p.name
              ∷ codes " (pid "
              ∷ to_string p.pid
              ∷ codes ") is using "
              ∷ d.fixed 0 p.cpu_pct
              ∷ codes "% CPU"
              ∷ rest
              ∷ []))
        else none
  ]

  unfoldable pub hot_cpu_cause : Snapshot F → Text
  unfolding busy_process
  hot_cpu_cause s = elim (busy_process (d.of_ℕ 50) [] s) [
    | some cause ↦ cause
    | none ↦
        if any (λ (f : Reading F). d.eq f.value (d.of_ℕ 0)) s.thermal.fans
        then codes "a fan is reporting 0 rpm"
        else if d.lt s.cpu.usage_pct (d.of_ℕ 20)
        then codes "the CPU is not busy, so this may be airflow or a sensor problem"
        else codes "general system load"
  ]

  awake_gpu : NvidiaGpu F → Text
  awake_gpu n = format (
      codes "The NVIDIA GPU is active and drawing "
      ∷ d.fixed 1 (or_zero n.power_w)
      ∷ codes " W although its utilisation is "
      ∷ d.fixed 0 (or_zero n.util_pct)
      ∷ codes "%"
      ∷ [])

  unfoldable pub idle_power_cause : Snapshot F → Option Text
  unfolding awake_gpu busy_process
  idle_power_cause s =
      let n = s.gpu.nvidia in
      if n.present && text_eq n.runtime_status (codes "active")
      then some (awake_gpu n)
      else elim (busy_process (d.of_ℕ 15) (codes " while the system is otherwise idle") s) [
        | some cause ↦ some cause
        | none ↦
            if d.lt (d.of_ℕ 5_000_000) s.storage.total_write_bps
            then some (
                format
                  (codes "Disk writes are running at " ∷ human_bps s.storage.total_write_bps ∷ []))
            else if ltb 0 s.devices.bluetooth.connected_devices
            then some (
                format (
                  to_string s.devices.bluetooth.connected_devices
                  ∷ codes " Bluetooth device(s) connected"
                  ∷ []))
            else none
      ]
