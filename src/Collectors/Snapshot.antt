-- ===== src/Collectors/Snapshot.antt =====
-- What the collectors found, as far as the rules read it: the states in
-- jamsys-daemon/src/collectors and `Snapshot` in its mod.rs. Counts, sizes and process ids are natural
-- numbers, times are readings of the monotonic clock.
pub mod Samples
use jamsys.Prelude.{ℕ, Bool, Option, List, Text}
use jamsys.Prelude.Dict.{Dict}
use jamsys.Prelude.Int.{ℤ}
use jamsys.Types.Context.{Activity, Context, new, with_time_of_day}

pub record CpuState {ℓ} (F : Type ℓ) : Type ℓ where
  pub usage_pct : F
  pub load1 : F
  pub load5 : F
  pub freq_mhz : F
  pub freq_max_mhz : F
  pub package_temp_c : Option F
  pub package_throttle_count : ℕ
  pub throttling_now : Bool

pub record MemState {ℓ} (F : Type ℓ) : Type ℓ where
  pub total_bytes : ℕ
  pub available_bytes : ℕ
  pub used_bytes : ℕ
  pub cached_bytes : ℕ
  pub buffers_bytes : ℕ
  pub swap_total_bytes : ℕ
  pub swap_used_bytes : ℕ
  pub dirty_bytes : ℕ
  pub available_pct : F
  pub swap_used_pct : F
  pub psi_some_avg60 : F
  pub psi_full_avg60 : F
  pub oom_kill_total : ℕ
  pub oom_just_happened : Bool
  pub major_faults_per_s : F

pub record Reading {ℓ} (F : Type ℓ) : Type ℓ where
  pub key : Text
  pub label : Text
  pub value : F
  pub crit : Option F

pub record ThermalState {ℓ} (F : Type ℓ) : Type ℓ where
  pub temps : List (Reading F)
  pub fans : List (Reading F)
  pub cpu_package_c : Option F
  pub max_temp_c : Option F
  pub max_temp_label : Text

pub record FsInfo {ℓ} (F : Type ℓ) : Type ℓ where
  pub mount : Text
  pub device : Text
  pub fstype : Text
  pub total_bytes : ℕ
  pub free_bytes : ℕ
  pub used_pct : F
  pub inode_used_pct : F

pub record NvmeHealth {ℓ} (F : Type ℓ) : Type ℓ where
  pub device : Text
  pub model : Text
  pub temp_c : Option F
  pub critical_warning : Option ℕ
  pub percentage_used : Option ℕ
  pub available_spare : Option ℕ
  pub available_spare_threshold : Option ℕ
  pub media_errors : Option ℕ
  pub power_on_hours : Option ℕ
  pub data_units_written : Option ℕ

pub record StorageState {ℓ} (F : Type ℓ) : Type ℓ where
  pub filesystems : List (FsInfo F)
  pub nvme : List (NvmeHealth F)
  pub total_write_bps : F

pub record NvidiaGpu {ℓ} (F : Type ℓ) : Type ℓ where
  pub present : Bool
  pub runtime_status : Text
  pub util_pct : Option F
  pub vram_used_mb : Option F
  pub vram_total_mb : Option F
  pub temp_c : Option F
  pub power_w : Option F
  pub process_count : ℕ
  pub active_time_s : F

pub record GpuState {ℓ} (F : Type ℓ) : Type ℓ where
  pub nvidia : NvidiaGpu F
  pub dgpu_awake_idle : Bool

pub record PowerState {ℓ} (F : Type ℓ) : Type ℓ where
  pub has_battery : Bool
  pub on_battery : Bool
  pub percent : F
  pub power_w : F
  pub energy_full_wh : F
  pub energy_design_wh : F
  pub health_pct : F
  pub cycle_count : ℕ
  pub runtime_s : Option ℤ

pub record Iface {ℓ} (F : Type ℓ) : Type ℓ where
  pub name : Text
  pub kind : Text
  pub up : Bool
  pub rx_bps : F
  pub tx_bps : F
  pub rx_errors : ℕ
  pub tx_errors : ℕ
  pub rx_dropped : ℕ
  pub tx_dropped : ℕ
  pub error_rate_pct : F
  pub signal_dbm : Option F

pub record Reachability : Type 0 where
  pub gateway : Option Text
  pub gateway_ok : Option Bool
  pub dns_ok : Option Bool
  pub internet_ok : Option Bool

pub record NetState {ℓ} (F : Type ℓ) : Type ℓ where
  pub ifaces : List (Iface F)
  pub reach : Reachability
  pub tcp_connections : ℕ

pub record SystemdUnit : Type 0 where
  pub name : Text
  pub description : Text
  pub load_state : Text
  pub sub_state : Text

pub record ServiceState : Type 0 where
  pub failed : List SystemdUnit
  pub failed_user : List SystemdUnit

pub record BluetoothState : Type 0 where
  pub present : Bool
  pub hard_blocked : Bool
  pub connected_devices : ℕ

pub record AudioState : Type 0 where
  pub pipewire : Text
  pub wireplumber : Text
  pub pipewire_pulse : Text
  pub cards : List Text
  pub restarts_seen : ℕ

pub record DeviceState : Type 0 where
  pub bluetooth : BluetoothState
  pub audio : AudioState
  pub missing_expected : List Text

pub record BtDevice : Type 0 where
  pub address : Text
  pub name : Text
  pub icon : Text
  pub paired : Bool
  pub connected : Bool
  pub battery : Option ℕ

pub data BtEventKind : Type 0 where
  connected disconnected : BtEventKind

pub record BtContext : Type 0 where
  pub radio_runtime_status : Text
  pub radio_power_control : Text
  pub radio_suspended_ms : ℕ
  pub radio_suspended_recently : Bool
  pub rfkill_soft : Bool
  pub rfkill_hard : Bool
  pub adapter_powered : Bool
  pub wifi_runtime_pm : Option Bool
  pub just_resumed : Bool
  pub bluetoothd_restarted : Bool

pub record BtEvent : Type 0 where
  pub at_ms : ℤ
  pub at_mono_ms : ℕ
  pub kind : BtEventKind
  pub address : Text
  pub name : Text
  pub context : BtContext
  pub likely_cause : Option Text

pub record BtState : Type 0 where
  pub bluez_available : Bool
  pub adapter_powered : Bool
  pub devices : List BtDevice
  pub connected_count : ℕ
  pub events : List BtEvent
  pub recent_disconnects : Dict Text ℕ
  pub risk_notes : List Text
  pub last_stack_error : Option Text

pub record ProcInfo {ℓ} (F : Type ℓ) : Type ℓ where
  pub pid : ℕ
  pub name : Text
  pub cmd : Text
  pub cpu_pct : F
  pub rss_bytes : ℕ
  pub threads : ℕ

pub record ProcState {ℓ} (F : Type ℓ) : Type ℓ where
  pub top_cpu : List (ProcInfo F)
  pub top_mem : List (ProcInfo F)
  pub growth_bph : Dict ℕ F

pub record Snapshot {ℓ} (F : Type ℓ) : Type ℓ where
  pub cpu : CpuState F
  pub memory : MemState F
  pub thermal : ThermalState F
  pub power : PowerState F
  pub gpu : GpuState F
  pub storage : StorageState F
  pub network : NetState F
  pub devices : DeviceState
  pub bluetooth : BtState
  pub services : ServiceState
  pub process : ProcState F
  pub idle : Bool
  pub activity : Activity

-- `seconds` is the local time.
unfoldable pub context_at {ℓ} : {F : Type ℓ} → ℤ → Bool → Snapshot F → Context
context_at seconds time_of_day s =
    with_time_of_day seconds time_of_day (new s.power.on_battery s.activity)
