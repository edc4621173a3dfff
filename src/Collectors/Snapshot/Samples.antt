-- ===== src/Collectors/Snapshot/Samples.antt =====
-- A machine on which all is well, with whole numbers for `f64`.
use jamsys.Prelude.{ℕ, false, none, some, [], codes}
use jamsys.Types.Context.{interactive}
use jamsys.Collectors.Snapshot.{
  CpuState, MemState, ThermalState, PowerState, NvidiaGpu, NetState, DeviceState, BtState, Snapshot,
}

abbrev pub cpu : CpuState ℕ
cpu = record {
  usage_pct = 10;
  load1 = 1;
  load5 = 1;
  freq_mhz = 2000;
  freq_max_mhz = 4000;
  package_temp_c = some 50;
  package_throttle_count = 0;
  throttling_now = false;
}

abbrev memory : MemState ℕ
memory = record {
  total_bytes = 16_000_000_000;
  available_bytes = 8_000_000_000;
  used_bytes = 8_000_000_000;
  cached_bytes = 0;
  buffers_bytes = 0;
  swap_total_bytes = 0;
  swap_used_bytes = 0;
  dirty_bytes = 0;
  available_pct = 50;
  swap_used_pct = 0;
  psi_some_avg60 = 0;
  psi_full_avg60 = 0;
  oom_kill_total = 0;
  oom_just_happened = false;
  major_faults_per_s = 0;
}

abbrev thermal : ThermalState ℕ
thermal = record {
  temps = [];
  fans = [];
  cpu_package_c = none;
  max_temp_c = some 50;
  max_temp_label = codes "CPU";
}

abbrev power : PowerState ℕ
power = record {
  has_battery = false;
  on_battery = false;
  percent = 100;
  power_w = 0;
  energy_full_wh = 0;
  energy_design_wh = 0;
  health_pct = 0;
  cycle_count = 0;
  runtime_s = none;
}

abbrev nvidia : NvidiaGpu ℕ
nvidia = record {
  present = false;
  runtime_status = [];
  util_pct = none;
  vram_used_mb = none;
  vram_total_mb = none;
  temp_c = none;
  power_w = none;
  process_count = 0;
  active_time_s = 0;
}

abbrev network : NetState ℕ
network = record {
  ifaces = [];
  reach = record { gateway = none; gateway_ok = none; dns_ok = none; internet_ok = none };
  tcp_connections = 0;
}

abbrev devices : DeviceState
devices = record {
  bluetooth = record { present = false; hard_blocked = false; connected_devices = 0 };
  audio = record {
    pipewire = codes "active";
    wireplumber = codes "active";
    pipewire_pulse = codes "active";
    cards = [];
    restarts_seen = 0;
  };
  missing_expected = [];
}

abbrev bluetooth : BtState
bluetooth = record {
  bluez_available = false;
  adapter_powered = false;
  connected_count = 0;
  devices = [];
  events = [];
  recent_disconnects = [];
  risk_notes = [];
  last_stack_error = none;
}

abbrev pub healthy : Snapshot ℕ
healthy = record {
  cpu = cpu;
  memory = memory;
  thermal = thermal;
  power = power;
  gpu = record { nvidia = nvidia; dgpu_awake_idle = false };
  storage = record { filesystems = []; nvme = []; total_write_bps = 0 };
  network = network;
  devices = devices;
  bluetooth = bluetooth;
  services = record { failed = []; failed_user = [] };
  process = record { top_cpu = []; top_mem = []; growth_bph = [] };
  idle = false;
  activity = interactive;
}
