-- ===== src/Lib.antt =====
-- JamSys, a system monitor for the desktop: the daemon's logic, and the two helpers that run as root.
--
-- The daemon (jamsys-daemon) samples the machine through collectors, which a registry runs tier by tier
-- and isolates from each other; classifies lines of the journal; judges conditions over time; and raises
-- alerts, which are kept in a table, limited, shown on the desktop and taken down again. jamsys-kbd and
-- jamsys-power write the lighting of a keyboard and the charge limit of a battery.
--
-- Which file models what:
--   Prelude           lists, texts, decimal numbers, hash maps, results, f64 as an interface: Float for
--                     the token buckets, Real for readings, rules and statistics
--   Types             jamsys-daemon/src/types.rs: Tier, Support, Severity, Explanation, Alert
--   Types.Context     jamsys-daemon/src/types.rs: Activity, Context; jamsys-daemon/src/anomaly/baseline.rs:
--                     import
--   Types.Metric      jamsys-daemon/src/types.rs: MetricId, Sample
--   Config            jamsys-daemon/src/config.rs: Alerts, min_notify, tier_ms, enabled, threshold
--   Util              jamsys-daemon/src/util.rs: glob_match, human_duration, human_bytes, human_bps (Sizes),
--                     median, mad, percentile, theil_sen_slope, robust_z, sane (Stats)
--   Store             jamsys-daemon/src/store.rs: the table `alert` with upsert_alert, resolve_alert,
--                     ack_alert, set_notify_id and alerts; Suppression and its table; the samples in
--                     memory with push, flush and live_series (Metrics); choose_bucket (History);
--                     record_inventory (Inventory)
--   Anomaly.Bucket    jamsys-daemon/src/anomaly/alerts.rs: Bucket
--   Anomaly.Alerts    jamsys-daemon/src/anomaly/alerts.rs: AlertManager. Raise has raise, Resolve has
--                     clear and clear_now, Restart has new and the counters, Desktop has
--                     send_notification and withdraw
--   Anomaly.Dwell     jamsys-daemon/src/anomaly/dwell.rs: DwellTracker
--   Anomaly.Baseline  jamsys-daemon/src/anomaly/baseline.rs: Series, Baselines, Verdict
--   Anomaly.Rules     jamsys-daemon/src/anomaly/rules.rs: RuleEngine. A child for each function of rules
--                     (Cpu, Memory, Thermal, Storage with Nvme, Gpu, Power, Network, Services with the
--                     devices, Bluetooth, Learned), Causes for the helpers of the wording, Evaluation for
--                     new, learn_with and evaluate. Gaps is about clocks that are not stopped,
--                     Drops about a disconnect on its way from the collector to an alert
--   Daemon            jamsys-daemon/src/daemon.rs: the part of tick that judges (Judgement)
--   Collectors        jamsys-daemon/src/collectors/mod.rs: Registry, Entry, run_tier, set_enabled; Snapshot
--                     and the states in it, from the files of the collectors (Snapshot);
--                     collectors/bluetooth.rs: attribute, risk_notes, translate_stack_error (Bluetooth),
--                     BluetoothCollector (Bluetooth.Watch); collectors/memory.rs: MemCollector
--                     (Memory)
--   Ipc               jamsys-daemon/src/ipc.rs: Client, IpcServer (Server)
--   Journal           jamsys-daemon/src/journal.rs: PATTERNS, classify, classify_xid (Classify), Deduper
--                     (Dedup), read_entries (Lines), parse_line (Entry)
--   Netlink           jamsys-daemon/src/netlink.rs: parse_route_events, parse_uevent (Uevent)
--   DBus              jamsys-daemon/src/dbus.rs: Marshal, and Unmarshal without values by signature
--   Clock             jamsys-daemon/src/clock.rs: SuspendWatch
--   Helpers           jamsys-kbd/src/main.rs (Kbd), jamsys-power/src/main.rs (Power)
--
-- How the parts interact. The alert manager works on the table of the store and on the session bus; all
-- three are one state, `World`. Each call takes its surroundings as an argument, `Env`: the readings of
-- the monotonic and of the wall clock, whether SQLite takes the statements, and what the session bus
-- answers. A collector's answers in a call, a panic included, are an argument of the registry's step.
-- Suppressions and the patterns of the journal are globs.
-- A tick evaluates the rules on a snapshot; the rules keep their clocks in the dwell tracker and their
-- norms in the baselines, and list what fires. Every alert is then raised, and every open one that is
-- not in that list is cleared.
--
-- Numbers. Times, counts and ids are natural numbers; a u32 that is counted up wraps at 2^32. Readings of
-- the monotonic clock are not negative. Times are compared by adding where the code subtracts, so nothing
-- is cut off at 0, or the cut makes no difference. f64 is an interface whose laws hold for whole numbers below 2^53.
-- The rules and the statistics use f64 through the operations of Real alone, of which no law is assumed;
-- whole numbers are one instance. The two settings of the Bluetooth rule, which the code
-- casts to integers, are not negative. A hash map is walked in the order of its list.
--
-- Fuel. The loop of glob_match runs on length t * (length p + length t + 1) + length p + length t + 1
-- rounds: each retry moves the mark forward, and between two retries the indices only rise. Draining the
-- buffer of the journal or of a client runs on its length, since each round takes out a newline. The loop over a netlink
-- datagram runs on its length and one, since each round goes forward. Printing a number runs on
-- its value and one. Theorems show that each is enough.
--
-- Not modelled: SQLite, JSON and TOML, which are libraries; sockets, epoll, files and processes; log
-- lines; the wording of the helpers' messages; the rollups and the retention of the store;
-- the other collectors, and the connections to D-Bus; the user interfaces.
pub mod Prelude
pub mod Util
pub mod Types
pub mod Anomaly
pub mod Store
pub mod Config
pub mod Clock
pub mod Collectors
pub mod Daemon
pub mod DBus
pub mod Helpers
pub mod Ipc
pub mod Journal
pub mod Netlink
