-- ===== src/Anomaly/Rules/Gaps/Tests.antt =====
-- Two bursts of traffic ten minutes apart, and a process that comes back.
use jamsys.Prelude.{ℕ, ◌-◌, ◌/◌, ◌≡◌, refl, true, none, [], ◌∷◌, ◌++◌, codes, arith}
use jamsys.Prelude.Real.{whole}
use jamsys.Prelude.Dict
use jamsys.Types.{Alert}
use jamsys.Config.{threshold}
use jamsys.Collectors.Snapshot.{Snapshot, Iface, ProcInfo}
use jamsys.Collectors.Snapshot.Samples.{healthy}
use jamsys.Anomaly.Baseline.{normal, deviating}
use jamsys.Anomaly.Rules.{RuleEngine, limit}
use jamsys.Anomaly.Rules.Causes.{first}
use jamsys.Anomaly.Rules.Evaluation.{new}
use jamsys.Anomaly.Rules.Gaps.{Look, Says, look, look-gap, pass, pass-gap}

abbrev wlan : Iface ℕ
wlan = record {
  name = codes "wlan0";
  kind = codes "wifi";
  up = true;
  rx_bps = 0;
  tx_bps = 0;
  rx_errors = 0;
  tx_errors = 0;
  rx_dropped = 0;
  tx_dropped = 0;
  error_rate_pct = 0;
  signal_dbm = none;
}

abbrev burst : ℕ → Look ℕ
burst ms = record {
  snapshot = healthy;
  bps = 9_000_000;
  now = ms;
  verdict = deviating 9 8_000_000 1_000_000 500_000 2_000_000 500;
}

abbrev calm : ℕ → Look ℕ
calm ms = record {
  snapshot = healthy;
  bps = 1_000_000;
  now = ms;
  verdict = normal 0 1_000_000 500_000 2_000_000;
}

abbrev start : RuleEngine ℕ
start = new 512 120 3

look-gap_example :
    let e' = look wlan (codes "rx") (burst 1_000 ∷ calm 300_000 ∷ []) start in
    (a : Alert) × ((look wlan (codes "rx") (burst 601_000 ∷ []) e').out ≡ e'.out ++ (a ∷ []))
    × Says (codes "net.traffic_spike") ((601_000 - 1_000) / 1000) a
unfolding new Dict.get
look-gap_example =
    look-gap wlan (codes "rx") (burst 1_000) (burst 601_000) (calm 300_000 ∷ []) start refl refl
      (refl, tt) refl (omega arith)

abbrev process : ℕ → ℕ → ProcInfo ℕ
process pid pct = record {
  pid = pid;
  name = codes "cc";
  cmd = codes "cc -c x.c";
  cpu_pct = pct;
  rss_bytes = 1_000_000;
  threads = 1;
}

abbrev led_by : ProcInfo ℕ → Snapshot ℕ
led_by p = record healthy { process = record { top_cpu = p ∷ []; top_mem = []; growth_bph = [] } }

pass-gap_example :
    let e' =
      pass [] ((led_by (process 7 90), 1_000) ∷ (led_by (process 8 20), 200_000) ∷ []) start in
    (a : Alert) × ((pass [] ((led_by (process 7 95), 400_000) ∷ []) e').out ≡ e'.out ++ (a ∷ []))
    × Says (codes "cpu.runaway_process") ((400_000 - 1_000) / 1000) a
unfolding new Dict.get first limit threshold
pass-gap_example =
    pass-gap [] (process 7 90) (process 7 95) (led_by (process 7 90)) (led_by (process 7 95)) 1_000
      400_000 ((led_by (process 8 20), 200_000) ∷ []) start refl refl refl (refl, tt) refl refl refl
      (omega arith)
