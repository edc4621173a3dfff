-- ===== src/Daemon/Judgement/Tests.antt =====
-- A tick on a machine that is well, with one alert on hold.
use jamsys.Prelude.{ℕ, ◌≡◌, refl, true, false, ◌||◌, none, [], ◌∷◌, Text, codes, if◌then◌else◌}
use jamsys.Prelude.Dict
use jamsys.Prelude.Float.{milli}
use jamsys.Prelude.Real.{whole}
use jamsys.Prelude.Int.{pos}
use jamsys.Types.{warning}
use jamsys.Types.Context
use jamsys.Types.Context.{Context, interactive}
use jamsys.Config.{AlertsConfig}
use jamsys.Collectors.Snapshot.Samples.{healthy}
use jamsys.Store.Alerts.Laws.{count_open}
use jamsys.Anomaly.Rules.{RuleEngine}
use jamsys.Anomaly.Rules.Evaluation.{new}
use jamsys.Anomaly.Rules.Evaluation.Laws.{fingerprints}
use jamsys.Anomaly.Alerts.{World, Env}
use jamsys.Daemon.Judgement.{contains, judge}
use jamsys.Daemon.Judgement.Laws.{is_held, judge-rows}

abbrev env : Text → Env
env fp = record {
  mono_ms = 60_000;
  now_ms = 1_060_000;
  db_ok = true;
  session_ok = false;
  reply = none;
  close_ok = false;
}

abbrev config : AlertsConfig
config = record {
  desktop_notifications = false;
  min_notify_severity = codes "info";
  burst = 1;
  refill_s = pos 60;
}

abbrev here : Context
here = Context.new false interactive

abbrev start : RuleEngine ℕ
start = new 512 120 3

abbrev quiet : World ℕ
quiet = record {
  manager = record {
    buckets = [];
    notified = [];
    firing = [];
    clearing = [];
    suppressions = [];
    connected = false;
    notify_failures = 0;
    total_raised = 0;
    total_suppressed = 0;
  };
  table = [];
  bus = [];
}

abbrev holding : World ℕ
holding = record quiet {
  manager = record (quiet.manager) {
    firing = (codes "mem.low", warning) ∷ [];
    clearing = (codes "mem.low", 30_000) ∷ [];
  };
}

judge-rows_example :
    let (e, w, told) = judge env config [] healthy here 60_000 start quiet in
    count_open (codes "mem.low") w.table ≡ (
      if contains (codes "mem.low") (fingerprints e.out)
        || is_held (env (codes "mem.low")) (codes "mem.low") quiet
      then 1
      else 0)
unfolding Dict.get count_open
judge-rows_example =
    judge-rows env config [] healthy here 60_000 start quiet (codes "mem.low") (λ fp. refl)
      (λ fp. refl)
