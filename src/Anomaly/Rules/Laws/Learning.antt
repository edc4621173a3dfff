-- ===== src/Anomaly/Rules/Laws/Learning.antt =====
-- What firing an alert keeps, the rules on baselines keep.
use jamsys.Prelude.{
  ℕ, refl, true, not, ◌&&◌, ◌||◌, Option, none, some, Text, codes, inl, inr, Bool-cases,
  Option-cases, text_eq, nat_is_eq,
}
use jamsys.Prelude.Dict
use jamsys.Prelude.Real.{Real}
use jamsys.Types.{new_alert}
use jamsys.Types.Context.{Context}
use jamsys.Collectors.Snapshot.{Snapshot, Iface, ProcInfo}
use jamsys.Anomaly.Baseline.{
  Verdict, no_baseline, learning, normal, deviating, evaluate, tuning_for,
}
use jamsys.Anomaly.Dwell.{update}
use jamsys.Anomaly.Rules.{RuleEngine, Thresholds}
use jamsys.Anomaly.Rules.Laws.{IsKept, not_empty, fire_held-kept, each-kept}
use jamsys.Anomaly.Rules.Causes.{fan_summary}
use jamsys.Anomaly.Rules.Learned.{
  idle_high, idle_held, idle_verdict, idle_rule, leak, leak_rule, unusual, unusual_verdict,
  unusual_rule, spike, spike_key, spike_verdict, spike_rule, traffic_rule, learned_rules,
}

module _ {ℓ κ} {F : Type ℓ} ⦃d : Real F⦄ {P : RuleEngine F → Type κ} (k : IsKept P) where
  idle_held-kept :
      (s : Snapshot F) (delta med p05 p95 : F) (n : ℕ) (held : Option ℕ) (e : RuleEngine F)
      → P e
      → P (idle_held s delta med p05 p95 n held e)
  unfolding idle_held idle_high new_alert
  idle_held-kept s delta med p05 p95 n none e p = p
  idle_held-kept s delta med p05 p95 n (some held) e p =
      let fired =
        k.fired (idle_high s delta med p05 p95 n held) e (refl, refl, refl, refl, refl) p in
      k.learned _ _ fired

  idle_verdict-kept :
      (s : Snapshot F) (now : ℕ) (v : Verdict F) (e : RuleEngine F)
      → P e
      → P (idle_verdict s now v e)
  unfolding idle_verdict
  idle_verdict-kept s now (deviating z delta med p05 p95 n) e p =
      let required = (tuning_for (codes "power.system_w") e.baselines).dwell_s in
      let (dwell, held) = update (codes "power.idle_high") true now required e.dwell in
      elim (Bool-cases (d.lt (d.of_ℕ 0) delta)) [
        | inl q ↦
            rw q
              (idle_held-kept s delta med p05 p95 n held _ (k.dwelt _ true now required e refl p))
        | inr q ↦ rw q p
      ]
  idle_verdict-kept s now (normal z med p05 p95) e p = k.learned _ _ (k.cleared _ e refl p)
  idle_verdict-kept s now (learning have need) e p = k.learned _ _ (k.cleared _ e refl p)
  idle_verdict-kept s now no_baseline e p = k.learned _ _ (k.cleared _ e refl p)

  idle_rule-kept :
      (s : Snapshot F) (ctx : Context) (now : ℕ) (e : RuleEngine F)
      → P e
      → P (idle_rule s ctx now e)
  unfolding idle_rule
  idle_rule-kept s ctx now e p =
      elim (Bool-cases (s.power.has_battery && (s.idle && d.lt (d.of_ℕ 0) s.power.power_w))) [
        | inl q ↦ rw q (
            idle_verdict-kept s now
              (evaluate (codes "power.system_w") ctx s.power.power_w e.baselines) e p)
        | inr q ↦ rw q p
      ]

  leak_rule-kept :
      (s : Snapshot F) (cfg : Thresholds F) (now : ℕ) (m : ProcInfo F) (e : RuleEngine F)
      → P e
      → P (leak_rule s cfg now m e)
  unfolding leak_rule leak new_alert
  leak_rule-kept s cfg now m e p = elim (Option-cases (Dict.get m.pid s.process.growth_bph)) [
    | inl q ↦ rw (q, leak_rule) p
    | inr (slope, q) ↦
        rw (q, leak_rule)
          (fire_held-kept k _ _ now 1800 _ e refl
            (λ held. (not_empty m.name _ refl, not_empty m.name _ refl, refl, refl, refl)) p)
  ]

  unusual_verdict-kept :
      (s : Snapshot F) (t : F) (now : ℕ) (v : Verdict F) (e : RuleEngine F)
      → P e
      → P (unusual_verdict s t now v e)
  unfolding unusual_verdict unusual new_alert
  unusual_verdict-kept s t now (deviating z delta med p05 p95 n) e p =
      elim (Bool-cases (d.lt (d.of_ℕ 0) delta)) [
        | inl q ↦
            rw q (fire_held-kept k _ _ now _ _ e refl (λ held. (refl, refl, refl, refl, refl)) p)
        | inr q ↦ rw q p
      ]
  unusual_verdict-kept s t now (normal z med p05 p95) e p = k.cleared _ e refl p
  unusual_verdict-kept s t now (learning have need) e p = k.cleared _ e refl p
  unusual_verdict-kept s t now no_baseline e p = k.cleared _ e refl p

  unusual_rule-kept :
      (s : Snapshot F) (ctx : Context) (now : ℕ) (e : RuleEngine F)
      → P e
      → P (unusual_rule s ctx now e)
  unfolding unusual_rule fan_summary
  unusual_rule-kept s ctx now e p = elim (Option-cases s.thermal.cpu_package_c) [
    | inl q ↦ rw q p
    | inr (t, q) ↦ rw q (
        unusual_verdict-kept s t now (evaluate (codes "thermal.cpu_package_c") ctx t e.baselines) e
          p)
  ]

  spike_verdict-kept :
      (s : Snapshot F) (i : Iface F) (dir : Text) (bps : F) (now : ℕ) (v : Verdict F)
      (e : RuleEngine F)
      → P e
      → P (spike_verdict s i dir bps now v e)
  unfolding spike_verdict spike spike_key new_alert
  spike_verdict-kept s i dir bps now (deviating z delta med p05 p95 n) e p =
      elim (Bool-cases (d.lt (d.larger (d.mul p95 (d.of_ℕ 4)) (d.of_ℕ 5_000_000)) bps)) [
        | inl q ↦ rw q (
            fire_held-kept k _ _ now 120 _ e refl
              (λ held. (refl, not_empty i.name _ refl, refl, refl, refl)) p)
        | inr q ↦ rw q p
      ]
  spike_verdict-kept s i dir bps now (normal z med p05 p95) e p = p
  spike_verdict-kept s i dir bps now (learning have need) e p = p
  spike_verdict-kept s i dir bps now no_baseline e p = p

  traffic_rule-kept :
      (s : Snapshot F) (ctx : Context) (now : ℕ) (i : Iface F) (e : RuleEngine F)
      → P e
      → P (traffic_rule s ctx now i e)
  unfolding traffic_rule spike_rule
  traffic_rule-kept s ctx now i e p =
      elim (Bool-cases (text_eq i.kind (codes "loopback") || not i.up)) [
        | inl q ↦ rw q p
        | inr q ↦ rw q (
            spike_verdict-kept s i (codes "tx") i.tx_bps now _ _
              (spike_verdict-kept s i (codes "rx") i.rx_bps now _ e p))
      ]

  pub learned_rules-kept :
      (s : Snapshot F) (cfg : Thresholds F) (ctx : Context) (now : ℕ) (e : RuleEngine F)
      → P e
      → P (learned_rules s cfg ctx now e)
  unfolding learned_rules
  learned_rules-kept s cfg ctx now e p =
      let p1 = idle_rule-kept s ctx now e p in
      let p2 = each-kept k _ s.process.top_mem _ (leak_rule-kept s cfg now) p1 in
      each-kept k _ s.network.ifaces _ (traffic_rule-kept s ctx now)
        (unusual_rule-kept s ctx now _ p2)
