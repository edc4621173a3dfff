-- ===== src/Anomaly/Rules/Laws/Machine.antt =====
-- What firing an alert keeps, the rules on the processor, the memory and the temperatures keep.
use jamsys.Prelude.{ℕ, refl, ltb, ◌==◌, codes, inl, inr, Bool-cases, Option-cases, nat_is_eq}
use jamsys.Prelude.Real.{Real}
use jamsys.Util.Sizes.{human_bytes}
use jamsys.Types.{new_alert}
use jamsys.Collectors.Snapshot.{Snapshot, Reading, MemState}
use jamsys.Anomaly.Rules.{RuleEngine, Thresholds, limit}
use jamsys.Anomaly.Rules.Laws.{IsKept, not_empty, fire_if-kept, fire_held-kept, each-kept}
use jamsys.Anomaly.Rules.Causes.{first}
use jamsys.Anomaly.Rules.Cpu.{
  temp_rules, throttling, sustained_load, runaway, runaway_rule, cpu_rules,
}
use jamsys.Anomaly.Rules.Memory.{
  oom, almost_out, running_low, stalling, swapping, low_rules, swap_rule, memory_rules,
}
use jamsys.Anomaly.Rules.Thermal.{fan_stalled, near_crit, fan_rule, crit_rule, thermal_rules}

module _ {ℓ κ} {F : Type ℓ} ⦃d : Real F⦄ {P : RuleEngine F → Type κ} (k : IsKept P) where
  runaway_rule-kept :
      (s : Snapshot F) (cfg : Thresholds F) (now : ℕ) (e : RuleEngine F)
      → P e
      → P (runaway_rule s cfg now e)
  unfolding runaway_rule runaway new_alert
  runaway_rule-kept s cfg now e p = elim (Option-cases (first s.process.top_cpu)) [
    | inl q ↦ rw (q, runaway_rule) p
    | inr (t, q) ↦
        rw (q, runaway_rule)
          (fire_held-kept k _ _ now 300 _ e refl
            (λ held. (not_empty t.name _ refl, not_empty t.name _ refl, refl, refl, refl)) p)
  ]

  pub cpu_rules-kept :
      (s : Snapshot F) (cfg : Thresholds F) (now : ℕ) (e : RuleEngine F)
      → P (temp_rules s cfg now e)
      → P (cpu_rules s cfg now e)
  unfolding cpu_rules throttling sustained_load new_alert
  cpu_rules-kept s cfg now e p1 =
      let p2 =
        fire_if-kept k s.cpu.throttling_now (throttling s) _ (refl, refl, refl, refl, refl) p1 in
      let p3 = fire_held-kept k _ _ now 300 _ _ refl (λ held. (refl, refl, refl, refl, refl)) p2 in
      runaway_rule-kept s cfg now _ p3

  low_rules-kept :
      (s : Snapshot F) (cfg : Thresholds F) (now : ℕ) (e : RuleEngine F)
      → P e
      → P (low_rules s cfg now e)
  unfolding low_rules almost_out running_low new_alert
  low_rules-kept s cfg now e p =
      elim (Bool-cases
        (d.le s.memory.available_pct (limit cfg (codes "mem.critical") (codes "avail_pct") 3))) [
          | inl q ↦ rw q (k.fired _ e (refl, refl, refl, refl, refl) p)
          | inr q ↦ rw q (
              fire_held-kept k _ _ now 60 _ e refl
                (λ held. (
                  refl,
                  not_empty (human_bytes (d.of_ℕ s.memory.available_bytes)) _ refl,
                  refl,
                  refl,
                  refl,
                ))
                p)
        ]

  swap_rule-kept :
      (m : MemState F) (cfg : Thresholds F) (now : ℕ) (e : RuleEngine F)
      → P e
      → P (swap_rule m cfg now e)
  unfolding swap_rule swapping new_alert
  swap_rule-kept m cfg now e p = elim (Bool-cases (ltb 0 m.swap_total_bytes)) [
    | inl q ↦ rw q (
        fire_held-kept k _ _ now 300 _ e refl
          (λ held. (refl, not_empty (d.fixed 0 m.swap_used_pct) _ refl, refl, refl, refl)) p)
    | inr q ↦ rw q p
  ]

  pub memory_rules-kept :
      (s : Snapshot F) (cfg : Thresholds F) (now : ℕ) (e : RuleEngine F)
      → P e
      → P (memory_rules s cfg now e)
  unfolding memory_rules oom stalling new_alert
  memory_rules-kept s cfg now e p = elim (Bool-cases (s.memory.total_bytes == 0)) [
    | inl q ↦ rw q p
    | inr q ↦
        let p1 =
          fire_if-kept k s.memory.oom_just_happened (oom s.memory) e (refl, refl, refl, refl, refl)
            p in
        let p2 = low_rules-kept s cfg now _ p1 in
        let p3 = fire_held-kept k _ _ now 60 _ _ refl (λ held. (refl, refl, refl, refl, refl)) p2 in
        rw q (swap_rule-kept s.memory cfg now _ p3)
  ]

  fan_rule-kept :
      (s : Snapshot F) (cfg : Thresholds F) (now : ℕ) (f : Reading F) (e : RuleEngine F)
      → P e
      → P (fan_rule s cfg now f e)
  unfolding fan_rule fan_stalled new_alert
  fan_rule-kept s cfg now f e p = elim (Bool-cases (d.lt (d.of_ℕ 0) f.value)) [
    | inl q ↦ rw q p
    | inr q ↦ rw q (
        fire_held-kept k _ _ now 60 _ e refl
          (λ held. (not_empty f.label _ refl, not_empty f.label _ refl, refl, refl, refl)) p)
  ]

  crit_rule-kept :
      (s : Snapshot F) (now : ℕ) (t : Reading F) (e : RuleEngine F) → P e → P (crit_rule s now t e)
  unfolding crit_rule near_crit new_alert
  crit_rule-kept s now t e p = elim (Option-cases t.crit) [
    | inl q ↦ rw q p
    | inr (crit, q) ↦ elim (Bool-cases (d.le crit (d.of_ℕ 0))) [
      | inl c ↦ rw (q, c) p
      | inr c ↦
          rw (q, c)
            (fire_held-kept k _ _ now 60 _ e refl
              (λ held. (not_empty t.label _ refl, not_empty t.label _ refl, refl, refl, refl)) p)
    ]
  ]

  pub thermal_rules-kept :
      (s : Snapshot F) (cfg : Thresholds F) (now : ℕ) (e : RuleEngine F)
      → P e
      → P (thermal_rules s cfg now e)
  unfolding thermal_rules
  thermal_rules-kept s cfg now e p =
      each-kept k _ s.thermal.temps _ (crit_rule-kept s now)
        (each-kept k _ s.thermal.fans e (fan_rule-kept s cfg now) p)
