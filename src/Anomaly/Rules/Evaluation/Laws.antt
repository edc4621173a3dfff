-- ===== src/Anomaly/Rules/Evaluation/Laws.antt =====
-- What an evaluation hands to the daemon.
use jamsys.Prelude.{
  ℕ, ◌≡◌, refl, List, [], ◌∷◌, ◌++◌, map, Text, All, All-append, ap, none, some, inl, inr,
  Option-cases, codes,
}
use jamsys.Prelude.Real.{Real}
use jamsys.Types.{Alert, new_alert}
use jamsys.Types.Context.{Context}
use jamsys.Collectors.Snapshot.{Snapshot}
use jamsys.Anomaly.Rules.{RuleEngine, Thresholds, fire, fire_held, limit}
use jamsys.Anomaly.Dwell.{DwellTracker, update}
use jamsys.Anomaly.Rules.Cpu.{package_temp, temp_rules, temp_critical, temp_high}
use jamsys.Anomaly.Rules.Evaluation.{evaluate}
use jamsys.Anomaly.Rules.Laws.{IsKept, Speaks, fire_held_else_cases}
use jamsys.Anomaly.Rules.Laws.Machine.{cpu_rules-kept, memory_rules-kept, thermal_rules-kept}
use jamsys.Anomaly.Rules.Laws.Parts.{storage_rules-kept, gpu_rules-kept, power_rules-kept}
use jamsys.Anomaly.Rules.Laws.Links.{
  network_rules-kept, service_rules-kept, device_rules-kept, bluetooth_rules-kept,
}
use jamsys.Anomaly.Rules.Laws.Learning.{learned_rules-kept}

abbrev pub fingerprints : List Alert → List Text
fingerprints = map (λ (a : Alert). a.fingerprint)

fingerprints-append :
    (as' bs : List Alert) → fingerprints (as' ++ bs) ≡ fingerprints as' ++ fingerprints bs
fingerprints-append [] bs = refl
fingerprints-append (a ∷ as') bs = ap (λ r. a.fingerprint ∷ r) (fingerprints-append as' bs)

module _ {ℓ} {F : Type ℓ} where
  pub evaluate-kept {κ} :
      ⦃d : Real F⦄ {P : RuleEngine F → Type κ}
      → IsKept P
      → (s : Snapshot F) (cfg : Thresholds F) (ctx : Context) (now : ℕ) (e : RuleEngine F)
      → P (temp_rules s cfg now (record e { firing = []; out = [] }))
      → P (evaluate s cfg ctx now e)
  unfolding evaluate
  evaluate-kept k s cfg ctx now e p =
      let p1 = cpu_rules-kept k s cfg now _ p in
      let p2 = memory_rules-kept k s cfg now _ p1 in
      let p3 = thermal_rules-kept k s cfg now _ p2 in
      let p4 = storage_rules-kept k s cfg now _ p3 in
      let p5 = gpu_rules-kept k s cfg now _ p4 in
      let p6 = power_rules-kept k s cfg _ p5 in
      let p7 = network_rules-kept k s cfg now _ p6 in
      let p8 = device_rules-kept k s _ (service_rules-kept k s _ p7) in
      learned_rules-kept k s cfg ctx now _ (bluetooth_rules-kept k s.bluetooth cfg now _ p8)

  -- The four ways that the rules on the temperature of the processor may go.
  pub temp_rules_cases {κ} :
      ⦃d : Real F⦄ (P : RuleEngine F → Type κ) (s : Snapshot F) (cfg : Thresholds F) (now : ℕ)
      (e : RuleEngine F)
      → let crit = limit cfg (codes "cpu.temp.critical") (codes "celsius") 95 in
        let high = limit cfg (codes "cpu.temp.high") (codes "celsius") 90 in
        let first = λ (t : F). update (codes "cpu.temp.critical") (d.le crit t) now 60 e.dwell in
        let second = λ (t : F). update (codes "cpu.temp.high") (d.le high t) now 120 (first t).0 in
        (package_temp s ≡ none → P e)
        → ((t : F)
            → package_temp s ≡ some t
            → (held : ℕ) → (first t).1 ≡ some held
            → P (fire (temp_critical s t crit held) (record e { dwell = (first t).0 })))
        → ((t : F)
            → package_temp s ≡ some t
            → (held : ℕ) → (first t).1 ≡ none
            → (second t).1 ≡ some held
            → P (fire (temp_high s t high held) (record e { dwell = (second t).0 })))
        → ((t : F)
            → package_temp s ≡ some t
            → (first t).1 ≡ none
            → (second t).1 ≡ none
            → P (record e { dwell = (second t).0 }))
        → P (temp_rules s cfg now e)
  unfolding temp_rules fire_held
  temp_rules_cases ⦃d⦄ P s cfg now e unknown reports_critical reports_high quiet =
      elim (Option-cases (package_temp s)) [
        | inl q ↦ rw (q, temp_rules) (unknown q)
        | inr (t, q) ↦
            let crit = limit cfg (codes "cpu.temp.critical") (codes "celsius") 95 in
            let high = limit cfg (codes "cpu.temp.high") (codes "celsius") 90 in
            let first = update (codes "cpu.temp.critical") (d.le crit t) now 60 e.dwell in
            rw (q, temp_rules)
              (fire_held_else_cases P (codes "cpu.temp.critical") (d.le crit t) now 60
                (temp_critical s t crit)
                (fire_held (codes "cpu.temp.high") (d.le high t) now 120 (temp_high s t high)) e
                (reports_critical t q)
                (λ u.
                  fire_held_else_cases P (codes "cpu.temp.high") (d.le high t) now 120
                    (temp_high s t high) (λ e'. e') (record e { dwell = first.0 })
                    (λ held v. reports_high t q held u v) (λ v. quiet t q u v)))
      ]

  -- The alerts speak, and what is firing is what they are about.
  pub record IsSound (e : RuleEngine F) : Type 0 where
    pub named : e.firing ≡ fingerprints e.out
    pub speaking : All Speaks e.out

  IsSound-IsKept : IsKept IsSound
  unfolding fire
  IsSound-IsKept = record {
    fired = λ a e s h. record {
      named = rw (h.named, fingerprints-append e.out (a ∷ [])) refl;
      speaking = All-append Speaks e.out (a ∷ []) h.speaking ((s.0, s.1, s.2, s.3), tt);
    };
    dwelt =
        λ key condition now required e other h. record { named = h.named; speaking = h.speaking };
    cleared = λ key e other h. record { named = h.named; speaking = h.speaking };
    learned = λ b e h. record { named = h.named; speaking = h.speaking };
  }

  fire-IsSound : (a : Alert) (e : RuleEngine F) → Speaks a → IsSound e → IsSound (fire a e)
  unfolding fire
  fire-IsSound a e s h = record {
    named = rw (h.named, fingerprints-append e.out (a ∷ [])) refl;
    speaking = All-append Speaks e.out (a ∷ []) h.speaking (s, tt);
  }

  temp_rules-IsSound :
      ⦃d : Real F⦄ (s : Snapshot F) (cfg : Thresholds F) (now : ℕ) (e : RuleEngine F)
      → IsSound e
      → IsSound (temp_rules s cfg now e)
  unfolding temp_critical temp_high new_alert
  temp_rules-IsSound s cfg now e h =
      let sound : (dwell : DwellTracker) → IsSound (record e { dwell = dwell }) =
        λ dwell. record { named = h.named; speaking = h.speaking } in
      temp_rules_cases IsSound s cfg now e (λ q. h)
        (λ t q held u. fire-IsSound (temp_critical s t _ held) _ (refl, refl, refl, refl) (sound _))
        (λ t q held u v. fire-IsSound (temp_high s t _ held) _ (refl, refl, refl, refl) (sound _))
        (λ t q u v. sound _)

  -- Whatever the machine looks like and whatever is set, every alert of an evaluation has a title and a
  -- measurement, evidence or a suggested check, and at least the severity of a notice; and the
  -- fingerprints reported as firing are those of the alerts, in their order.
  pub evaluate-IsSound :
      ⦃d : Real F⦄ (s : Snapshot F) (cfg : Thresholds F) (ctx : Context) (now : ℕ)
      (e : RuleEngine F)
      → IsSound (evaluate s cfg ctx now e)
  evaluate-IsSound s cfg ctx now e = evaluate-kept IsSound-IsKept s cfg ctx now e (
      temp_rules-IsSound s cfg now (record e { firing = []; out = [] })
        (record { named = refl; speaking = tt }))
