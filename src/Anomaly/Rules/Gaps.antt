-- ===== src/Anomaly/Rules/Gaps.antt =====
-- Conditions that count as lasting although they did not: the clock of a rule runs on while the rule is
-- not asked.
mod Tests
use jamsys.Prelude.{
  ℕ, ◌+◌, ◌-◌, ◌*◌, ◌/◌, ◌≤◌, ◌<◌, ◌≡◌, refl, sym, ap, subst, ◌∙◌, Bool, true, false, not, ◌||◌,
  Option, none, some, List, [], ◌∷◌, ◌++◌, leb, ltb, if◌then◌else◌, Text, codes, text_eq,
  text_is_eq, text_eq_refl, text_eq_iff, unwrap_or, All, inl, inr, Bool-cases, Option-cases, arith,
  drop, ◌≢◌, ◌==◌,
}
use jamsys.Prelude.Dict
use jamsys.Prelude.Dict.{get-insert_self}
use jamsys.Prelude.Int.{pos}
use jamsys.Prelude.Decimal.{to_string, read_digits, read_digits-to_string}
use jamsys.Prelude.Real.{Real}
use jamsys.Types.{Alert, new_alert}
use jamsys.Collectors.Snapshot.{Snapshot, Iface, ProcInfo}
use jamsys.Anomaly.Baseline.{Verdict, no_baseline, learning, normal, deviating}
use jamsys.Anomaly.Dwell.{update}
use jamsys.Anomaly.Dwell.Laws.{get-update, since_after}
use jamsys.Anomaly.Rules.{RuleEngine, Thresholds, fire, fire_held, fire_held_else, limit}
use jamsys.Anomaly.Rules.Causes.{first}
use jamsys.Anomaly.Rules.Cpu.{runaway, runaway_key, runaway_rule}
use jamsys.Anomaly.Rules.Learned.{spike, spike_key, spike_verdict}

-- One look at the traffic of an interface in one direction.
pub record Look {ℓ} (F : Type ℓ) : Type ℓ where
  pub snapshot : Snapshot F
  pub bps : F
  pub now : ℕ
  pub verdict : Verdict F

-- An alert of the rule that says how long it has gone on.
abbrev pub Says : Text → ℕ → Alert → Type 0
Says rule held a = (a.rule_id ≡ rule) × (a.explanation.since_s ≡ pos held)

module _ {ℓ} {F : Type ℓ} where
  -- A condition that is first found true waits.
  fire_held_begins :
      (key : Text) (now required : ℕ) (alert : ℕ → Alert) (e : RuleEngine F)
      → Dict.get key e.dwell ≡ none
      → 0 < required
      → Dict.get key (fire_held key true now required alert e).dwell ≡ some now
  unfolding fire_held fire_held_else update
  fire_held_begins key now required alert e fresh some_time =
      let inserted = get-insert_self key now e.dwell in ground (arith, fresh, some_time, inserted)

  -- One whose clock has run long enough fires.
  fire_held_fires :
      (key : Text) (start now required : ℕ) (alert : ℕ → Alert) (e : RuleEngine F)
      → Dict.get key e.dwell ≡ some start
      → start + required * 1000 ≤ now
      → (fire_held key true now required alert e).out ≡ e.out ++ (alert ((now - start) / 1000) ∷ [])
  unfolding fire_held fire_held_else update fire
  fire_held_fires key start now required alert e since long = ground (arith, since, long)

  abbrev pub is_spike : ⦃d : Real F⦄ → F → Verdict F → Bool
  is_spike ⦃d⦄ bps (deviating z delta med p05 p95 n) =
      d.lt (d.larger (d.mul p95 (d.of_ℕ 4)) (d.of_ℕ 5_000_000)) bps
  is_spike bps _ = false

  spike_verdict_quiet :
      ⦃d : Real F⦄ (s : Snapshot F) (i : Iface F) (dir : Text) (bps : F) (now : ℕ) (v : Verdict F)
      (e : RuleEngine F)
      → is_spike bps v ≡ false
      → spike_verdict s i dir bps now v e ≡ e
  unfolding spike_verdict
  spike_verdict_quiet s i dir bps now (deviating z delta med p05 p95 n) e q = rw q refl
  spike_verdict_quiet s i dir bps now (normal z med p05 p95) e q = refl
  spike_verdict_quiet s i dir bps now (learning have need) e q = refl
  spike_verdict_quiet s i dir bps now no_baseline e q = refl

  spike_verdict-since :
      ⦃d : Real F⦄ (s : Snapshot F) (i : Iface F) (dir : Text) (bps : F) (now : ℕ) (v : Verdict F)
      (e : RuleEngine F)
      → is_spike bps v ≡ true
      → Dict.get (spike_key i dir) e.dwell ≡ none
      → Dict.get (spike_key i dir) (spike_verdict s i dir bps now v e).dwell ≡ some now
  unfolding spike_verdict
  spike_verdict-since s i dir bps now (deviating z delta med p05 p95 n) e q fresh =
      rw q (
        fire_held_begins (spike_key i dir) now 120 (spike s i dir bps med p95) e fresh
          (omega arith))
  spike_verdict-since s i dir bps now (normal z med p05 p95) e q fresh = cc
  spike_verdict-since s i dir bps now (learning have need) e q fresh = cc
  spike_verdict-since s i dir bps now no_baseline e q fresh = cc

  spike_verdict-out :
      ⦃d : Real F⦄ (s : Snapshot F) (i : Iface F) (dir : Text) (bps : F) (start now : ℕ)
      (v : Verdict F) (e : RuleEngine F)
      → is_spike bps v ≡ true
      → Dict.get (spike_key i dir) e.dwell ≡ some start
      → start + 120 * 1000 ≤ now
      → (a : Alert) × ((spike_verdict s i dir bps now v e).out ≡ e.out ++ (a ∷ []))
        × Says (codes "net.traffic_spike") ((now - start) / 1000) a
  unfolding spike_verdict spike new_alert
  spike_verdict-out s i dir bps start now (deviating z delta med p05 p95 n) e q since long = (
    spike s i dir bps med p95 ((now - start) / 1000),
    rw q (fire_held_fires (spike_key i dir) start now 120 (spike s i dir bps med p95) e since long),
    (refl, refl),
  )
  spike_verdict-out s i dir bps start now (normal z med p05 p95) e q since long = absurd (cc)
  spike_verdict-out s i dir bps start now (learning have need) e q since long = absurd (cc)
  spike_verdict-out s i dir bps start now no_baseline e q since long = absurd (cc)

  unfoldable pub look : ⦃d : Real F⦄ → Iface F → Text → List (Look F) → RuleEngine F → RuleEngine F
  look i dir [] e = e
  look i dir (l ∷ ls) e = look i dir ls (spike_verdict l.snapshot i dir l.bps l.now l.verdict e)

  look_quiet :
      ⦃d : Real F⦄ (i : Iface F) (dir : Text) (ls : List (Look F)) (e : RuleEngine F)
      → All (λ l. is_spike l.bps l.verdict ≡ false) ls
      → look i dir ls e ≡ e
  unfolding look
  look_quiet i dir [] e q = refl
  look_quiet i dir (l ∷ ls) e q =
      rw (spike_verdict_quiet l.snapshot i dir l.bps l.now l.verdict e q.0)
        (look_quiet i dir ls e q.1)

  -- Two bursts of traffic, two minutes or more apart, are reported as one that has gone on all the
  -- time, however often the traffic was found to be normal between them.
  pub look-gap :
      ⦃d : Real F⦄ (i : Iface F) (dir : Text) (before after : Look F) (between : List (Look F))
      (e : RuleEngine F)
      → Dict.get (spike_key i dir) e.dwell ≡ none
      → is_spike before.bps before.verdict ≡ true
      → All (λ l. is_spike l.bps l.verdict ≡ false) between
      → is_spike after.bps after.verdict ≡ true
      → before.now + 120 * 1000 ≤ after.now
      → let e' = look i dir (before ∷ between) e in
        (a : Alert) × ((look i dir (after ∷ []) e').out ≡ e'.out ++ (a ∷ []))
        × Says (codes "net.traffic_spike") ((after.now - before.now) / 1000) a
  unfolding look
  look-gap i dir before after between e fresh burst quiet again apart =
      let e1 = spike_verdict before.snapshot i dir before.bps before.now before.verdict e in
      let since =
        spike_verdict-since before.snapshot i dir before.bps before.now before.verdict e burst
          fresh in
      rw (look_quiet i dir between e1 quiet) (
        spike_verdict-out after.snapshot i dir after.bps before.now after.now after.verdict e1 again
          since apart)

  fire_held-elsewhere :
      (key other : Text) (condition : Bool) (now required : ℕ) (alert : ℕ → Alert)
      (e : RuleEngine F)
      → text_eq key other ≡ false
      → Dict.get other (fire_held key condition now required alert e).dwell ≡ Dict.get other e.dwell
  unfolding fire_held fire_held_else fire
  fire_held-elsewhere key other condition now required alert e apart =
      let (dwell, held) = update key condition now required e.dwell in
      let same = get-update key other condition now required e.dwell in ground (arith, same, apart)

  runaway_key-ne :
      ⦃d : Real F⦄ (p q : ProcInfo F)
      → p.pid ≢ q.pid
      → text_eq (runaway_key p) (runaway_key q) ≡ false
  unfolding runaway_key
  runaway_key-ne p q apart = elim (Bool-cases (text_eq (runaway_key p) (runaway_key q))) [
    | inr e ↦ e
    | inl e ↦
        let same = (text_eq_iff (runaway_key p) (runaway_key q)).0 e in
        let digits : to_string p.pid ≡ to_string q.pid = ap (drop 20) same in
        let pids : read_digits 0 (to_string p.pid) ≡ read_digits 0 (to_string q.pid) =
          ap (read_digits 0) digits in
        absurd (apart (sym (read_digits-to_string p.pid) ∙ (pids ∙ read_digits-to_string q.pid)))
  ]

  runaway_key-eq : ⦃d : Real F⦄ (p q : ProcInfo F) → p.pid ≡ q.pid → runaway_key p ≡ runaway_key q
  unfolding runaway_key
  runaway_key-eq p q same = ap (λ n. codes "cpu.runaway_process:" ++ to_string n) same

  abbrev pub leads : ProcInfo F → Option (ProcInfo F) → Bool
  leads p none = false
  leads p (some q) = q.pid == p.pid

  runaway_rule-elsewhere :
      ⦃d : Real F⦄ (s : Snapshot F) (cfg : Thresholds F) (now : ℕ) (p : ProcInfo F)
      (e : RuleEngine F)
      → leads p (first s.process.top_cpu) ≡ false
      → Dict.get (runaway_key p) (runaway_rule s cfg now e).dwell ≡ Dict.get (runaway_key p) e.dwell
  unfolding runaway_rule
  runaway_rule-elsewhere ⦃d⦄ s cfg now p e behind = elim (Option-cases (first s.process.top_cpu)) [
    | inl q ↦ rw (q, runaway_rule) refl
    | inr (other, q) ↦
        let apart : other.pid ≢ p.pid = ground (arith, behind, q) in
        rw (q, runaway_rule)
          (fire_held-elsewhere (runaway_key other) (runaway_key p) _ now 300 _ e
            (runaway_key-ne other p apart))
  ]

  unfoldable pub pass :
      ⦃d : Real F⦄ → Thresholds F → List (Snapshot F × ℕ) → RuleEngine F → RuleEngine F
  pass cfg [] e = e
  pass cfg ((s, now) ∷ visits) e = pass cfg visits (runaway_rule s cfg now e)

  pass-elsewhere :
      ⦃d : Real F⦄ (cfg : Thresholds F) (p : ProcInfo F) (visits : List (Snapshot F × ℕ))
      (e : RuleEngine F)
      → All (λ v. leads p (first v.0.process.top_cpu) ≡ false) visits
      → Dict.get (runaway_key p) (pass cfg visits e).dwell ≡ Dict.get (runaway_key p) e.dwell
  unfolding pass
  pass-elsewhere cfg p [] e behind = refl
  pass-elsewhere cfg p ((s, now) ∷ visits) e behind =
      pass-elsewhere cfg p visits (runaway_rule s cfg now e) behind.1
      ∙ runaway_rule-elsewhere s cfg now p e behind.0

  -- Does the process lead, at or above the limit?
  abbrev pub is_runaway : ⦃d : Real F⦄ → Thresholds F → ProcInfo F → Bool
  is_runaway ⦃d⦄ cfg p = d.le (limit cfg (codes "cpu.runaway_process") (codes "pct") 85) p.cpu_pct

  -- A process that was busy and is busy again five minutes later is reported to have been so all the
  -- time, though others were ahead of it in between and nobody looked at it.
  pub pass-gap :
      ⦃d : Real F⦄ (cfg : Thresholds F) (p q : ProcInfo F) (before after : Snapshot F) (t0 t1 : ℕ)
      (between : List (Snapshot F × ℕ)) (e : RuleEngine F)
      → Dict.get (runaway_key p) e.dwell ≡ none
      → first before.process.top_cpu ≡ some p
      → is_runaway cfg p ≡ true
      → All (λ v. leads p (first v.0.process.top_cpu) ≡ false) between
      → first after.process.top_cpu ≡ some q
      → q.pid ≡ p.pid
      → is_runaway cfg q ≡ true
      → t0 + 300 * 1000 ≤ t1
      → let e' = pass cfg ((before, t0) ∷ between) e in
        (a : Alert) × ((pass cfg ((after, t1) ∷ []) e').out ≡ e'.out ++ (a ∷ []))
        × Says (codes "cpu.runaway_process") ((t1 - t0) / 1000) a
  unfolding pass runaway_rule runaway new_alert
  pass-gap cfg p q before after t0 t1 between e fresh lead busy behind again same busy' apart =
      let thresh = limit cfg (codes "cpu.runaway_process") (codes "pct") 85 in
      let e1 = runaway_rule before cfg t0 e in
      let began : Dict.get (runaway_key p) e1.dwell ≡ some t0 =
        rw (lead, runaway_rule, busy)
          (fire_held_begins (runaway_key p) t0 300 (runaway p thresh) e fresh (omega arith)) in
      let e2 = pass cfg between e1 in
      let still = pass-elsewhere cfg p between e1 behind ∙ began in
      let still' : Dict.get (runaway_key q) e2.dwell ≡ some t0 =
        ap (λ k. Dict.get k e2.dwell) (runaway_key-eq q p same) ∙ still in
      (
        runaway q thresh ((t1 - t0) / 1000),
        rw (again, runaway_rule, busy')
            (fire_held_fires (runaway_key q) t0 t1 300 (runaway q thresh) e2 still' apart),
        (refl, refl),
      )
