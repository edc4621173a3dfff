-- ===== src/Anomaly/Rules/Evaluation/Heat.antt =====
-- When an evaluation reports that the processor is critically hot.
use jamsys.Prelude.{
  ℕ, ◌-◌, ◌/◌, ◌≤◌, ◌≡◌, refl, sym, ap, subst, ◌∙◌, Bool, true, false, ◌||◌, Option, none, some,
  List, [], ◌∷◌, ◌++◌, leb, Text, codes, text_eq, text_eq_iff, text_is_eq, any, is_some, All, inl,
  inr, Bool-cases, arith,
}
use jamsys.Prelude.Dict
use jamsys.Prelude.Dict.{get-remove}
use jamsys.Prelude.Real.{Real}
use jamsys.Types.{Alert, new_alert}
use jamsys.Types.Context.{Context}
use jamsys.Collectors.Snapshot.{Snapshot}
use jamsys.Anomaly.Dwell.{DwellTracker, update, clear}
use jamsys.Anomaly.Dwell.Laws.{get-update, since_after}
use jamsys.Anomaly.Rules.{RuleEngine, Thresholds, fire, limit}
use jamsys.Anomaly.Rules.Cpu.{package_temp, temp_rules, temp_critical, temp_high}
use jamsys.Anomaly.Rules.Laws.{IsKept, is_temp}
use jamsys.Anomaly.Rules.Evaluation.{evaluate}
use jamsys.Anomaly.Rules.Evaluation.Laws.{evaluate-kept, temp_rules_cases}

abbrev pub heat : Text
heat = codes "cpu.temp.critical"

-- Is there an alert of the rule?
abbrev pub reports : Text → List Alert → Bool
reports rule out = any (λ (a : Alert). text_eq a.rule_id rule) out

any-append :
    (rule : Text) (out : List Alert) (a : Alert)
    → reports rule (out ++ (a ∷ [])) ≡ reports rule out || text_eq a.rule_id rule
any-append rule [] a = ground arith
any-append rule (b ∷ out) a = ground (arith, any-append rule out a)

other-ne : (rule : Text) → is_temp rule ≡ false → text_eq rule heat ≡ false
other-ne rule h = elim (Bool-cases (text_eq rule heat)) [
  | inl e ↦ let same = (text_eq_iff rule heat).0 e in cc (ap is_temp same)
  | inr e ↦ e
]

high_elsewhere :
    (condition : Bool) (now required : ℕ) (dwell : DwellTracker)
    → Dict.get heat (update (codes "cpu.temp.high") condition now required dwell).0
      ≡ Dict.get heat dwell
unfolding text_eq
high_elsewhere condition now required dwell =
    get-update (codes "cpu.temp.high") heat condition now required dwell

-- One evaluation.
pub record Tick {ℓ} (F : Type ℓ) : Type ℓ where
  pub now : ℕ
  pub snapshot : Snapshot F
  pub ctx : Context

since_self :
    (now : ℕ) (dwell : DwellTracker)
    → Dict.get heat (update heat true now 60 dwell).0
      ≡ since_after heat true now (Dict.get heat dwell)
unfolding text_eq
since_self now dwell = get-update heat heat true now 60 dwell

held_since :
    (start now : ℕ) (dwell : DwellTracker)
    → Dict.get heat dwell ≡ some start
    → start ≤ now
    → is_some (update heat true now 60 dwell).1 ≡ leb 60 ((now - start) / 1000)
unfolding update
held_since start now dwell h le = ground (arith, h)

module _ {ℓ} {F : Type ℓ} where
  -- Whether the rule is reported, and since when the condition holds.
  abbrev Stands : Bool → Option ℕ → RuleEngine F → Type 0
  Stands r since e = (reports heat e.out ≡ r) × (Dict.get heat e.dwell ≡ since)

  Stands-IsKept : (r : Bool) (since : Option ℕ) → IsKept (Stands r since)
  unfolding fire clear
  Stands-IsKept r since = record {
    fired = λ a e o h. (any-append heat e.out a ∙ ground (arith, h.0, other-ne a.rule_id o.4), h.1);
    dwelt = λ key condition now required e o h. (
      h.0,
      ground (arith, get-update key heat condition now required e.dwell, other-ne key o, h.1),
    );
    cleared = λ key e o h. (h.0, ground (arith, get-remove key heat e.dwell, other-ne key o, h.1));
    learned = λ b e h. h;
  }

  abbrev pub observe_at :
      ⦃d : Real F⦄ → Option F → Thresholds F → ℕ → DwellTracker → DwellTracker × Option ℕ
  observe_at none cfg now dwell = (dwell, none)
  observe_at ⦃d⦄ (some t) cfg now dwell =
      update heat (d.le (limit cfg heat (codes "celsius") 95) t) now 60 dwell

  -- What the rule asks of the clock.
  abbrev pub observe_heat :
      ⦃d : Real F⦄ → Thresholds F → Snapshot F → ℕ → DwellTracker → DwellTracker × Option ℕ
  observe_heat cfg s now dwell = observe_at (package_temp s) cfg now dwell

  as_observed :
      ⦃d : Real F⦄ (s : Snapshot F) (o : Option F) (cfg : Thresholds F) (now : ℕ)
      (dwell : DwellTracker) (r : Bool) (g : Option ℕ)
      → package_temp s ≡ o
      → (r ≡ is_some (observe_at o cfg now dwell).1)
        × (g ≡ Dict.get heat (observe_at o cfg now dwell).0)
      → (r ≡ is_some (observe_heat cfg s now dwell).1)
        × (g ≡ Dict.get heat (observe_heat cfg s now dwell).0)
  as_observed s o cfg now dwell r g q h =
      subst
        (λ p.
          (r ≡ is_some (observe_at p cfg now dwell).1)
          × (g ≡ Dict.get heat (observe_at p cfg now dwell).0))
        (sym q) h

  temp_rules-Stands :
      ⦃d : Real F⦄ (s : Snapshot F) (cfg : Thresholds F) (now : ℕ) (e : RuleEngine F)
      → let (dwell, held) = observe_heat cfg s now e.dwell in
        Stands
          (is_some held)
          (Dict.get heat dwell)
          (temp_rules s cfg now (record e { firing = []; out = [] }))
  unfolding fire temp_critical temp_high new_alert text_eq
  temp_rules-Stands s cfg now e =
      let (dwell, held) = observe_heat cfg s now e.dwell in
      temp_rules_cases (Stands (is_some held) (Dict.get heat dwell)) s cfg now
        (record e { firing = []; out = [] })
        (λ q. as_observed s none cfg now e.dwell _ _ q (refl, refl))
        (λ t q held u. as_observed s (some t) cfg now e.dwell _ _ q (sym (ap is_some u), refl))
        (λ t q held u v.
          as_observed s (some t) cfg now e.dwell _ _ q
            (sym (ap is_some u), high_elsewhere _ now 120 _))
        (λ t q u v.
          as_observed s (some t) cfg now e.dwell _ _ q
            (sym (ap is_some u), high_elsewhere _ now 120 _))

  -- The rule is reported exactly if the temperature is known, at or above the limit, and has been for a
  -- minute by the tracker, whatever the other rules do; and no other rule touches its clock.
  pub evaluate-heat :
      ⦃d : Real F⦄ (s : Snapshot F) (cfg : Thresholds F) (ctx : Context) (now : ℕ)
      (e : RuleEngine F)
      → let (dwell, held) = observe_heat cfg s now e.dwell in
        (reports heat (evaluate s cfg ctx now e).out ≡ is_some held)
        × (Dict.get heat (evaluate s cfg ctx now e).dwell ≡ Dict.get heat dwell)
  evaluate-heat s cfg ctx now e =
      let (dwell, held) = observe_heat cfg s now e.dwell in
      evaluate-kept (Stands-IsKept (is_some held) (Dict.get heat dwell)) s cfg ctx now e
        (temp_rules-Stands s cfg now e)

  abbrev hot_at : ⦃d : Real F⦄ → Thresholds F → Option F → Bool
  hot_at cfg none = false
  hot_at ⦃d⦄ cfg (some t) = d.le (limit cfg heat (codes "celsius") 95) t

  -- Is the temperature known, and at or above the limit?
  abbrev pub is_hot : ⦃d : Real F⦄ → Thresholds F → Snapshot F → Bool
  is_hot cfg s = hot_at cfg (package_temp s)

  observe_hot :
      ⦃d : Real F⦄ (cfg : Thresholds F) (o : Option F) (now : ℕ) (dwell : DwellTracker)
      → hot_at cfg o ≡ true
      → observe_at o cfg now dwell ≡ update heat true now 60 dwell
  observe_hot cfg none now dwell h = cc
  observe_hot cfg (some t) now dwell h = rw h refl

  unfoldable pub run : ⦃d : Real F⦄ → Thresholds F → List (Tick F) → RuleEngine F → RuleEngine F
  run cfg [] e = e
  run cfg (t ∷ ticks) e = run cfg ticks (evaluate t.snapshot cfg t.ctx t.now e)

  since_tick :
      ⦃d : Real F⦄ (cfg : Thresholds F) (t : Tick F) (e : RuleEngine F)
      → is_hot cfg t.snapshot ≡ true
      → Dict.get heat (evaluate t.snapshot cfg t.ctx t.now e).dwell
        ≡ since_after heat true t.now (Dict.get heat e.dwell)
  since_tick cfg t e hot =
      (evaluate-heat t.snapshot cfg t.ctx t.now e).1
      ∙ (ap (λ (p : DwellTracker × Option ℕ). Dict.get heat p.0)
            (observe_hot cfg (package_temp t.snapshot) t.now e.dwell hot)
          ∙ since_self t.now e.dwell)

  run-since :
      ⦃d : Real F⦄ (cfg : Thresholds F) (start : ℕ) (ticks : List (Tick F)) (e : RuleEngine F)
      → All (λ t. (is_hot cfg t.snapshot ≡ true) × (start ≤ t.now)) ticks
      → Dict.get heat e.dwell ≡ some start
      → Dict.get heat (run cfg ticks e).dwell ≡ some start
  unfolding run since_after
  run-since cfg start [] e hot h = h
  run-since cfg start (t ∷ ticks) e hot h =
      run-since cfg start ticks _ hot.1 (ground (arith, since_tick cfg t e hot.0.0, h, hot.0.1))

  -- From the evaluation that first finds the processor at or above its limit on, while every one does,
  -- the rule is reported exactly by those that come a minute or more after the first, whatever else
  -- happens on the machine.
  pub evaluate-lasting_heat :
      ⦃d : Real F⦄ (cfg : Thresholds F) (first last : Tick F) (ticks : List (Tick F))
      (e : RuleEngine F)
      → Dict.get heat e.dwell ≡ none
      → is_hot cfg first.snapshot ≡ true
      → All (λ t. (is_hot cfg t.snapshot ≡ true) × (first.now ≤ t.now)) ticks
      → is_hot cfg last.snapshot ≡ true
      → first.now ≤ last.now
      → let e' = run cfg (first ∷ ticks) e in
        reports heat (evaluate last.snapshot cfg last.ctx last.now e').out
        ≡ leb 60 ((last.now - first.now) / 1000)
  unfolding run since_after
  evaluate-lasting_heat cfg first last ticks e fresh hot all hot_last after =
      let e1 = evaluate first.snapshot cfg first.ctx first.now e in
      let began : Dict.get heat e1.dwell ≡ some first.now =
        ground (arith, since_tick cfg first e hot, fresh) in
      let e2 = run cfg ticks e1 in
      let still = run-since cfg first.now ticks e1 all began in
      (evaluate-heat last.snapshot cfg last.ctx last.now e2).0
      ∙ (ap (λ (p : DwellTracker × Option ℕ). is_some p.1)
            (observe_hot cfg (package_temp last.snapshot) last.now e2.dwell hot_last)
          ∙ held_since first.now last.now e2.dwell still after)
