-- ===== src/Anomaly/Rules/Memory.antt =====
-- jamsys-daemon/src/anomaly/rules.rs: `memory_rules`.
use jamsys.Prelude.{ℕ, none, some, [], ◌∷◌, ◌++◌, ltb, ◌==◌, if◌then◌else◌, codes}
use jamsys.Prelude.Decimal.{to_string}
use jamsys.Prelude.Real.{Real}
use jamsys.Util.Sizes.{human_bytes}
use jamsys.Types.{Alert, new_alert, critical, warning, notice}
use jamsys.Collectors.Snapshot.{Snapshot, MemState}
use jamsys.Anomaly.Rules.{
  RuleEngine, Thresholds, format, evidence, explained, fire, fire_if, fire_held, limit,
}
use jamsys.Anomaly.Rules.Causes.{top_mem_text}

module _ {ℓ} {F : Type ℓ} ⦃d : Real F⦄ where
  unfoldable pub oom : MemState F → Alert
  oom m =
      new_alert (codes "mem.oom") [] critical (codes "The kernel killed a process to free memory") (
        explained
          (format (
            codes "The OOM killer has run "
            ∷ to_string m.oom_kill_total
            ∷ codes " time(s) since boot."
            ∷ []))
          (some (codes "no OOM kills")) 0
          (evidence (codes "Available memory") (
              format (
                human_bytes (d.of_ℕ m.available_bytes)
                ∷ codes " ("
                ∷ d.fixed 0 m.available_pct
                ∷ codes "%)"
                ∷ []))
            ∷ evidence (codes "Swap in use") (human_bytes (d.of_ℕ m.swap_used_bytes))
            ∷ [])
          none
          (codes "Check the Events page for which process was killed"
            ∷ codes "Look for a memory leak on the Memory page"
            ∷ []))

  unfoldable pub almost_out : Snapshot F → F → Alert
  almost_out s crit =
      let m = s.memory in
      new_alert (codes "mem.critical") [] critical (codes "Almost out of memory") (
        explained
          (format (
            codes "Only "
            ∷ human_bytes (d.of_ℕ m.available_bytes)
            ∷ codes " ("
            ∷ d.fixed 1 m.available_pct
            ∷ codes "%) of memory is available."
            ∷ []))
          (some (format (codes "above " ∷ d.fixed 0 crit ∷ codes "% available" ∷ []))) 0
          (evidence (codes "Largest process") (top_mem_text s)
            ∷ evidence (codes "Swap") (
                format (
                  human_bytes (d.of_ℕ m.swap_used_bytes)
                  ∷ codes " of "
                  ∷ human_bytes (d.of_ℕ m.swap_total_bytes)
                  ∷ []))
            ∷ [])
          none (codes "Close the largest applications listed on the Memory page" ∷ []))

  unfoldable pub running_low : Snapshot F → F → ℕ → Alert
  running_low s low held =
      let m = s.memory in
      new_alert (codes "mem.low") [] warning (codes "Memory is running low") (
        explained
          (format (
            human_bytes (d.of_ℕ m.available_bytes)
            ∷ codes " ("
            ∷ d.fixed 1 m.available_pct
            ∷ codes "%) of memory is available."
            ∷ []))
          (some (format (codes "above " ∷ d.fixed 0 low ∷ codes "% available" ∷ []))) held
          (evidence (codes "Largest process") (top_mem_text s) ∷ []) none
          (codes "Open the Memory page to see what is using it" ∷ []))

  unfoldable pub stalling : MemState F → F → ℕ → Alert
  stalling m pressure held =
      new_alert (codes "mem.pressure") [] warning (codes "The system is stalling on memory") (
        explained
          (format (
            codes "Processes spent "
            ∷ d.fixed 0 m.psi_some_avg60
            ∷ codes "% of the last minute waiting for memory (PSI)."
            ∷ []))
          (some (format (codes "below " ∷ d.fixed 0 pressure ∷ codes "%" ∷ []))) held
          (evidence (codes "Available") (human_bytes (d.of_ℕ m.available_bytes))
            ∷ evidence (codes "Major page faults") (d.fixed 0 m.major_faults_per_s ++ codes "/s")
            ∷ [])
          none
          (codes "Memory pressure means real slowdown even when free memory looks adequate" ∷ []))

  unfoldable pub swapping : MemState F → F → ℕ → Alert
  swapping m sw held =
      new_alert (codes "mem.swap_sustained") [] notice (codes "Swap has been in use for a while") (
        explained
          (format (
            d.fixed 0 m.swap_used_pct
            ∷ codes "% of swap is in use ("
            ∷ human_bytes (d.of_ℕ m.swap_used_bytes)
            ∷ codes ")."
            ∷ []))
          (some (format (codes "below " ∷ d.fixed 0 sw ∷ codes "%" ∷ []))) held
          (evidence (codes "Available RAM") (human_bytes (d.of_ℕ m.available_bytes)) ∷ []) none
          (codes "Swap use alone is not a fault; it matters when combined with memory pressure"
            ∷ []))

  unfoldable pub low_rules : Snapshot F → Thresholds F → ℕ → RuleEngine F → RuleEngine F
  unfolding almost_out running_low
  low_rules s cfg now e =
      let m = s.memory in
      let crit = limit cfg (codes "mem.critical") (codes "avail_pct") 3 in
      let low = limit cfg (codes "mem.low") (codes "avail_pct") 8 in
      if d.le m.available_pct crit
      then fire (almost_out s crit) e
      else fire_held (codes "mem.low") (d.le m.available_pct low) now 60 (running_low s low) e

  unfoldable pub swap_rule : MemState F → Thresholds F → ℕ → RuleEngine F → RuleEngine F
  unfolding swapping
  swap_rule m cfg now e =
      let sw = limit cfg (codes "mem.swap_sustained") (codes "pct") 25 in
      if ltb 0 m.swap_total_bytes
      then fire_held (codes "mem.swap_sustained") (d.le sw m.swap_used_pct) now 300 (swapping m sw)
          e
      else e

  unfoldable pub memory_rules : Snapshot F → Thresholds F → ℕ → RuleEngine F → RuleEngine F
  unfolding oom low_rules stalling swap_rule
  memory_rules s cfg now e =
      let m = s.memory in
      if m.total_bytes == 0
      then e
      else let e = fire_if m.oom_just_happened (oom m) e in
        let e = low_rules s cfg now e in
        let pressure = limit cfg (codes "mem.pressure") (codes "psi") 20 in
        let e =
          fire_held (codes "mem.pressure") (d.le pressure m.psi_some_avg60) now 60
            (stalling m pressure) e in
        swap_rule m cfg now e
