-- ===== src/Collectors/Memory.antt =====
-- jamsys-daemon/src/collectors/memory.rs: `MemCollector`. The parsed files of /proc are an argument; a
-- file that cannot be read, or a key that is missing from it, is `none`.
pub mod Kills
mod Tests
use jamsys.Prelude.{
  ℕ, ◌-◌, ◌*◌, Bool, true, false, ◌&&◌, Option, none, some, List, [], ◌∷◌, ◌++◌, ◌==◌, ltb, leb,
  if◌then◌else◌, unwrap_or, Text, codes, text_is_eq,
}
use jamsys.Prelude.Dict.{Dict, get}
use jamsys.Prelude.Decimal.{to_string}
use jamsys.Prelude.Real.{Real}
use jamsys.Prelude.Results.{Result, ok, err}
use jamsys.Types.{critical}
use jamsys.Types.Metric.{Event, Sample}
use jamsys.Collectors.Registry.{CollectorError, gone, bad_data}
use jamsys.Collectors.Snapshot.{MemState}

pub record MemCollector : Type 0 where
  pub prev_oom : Option ℕ
  pub prev_pgmajfault : Option (ℕ × ℕ)

unfoldable pub new : MemCollector
new = record { prev_oom = none; prev_pgmajfault = none }

-- /proc/meminfo in kilobytes, /proc/pressure/memory, and two counters of /proc/vmstat.
pub record Proc {ℓ} (F : Type ℓ) : Type ℓ where
  pub ts_ms : ℕ
  pub meminfo : Result Text (Dict Text ℕ)
  pub psi : Option (F × F)
  pub oom_kill : Option ℕ
  pub pgmajfault : Option ℕ

abbrev kb : Dict Text ℕ → Text → ℕ
kb m k = unwrap_or 0 (get k m) * 1024

-- How many were killed since the counter was read before.
unfoldable pub killed : Option ℕ → Option ℕ → Option ℕ
killed prev none = none
killed none (some oom) = none
killed (some prev) (some oom) = if ltb prev oom then some (oom - prev) else none

unfoldable pub oom_event : ℕ → Event
oom_event n = record {
  subsystem = codes "memory";
  kind = codes "oom";
  summary = codes "Kernel OOM killer terminated " ++ (to_string n ++ codes " process(es)");
  severity = critical;
}

unfoldable pub oom_events : Option ℕ → List Event
oom_events none = []
oom_events (some n) = oom_event n ∷ []

-- A counter that is missing does not change what is remembered.
unfoldable pub remember : ℕ → Option ℕ → Option ℕ → MemCollector → MemCollector
remember ts oom faults c = record {
  prev_oom = elim oom [ none ↦ c.prev_oom | some n ↦ some n ];
  prev_pgmajfault = elim faults [ none ↦ c.prev_pgmajfault | some n ↦ some (n, ts) ];
}

module _ {ℓ} {F : Type ℓ} ⦃d : Real F⦄ where
  g : Text → F → Sample F
  g name v = record {
    id = record { subsystem = codes "memory"; name = name; instance_name = [] };
    value = v;
  }

  -- Page faults per second since they were counted before.
  unfoldable pub fault_rate : ℕ → Option (ℕ × ℕ) → Option ℕ → Option F
  fault_rate ts prev none = none
  fault_rate ts none (some faults) = none
  fault_rate ts (some (p, t₀)) (some faults) =
      let dt = d.div (d.sub (d.of_ℕ ts) (d.of_ℕ t₀)) (d.of_ℕ 1000) in
      if d.lt (d.of_ℕ 0) dt && leb p faults then some (d.div (d.of_ℕ (faults - p)) dt) else none

  unfoldable pub percent : ℕ → ℕ → F
  percent part whole = d.div (d.mul (d.of_ℕ 100) (d.of_ℕ part)) (d.of_ℕ whole)

  unfoldable pub state_of : Proc F → Dict Text ℕ → MemCollector → MemState F
  unfolding percent fault_rate killed
  state_of p m c =
      let total = kb m (codes "MemTotal") in
      let available = kb m (codes "MemAvailable") in
      let swap_total = kb m (codes "SwapTotal") in
      let swap_used = swap_total - kb m (codes "SwapFree") in
      record {
        total_bytes = total;
        available_bytes = available;
        used_bytes = total - available;
        cached_bytes = kb m (codes "Cached");
        buffers_bytes = kb m (codes "Buffers");
        swap_total_bytes = swap_total;
        swap_used_bytes = swap_used;
        dirty_bytes = kb m (codes "Dirty");
        available_pct = percent available total;
        swap_used_pct = if ltb 0 swap_total then percent swap_used swap_total else d.of_ℕ 0;
        psi_some_avg60 = elim p.psi [ none ↦ d.of_ℕ 0 | some s ↦ s.0 ];
        psi_full_avg60 = elim p.psi [ none ↦ d.of_ℕ 0 | some s ↦ s.1 ];
        oom_kill_total = unwrap_or 0 p.oom_kill;
        oom_just_happened = elim (killed c.prev_oom p.oom_kill) [ none ↦ false | some n ↦ true ];
        major_faults_per_s =
            unwrap_or (d.of_ℕ 0) (fault_rate p.ts_ms c.prev_pgmajfault p.pgmajfault);
      }

  unfoldable pub samples_of : Proc F → MemState F → MemCollector → List (Sample F)
  unfolding g fault_rate
  samples_of p st c =
      g (codes "total_bytes") (d.of_ℕ st.total_bytes)
      ∷ g (codes "available_bytes") (d.of_ℕ st.available_bytes)
      ∷ g (codes "used_bytes") (d.of_ℕ st.used_bytes)
      ∷ g (codes "cached_bytes") (d.of_ℕ st.cached_bytes)
      ∷ g (codes "swap_used_bytes") (d.of_ℕ st.swap_used_bytes)
      ∷ g (codes "available_pct") st.available_pct
      ∷ ((elim p.psi [
        | none ↦ []
        | some s ↦ g (codes "psi_some") s.0 ∷ g (codes "psi_full") s.1 ∷ []
      ])
          ++ ((elim p.oom_kill [
            | none ↦ []
            | some oom ↦ g (codes "oom_kill_total") (d.of_ℕ oom) ∷ []
          ])
              ++ (elim (fault_rate p.ts_ms c.prev_pgmajfault p.pgmajfault) [
                | none ↦ []
                | some r ↦ g (codes "majfault_per_s") r ∷ []
              ])))

  unfoldable pub collect :
      Proc F
      → MemCollector
      → MemCollector × Result CollectorError (MemState F × List (Sample F) × List Event)
  unfolding state_of samples_of oom_events remember killed
  collect p c = elim p.meminfo [
    | err e ↦ (c, err (gone (codes "/proc/meminfo: " ++ e)))
    | ok m ↦
        let st = state_of p m c in
        if kb m (codes "MemTotal") == 0 then (c, err (bad_data (codes "MemTotal is zero"))) else (
          remember p.ts_ms p.oom_kill p.pgmajfault c,
          ok (st, samples_of p st c, oom_events (killed c.prev_oom p.oom_kill)),
        )
  ]
