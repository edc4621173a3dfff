-- ===== src/Collectors/Registry/Toggle.antt =====
-- What switching a collector off and on does to the others, and to one whose hardware is absent.
use jamsys.Prelude.{
  ℕ, ◌≡◌, refl, Bool, true, false, Option, none, some, List, [], ◌∷◌, if◌then◌else◌, arith, Text,
  text_eq, text_eq_iff, is_some,
}
use mathlib.Core.Option
use jamsys.Types.{Support, unsupported, Tier}
use jamsys.Collectors.Registry.{Entry, Answers, Registry, visit, run_entry, set_entry, set_enabled}
use jamsys.Collectors.Registry.Retry.{Event, ticks, switched, happen, history}

-- Only ticks.
abbrev pub Ticks : List Event → Type 0
Ticks [] = Unit {0}
Ticks (ticks now ans ∷ vs) = Ticks vs
Ticks (switched on answer ∷ vs) = ⊥

stranded_tick :
    (tier : Tier) (now : ℕ) (ans : Answers) (e : Entry) (reason : Text)
    → e.support ≡ unsupported reason
    → e.retry_after_ms ≡ 0
    → run_entry tier now ans e ≡ e
unfolding run_entry visit
stranded_tick tier now ans e reason out never = rw (out, never) (ground arith)

stranded_history :
    (tier : Tier) (vs : List Event) (e : Entry) (reason : Text)
    → Ticks vs
    → e.support ≡ unsupported reason
    → e.retry_after_ms ≡ 0
    → history tier vs e ≡ e
unfolding history happen
stranded_history tier [] e reason only out never = refl
stranded_history tier (ticks now ans ∷ vs) e reason only out never =
    rw (stranded_tick tier now ans e reason out never)
      (stranded_history tier vs e reason only out never)
stranded_history tier (switched on answer ∷ vs) e reason only out never = elim only [ ]

-- A collector with no retry scheduled that is switched off and, while its
-- hardware is absent, on again is never probed or read after that, whatever its ticks find.
pub toggle_strands :
    (tier : Tier) (vs : List Event) (e : Entry) (off : Option Support) (reason : Text)
    → e.retry_after_ms ≡ 0
    → Ticks vs
    → history tier (switched false off ∷ switched true (some (unsupported reason)) ∷ vs) e
      ≡ record e { support = unsupported reason; consecutive_failures = 0; retry_after_ms = 0 }
unfolding history happen set_entry
toggle_strands tier vs e off reason never only =
    let stuck =
      stranded_history tier vs
        (record e { support = unsupported reason; consecutive_failures = 0; retry_after_ms = 0 })
        reason only refl refl in
    rw (never) stuck

set_entry-name :
    (on : Bool) (answer : Option Support) (e : Entry) → (set_entry on answer e).name ≡ e.name
unfolding set_entry
set_entry-name false answer e = refl
set_entry-name true answer e = refl

-- The collector a name finds.
unfoldable pub named : Text → Registry → Option Entry
named name [] = none
named name (e ∷ es) = if text_eq e.name name then some e else named name es

-- Switching a name answers whether it is registered, changes the collector it finds, and no other name
-- finds another collector than before.
set_enabled-named :
    (name other : Text) (on : Bool) (answer : Option Support) (es : Registry)
    → ((set_enabled name on answer es).1 ≡ is_some (named name es))
      × (named other (set_enabled name on answer es).0 ≡ (
          if text_eq name other
          then Option.map (set_entry on answer) (named other es)
          else named other es))
unfolding set_enabled named
set_enabled-named name other on answer [] = (refl, ground arith)
set_enabled-named name other on answer (e ∷ es) =
    let ih = set_enabled-named name other on answer es in
    let kept : (set_entry on answer e).name ≡ e.name = set_entry-name on answer e in
    (
      ground (arith, ih.0, kept),
      ground (
        arith,
        ih.1,
        kept,
        text_eq_iff name other,
        text_eq_iff e.name name,
        text_eq_iff e.name other,
      ),
    )
