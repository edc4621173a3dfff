-- ===== src/Types/Context/Laws.antt =====
-- Contexts and their keys.
use jamsys.Prelude.{
  ℕ, zero, suc, ◌≤◌, ◌≡◌, refl, Bool, true, false, not, ◌&&◌, Option, none, some, List, [], ◌∷◌,
  if◌then◌else◌, Text, text_eq, is_some, arith,
}
use jamsys.Prelude.Int.{ℤ}
use jamsys.Types.Context.{
  Activity, idle, interactive, high_load, is_idle, Context, new, bucket_of, with_time_of_day, key,
  import_context,
}

-- Every context, with no time of day or one of the four.
abbrev times : Bool → Activity → List Context
times b a =
    new b a
    ∷ record (new b a) { tod = some 0 }
    ∷ record (new b a) { tod = some 1 }
    ∷ record (new b a) { tod = some 2 }
    ∷ record (new b a) { tod = some 3 }
    ∷ []

first_with : Text → List Context → Option Context → Option Context
first_with k [] other = other
first_with k (c ∷ cs) other = if text_eq (key c) k then some c else first_with k cs other

-- Reading a key: the context that has it.
unfoldable pub read_key : Text → Option Context
unfolding first_with
read_key k = first_with k (times false idle) (
    first_with k (times false interactive) (
      first_with k (times false high_load) (
        first_with k (times true idle)
          (first_with k (times true interactive) (first_with k (times true high_load) none)))))

abbrev pub InDay : Option ℕ → Type 0
InDay none = Unit {0}
InDay (some b) = b ≤ 3

-- The times of day, one by one.
on_times :
    (P : Option ℕ → Type 0)
    → P none
    → P (some 0)
    → P (some 1)
    → P (some 2)
    → P (some 3)
    → (t : Option ℕ) → InDay t
    → P t
on_times P n a b c d none h = n
on_times P n a b c d (some zero) h = a
on_times P n a b c d (some (suc zero)) h = b
on_times P n a b c d (some (suc (suc zero))) h = c
on_times P n a b c d (some (suc (suc (suc zero)))) h = d
on_times P n a b c d (some (suc (suc (suc (suc t))))) h = absurd (omega (arith, h))

abbrev at : Bool → Activity → Option ℕ → Context
at b a t = record { on_battery = b; activity = a; tod = t }

abbrev Found : Bool → Activity → Option ℕ → Type 0
Found b a t = read_key (key (at b a t)) ≡ some (at b a t)

found : (b : Bool) (a : Activity) (t : Option ℕ) → InDay t → Found b a t
unfolding read_key key text_eq
found false idle t h = on_times (Found false idle) refl refl refl refl refl t h
found false interactive t h = on_times (Found false interactive) refl refl refl refl refl t h
found false high_load t h = on_times (Found false high_load) refl refl refl refl refl t h
found true idle t h = on_times (Found true idle) refl refl refl refl refl t h
found true interactive t h = on_times (Found true interactive) refl refl refl refl refl t h
found true high_load t h = on_times (Found true high_load) refl refl refl refl refl t h

-- No two contexts share a key, so each is found again from its own.
read_key-key : (c : Context) → InDay c.tod → read_key (key c) ≡ some c
read_key-key c h = found c.on_battery c.activity c.tod h

-- A time of day always lies in the day.
pub with_time_of_day-InDay :
    (seconds : ℤ) (enabled : Bool) (c : Context) → InDay (with_time_of_day seconds enabled c).tod
unfolding with_time_of_day bucket_of
with_time_of_day-InDay seconds false c = tt
with_time_of_day-InDay seconds true c = ground arith

abbrev Taken : Bool → Activity → Option ℕ → Type 0
Taken b a t =
    import_context (key (at b a t))
    ≡ (if is_idle a && not (is_some t) then some (key (at b a t)) else none)

taken : (b : Bool) (a : Activity) (t : Option ℕ) → InDay t → Taken b a t
unfolding import_context key text_eq
taken false idle t h = on_times (Taken false idle) refl refl refl refl refl t h
taken false interactive t h = on_times (Taken false interactive) refl refl refl refl refl t h
taken false high_load t h = on_times (Taken false high_load) refl refl refl refl refl t h
taken true idle t h = on_times (Taken true idle) refl refl refl refl refl t h
taken true interactive t h = on_times (Taken true interactive) refl refl refl refl refl t h
taken true high_load t h = on_times (Taken true high_load) refl refl refl refl refl t h

-- Of the baselines that were saved under the key of a context, a restart takes back those of an idle
-- machine with no time of day, and drops all others.
pub import_context-key :
    (c : Context)
    → InDay c.tod
    → import_context (key c)
      ≡ (if is_idle c.activity && not (is_some c.tod) then some (key c) else none)
import_context-key c h = taken c.on_battery c.activity c.tod h
