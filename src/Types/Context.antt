-- ===== src/Types/Context.antt =====
-- jamsys-daemon/src/types.rs, `Context`: in which situation a measurement was taken, which is the key
-- of its baseline, and `import` of jamsys-daemon/src/anomaly/baseline.rs, which takes a saved key back.
pub mod Laws
mod Tests
use jamsys.Prelude.{
  ◌&&◌, ◌||◌, ℕ, ◌+◌, ◌-◌, ◌*◌, ◌/◌, ◌%◌, Bool, true, false, Option, none, some, List, [], ◌∷◌, leb,
  if◌then◌else◌, Text, codes, text_eq, get_elem?, unwrap_or, min,
}
use jamsys.Prelude.Real.{Real}
use jamsys.Prelude.Int.{ℤ, pos, negsuc}

pub data Activity : Type 0 where
  idle interactive high_load : Activity

-- From the load of the processor, of the graphics card and of the disk.
unfoldable pub classify {ℓ} : {F : Type ℓ} ⦃d : Real F⦄ → F → F → F → F → Activity
classify ⦃d⦄ cpu_pct gpu_pct disk_bps idle_cpu_pct =
    if d.le (d.of_ℕ 60) cpu_pct || d.le (d.of_ℕ 50) gpu_pct
    then high_load
    else if d.lt cpu_pct idle_cpu_pct && d.lt gpu_pct (d.of_ℕ 5) && d.lt disk_bps (d.of_ℕ 2_000_000)
    then idle
    else interactive

abbrev pub is_idle : Activity → Bool
is_idle idle = true
is_idle _ = false

abbrev index : Activity → ℕ
index idle = 0
index interactive = 1
index high_load = 2

pub record Context : Type 0 where
  pub on_battery : Bool
  pub activity : Activity
  pub tod : Option ℕ

abbrev pub new : Bool → Activity → Context
new on_battery activity = record { on_battery = on_battery; activity = activity; tod = none }

-- `local.rem_euclid(86_400)`.
abbrev second_of_day : ℤ → ℕ
second_of_day (pos n) = n % 86_400
second_of_day (negsuc n) = 86_399 - n % 86_400

-- The bucket of a local time in seconds; libc's offset is in it already.
unfoldable pub bucket_of : ℤ → ℕ
bucket_of seconds =
    let hour = second_of_day seconds / 3600 in
    if leb hour 5 then 0 else if leb hour 11 then 1 else if leb hour 17 then 2 else 3

unfoldable pub with_time_of_day : ℤ → Bool → Context → Context
unfolding bucket_of
with_time_of_day seconds enabled c = record c {
  tod = if enabled then some (bucket_of seconds) else none;
}

abbrev base_keys : List Text
base_keys =
    codes "ac:idle"
    ∷ codes "ac:interactive"
    ∷ codes "ac:load"
    ∷ codes "bat:idle"
    ∷ codes "bat:interactive"
    ∷ codes "bat:load"
    ∷ []

abbrev tod_keys : List (List Text)
tod_keys =
    (codes "ac:idle:night"
      ∷ codes "ac:idle:morning"
      ∷ codes "ac:idle:afternoon"
      ∷ codes "ac:idle:evening"
      ∷ [])
    ∷ (codes "ac:interactive:night"
        ∷ codes "ac:interactive:morning"
        ∷ codes "ac:interactive:afternoon"
        ∷ codes "ac:interactive:evening"
        ∷ [])
    ∷ (codes "ac:load:night"
        ∷ codes "ac:load:morning"
        ∷ codes "ac:load:afternoon"
        ∷ codes "ac:load:evening"
        ∷ [])
    ∷ (codes "bat:idle:night"
        ∷ codes "bat:idle:morning"
        ∷ codes "bat:idle:afternoon"
        ∷ codes "bat:idle:evening"
        ∷ [])
    ∷ (codes "bat:interactive:night"
        ∷ codes "bat:interactive:morning"
        ∷ codes "bat:interactive:afternoon"
        ∷ codes "bat:interactive:evening"
        ∷ [])
    ∷ (codes "bat:load:night"
        ∷ codes "bat:load:morning"
        ∷ codes "bat:load:afternoon"
        ∷ codes "bat:load:evening"
        ∷ [])
    ∷ []

-- Neither index is ever out of range.
unfoldable pub key : Context → Text
key c =
    let row = (if c.on_battery then 1 else 0) * 3 + index c.activity in
    elim c.tod [
      | none ↦ unwrap_or [] (get_elem? base_keys row)
      | some b ↦ unwrap_or [] (get_elem? (unwrap_or [] (get_elem? tod_keys row)) (min b 3))
    ]

-- The context of a saved baseline, or `none` where `import` drops it.
unfoldable pub import_context : Text → Option Text
import_context context =
    if text_eq context (codes "bat:idle")
    then some (codes "bat:idle")
    else if text_eq context (codes "bat:active")
    then some (codes "bat:active")
    else if text_eq context (codes "ac:idle")
    then some (codes "ac:idle")
    else if text_eq context (codes "ac:active")
    then some (codes "ac:active")
    else none
