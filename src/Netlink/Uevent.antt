-- ===== src/Netlink/Uevent.antt =====
-- jamsys-daemon/src/netlink.rs, `parse_uevent`: a device was added or removed. `utf8` says which bytes
-- are a text.
use jamsys.Prelude.{
  ℕ, Bool, ◌&&◌, ◌==◌, Option, none, some, is_some, List, [], ◌∷◌, if◌then◌else◌, Text, codes,
  text_eq, is_empty, strip_prefix, keep_if, not,
}

pub record Uevent : Type 0 where
  pub action : Text
  pub subsystem : Text
  pub devpath : Text
  pub devname : Text

-- `buf.split(|&b| b == 0)`: one part more than there are zeros.
unfoldable pub split_zeros : List ℕ → List (List ℕ)
split_zeros [] = [] ∷ []
split_zeros (b ∷ s) =
    let parts = split_zeros s in
    if b == 0
    then [] ∷ parts
    else elim parts [ [] ↦ (b ∷ []) ∷ [] | part ∷ more ↦ (b ∷ part) ∷ more ]

-- `str::split_once`.
unfoldable pub split_once : ℕ → Text → Option (Text × Text)
split_once sep [] = none
split_once sep (c ∷ s) =
    if c == sep
    then some ([], s)
    else elim (split_once sep s) [ none ↦ none | some (before, after) ↦ some (c ∷ before, after) ]

unfoldable pub set_field : Text → Text → Uevent → Uevent
set_field k v ev =
    if text_eq k (codes "SUBSYSTEM")
    then record ev { subsystem = v }
    else if text_eq k (codes "DEVNAME")
    then record ev { devname = v }
    else if text_eq k (codes "ACTION") && is_empty ev.action
    then record ev { action = v }
    else ev

module _ (utf8 : List ℕ → Bool) where
  -- A part that is no text, or has no `=`, is passed over.
  unfoldable pub read_fields : List (List ℕ) → Uevent → Uevent
  unfolding split_once set_field
  read_fields [] ev = ev
  read_fields (p ∷ parts) ev = read_fields parts (
      if utf8 p
      then (elim (split_once b'=' p) [ none ↦ ev | some (k, v) ↦ set_field k v ev ])
      else ev)

  unfoldable pub read_header : List ℕ → List (List ℕ) → Option Uevent
  unfolding split_once read_fields
  read_header header parts =
      if utf8 header
      then (elim (split_once b'@' header) [
        | none ↦ none
        | some (action, devpath) ↦
            let ev =
              read_fields parts
                (record { action = action; subsystem = []; devpath = devpath; devname = [] }) in
            if is_empty ev.action then none else some ev
      ])
      else none

  unfoldable pub parse_uevent : List ℕ → Option Uevent
  unfolding split_zeros read_header
  parse_uevent buf =
      if is_some (strip_prefix (codes "libudev\0") buf)
      then none
      else elim (keep_if (λ p. not (is_empty p)) (split_zeros buf)) [
        | [] ↦ none
        | header ∷ parts ↦ read_header header parts
      ]
