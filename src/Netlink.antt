-- ===== src/Netlink.antt =====
-- jamsys-daemon/src/netlink.rs, `parse_route_events`: the kinds of change that a datagram of the
-- kernel reports. Native byte order is little-endian, as on the machines that the program is built for.
pub mod Uevent
pub mod Laws
pub mod Write
mod Tests
use jamsys.Prelude.{
  ℕ, zero, suc, ◌+◌, ◌*◌, ◌/◌, Bool, true, false, ◌||◌, ◌==◌, Option, none, some, List, [], ◌∷◌,
  leb, ltb, if◌then◌else◌, length, get_elem?, unwrap_or,
}

pub data RouteEventKind : Type 0 where
  new_link del_link new_addr del_addr new_route del_route : RouteEventKind

-- An index that the tests before it keep in range.
abbrev pub byte_at : List ℕ → ℕ → ℕ
byte_at buf i = unwrap_or 0 (get_elem? buf i)

abbrev pub u16_at : List ℕ → ℕ → ℕ
u16_at buf i = byte_at buf i + 256 * byte_at buf (i + 1)

abbrev pub u32_at : List ℕ → ℕ → ℕ
u32_at buf i = u16_at buf i + 65_536 * u16_at buf (i + 2)

unfoldable pub kind_of : ℕ → Option RouteEventKind
kind_of ty =
    if ty == 16
    then some new_link
    else if ty == 17
    then some del_link
    else if ty == 20
    then some new_addr
    else if ty == 21
    then some del_addr
    else if ty == 24
    then some new_route
    else if ty == 25
    then some del_route
    else none

abbrev pub keep : Option RouteEventKind → List RouteEventKind → List RouteEventKind
keep none out = out
keep (some k) out = k ∷ out

-- `(len + 3) & !3`.
abbrev pub aligned : ℕ → ℕ
aligned len = (len + 3) / 4 * 4

-- The loop over `off`; `none` where the fuel runs out.
unfoldable pub route_loop : ℕ → List ℕ → ℕ → Option (List RouteEventKind)
unfolding kind_of
route_loop zero buf off = none
route_loop (suc f) buf off =
    let len = u32_at buf off in
    let rest = route_loop f buf (off + aligned len) in
    if ltb (length buf) (off + 16)
    then some []
    else if ltb len 16 || ltb (length buf) (off + len)
    then some []
    else elim rest [ none ↦ none | some out ↦ some (keep (kind_of (u16_at buf (off + 4))) out) ]

-- Every round goes forward, so the length and one is fuel enough.
unfoldable pub parse_route_events : List ℕ → List RouteEventKind
unfolding route_loop
parse_route_events buf = unwrap_or [] (route_loop (suc (length buf)) buf 0)
