-- ===== src/Netlink/Laws.antt =====
-- The loop ends on every datagram, and reads what the kernel writes.
use jamsys.Prelude.{
  ℕ, zero, suc, ◌+◌, ◌≤◌, ◌≡◌, refl, ◌||◌, some, List, [], ltb, length, Bool-cases, inl, inr, arith,
}
use jamsys.Netlink.{RouteEventKind, u16_at, u32_at, kind_of, keep, aligned, route_loop}

loop_ends :
    (f : ℕ) (buf : List ℕ) (off : ℕ)
    → length buf ≤ f + off
    → (out : List RouteEventKind) × (route_loop (suc f) buf off ≡ some out)
unfolding route_loop
loop_ends zero buf off h = ([], ground arith)
loop_ends (suc f) buf off h = elim (Bool-cases (ltb (length buf) (off + 16))) [
  | inl e ↦ ([], ground (arith, e))
  | inr e ↦ elim (Bool-cases (ltb (u32_at buf off) 16 || ltb (length buf) (off + u32_at buf off))) [
    | inl b ↦ ([], rw (e, b) refl)
    | inr b ↦
        let len = u32_at buf off in
        let wide : 16 ≤ len = ground (arith, b) in
        let (out, q) = loop_ends f buf (off + aligned len) (omega (arith, h, wide)) in
        (keep (kind_of (u16_at buf (off + 4))) out, rw (e, b, q) refl)
  ]
]

-- Whatever bytes arrive, malformed ones included, the loop over the datagram ends: its length and one
-- is fuel enough.
route_loop_total :
    (buf : List ℕ) → (out : List RouteEventKind) × (route_loop (suc (length buf)) buf 0 ≡ some out)
route_loop_total buf = loop_ends (length buf) buf 0 (omega arith)
