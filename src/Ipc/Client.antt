-- ===== src/Ipc/Client.antt =====
-- jamsys-daemon/src/ipc.rs, `Client`: requests are lines, answers are buffered. What the socket answers
-- to each read and write is an argument, as is `understand`, which trims one line and reads its JSON.
pub mod Laws
pub mod Limits
mod Tests
use jamsys.Prelude.{
  ℕ, zero, suc, ◌+◌, ◌*◌, ◌^◌, Bool, true, false, not, ◌||◌, ◌==◌, Option, none, some, List, [],
  ◌∷◌, ◌++◌, ltb, if◌then◌else◌, length, drop, any, Text, text_eq,
}
use jamsys.Prelude.Results.{Result, ok, err}

abbrev pub Bytes : Type 0
Bytes = List ℕ

abbrev pub max_line : ℕ
max_line = 64 * 1024

abbrev pub max_inbuf : ℕ
max_inbuf = 1024 * 1024

abbrev pub max_outbuf : ℕ
max_outbuf = 4 * 2 ^ 20

-- One answer of the socket.
pub data ReadAnswer : Type 0 where
  chunk : Bytes → ReadAnswer
  closed would_block interrupted read_failed : ReadAnswer

pub data WriteAnswer : Type 0 where
  wrote : ℕ → WriteAnswer
  full retry write_failed : WriteAnswer

-- Why the connection is dropped.
pub data Drop : Type 0 where
  peer_closed line_too_long backlog io : Drop

abbrev has_newline : Bytes → Bool
has_newline s = any (λ b. b == b'\n') s

-- The length of what follows the last newline, or of everything.
unfoldable pub tail_len : Bytes → ℕ
tail_len [] = 0
tail_len (b ∷ s) =
    let rest = tail_len s in
    if has_newline s then rest else if b == b'\n' then length s else suc (length s)

-- The loop that reads, until the socket would block.
unfoldable pub fill : List ReadAnswer → Bytes → Result Drop Bytes
unfolding tail_len
fill [] inbuf = ok inbuf
fill (chunk c ∷ answers) inbuf =
    let longer = inbuf ++ c in
    let rest = fill answers longer in
    if ltb max_line (tail_len longer)
    then err line_too_long
    else if ltb max_inbuf (length longer)
    then err backlog
    else rest
fill (closed ∷ answers) inbuf = err peer_closed
fill (would_block ∷ answers) inbuf = ok inbuf
fill (interrupted ∷ answers) inbuf = fill answers inbuf
fill (read_failed ∷ answers) inbuf = err io

-- The buffer that is left, and whether the connection is still good.
unfoldable pub flush : List WriteAnswer → Bytes → Bytes × Bool
flush answers [] = ([], true)
flush [] (b ∷ s) = (b ∷ s, not (ltb max_outbuf (length (b ∷ s))))
flush (wrote n ∷ answers) (b ∷ s) =
    let rest = flush answers (drop n (b ∷ s)) in
    if n == 0 then (b ∷ s, not (ltb max_outbuf (length (b ∷ s)))) else rest
flush (full ∷ answers) (b ∷ s) = (b ∷ s, not (ltb max_outbuf (length (b ∷ s))))
flush (retry ∷ answers) (b ∷ s) = flush answers (b ∷ s)
flush (write_failed ∷ answers) (b ∷ s) = (b ∷ s, false)

-- `body` is the JSON of the answer.
unfoldable pub send : List WriteAnswer → Bytes → Bytes → Bytes × Bool
unfolding flush
send answers body outbuf = flush answers (outbuf ++ (body ++ (b'\n' ∷ [])))

-- The bytes before the first newline, and those after it.
unfoldable pub first_line : Bytes → Option (Bytes × Bytes)
first_line [] = none
first_line (b ∷ s) =
    if b == b'\n'
    then some ([], s)
    else elim (first_line s) [ none ↦ none | some (line, rest) ↦ some (b ∷ line, rest) ]

-- What a trimmed line is; a malformed one comes with the answer to it.
pub data Line {ℓ} (R : Type ℓ) : Type ℓ where
  blank : Line R
  request : R → Line R
  malformed : Bytes → Line R

-- The buffers, and when something of the peer was last there.
pub record Client : Type 0 where
  pub inbuf : Bytes
  pub outbuf : Bytes
  pub last_active_mono : ℕ

module _ {ℓ} {R : Type ℓ} (understand : Bytes → Line R) (writes : Bytes → List WriteAnswer) where
  -- One line. Whether the answer to a malformed one gets through is not looked at.
  unfoldable pub take_line : Bytes → List R → Bytes → List R × Bytes
  unfolding send
  take_line line out outbuf = elim (understand line) [
    | blank ↦ (out, outbuf)
    | request r ↦ (out ++ (r ∷ []), outbuf)
    | malformed body ↦ (out, (send (writes outbuf) body outbuf).0)
  ]

  -- Every round takes a newline out, so the length of the buffer is fuel enough.
  unfoldable pub take_lines : ℕ → List R → Client → Result Drop (List R × Client)
  unfolding first_line take_line
  take_lines zero out b = ok (out, b)
  take_lines (suc f) out b = elim (first_line b.inbuf) [
    | none ↦ ok (out, b)
    | some (line, rest) ↦
        let (more, outbuf) = take_line line out b.outbuf in
        let next = take_lines f more (record b { inbuf = rest; outbuf = outbuf }) in
        if ltb max_line (length line) then err line_too_long else next
  ]

  unfoldable pub read_requests : ℕ → List ReadAnswer → Client → Result Drop (List R × Client)
  unfolding fill take_lines
  read_requests now answers b = elim (fill answers b.inbuf) [
    | err e ↦ err e
    | ok inbuf ↦
        let last = if length inbuf == 0 then b.last_active_mono else now in
        take_lines (length inbuf) [] (record b { inbuf = inbuf; last_active_mono = last })
  ]

unfoldable pub wants : Text → List Text → Bool
wants topic subscriptions = any (λ t. text_eq t topic) subscriptions
