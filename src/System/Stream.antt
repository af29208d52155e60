-- ===== src/System/Stream.antt =====
-- The bytes that a TCP connection of src/system/julius_drop.py or src/system/julius_cloud.py gives,
-- and the two loops that read them: up to a line break, and up to a number of bytes.
pub mod Line
pub mod Body
pub use julius_os.System.Bytes.{Bytes}
use julius_os.Prelude.{
  ℕ, zero, suc, ◌+◌, ◌-◌, ◌<◌, ◌≡◌, min, Bool, true, false, Option, none, some, List, [], ◌∷◌, ◌++◌,
  length, take, drop, nonempty, ltb, ◌||◌, ◌==◌, if◌then◌else◌,
}

-- What will still arrive before the peer closes the connection, in the pieces in which it arrives.
abbrev pub Segments : Type 0
Segments = List Bytes

abbrev pub bytes : Segments → Bytes
bytes [] = []
bytes (s ∷ ss) = s ++ bytes ss

-- No piece is empty.
abbrev pub AllArrive : Segments → Type 0
AllArrive [] = Unit
AllArrive (s ∷ ss) = (0 < length s) × AllArrive ss

-- `conn.recv(n)`: at most n bytes of the next piece, and no byte once the connection is closed.
unfoldable pub recv : ℕ → Segments → Bytes × Segments
recv n [] = ([], [])
recv n (s ∷ ss) = (take n s, if nonempty (drop n s) then drop n s ∷ ss else ss)

-- `b"\n" in header`
unfoldable pub has_newline : Bytes → Bool
has_newline [] = false
has_newline (c ∷ cs) = c == 10 || has_newline cs

-- `while b"\n" not in header: header += conn.recv(1)`. The fuel is a number of rounds; `none` is
-- a loop that is not over after them.
unfoldable pub read_line : ℕ → Bytes → Segments → Option (Bytes × Segments)
unfolding has_newline recv
read_line zero header segs = if has_newline header then some (header, segs) else none
read_line (suc fuel) header segs =
    let r = recv 1 segs in
    let rest = read_line fuel (header ++ r.0) r.1 in
    if has_newline header then some (header, segs) else rest

-- `while received < size`, with `recv(min(4096, size-received))` and a break at the end of the
-- connection. `written` are the bytes so far, and `received` is their number.
unfoldable pub read_body : ℕ → ℕ → Bytes → Segments → Option (Bytes × Segments)
unfolding recv
read_body zero size written segs = if ltb (length written) size then none else some (written, segs)
read_body (suc fuel) size written segs =
    let r = recv (min 4096 (size - length written)) segs in
    let rest = read_body fuel size (written ++ r.0) r.1 in
    if ltb (length written) size
    then (if nonempty r.0 then rest else some (written, r.1))
    else some (written, segs)
