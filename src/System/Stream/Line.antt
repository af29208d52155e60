-- ===== src/System/Stream/Line.antt =====
-- The loop that reads a line: when it ends, and that it does not end without a line break.
use julius_os.Prelude.{
  ℕ, zero, suc, ◌<◌, ◌≡◌, refl, sym, ap, ◌∙◌, Bool, true, false, ◌||◌, none, some, [], ◌∷◌, ◌++◌,
  arith, length, take, drop, nonempty, take-append-drop, append_assoc, ◌==◌, if◌then◌else◌,
}
use julius_os.System.Stream.{Bytes, Segments, bytes, AllArrive, recv, has_newline, read_line}

pub has_newline-append :
    (xs ys : Bytes) → has_newline (xs ++ ys) ≡ (has_newline xs || has_newline ys)
unfolding has_newline
has_newline-append [] ys = refl
has_newline-append (x ∷ xs) ys = ground (arith, has_newline-append xs ys)

or-left : (a b : Bool) → (a || b) ≡ false → a ≡ false
or-left true b h = h
or-left false b h = refl

or-right : (a b : Bool) → (a || b) ≡ false → b ≡ false
or-right true b h = cc
or-right false b h = h

-- What is left of the first piece is the next piece, if it has a byte.
bytes-left : (d : Bytes) (ss : Segments) → bytes (if nonempty d then d ∷ ss else ss) ≡ d ++ bytes ss
bytes-left [] ss = refl
bytes-left (x ∷ d) ss = refl

left-AllArrive :
    (d : Bytes) (ss : Segments) → AllArrive ss → AllArrive (if nonempty d then d ∷ ss else ss)
left-AllArrive [] ss h = h
left-AllArrive (x ∷ d) ss h = (omega arith, h)

pub recv-AllArrive : (n : ℕ) (segs : Segments) → AllArrive segs → AllArrive (recv n segs).1
unfolding recv
recv-AllArrive n [] h = tt
recv-AllArrive n (s ∷ ss) h = left-AllArrive (drop n s) ss h.1

-- Some bytes are taken off the front, and the rest still arrives.
pub recv-bytes : (n : ℕ) (segs : Segments) → (recv n segs).0 ++ bytes (recv n segs).1 ≡ bytes segs
unfolding recv
recv-bytes n [] = refl
recv-bytes n (s ∷ ss) =
    ap (λ v. take n s ++ v) (bytes-left (drop n s) ss)
    ∙ sym (append_assoc (take n s) (drop n s) (bytes ss))
    ∙ ap (λ v. v ++ bytes ss) (take-append-drop n s)

-- A connection that gives no line break keeps the loop going, whatever the number of rounds.
pub read_line-none :
    (fuel : ℕ) (header : Bytes) (segs : Segments)
    → has_newline (header ++ bytes segs) ≡ false
    → read_line fuel header segs ≡ none
unfolding read_line
read_line-none zero header segs h =
    rw (or-left (has_newline header) _ (sym (has_newline-append header (bytes segs)) ∙ h)) refl
read_line-none (suc fuel) header segs h =
    rw (or-left (has_newline header) _ (sym (has_newline-append header (bytes segs)) ∙ h)) (
      read_line-none fuel (header ++ (recv 1 segs).0) (recv 1 segs).1 (
        ap has_newline (
          append_assoc header (recv 1 segs).0 (bytes (recv 1 segs).1)
          ∙ ap (λ v. header ++ v) (recv-bytes 1 segs))
        ∙ h))

recv_one :
    (segs : Segments) (c : ℕ) (cs : Bytes)
    → AllArrive segs
    → bytes segs ≡ c ∷ cs
    → (recv 1 segs).0 ≡ c ∷ []
unfolding recv
recv_one [] c cs h e = cc
recv_one ([] ∷ ss) c cs h e = absurd (omega (arith, h.0))
recv_one ((x ∷ xs) ∷ ss) c cs h e = ap (λ (v : Bytes). take 1 v) e

left_one :
    (segs : Segments) (c : ℕ) (cs : Bytes)
    → AllArrive segs
    → bytes segs ≡ c ∷ cs
    → bytes (recv 1 segs).1 ≡ cs
left_one segs c cs a e =
    ap (λ (v : Bytes). drop 1 v)
      (ap (λ v. v ++ bytes (recv 1 segs).1) (sym (recv_one segs c cs a e)) ∙ recv-bytes 1 segs ∙ e)

no_newline_snoc :
    (header : Bytes) (c : ℕ)
    → has_newline header ≡ false
    → (c == 10) ≡ false
    → has_newline (header ++ c ∷ []) ≡ false
unfolding has_newline
no_newline_snoc header c h k = rw (has_newline-append header (c ∷ []), h, k) refl

newline_snoc : (header : Bytes) → has_newline (header ++ 10 ∷ []) ≡ true
unfolding has_newline
newline_snoc [] = refl
newline_snoc (x ∷ xs) = ground (arith, newline_snoc xs)

ended :
    (fuel : ℕ) (header : Bytes) (segs : Segments)
    → has_newline header ≡ true
    → read_line fuel header segs ≡ some (header, segs)
unfolding read_line
ended zero header segs h = rw h refl
ended (suc fuel) header segs h = rw h refl

-- As many rounds as the line has bytes, its break included, read it, and what follows still
-- arrives.
pub read_line-some :
    (line : Bytes) (fuel : ℕ) (header rest : Bytes) (segs : Segments)
    → AllArrive segs
    → has_newline header ≡ false
    → has_newline line ≡ false
    → bytes segs ≡ line ++ 10 ∷ rest
    → length line < fuel
    → (segs' : Segments) × (read_line fuel header segs ≡ some (header ++ (line ++ 10 ∷ []), segs'))
      × (bytes segs' ≡ rest)
      × AllArrive segs'
unfolding read_line has_newline
read_line-some line zero header rest segs a h l e k = absurd (omega arith)
read_line-some [] (suc fuel) header rest segs a h l e k =
    let one = recv_one segs 10 rest a e in
    (
      (recv 1 segs).1,
      rw (h, one) (ended fuel (header ++ 10 ∷ []) (recv 1 segs).1 (newline_snoc header)),
      left_one segs 10 rest a e,
      recv-AllArrive 1 segs a,
    )
read_line-some (c ∷ line) (suc fuel) header rest segs a h l e k =
    let one = recv_one segs c (line ++ 10 ∷ rest) a e in
    let (segs', r, b, a') =
      read_line-some line fuel (header ++ c ∷ []) rest (recv 1 segs).1 (recv-AllArrive 1 segs a)
        (no_newline_snoc header c h (or-left (c == 10) (has_newline line) l))
        (or-right (c == 10) (has_newline line) l) (left_one segs c (line ++ 10 ∷ rest) a e)
        (omega arith) in
    (
      segs',
      rw (h, one) (r ∙ ap (λ v. some (v, segs')) (append_assoc header (c ∷ []) (line ++ 10 ∷ []))),
      b,
      a',
    )
