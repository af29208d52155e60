-- ===== src/System/Stream/Body.antt =====
-- The loop that reads a number of bytes: it ends, with those bytes or all that arrive.
use julius_os.Prelude.{
  ℕ, zero, suc, ◌+◌, ◌-◌, ◌≤◌, ◌<◌, ◌≡◌, refl, sym, ap, subst, ◌∙◌, min, Bool, true, false, some,
  [], ◌∷◌, ◌++◌, arith, length, take, drop, nonempty, length-take, length-append, length-nonempty,
  append_assoc, append-nil, ltb, ltb→lt,
}
use julius_os.System.Stream.{Bytes, Segments, bytes, AllArrive, recv, read_body}
use julius_os.System.Stream.Line.{recv-bytes, recv-AllArrive}

take_nil : (n : ℕ) → take {A = ℕ} n [] ≡ []
take_nil zero = refl
take_nil (suc n) = refl

take-split : (k : ℕ) (p q : Bytes) → length p ≤ k → take k (p ++ q) ≡ p ++ take (k - length p) q
take-split k [] q h = ap (λ n. take n q) {x = k} {y = k - 0} (omega arith)
take-split zero (x ∷ p) q h = absurd (omega arith)
take-split (suc k) (x ∷ p) q h =
    ap (λ v. x ∷ v)
      (take-split k p q (omega arith)
        ∙ ap (λ n. p ++ take n q) {x = k - length p} {y = suc k - suc (length p)} (omega arith))

drop-split : (k : ℕ) (p q : Bytes) → length p ≤ k → drop k (p ++ q) ≡ drop (k - length p) q
drop-split k [] q h = ap (λ n. drop n q) {x = k} {y = k - 0} (omega arith)
drop-split zero (x ∷ p) q h = absurd (omega arith)
drop-split (suc k) (x ∷ p) q h =
    drop-split k p q (omega arith)
    ∙ ap (λ n. drop n q) {x = k - length p} {y = suc k - suc (length p)} (omega arith)

drop_nil : (n : ℕ) → drop {A = ℕ} n [] ≡ []
drop_nil zero = refl
drop_nil (suc n) = refl

drop_none : (n : ℕ) → n ≤ 0 → (b : Bytes) → drop n b ≡ b
drop_none zero h b = refl
drop_none (suc n) h b = absurd (omega arith)

recv-length : (n : ℕ) (segs : Segments) → length (recv n segs).0 ≤ n
unfolding recv
recv-length n [] = omega arith
recv-length n (s ∷ ss) = omega (arith, length-take n s)

-- No byte comes only once the connection is closed.
recv-closed :
    (n : ℕ) (segs : Segments)
    → 0 < n
    → AllArrive segs
    → nonempty (recv n segs).0 ≡ false
    → bytes segs ≡ []
unfolding recv
recv-closed zero segs p a e = absurd (omega arith)
recv-closed (suc n) [] p a e = refl
recv-closed (suc n) ([] ∷ ss) p a e = absurd (omega (arith, a.0))
recv-closed (suc n) ((x ∷ s) ∷ ss) p a e = cc

no_more : (n : ℕ) → n ≤ 0 → (b : Bytes) → take n b ≡ []
no_more zero h b = refl
no_more (suc n) h b = absurd (omega arith)

lt_false : (size : ℕ) (b : Bytes) → size ≤ length b → ltb (length b) size ≡ false
lt_false size b h = ground arith

at_size : (size : ℕ) (b : Bytes) → ltb (length b) size ≡ false → size ≤ length b
at_size size b e = ground arith

nothing_behind : (p q : Bytes) → p ++ q ≡ [] → q ≡ []
nothing_behind [] q e = e
nothing_behind (x ∷ p) q e = cc

all_written :
    (size : ℕ) (written b : Bytes)
    → size ≤ length written
    → written ≡ written ++ take (size - length written) b
all_written size written b h =
    sym (append-nil written)
    ∙ ap (λ v. written ++ v) (sym (no_more (size - length written) (omega arith) b))

none_left : (k : ℕ) (written b : Bytes) → b ≡ [] → written ≡ written ++ take k b
none_left k written b e =
    sym (append-nil written) ∙ ap (λ v. written ++ v) (sym (ap (take k) e ∙ take_nil k))

-- One piece more, and the rest of what is wanted.
one_more :
    (size m : ℕ) (written : Bytes) (segs : Segments)
    → m ≤ size - length written
    → (written ++ (recv m segs).0)
        ++ take (size - length (written ++ (recv m segs).0)) (bytes (recv m segs).1)
      ≡ written ++ take (size - length written) (bytes segs)
one_more size m written segs h =
    let got = (recv m segs).0 in
    let wanted = size - length written in
    let short = recv-length m segs in
    append_assoc written got _
    ∙ ap (λ v. written ++ v)
        (ap (λ n. got ++ take n (bytes (recv m segs).1)) {x = size - length (written ++ got)}
            {y = wanted - length got} (omega (arith, length-append written got))
          ∙ sym (take-split wanted got (bytes (recv m segs).1) (omega (arith, short)))
          ∙ ap (take wanted) (recv-bytes m segs))

-- What is left after one piece more.
one_less :
    (size m : ℕ) (written : Bytes) (segs : Segments)
    → m ≤ size - length written
    → drop (size - length (written ++ (recv m segs).0)) (bytes (recv m segs).1)
      ≡ drop (size - length written) (bytes segs)
one_less size m written segs h =
    let got = (recv m segs).0 in
    let wanted = size - length written in
    let short = recv-length m segs in
    ap (λ n. drop n (bytes (recv m segs).1)) {x = size - length (written ++ got)}
      {y = wanted - length got} (omega (arith, length-append written got))
    ∙ sym (drop-split wanted got (bytes (recv m segs).1) (omega (arith, short)))
    ∙ ap (drop wanted) (recv-bytes m segs)

-- The loop ended with the next bytes, up to the number or to the end of the connection, and what
-- follows them still arrives.
abbrev pub Reads : ℕ → ℕ → Bytes → Segments → Type 0
Reads fuel size written segs =
    (segs' : Segments) × (read_body fuel size written segs
      ≡ some (written ++ take (size - length written) (bytes segs), segs'))
    × (bytes segs' ≡ drop (size - length written) (bytes segs))
    × AllArrive segs'

-- As many rounds as there are bytes to come are enough.
pub read_body-Reads :
    (fuel size : ℕ) (written : Bytes) (segs : Segments)
    → AllArrive segs
    → size ≤ length written + fuel
    → Reads fuel size written segs
unfolding read_body
read_body-Reads zero size written segs a h = (
  segs,
  rw (lt_false size written (omega arith)) refl
      ∙ ap (λ v. some (v, segs)) (all_written size written (bytes segs) (omega arith)),
  sym (drop_none (size - length written) (omega arith) (bytes segs)),
  a,
)
read_body-Reads (suc fuel) size written segs a h =
    on_more (ltb (length written) size) refl (λ w k. read_body-Reads fuel size w r.1 a' k)
  where
    m : ℕ
    m = min 4096 (size - length written)

    r : Bytes × Segments
    r = recv m segs

    a' : AllArrive r.1
    a' = recv-AllArrive m segs a

    on_piece :
        (b : Bool)
        → nonempty r.0 ≡ b
        → ltb (length written) size ≡ true
        → ((w : Bytes) → size ≤ length w + fuel → Reads fuel size w r.1)
        → Reads (suc fuel) size written segs
    on_piece true n e rec =
        let (segs', q, left, arrives) =
          rec (written ++ r.0) (omega (arith, length-append written r.0, length-nonempty r.0 n)) in
        (
          segs',
          rw (e, n) (q ∙ ap (λ v. some (v, segs')) (one_more size m written segs (omega arith))),
          left ∙ one_less size m written segs (omega arith),
          arrives,
        )
    on_piece false n e rec =
        let closed = recv-closed m segs (omega (arith, ltb→lt (length written) size e)) a n in
        (
          r.1,
          rw (e, n)
              (ap (λ v. some (v, r.1))
                (none_left (size - length written) written (bytes segs) closed)),
          ended closed,
          a',
        )
      where
        ended : bytes segs ≡ [] → bytes r.1 ≡ drop (size - length written) (bytes segs)
        ended closed =
            nothing_behind r.0 (bytes r.1) (recv-bytes m segs ∙ closed)
            ∙ sym (ap (drop (size - length written)) closed ∙ drop_nil (size - length written))

    on_more :
        (b : Bool)
        → ltb (length written) size ≡ b
        → ((w : Bytes) → size ≤ length w + fuel → Reads fuel size w r.1)
        → Reads (suc fuel) size written segs
    on_more true e rec = on_piece (nonempty r.0) refl e rec
    on_more false e rec = (
      segs,
      rw e (
          ap (λ v. some (v, segs))
            (all_written size written (bytes segs) (at_size size written e))),
      sym (drop_none (size - length written) (omega (arith, at_size size written e)) (bytes segs)),
      a,
    )

-- The same from the first round on.
pub read_body-whole :
    (fuel size : ℕ) (segs : Segments)
    → AllArrive segs
    → size ≤ fuel
    → (segs' : Segments) × (read_body fuel size [] segs ≡ some (take size (bytes segs), segs'))
      × (bytes segs' ≡ drop size (bytes segs))
      × AllArrive segs'
read_body-whole fuel size segs a h =
    subst
      (λ n.
        (segs' : Segments) × (read_body fuel size [] segs ≡ some (take n (bytes segs), segs'))
        × (bytes segs' ≡ drop n (bytes segs))
        × AllArrive segs')
      {x = size - 0} {y = size} (omega arith) (read_body-Reads fuel size [] segs a (omega arith))
