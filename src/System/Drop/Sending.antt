-- ===== src/System/Drop/Sending.antt =====
-- A file on its way through `send_file` and `handle_receive` of src/system/julius_drop.py.
use julius_os.Prelude.{
  ℕ, zero, suc, ◌+◌, ◌<◌, ◌≡◌, refl, sym, ap, ap₂, ◌∙◌, Bool, true, false, Option, none, some, [],
  ◌∷◌, ◌++◌, arith, length, take, drop, take_all, take-append-drop, append_assoc, append-nil,
  length-append, ◌==◌, if◌then◌else◌,
}
use mathlib.Core.Option.{some-injective}
use julius_os.Prelude.Text.{Text, codes, starts_with}
use julius_os.System.Stream.{Bytes, Segments, bytes, AllArrive, has_newline}
use julius_os.System.Stream.Line.{read_line-none, read_line-some}
use julius_os.System.Stream.Body.{read_body-whole}
use julius_os.System.Drop.{
  Drop, received, drop_dir, join_path, basename, basename_from, send_chunks, received_body,
  received_header, received_line, handle_receive, sent_bytes, received_file,
}

-- The rounds of the sending loop send every byte, in order.
send_chunks-some :
    (fuel : ℕ) (wire content : Bytes)
    → length content < fuel
    → send_chunks fuel wire content ≡ some (wire ++ content)
unfolding send_chunks
send_chunks-some zero wire content h = absurd (omega arith)
send_chunks-some (suc fuel) wire [] h = ap some (sym (append-nil wire))
send_chunks-some (suc fuel) wire (c ∷ cs) h =
    send_chunks-some fuel (wire ++ c ∷ take 4095 cs) (drop 4095 cs) (
      omega (
        arith,
        length-append (take 4095 cs) (drop 4095 cs),
        ap (λ v. length v) (take-append-drop 4095 cs),
      ))
    ∙ ap some (
        append_assoc wire (c ∷ take 4095 cs) (drop 4095 cs)
        ∙ ap (λ v. wire ++ c ∷ v) (take-append-drop 4095 cs))

starts-snoc :
    (base : Text) (c : ℕ)
    → starts_with (codes "/") base ≡ false
    → (c == b'/') ≡ false
    → starts_with (codes "/") (base ++ c ∷ []) ≡ false
starts-snoc [] c h k = ground arith
starts-snoc (x ∷ base) c h k = ground arith

-- A name without a directory is put into the drop directory.
basename-plain :
    (base t : Text)
    → starts_with (codes "/") base ≡ false
    → starts_with (codes "/") (basename_from base t) ≡ false
unfolding basename_from
basename-plain base [] h = h
basename-plain base (c ∷ cs) h =
    on_slash (c == b'/') refl (basename-plain [] cs refl)
      (λ k. basename-plain (base ++ c ∷ []) cs (starts-snoc base c h k))
  where
    on_slash :
        (b : Bool)
        → (c == b'/') ≡ b
        → starts_with (codes "/") (basename_from [] cs) ≡ false
        → ((c == b'/') ≡ false
            → starts_with (codes "/") (basename_from (base ++ c ∷ []) cs) ≡ false)
        → starts_with
            (codes "/")
            (if b then basename_from [] cs else basename_from (base ++ c ∷ []) cs)
          ≡ false
    on_slash true e fresh longer = fresh
    on_slash false e fresh longer = longer e

join-basename : (path : Text) → join_path (basename path) ≡ drop_dir ++ basename path
unfolding join_path basename
join-basename path = rw (basename-plain [] path refl) refl

module _ (loads : Bytes → Option (Text × ℕ)) (dumps : Text → ℕ → Bytes)
    (cannot_open : Text → Bool) where
  -- A peer that closes the connection before a line break keeps `handle_receive` from ending,
  -- whatever the number of rounds.
  pub handle_receive-none :
      (fuel : ℕ) (from : Text) (segs : Segments) (s : Drop)
      → has_newline (bytes segs) ≡ false
      → handle_receive loads dumps cannot_open fuel from segs s ≡ none
  unfolding handle_receive received_line
  handle_receive-none fuel from segs s h = rw (read_line-none fuel [] segs h) refl

  -- If a header line and then some bytes arrive, in any pieces, the header gives a name and a
  -- size, and the file can be opened, then more rounds than the line and the size have bytes end
  -- the call: the first bytes, up to the size or to the end of the connection, are written to
  -- the file, and the transfer is listed with the size of the header.
  pub handle_receive-some :
      (fuel : ℕ) (from name : Text) (size : ℕ) (line rest : Bytes) (segs : Segments) (s : Drop)
      → AllArrive segs
      → bytes segs ≡ line ++ 10 ∷ rest
      → has_newline line ≡ false
      → loads (line ++ 10 ∷ []) ≡ some (name, size)
      → cannot_open (join_path name) ≡ false
      → length line + size < fuel
      → handle_receive loads dumps cannot_open fuel from segs s
        ≡ some (record s {
          written = (join_path name, take size rest) ∷ s.written;
          transfers =
              s.transfers
              ++ record { name = name; peer = from; size = size; direction = received } ∷ [];
          status = received_file name;
        })
  unfolding handle_receive received_line received_header received_body has_newline
  handle_receive-some fuel from name size line rest segs s a e plain parsed opens h =
      let (segs', read, left, a') =
        read_line-some line fuel [] rest segs a refl plain e (omega arith) in
      let (segs'', all, _, _) = read_body-whole fuel size segs' a' (omega arith) in
      rw (read, parsed, opens, all, left) refl

  wire_lem :
      (path : Text) (content : Bytes)
      → sent_bytes loads dumps cannot_open path content
        ≡ some (dumps (basename path) (length content) ++ 10 ∷ content)
  unfolding sent_bytes
  wire_lem path content =
      let header = dumps (basename path) (length content) in
      send_chunks-some (suc (length content)) (header ++ 10 ∷ []) content (omega arith)
      ∙ ap some (append_assoc header (10 ∷ []) content)

  -- If the header of a name and a size has no line break and is read back as the two, the file
  -- can be opened on the other side, and the bytes of a sent file arrive there, in any pieces,
  -- then the receiver ends, and has written the same content to a file of the same name in its
  -- directory.
  pub sent_received :
      (fuel : ℕ) (from path : Text) (content wire : Bytes) (segs : Segments) (s : Drop)
      → sent_bytes loads dumps cannot_open path content ≡ some wire
      → AllArrive segs
      → bytes segs ≡ wire
      → has_newline (dumps (basename path) (length content)) ≡ false
      → loads (dumps (basename path) (length content) ++ 10 ∷ [])
        ≡ some (basename path, length content)
      → cannot_open (drop_dir ++ basename path) ≡ false
      → length wire < fuel
      → (s' : Drop) × (handle_receive loads dumps cannot_open fuel from segs s ≡ some s')
        × (s'.written ≡ (drop_dir ++ basename path, content) ∷ s.written)
  sent_received fuel from path content wire segs s w a e plain parsed opens h =
      let header = dumps (basename path) (length content) in
      let whole : wire ≡ header ++ 10 ∷ content =
        sym (some-injective _ _ (sym (wire_lem path content) ∙ w)) in
      let size = ap (λ v. length v) whole in
      let ended =
        handle_receive-some fuel from (basename path) (length content) header content segs s a
          (e ∙ whole) plain parsed (ap cannot_open (join-basename path) ∙ opens)
          (omega (arith, size, length-append header (10 ∷ content))) in
      (
        _,
        ended,
        ap₂ (λ p b. (p, b) ∷ s.written) (join-basename path)
            (take_all (length content) content (omega arith)),
      )

  -- If a header line whose name is an absolute path arrives, and then some bytes, the bytes are
  -- written to that path, outside the drop directory.
  pub absolute_escapes :
      (fuel : ℕ) (from rest_of_name : Text) (size : ℕ) (line rest : Bytes) (segs : Segments)
      (s : Drop)
      → AllArrive segs
      → bytes segs ≡ line ++ 10 ∷ rest
      → has_newline line ≡ false
      → loads (line ++ 10 ∷ []) ≡ some (b'/' ∷ rest_of_name, size)
      → cannot_open (b'/' ∷ rest_of_name) ≡ false
      → length line + size < fuel
      → (s' : Drop) × (handle_receive loads dumps cannot_open fuel from segs s ≡ some s')
        × (s'.written ≡ (b'/' ∷ rest_of_name, take size rest) ∷ s.written)
  unfolding join_path
  absolute_escapes fuel from t size line rest segs s a e plain parsed opens h = (
    _,
    handle_receive-some fuel from (b'/' ∷ t) size line rest segs s a e plain parsed opens h,
    refl,
  )
