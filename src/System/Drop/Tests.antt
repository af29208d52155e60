-- ===== src/System/Drop/Tests.antt =====
-- A file of three bytes, sent with a header that begins with its size.
use julius_os.Prelude.{
  ℕ, ◌≡◌, refl, Bool, true, false, Option, none, some, [], ◌∷◌, ◌++◌, arith, drop_last,
}
use julius_os.Prelude.Text.{Text, codes}
use julius_os.System.Stream.{Bytes, Segments, has_newline}
use julius_os.System.Drop.{
  Device, Drop, received, received_file, init, drop_dir, join_path, basename, basename_from,
  send_chunks, sent_bytes, handle_receive,
}
use julius_os.System.Drop.Sending.{handle_receive-none, handle_receive-some, sent_received}

abbrev dumps : Text → ℕ → Bytes
dumps name size = size ∷ name

abbrev loads : Bytes → Option (Text × ℕ)
loads [] = none
loads (size ∷ line) = some (drop_last line, size)

abbrev opens : Text → Bool
opens path = false

-- "a.txt", with a header that tells of three bytes, and two of them.
abbrev in_pieces : Segments
in_pieces = (3 ∷ codes "a.t") ∷ (codes "xt" ++ 10 ∷ []) ∷ (7 ∷ 8 ∷ []) ∷ []

handle_receive-none_example : handle_receive loads dumps opens 99 [] ((3 ∷ []) ∷ []) init ≡ none
handle_receive-none_example =
    handle_receive-none loads dumps opens 99 [] ((3 ∷ []) ∷ []) init (unfold has_newline in refl)

handle_receive-some_example :
    handle_receive loads dumps opens 99 (codes "b") in_pieces init
    ≡ some (record init {
      written = (drop_dir ++ codes "a.txt", 7 ∷ 8 ∷ []) ∷ [];
      transfers =
          record { name = codes "a.txt"; peer = codes "b"; size = 3; direction = received } ∷ [];
      status = received_file (codes "a.txt");
    })
unfolding join_path
handle_receive-some_example =
    handle_receive-some loads dumps opens 99 (codes "b") (codes "a.txt") 3 (3 ∷ codes "a.txt")
      (7 ∷ 8 ∷ []) in_pieces init (omega arith, (omega arith, (omega arith, tt))) refl
      (unfold has_newline in refl) refl refl (omega arith)

abbrev wire : Bytes
wire = 3 ∷ (codes "a.txt" ++ 10 ∷ 7 ∷ 8 ∷ 9 ∷ [])

sent_received_example :
    (s' : Drop) × (handle_receive loads dumps opens 99 [] (wire ∷ []) init ≡ some s')
    × (s'.written ≡ (drop_dir ++ codes "a.txt", 7 ∷ 8 ∷ 9 ∷ []) ∷ [])
unfolding basename basename_from
sent_received_example =
    sent_received loads dumps opens 99 [] (codes "/tmp/a.txt") (7 ∷ 8 ∷ 9 ∷ []) wire (wire ∷ [])
      init (unfold sent_bytes send_chunks in refl) (omega arith, tt) refl
      (unfold has_newline in refl) refl refl (omega arith)

abbrev phone : Device
phone = record { name = codes "phone"; ip = codes "10.0.0.2" }

abbrev one_nearby : Drop
one_nearby = record init { visible = true; nearby = phone ∷ [] }
