-- ===== src/Apps/TextEditor/Edits.antt =====
-- The three edits of the lines are the edits of the document.
use mathlib.Core.List.{append_assoc}
use native.Mathlib.Numerals.{add-one}
use julius_os.Prelude.{
  ℕ, suc, ◌+◌, ◌-◌, ◌≤◌, ◌<◌, ◌≡◌, refl, sym, ap, ap₂, ◌∙◌, some, List, [], ◌∷◌, ◌++◌, arith, true,
  length, length-append, get_elem?, set, take, drop, drop_last, erase_at, length-take,
  drop_last-append, get_elem?-length, get_elem?-some,
}
use native.Mathlib.Decide.{dec_lt}
use julius_os.Prelude.Text.{Text}
use julius_os.Outcome.{done, Returns}
use julius_os.Apps.TextEditor.{TextEditor, newline_char, insert_char, backspace, newline, insert_at}
use julius_os.Apps.TextEditor.Lines.{
  before, behind, above, rest, before-split, behind-split, before-set, behind-set, before-break,
  behind-break, before-join, behind-join, before-start, take-suc,
}
use julius_os.Apps.TextEditor.Document.{Document, type_text, erase, document, IsInside}

abbrev sides : Text → Text → Document
sides l r = record { left = l; right = r }

sides-eq : {a b c d : Text} → a ≡ b → c ≡ d → sides a c ≡ sides b d
sides-eq p q = λ i. sides (p i) (q i)

-- What each edit leaves, where the cursor stands in `line`.
module _ (s : TextEditor) (line : Text) where
  abbrev typed : Text → TextEditor
  typed ch = record s {
    lines = set s.lines s.cursor_y (take s.cursor_x line ++ (ch ++ drop s.cursor_x line));
    cursor_x = s.cursor_x + 1;
    modified = true;
  }

  abbrev broken : TextEditor
  broken = record s {
    lines =
        insert_at (set s.lines s.cursor_y (take s.cursor_x line)) (s.cursor_y + 1)
          (drop s.cursor_x line);
    cursor_y = s.cursor_y + 1;
    cursor_x = 0;
    modified = true;
  }

  abbrev shortened : TextEditor
  shortened = record s {
    lines = set s.lines s.cursor_y (take (s.cursor_x - 1) line ++ drop s.cursor_x line);
    cursor_x = s.cursor_x - 1;
    modified = true;
  }

  abbrev merged : Text → TextEditor
  merged prev = record s {
    cursor_x = length prev;
    lines = erase_at (set s.lines (s.cursor_y - 1) (prev ++ line)) s.cursor_y;
    cursor_y = s.cursor_y - 1;
    modified = true;
  }

module _ (s : TextEditor) {line : Text} (e : get_elem? s.lines s.cursor_y ≡ some line) where
  pub insert_char_done : (ch : Text) → insert_char s ch ≡ done (typed s line ch)
  unfolding insert_char
  insert_char_done ch = ground arith

  pub newline_done : newline s ≡ done (broken s line)
  unfolding newline
  newline_done = ground arith

  pub backspace_within : 0 < s.cursor_x → backspace s ≡ done (shortened s line)
  unfolding backspace
  backspace_within h = ground arith

  pub backspace_at_start :
      {prev : Text}
      → s.cursor_x ≡ 0
      → 0 < s.cursor_y
      → get_elem? s.lines (s.cursor_y - 1) ≡ some prev
      → backspace s ≡ done (merged s line prev)
  unfolding backspace
  backspace_at_start x y p = ground arith

  pub backspace_at_top : s.cursor_x ≡ 0 → s.cursor_y ≡ 0 → backspace s ≡ done s
  unfolding backspace
  backspace_at_top x y = ground arith

  here : s.cursor_y < length s.lines
  here = get_elem?-length s.lines s.cursor_y e

-- The documents that they leave.
module _ (s : TextEditor) {line : Text} (e : get_elem? s.lines s.cursor_y ≡ some line)
    (h : s.cursor_x ≤ length line) where
  open s use {lines, cursor_x as x, cursor_y as y}

  abbrev l : Text
  l = take x line

  abbrev r : Text
  r = drop x line

  left_side : (t : Text) → above lines y ++ (l ++ t) ≡ before lines y x ++ t
  left_side t =
      sym (append_assoc (above lines y) l t) ∙ ap (λ b. b ++ t) (sym (before-split lines y x e))

  right_side : r ++ rest lines y ≡ behind lines y x
  right_side = sym (behind-split lines y x e)

  typed-document : (c : ℕ) → document (typed s line (c ∷ [])) ≡ type_text (c ∷ []) (document s)
  typed-document c =
      let there = here s e in
      let wide : length (l ++ c ∷ []) ≡ x + 1 =
        omega (arith, length-append l (c ∷ []), length-take x line) in
      ap (λ v. document (record (typed s line (c ∷ [])) { lines = set lines y v }))
        (sym (append_assoc l (c ∷ []) r))
      ∙ sides-eq (before-set lines y (x + 1) (l ++ c ∷ []) r there wide ∙ left_side (c ∷ []))
          (behind-set lines y (x + 1) (l ++ c ∷ []) r there wide ∙ right_side)

  broken-document : document (broken s line) ≡ type_text (newline_char ∷ []) (document s)
  broken-document =
      let there = here s e in
      rw add-one (
        sides-eq (before-break l r lines y there ∙ left_side (newline_char ∷ []))
          (behind-break l r lines y there ∙ right_side))

  -- The character before the cursor.
  shortened-document : 0 < x → document (shortened s line) ≡ erase (document s)
  shortened-document pos =
      let there = here s e in
      let k = take (x - 1) line in
      let narrow : length k ≡ x - 1 = omega (arith, length-take (x - 1) line) in
      let (c, last) = take-suc (x - 1) line (omega arith) in
      let whole : l ≡ k ++ c ∷ [] = ap (λ n. take n line) {y = suc (x - 1)} (omega arith) ∙ last in
      sides-eq
        (before-set lines y (x - 1) k r there narrow
          ∙ sym (drop_last-append (above lines y ++ k) c)
          ∙ ap drop_last (
              append_assoc (above lines y) k (c ∷ [])
              ∙ ap (λ t. above lines y ++ t) (sym whole)
              ∙ sym (before-split lines y x e)))
        (behind-set lines y (x - 1) k r there narrow ∙ right_side)

  merged-document :
      {prev : Text}
      → x ≡ 0
      → 0 < y
      → get_elem? lines (y - 1) ≡ some prev
      → document (merged s line prev) ≡ erase (document s)
  merged-document {prev} x0 y0 p =
      let below_prev : y ≡ suc (y - 1) = omega arith in
      let q = ap (get_elem? lines) (sym below_prev) ∙ e in
      let joined = λ (n : ℕ). erase_at (set lines (y - 1) (prev ++ line)) n in
      let origin = λ (f : List Text → ℕ → ℕ → Text). ap₂ (f lines) below_prev x0 in
      sides-eq
        (ap (λ n. before (joined n) (y - 1) (length prev)) below_prev
          ∙ sym
              (drop_last-append (before (joined (suc (y - 1))) (y - 1) (length prev)) newline_char)
          ∙ ap drop_last (before-join prev line lines (y - 1) p q ∙ sym (origin before)))
        (ap (λ n. behind (joined n) (y - 1) (length prev)) below_prev
          ∙ behind-join prev line lines (y - 1) p q
          ∙ sym (origin behind))

-- If the cursor stands within a line, typing one character returns with it put before the
-- cursor, and nothing else of the text changed.
pub insert_char-document :
    (s : TextEditor) (c : ℕ)
    → IsInside s
    → Returns (λ s'. document s' ≡ type_text (c ∷ []) (document s)) (insert_char s (c ∷ []))
insert_char-document s c (line, e, h) = rw (insert_char_done s e (c ∷ [])) (typed-document s e h c)

-- If the cursor stands within a line, RETURN returns with a line break put before the cursor,
-- and nothing else of the text changed.
pub newline-document :
    (s : TextEditor)
    → IsInside s
    → Returns (λ s'. document s' ≡ type_text (newline_char ∷ []) (document s)) (newline s)
newline-document s (line, e, h) = rw (newline_done s e) (broken-document s e h)

-- If the cursor stands within a line, BACKSPACE returns: it erases the character before the
-- cursor, a line break too, and at the start of the text nothing.
pub backspace-document :
    (s : TextEditor) → IsInside s → Returns (λ s'. document s' ≡ erase (document s)) (backspace s)
backspace-document s (line, e, h) = elim (dec_lt 0 s.cursor_x) [
  | yes within ↦ rw (backspace_within s e within) (shortened-document s e h within)
  | no start ↦ elim (dec_lt 0 s.cursor_y) [
    | yes lower ↦
        let (prev, p) = get_elem?-some s.lines (s.cursor_y - 1) (omega (arith, here s e)) in
        rw (backspace_at_start s e (omega arith) lower p)
          (merged-document s e h (omega arith) lower p)
    | no top ↦
        let nothing : before s.lines s.cursor_y s.cursor_x ≡ [] =
          ap₂ (before s.lines) {y = 0} {v = 0} (omega arith) (omega arith) ∙ before-start s.lines in
        rw (backspace_at_top s e (omega arith) (omega arith))
          (sides-eq (nothing ∙ ap drop_last (sym nothing)) refl)
  ]
]
