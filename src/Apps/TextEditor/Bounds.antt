-- ===== src/Apps/TextEditor/Bounds.antt =====
-- The cursor stays within the text: no key raises IndexError.
use Prim.Native.Nat.{zero-le}
use julius_os.Prelude.{
  ℕ, zero, suc, ◌+◌, ◌-◌, ◌≤◌, ◌<◌, ◌≡◌, refl, ap₂, ◌∙◌, ◌==◌, Bool, true, false, ◌&&◌, Option,
  some, List, [], ◌∷◌, ◌++◌, arith, length, get_elem?, set, take, drop, erase_at, length-append,
  length-take, length-set, nonempty, get_elem?-length, get_elem?-some, if◌then◌else◌, min, ltb,
  Option-cases, inl, inr, Bool-cases,
}
use native.Mathlib.Decide.{dec_lt}
use julius_os.Prelude.Text.{Text}
use julius_os.Events.{
  Key, k_return, k_backspace, k_escape, k_up, k_down, k_left, k_right, k_s, is, Event, keydown,
}
use julius_os.Outcome.{Outcome, done, raised, ◌>>=◌, Returns, Returns-if}
use julius_os.Apps.TextEditor.{
  newline_char, TextEditor, Mode, input_name, edit, insert_char, backspace, newline, insert_at,
  go_up, go_down, go_right, settle, edit_key, name_key, handle_input, load, save, split, split_from,
  scroll_up, scroll_down, universal_newlines,
}
use julius_os.Apps.TextEditor.Lines.{get_elem?-set}
use julius_os.Apps.TextEditor.Document.{IsInside}
use julius_os.Apps.TextEditor.Edits.{
  insert_char_done, newline_done, backspace_within, backspace_at_start, backspace_at_top,
}

-- Where the length of the cursor's line is known.
get_elem?-insert_at :
    (ls : List Text) (y : ℕ) (v : Text) → y ≤ length ls → get_elem? (insert_at ls y v) y ≡ some v
get_elem?-insert_at ls zero v h = refl
get_elem?-insert_at [] (suc y) v h = elim h [ ]
get_elem?-insert_at (l ∷ ls) (suc y) v h = get_elem?-insert_at ls y v (omega arith)

get_elem?-erase_at :
    (ls : List Text) (y k : ℕ) → y < k → get_elem? (erase_at ls k) y ≡ get_elem? ls y
get_elem?-erase_at [] y k h = refl
get_elem?-erase_at (l ∷ ls) y zero h = elim h [ ]
get_elem?-erase_at (l ∷ ls) zero (suc k) h = refl
get_elem?-erase_at (l ∷ ls) (suc y) (suc k) h = get_elem?-erase_at ls y k (omega arith)

module _ (s : TextEditor) (inside : IsInside s) where
  insert_char-IsInside : (c : ℕ) (cs : Text) → Returns IsInside (insert_char s (c ∷ cs))
  insert_char-IsInside c cs =
      let (line, e, h) = inside in
      rw (insert_char_done s e (c ∷ cs)) (
        take s.cursor_x line ++ (c ∷ cs ++ drop s.cursor_x line),
        get_elem?-set s.lines s.cursor_y _ (get_elem?-length s.lines s.cursor_y e),
        omega (
          arith,
          length-append (take s.cursor_x line) (c ∷ cs ++ drop s.cursor_x line),
          length-take s.cursor_x line,
        ),
      )

  insert_text-IsInside : (u : Text) → nonempty u ≡ true → Returns IsInside (insert_char s u)
  insert_text-IsInside [] n = cc
  insert_text-IsInside (c ∷ cs) n = insert_char-IsInside c cs

  newline-IsInside : Returns IsInside (newline s)
  newline-IsInside =
      let (line, e, h) = inside in
      rw (newline_done s e) (
        drop s.cursor_x line,
        get_elem?-insert_at _ (s.cursor_y + 1) _ (
            omega (
              arith,
              length-set s.lines s.cursor_y (take s.cursor_x line),
              get_elem?-length s.lines s.cursor_y e,
            )),
        zero-le,
      )

  backspace-IsInside : Returns IsInside (backspace s)
  backspace-IsInside =
      let (line, e, h) = inside in
      elim (dec_lt 0 s.cursor_x) [
        | yes within ↦ rw (backspace_within s e within) (
          take (s.cursor_x - 1) line ++ drop s.cursor_x line,
          get_elem?-set s.lines s.cursor_y _ (get_elem?-length s.lines s.cursor_y e),
          omega (
            arith,
            length-append (take (s.cursor_x - 1) line) (drop s.cursor_x line),
            length-take (s.cursor_x - 1) line,
          ),
        )
        | no start ↦ elim (dec_lt 0 s.cursor_y) [
          | yes lower ↦
              let inside_y = get_elem?-length s.lines s.cursor_y e in
              let (prev, p) = get_elem?-some s.lines (s.cursor_y - 1) (omega arith) in
              rw (backspace_at_start s e (omega arith) lower p) (
                prev ++ line,
                get_elem?-erase_at (set s.lines (s.cursor_y - 1) (prev ++ line)) (s.cursor_y - 1)
                      s.cursor_y (omega arith)
                    ∙ get_elem?-set s.lines (s.cursor_y - 1) (prev ++ line) (omega arith),
                omega (arith, length-append prev line),
              )
          | no start_of_text ↦ rw (backspace_at_top s e (omega arith) (omega arith)) inside
        ]
      ]

  settle-IsInside :
      (y : ℕ) → y < length s.lines → Returns IsInside (settle (record s { cursor_y = y }))
  unfolding settle
  settle-IsInside y h = let (l, e) = get_elem?-some s.lines y h in ground (arith, e)

  >>=-IsInside :
      (m : Outcome TextEditor) (f : TextEditor → TextEditor)
      → ((t : TextEditor) → IsInside t → IsInside (f t))
      → Returns IsInside m
      → Returns IsInside (m >>= λ t. done (f t))
  >>=-IsInside (done t) f k h = k t h
  >>=-IsInside (raised t) f k h = h

  go_up-IsInside : Returns IsInside (go_up s)
  unfolding go_up
  go_up-IsInside =
      >>=-IsInside _ scroll_up (λ t h. h)
        (Returns-if IsInside (ltb 0 s.cursor_y) _ _
          (λ b.
            settle-IsInside (s.cursor_y - 1)
              (let h = get_elem?-length s.lines s.cursor_y inside.1 in ground arith))
          (λ _. inside))

  go_down-IsInside : Returns IsInside (go_down s)
  unfolding go_down
  go_down-IsInside =
      >>=-IsInside _ scroll_down (λ t h. h)
        (Returns-if IsInside (ltb (s.cursor_y + 1) (length s.lines)) _ _
          (λ b. settle-IsInside (s.cursor_y + 1) (ground arith)) (λ _. inside))

  go_right-IsInside : Returns IsInside (go_right s)
  unfolding go_right
  go_right-IsInside =
      let (l, e, h) = inside in
      let moved : go_right s ≡ done (record s { cursor_x = min (length l) (s.cursor_x + 1) }) =
        ground arith in
      rw moved (l, e, omega arith)

split-first : (line text : Text) → (l : Text) × (get_elem? (split_from line text) 0 ≡ some l)
unfolding split_from
split-first line [] = (line, refl)
split-first line (c ∷ cs) = elim (Bool-cases (c == newline_char)) [
  | inl ends ↦ rw ends (line, refl)
  | inr goes_on ↦ rw goes_on (split-first (line ++ c ∷ []) cs)
]

IsInside-same :
    (s t : TextEditor)
    → t.lines ≡ s.lines
    → t.cursor_y ≡ s.cursor_y
    → t.cursor_x ≡ s.cursor_x
    → IsInside s
    → IsInside t
IsInside-same s t p q r (l, e, h) = (l, ap₂ get_elem? p q ∙ e, omega arith)

IsInside-if :
    (b : Bool) (s t : TextEditor) → IsInside s → IsInside t → IsInside (if b then s else t)
IsInside-if true s t h k = h
IsInside-if false s t h k = k

module _ (os_error : Text → Option Text) where
  load-IsInside : (s : TextEditor) → IsInside s → IsInside (load os_error s)
  unfolding load split
  load-IsInside s h = elim (Option-cases (s.disk s.filename)) [
    | inl new ↦
        IsInside-same (record s { lines = [] ∷ []; cursor_x = 0; cursor_y = 0 }) (load os_error s)
          (ground arith) (ground arith) (ground arith) ([], refl, zero-le)
    | inr (content, old) ↦ elim (Option-cases (os_error s.filename)) [
      | inr (m, failed) ↦
          IsInside-same s (load os_error s) (ground arith) (ground arith) (ground arith) h
      | inl opened ↦
          let (l, first) = split-first [] (universal_newlines content) in
          IsInside-same
            (record s { lines = split (universal_newlines content); cursor_x = 0; cursor_y = 0 })
            (load os_error s) (ground arith) (ground arith) (ground arith) (l, first, zero-le)
    ]
  ]

  name_key-IsInside :
      (s : TextEditor) (key : Key) (u : Text) → IsInside s → IsInside (name_key os_error s key u)
  unfolding name_key
  name_key-IsInside s key u h =
      IsInside-if (is k_return key && nonempty s.filename) _ _ (load-IsInside s h)
        (IsInside-if (is k_backspace key) _ _ h (IsInside-if (is k_escape key) _ _ h h))

  save-IsInside : (s : TextEditor) → IsInside s → IsInside (save os_error s)
  unfolding save
  save-IsInside s h =
      IsInside-same s (save os_error s) (ground arith) (ground arith) (ground arith) h

  edit_key-IsInside :
      (s : TextEditor) (ctrl : Bool) (key : Key) (u : Text)
      → IsInside s
      → Returns IsInside (edit_key os_error s ctrl key u)
  unfolding edit_key
  edit_key-IsInside s ctrl key u h =
      Returns-if IsInside (is k_escape key) _ _ (λ _. ([], refl, zero-le))
        λ _.
          Returns-if IsInside (is k_s key && ctrl) _ _ (λ _. save-IsInside s h)
            λ _.
              Returns-if IsInside (is k_return key) _ _ (λ _. newline-IsInside s h)
                λ _.
                  Returns-if IsInside (is k_backspace key) _ _ (λ _. backspace-IsInside s h)
                    λ _.
                      Returns-if IsInside (is k_left key) _ _ (λ _. (h.0, h.1, omega arith))
                        λ _.
                          Returns-if IsInside (is k_right key) _ _ (λ _. go_right-IsInside s h)
                            λ _.
                              Returns-if IsInside (is k_up key) _ _ (λ _. go_up-IsInside s h)
                                λ _.
                                  Returns-if IsInside (is k_down key) _ _
                                    (λ _. go_down-IsInside s h)
                                    λ _.
                                      Returns-if IsInside (nonempty u) _ _
                                        (λ n. insert_text-IsInside s h u n) (λ _. h)

  -- If the cursor stands within a line of the text, no event raises an exception, and after each
  -- the cursor stands within a line of the text.
  pub handle_input-IsInside :
      (ctrl : Bool) (s : TextEditor) (e : Event)
      → IsInside s
      → Returns IsInside (handle_input os_error ctrl s e)
  unfolding handle_input
  handle_input-IsInside ctrl s (keydown key u) h = on_mode s.mode refl
    where
      on_mode :
          (m : Mode) → s.mode ≡ m → Returns IsInside (handle_input os_error ctrl s (keydown key u))
      on_mode input_name e = rw (e, handle_input) (name_key-IsInside s key u h)
      on_mode edit e = rw (e, handle_input) (edit_key-IsInside s ctrl key u h)
  handle_input-IsInside ctrl s _ h = h

-- If the cursor stands within a line, on the last row of the window, RETURN returns with the
-- cursor below the window.
pub newline_hides :
    (s : TextEditor)
    → IsInside s
    → s.cursor_y + 1 ≡ s.scroll + 13
    → Returns (λ s'. s'.scroll + 13 ≤ s'.cursor_y) (newline s)
newline_hides s (line, e, h) last = rw (newline_done s e) (omega arith)
