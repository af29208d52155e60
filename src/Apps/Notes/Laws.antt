-- ===== src/Apps/Notes/Laws.antt =====
-- What the keys of src/apps/notes/notes.py keep, and what editing a note does to the list.
use julius_os.Prelude.{
  ℕ, ◌+◌, ◌-◌, ◌≤◌, ◌<◌, ◌≡◌, refl, Bool, true, false, some, [], ◌∷◌, ◌++◌, length, get_elem?,
  get_elem?-some, erase_at, nonempty, ltb, if◌then◌else◌, arith, tests, length-append,
  length-erase_at, length-nonempty, ◌&&◌,
}
use julius_os.Prelude.Text.{Text}
use julius_os.Events.{
  Key, k_return, k_backspace, k_escape, k_up, k_down, k_n, k_d, k_e, is, key_index, Event, keydown,
}
use julius_os.Outcome.{done, Returns, Returns-if}
use julius_os.Cursor.{retreat, IsWithin}
use julius_os.Cursor.Laws.{down-IsWithin, up-IsWithin}
use julius_os.Apps.TextEditor.{split}
use julius_os.Apps.Notes.{
  Note, Mode, list, edit, view, Stage, at_title, at_body, Notes, save, delete_selected, list_key,
  title_key, body_key, view_key, view_selected, handle_input,
}

-- Where the selection may stand, in each mode: while a note is edited it may be out of the list.
abbrev pub Bound : Mode → Stage → ℕ → ℕ → Type 0
Bound list t i n = i ≤ n - 1
Bound edit at_title i n = i ≤ n - 1
Bound edit at_body i n = i ≤ n
Bound view t i n = i < n

abbrev pub IsSafe : Notes → Type 0
IsSafe s = Bound s.mode s.stage s.cursor.selected (length s.notes)

IsSafe-if :
    (b : Bool) (m n : Notes)
    → (b ≡ true → IsSafe m)
    → (b ≡ false → IsSafe n)
    → IsSafe (if b then m else n)
IsSafe-if true m n yes_case no_case = yes_case refl
IsSafe-if false m n yes_case no_case = no_case refl

module _ (s : Notes) where
  module _ (on_list : s.mode ≡ list) (h : IsWithin (length s.notes) s.cursor) where
    still : IsSafe s
    still = rw on_list h

    delete-IsSafe : Returns IsSafe (delete_selected s)
    unfolding delete_selected save retreat
    delete-IsSafe =
        Returns-if IsSafe (nonempty s.notes) _ _
          (λ n.
            Returns-if IsSafe (ltb s.cursor.selected (length s.notes)) _ _
              (λ lt.
                rw on_list (
                  omega (tests, length-erase_at s.notes s.cursor.selected (omega (tests, lt)), lt)))
              (λ past. absurd (inside n past)))
          (λ _. still)
      where
        inside : nonempty s.notes ≡ true → ltb s.cursor.selected (length s.notes) ≡ false → ⊥
        inside n past = ground (arith, length-nonempty s.notes n)

    list_key-IsSafe : (key : Key) → Returns IsSafe (list_key s key)
    unfolding list_key
    list_key-IsSafe key =
        Returns-if IsSafe (is k_n key) _ _ (λ _. h)
          λ _.
            Returns-if IsSafe (is k_down key) _ _
              (λ _. rw on_list (down-IsWithin 12 (length s.notes) s.cursor h))
              λ _.
                Returns-if IsSafe (is k_up key) _ _
                  (λ _. rw on_list (up-IsWithin (length s.notes) s.cursor h))
                  λ _.
                    Returns-if IsSafe (is k_return key) _ _
                      (λ _.
                        IsSafe-if (nonempty s.notes) _ _
                          (λ n. omega (arith, length-nonempty s.notes n)) (λ _. still))
                      λ _. Returns-if IsSafe (is k_d key) _ _ (λ _. delete-IsSafe) (λ _. still)

  title_key-IsSafe :
      (key : Key) (u : Text)
      → s.mode ≡ edit
      → s.stage ≡ at_title
      → IsWithin (length s.notes) s.cursor
      → IsSafe (title_key s key u)
  unfolding title_key
  title_key-IsSafe key u m t h =
      IsSafe-if (is k_return key && nonempty s.title) _ _ (λ _. rw m (omega arith))
        λ _.
          IsSafe-if (is k_backspace key) _ _ (λ _. rw (m, t) h)
            λ _. IsSafe-if (is k_escape key) _ _ (λ _. h) (λ _. rw (m, t) h)

  body_key-IsSafe :
      (key : Key) (u : Text)
      → s.mode ≡ edit
      → s.stage ≡ at_body
      → s.cursor.selected ≤ length s.notes
      → IsSafe (body_key s key u)
  unfolding body_key save
  body_key-IsSafe key u m t h =
      IsSafe-if (is k_escape key) _ _
        (λ _.
          omega (arith, length-append s.notes (record { title = s.title; body = s.editing } ∷ [])))
        λ _.
          IsSafe-if (is k_return key) _ _ (λ _. rw (m, t) h)
            λ _. IsSafe-if (is k_backspace key) _ _ (λ _. rw (m, t) h) (λ _. rw (m, t) h)

  view_key-IsSafe :
      (note : Note) (key : Key)
      → s.mode ≡ view
      → s.cursor.selected < length s.notes
      → IsSafe (view_key note s key)
  unfolding view_key
  view_key-IsSafe note key m h =
      IsSafe-if (is k_escape key) _ _ (λ _. omega arith)
        λ _.
          IsSafe-if (is k_down key) _ _
            (λ _.
              IsSafe-if (ltb (s.cursor.scroll + 12) (length (split note.body))) _ _ (λ _. rw m h)
                (λ _. rw m h))
            λ _.
              IsSafe-if (is k_up key) _ _
                (λ _. IsSafe-if (ltb 0 s.cursor.scroll) _ _ (λ _. rw m h) (λ _. rw m h))
                λ _.
                  IsSafe-if (is k_e key) _ _
                    (λ _. omega (arith, length-erase_at s.notes s.cursor.selected h)) (λ _. rw m h)

  view_selected-IsSafe :
      (key : Key)
      → s.mode ≡ view
      → s.cursor.selected < length s.notes
      → Returns IsSafe (view_selected s key)
  unfolding view_selected
  view_selected-IsSafe key m h =
      let (note, e) = get_elem?-some s.notes s.cursor.selected h in
      let end : view_selected s key ≡ done (view_key note s key) = ground arith in
      rw end (view_key-IsSafe note key m h)

-- If the selection is on the list, or at most one place behind it while a note's body is edited,
-- then no event raises an exception, and the same holds after it.
pub handle_input-IsSafe : (s : Notes) (e : Event) → IsSafe s → Returns IsSafe (handle_input s e)
unfolding handle_input
handle_input-IsSafe s (keydown key u) h = on_mode s.mode s.stage refl refl
  where
    on_mode :
        (m : Mode) (t : Stage)
        → s.mode ≡ m
        → s.stage ≡ t
        → Returns IsSafe (handle_input s (keydown key u))
    on_mode list t e f = rw (e, handle_input) (list_key-IsSafe s e (rw e at h) key)
    on_mode edit at_title e f =
        rw (e, f, handle_input) (title_key-IsSafe s key u e f (rw (e, f) at h))
    on_mode edit at_body e f =
        rw (e, f, handle_input) (body_key-IsSafe s key u e f (rw (e, f) at h))
    on_mode view t e f = rw (e, handle_input) (view_selected-IsSafe s key e (rw e at h))
handle_input-IsSafe s _ h = h

-- If a note of the list is read, E and then ESC return: the note is the last of the list, every
-- other one stands in its order before it, the file holds the list, and the list is shown.
pub edit_then_escape :
    (s : Notes) (note : Note) (u : Text)
    → s.mode ≡ view
    → get_elem? s.notes s.cursor.selected ≡ some note
    → (s₁ s₂ : Notes) × (handle_input s (keydown k_e u) ≡ done s₁)
      × (handle_input s₁ (keydown k_escape u) ≡ done s₂)
      × (s₂.notes ≡ erase_at s.notes s.cursor.selected ++ note ∷ [])
      × (s₂.saved ≡ some s₂.notes)
      × (s₂.mode ≡ list)
unfolding handle_input view_selected view_key body_key save key_index
edit_then_escape s note u m e = (
  record s {
    mode = edit;
    stage = at_body;
    title = note.title;
    editing = note.body;
    notes = erase_at s.notes s.cursor.selected;
  },
  record s {
    mode = list;
    stage = at_title;
    title = note.title;
    editing = note.body;
    notes = erase_at s.notes s.cursor.selected ++ note ∷ [];
    saved = some (erase_at s.notes s.cursor.selected ++ note ∷ []);
  },
  ground arith,
  refl,
  refl,
  refl,
  refl,
)
