-- ===== src/Apps/Todo/Laws.antt =====
-- What the keys of the task list do: the file, the view, and the exception.
use julius_os.Prelude.{
  ◌+◌, ◌-◌, ◌≤◌, ◌<◌, ◌≡◌, refl, ap, true, false, some, List, [], ◌∷◌, map, sym, ◌∙◌, arith, length,
  get_elem?, erase_at, keep, nonempty, if◌then◌else◌, get_elem?-some, get_elem?-none,
  length-erase_at, nonempty-get_elem?, length-nonempty, nonempty-length, length-append,
}
use Prim.Native.Nat.{zero-le}
use julius_os.Prelude.Text.{Text}
use julius_os.Events.{Key, k_return, k_d, k_f, k_down, k_up, k_n, is, Event, keydown, key_index}
use julius_os.Outcome.{done, raised, after, Returns, Returns-if}
use julius_os.Cursor.{IsWithin, retreat}
use julius_os.Cursor.Laws.{down-IsWithin, up-IsWithin}
use julius_os.Apps.Todo.{
  Task, Todo, Mode, list, add, Filter, every, pending, load, selects, filtered, toggle_nth, task_eq,
  remove_first, save, toggle_selected, delete_selected, list_key, add_key, handle_input,
}
use julius_os.Apps.Todo.View.{
  toggled_view, keep-every, keep-toggle_nth, texts-toggle_nth, count, count-remove_first,
  count-keep, length-toggle_nth, length-remove_first,
}

-- The file holds the tasks that the program holds.
abbrev pub IsSaved : Todo → Type 0
IsSaved s = load s.saved ≡ s.tasks

-- If the file holds the program's tasks, it does so after every event, one that raises an
-- exception included.
pub handle_input-IsSaved : (s : Todo) (e : Event) → IsSaved s → IsSaved (after (handle_input s e))
unfolding handle_input toggle_selected delete_selected load
handle_input-IsSaved s (keydown key u) h = ground arith
handle_input-IsSaved s _ h = h

filtered-keep : (s : Todo) → filtered s ≡ keep (selects s.filter) s.tasks
unfolding filtered
filtered-keep s = on_filter s.filter refl
  where
    on_filter : (f : Filter) → s.filter ≡ f → filtered s ≡ keep (selects s.filter) s.tasks
    on_filter every e = rw (e, filtered) (sym (keep-every s.tasks))
    on_filter pending e = rw (e, filtered)
    on_filter Filter.finished e = rw (e, filtered)

abbrev toggled : Todo → Todo
toggled s = save (record s { tasks = toggle_nth (selects s.filter) s.tasks s.cursor.selected })

abbrev deleted : Task → Todo → Todo
deleted t s = save (record s { tasks = remove_first t s.tasks; cursor = retreat s.cursor })

module _ (s : Todo) (t : Task) (chosen : get_elem? (filtered s) s.cursor.selected ≡ some t) where
  toggle_done : toggle_selected s ≡ done (toggled s)
  unfolding toggle_selected
  toggle_done = ground arith

  delete_done : delete_selected s ≡ done (deleted t s)
  unfolding delete_selected
  delete_done = ground arith

  in_view : get_elem? (keep (selects s.filter) s.tasks) s.cursor.selected ≡ some t
  in_view = rw (← filtered-keep s) chosen

  filtered-toggled : filtered (toggled s) ≡ toggled_view s.filter (filtered s) s.cursor.selected t
  unfolding save
  filtered-toggled =
      filtered-keep (toggled s)
      ∙ keep-toggle_nth s.filter s.tasks s.cursor.selected t in_view
      ∙ ap (λ v. toggled_view s.filter v s.cursor.selected t) (sym (filtered-keep s))

module _ (s : Todo) (t : Task) (chosen : get_elem? (filtered s) s.cursor.selected ≡ some t)
    (u : Text) (in_list : s.mode ≡ list) where
  return_done : handle_input s (keydown k_return u) ≡ done (toggled s)
  unfolding handle_input key_index
  return_done =
      ground
        (arith, toggle_done s t chosen, nonempty-get_elem? (filtered s) s.cursor.selected chosen)

  d_done : handle_input s (keydown k_d u) ≡ done (deleted t s)
  unfolding handle_input key_index
  d_done =
      ground
        (arith, delete_done s t chosen, nonempty-get_elem? (filtered s) s.cursor.selected chosen)

  -- If the list is shown and t is the selected task of the view, RETURN returns with t toggled:
  -- the view changes at the selection as its filter says, no text and not the cursor changes,
  -- and the file holds the tasks.
  pub return_toggles :
      Returns
        (λ s'.
          (filtered s' ≡ toggled_view s.filter (filtered s) s.cursor.selected t)
          × (map (λ v. v.text) s'.tasks ≡ map (λ v. v.text) s.tasks)
          × (s'.saved ≡ some s'.tasks)
          × (s'.cursor ≡ s.cursor))
        (handle_input s (keydown k_return u))
  unfolding save
  return_toggles = rw return_done (
    filtered-toggled s t chosen,
    texts-toggle_nth (selects s.filter) s.tasks s.cursor.selected,
    refl,
    refl,
  )

  -- If the list is shown and t is the selected task of the view, D returns with one task equal
  -- to t fewer and no other task changed in number, the file written and the selection moved up.
  pub d_deletes :
      Returns
        (λ s'.
          ((v : Task) → count v s'.tasks + (if task_eq v t then 1 else 0) ≡ count v s.tasks)
          × (s'.saved ≡ some s'.tasks)
          × (s'.cursor.selected ≡ s.cursor.selected - 1))
        (handle_input s (keydown k_d u))
  unfolding save retreat
  d_deletes =
      let there = count-keep (selects s.filter) s.tasks s.cursor.selected t (in_view s t chosen) in
      rw d_done ((λ v. count-remove_first t v s.tasks (omega arith)), refl, refl)

abbrev pub IsChosen : Todo → Type 0
IsChosen s = IsWithin (length (filtered s)) s.cursor

filtered-every : (s : Todo) → s.filter ≡ every → filtered s ≡ s.tasks
unfolding filtered
filtered-every s f = ground arith

module _ (s : Todo) (f : s.filter ≡ every) (h : IsChosen s) where
  at_selected :
      nonempty (filtered s) ≡ true
      → (t : Task) × (get_elem? (filtered s) s.cursor.selected ≡ some t)
  at_selected n =
      get_elem?-some (filtered s) s.cursor.selected (ground (arith, length-nonempty (filtered s)))

  return-IsChosen : nonempty (filtered s) ≡ true → Returns IsChosen (toggle_selected s)
  unfolding save
  return-IsChosen n =
      let (t, e) = at_selected n in
      rw (toggle_done s t e) (
        rw (filtered-every (toggled s) f, length-toggle_nth)
          (omega (arith, ap (λ v. length v) (filtered-every s f))))

  d-IsChosen : nonempty (filtered s) ≡ true → Returns IsChosen (delete_selected s)
  unfolding save retreat
  d-IsChosen n =
      let (t, e) = at_selected n in
      rw (delete_done s t e) (
        rw (filtered-every (deleted t s) f)
          (omega (arith, ap (λ v. length v) (filtered-every s f), length-remove_first t s.tasks)))

  list_key-IsChosen : (key : Key) → Returns IsChosen (list_key s key)
  unfolding list_key filtered
  list_key-IsChosen key =
      Returns-if IsChosen (is k_down key) _ _
        (λ _. down-IsWithin 10 (length (filtered s)) s.cursor h)
        λ _.
          Returns-if IsChosen (is k_up key) _ _ (λ _. up-IsWithin (length (filtered s)) s.cursor h)
            λ _.
              Returns-if IsChosen (is k_n key) _ _ (λ _. h)
                λ _.
                  Returns-if IsChosen (is k_return key) _ _
                    (λ _. Returns-if IsChosen (nonempty (filtered s)) _ _ return-IsChosen (λ _. h))
                    λ _.
                      Returns-if IsChosen (is k_d key) _ _
                        (λ _. Returns-if IsChosen (nonempty (filtered s)) _ _ d-IsChosen (λ _. h))
                        λ _. Returns-if IsChosen (is k_f key) _ _ (λ _. zero-le) (λ _. h)

  add_key-IsChosen : (key : Key) (u : Text) → IsChosen (add_key s key u)
  unfolding add_key save
  add_key-IsChosen key u = rw (filtered-every (add_key s key u) (ground arith)) (
      ground (
        arith,
        filtered-every s f,
        length-append s.tasks (record { text = s.input; finished = false } ∷ []),
      ))

-- If all tasks are shown and the selection is on the list, no event raises an exception, and
-- after it the selection is on the list.
pub handle_input-IsChosen :
    (s : Todo) (e : Event) → s.filter ≡ every → IsChosen s → Returns IsChosen (handle_input s e)
unfolding handle_input
handle_input-IsChosen s (keydown key u) f h = on_mode s.mode refl
  where
    on_mode : (m : Mode) → s.mode ≡ m → Returns IsChosen (handle_input s (keydown key u))
    on_mode list e = rw (e, handle_input) (list_key-IsChosen s f h key)
    on_mode add e = rw (e, handle_input) (add_key-IsChosen s f h key u)
handle_input-IsChosen s _ f h = h

-- RETURN past the end of a nonempty view
return_raised :
    (s : Todo) (u : Text)
    → s.mode ≡ list
    → 0 < length (filtered s)
    → length (filtered s) ≤ s.cursor.selected
    → handle_input s (keydown k_return u) ≡ raised s
unfolding handle_input toggle_selected key_index
return_raised s u m pos past =
    ground
      (arith, get_elem?-none (filtered s) s.cursor.selected past, nonempty-length (filtered s) pos)

-- If the pending tasks are shown and the selection is the last of several, RETURN returns, and a
-- second RETURN raises an exception.
pub two_returns_raise :
    (s : Todo) (u : Text)
    → s.mode ≡ list
    → s.filter ≡ pending
    → 0 < s.cursor.selected
    → s.cursor.selected + 1 ≡ length (filtered s)
    → (s' : Todo) × (handle_input s (keydown k_return u) ≡ done s')
      × (handle_input s' (keydown k_return u) ≡ raised s')
unfolding save
two_returns_raise s u m f pos last =
    let (t, e) = get_elem?-some (filtered s) s.cursor.selected (omega arith) in
    let leaves : toggled_view s.filter (filtered s) s.cursor.selected t
        ≡ erase_at (filtered s) s.cursor.selected =
      ground arith in
    let view = ap (λ (v : List Task). length v) (filtered-toggled s t e ∙ leaves) in
    let fewer = length-erase_at (filtered s) s.cursor.selected (omega arith) in
    (toggled s, return_done s t e u m, return_raised (toggled s) u m (omega arith) (omega arith))
