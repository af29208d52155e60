-- ===== src/Apps/FileManager/Laws.antt =====
-- What the keys of src/apps/filemanager/filemanager.py keep, and which item they act on.
use julius_os.Prelude.{
  ◌≡◌, refl, Bool, true, false, not, ◌&&◌, Option, none, some, arith, length, get_elem?, nonempty,
  get_elem?-some, length-nonempty, if◌then◌else◌,
}
use Prim.Native.Nat.{zero-le}
use julius_os.Prelude.Text.{Text, text_eq}
use julius_os.Events.{k_return, k_up, k_down, k_c, k_d, k_v, is, Event, keydown}
use julius_os.Outcome.{Returns, Returns-if}
use julius_os.Cursor.{IsShown, IsWithin}
use julius_os.Cursor.Laws.{down-IsShown, up-IsShown, down-IsWithin, up-IsWithin}
use julius_os.Apps.FileManager.{
  Disk, Listing, names, unreadable, FileManager, Answers, Status, parent, dirname, join_path,
  listed, relisted, refresh, enter, acted, delete, copy, paste, at_item, handle_input,
}

-- The list has an item, and the selection is one of the list's and among the ten that are drawn.
abbrev pub IsSteady : FileManager → Type 0
IsSteady s = (nonempty s.items ≡ true) × IsWithin (length s.items) s.cursor × IsShown 10 s.cursor

IsSteady-if :
    (b : Bool) (m n : FileManager) → IsSteady m → IsSteady n → IsSteady (if b then m else n)
IsSteady-if true m n yes_case no_case = yes_case
IsSteady-if false m n yes_case no_case = no_case

relisted-IsSteady : (d : Disk) (s : FileManager) (l : Listing) → IsSteady (relisted d s l)
unfolding relisted listed
relisted-IsSteady d s (names es) = (refl, zero-le, (omega arith, omega arith))
relisted-IsSteady d s (unreadable e) = (refl, omega arith, (omega arith, omega arith))

refresh-IsSteady : (d : Disk) (s : FileManager) → IsSteady (refresh d s)
unfolding refresh
refresh-IsSteady d s = relisted-IsSteady d s (d.entries s.path)

module _ (a : Answers) where
  acted-IsSteady :
      (o : Option Text) (st : Status) (s : FileManager) → IsSteady s → IsSteady (acted a o st s)
  unfolding acted
  acted-IsSteady none st s h = refresh-IsSteady a.later (record s { status = st })
  acted-IsSteady (some e) st s h = h

  enter-IsSteady : (item : Text) (s : FileManager) → IsSteady s → IsSteady (enter a item s)
  unfolding enter
  enter-IsSteady item s h =
      IsSteady-if (nonempty item) _ s
        (IsSteady-if (text_eq item parent) _ _
          (refresh-IsSteady a.later (record s { path = dirname s.path }))
          (IsSteady-if (a.before.is_dir (join_path s.path item)) _ _
            (refresh-IsSteady a.later (record s { path = join_path s.path item })) h))
        h

  delete-IsSteady : (item : Text) (s : FileManager) → IsSteady s → IsSteady (delete a item s)
  unfolding delete
  delete-IsSteady item s h =
      IsSteady-if (nonempty item && not (text_eq item parent)) _ s (acted-IsSteady a.failure _ _ h)
        h

  paste-IsSteady : (o : Option Text) (s : FileManager) → IsSteady s → IsSteady (paste a o s)
  unfolding paste
  paste-IsSteady none s h = h
  paste-IsSteady (some src) s h = IsSteady-if (nonempty src) _ s (acted-IsSteady a.failure _ _ h) h

  copy-IsSteady : (item : Text) (s : FileManager) → IsSteady s → IsSteady (copy item s)
  unfolding copy
  copy-IsSteady item s h = IsSteady-if (nonempty item && not (text_eq item parent)) _ s h h

  at_item-IsSteady :
      (f : Text → FileManager → FileManager) (s : FileManager)
      → ((item : Text) → IsSteady (f item s))
      → IsSteady s
      → Returns IsSteady (at_item f s (get_elem? s.items s.cursor.selected))
  unfolding at_item
  at_item-IsSteady f s k h =
      let (item, e) =
        get_elem?-some s.items s.cursor.selected
          (omega (arith, h.1, length-nonempty s.items h.0)) in
      rw e (k item)

  -- If the list has an item and the selection is one of the list's and drawn, then no event raises
  -- an exception, whatever the system answers, and the same holds after it.
  pub handle_input-IsSteady :
      (s : FileManager) (e : Event) → IsSteady s → Returns IsSteady (handle_input a s e)
  unfolding handle_input
  handle_input-IsSteady s (keydown key u) h =
      Returns-if IsSteady (is k_down key) _ _
        (λ _. (
          h.0,
          down-IsWithin 10 (length s.items) s.cursor h.1,
          down-IsShown 10 (length s.items) (omega arith) h.2,
        ))
        λ _.
          Returns-if IsSteady (is k_up key) _ _
            (λ _. (h.0, up-IsWithin (length s.items) s.cursor h.1, up-IsShown 10 h.2))
            λ _.
              Returns-if IsSteady (is k_return key) _ _
                (λ _. at_item-IsSteady (enter a) s (λ item. enter-IsSteady item s h) h)
                λ _.
                  Returns-if IsSteady (is k_d key) _ _
                    (λ _. at_item-IsSteady (delete a) s (λ item. delete-IsSteady item s h) h)
                    λ _.
                      Returns-if IsSteady (is k_c key) _ _
                        (λ _. at_item-IsSteady copy s (λ item. copy-IsSteady item s h) h)
                        λ _.
                          Returns-if IsSteady (is k_v key) _ _ (λ _. paste-IsSteady s.clipboard s h)
                            (λ _. h)
  handle_input-IsSteady s _ h = h
