-- ===== src/Apps/Passwords/Laws.antt =====
-- What the keys of src/apps/passwords/passwords.py keep: the selection, the file, complete entries
-- and hidden passwords.
use julius_os.Prelude.{
  ℕ, zero, suc, ◌<◌, ◌≡◌, ◌≢◌, refl, Bool, true, false, List, [], ◌∷◌, ◌++◌, length, take, erase_at,
  drop_last, nonempty, ltb, if◌then◌else◌, arith, tests, length-append, length-erase_at,
  length-nonempty,
}
use julius_os.Prelude.Text.{Text}
use julius_os.Events.{
  Key, k_return, k_backspace, k_escape, k_up, k_down, k_n, k_d, k_v, k_s, k_h, is, Event, keydown,
}
use julius_os.Outcome.{Outcome, done, after, Returns, Returns-if}
use julius_os.Cursor.{retreat, IsWithin}
use julius_os.Cursor.Laws.{down-IsWithin, up-IsWithin}
use julius_os.Apps.Passwords.{
  Entry, Mode, list, add, view, Stage, at_site, at_user, at_password, PasswordManager, load, save,
  mask, view_password, input_at, with_input, delete_selected, list_key, next_stage, add_key,
  view_key, handle_input,
}

-- Every field of the entry is filled in.
abbrev pub IsComplete : Entry → Type 0
IsComplete e = (nonempty e.site ≡ true) × (nonempty e.user ≡ true) × (nonempty e.password ≡ true)

abbrev pub AllComplete : List Entry → Type 0
AllComplete [] = Unit {0}
AllComplete (e ∷ es) = IsComplete e × AllComplete es

-- The fields before the one that is typed are filled in.
abbrev pub IsFilled : Stage → Entry → Type 0
IsFilled at_site e = Unit {0}
IsFilled at_user e = nonempty e.site ≡ true
IsFilled at_password e = (nonempty e.site ≡ true) × (nonempty e.user ≡ true)

AllComplete-append :
    (es : List Entry) (e : Entry) → AllComplete es → IsComplete e → AllComplete (es ++ e ∷ [])
AllComplete-append [] e h k = (k, tt)
AllComplete-append (d ∷ es) e h k = (h.0, AllComplete-append es e h.1 k)

AllComplete-erase_at : (es : List Entry) (i : ℕ) → AllComplete es → AllComplete (erase_at es i)
AllComplete-erase_at [] i h = tt
AllComplete-erase_at (e ∷ es) zero h = h.1
AllComplete-erase_at (e ∷ es) (suc i) h = (h.0, AllComplete-erase_at es i h.1)

-- The selection is on the list, on an entry while one is shown; the file holds the entries; every
-- entry is complete, and so is what was typed of the next.
abbrev pub IsSound : PasswordManager → Type 0
IsSound s =
    IsWithin (length s.entries) s.cursor
    × (s.mode ≡ view → s.cursor.selected < length s.entries)
    × (load s.saved ≡ s.entries)
    × AllComplete s.entries
    × IsFilled s.stage s.inputs

IsSound-if :
    (b : Bool) (m n : PasswordManager)
    → (b ≡ true → IsSound m)
    → (b ≡ false → IsSound n)
    → IsSound (if b then m else n)
IsSound-if true m n yes_case no_case = yes_case refl
IsSound-if false m n yes_case no_case = no_case refl

with_input-IsFilled :
    (st : Stage) (t : Text) (e : Entry) → IsFilled st e → IsFilled st (with_input st t e)
unfolding with_input
with_input-IsFilled at_site t e h = tt
with_input-IsFilled at_user t e h = h
with_input-IsFilled at_password t e h = h

module _ (s : PasswordManager) (h : IsSound s) where
  delete-IsSound : s.mode ≡ list → Returns IsSound (delete_selected s)
  unfolding delete_selected save retreat load
  delete-IsSound m =
      Returns-if IsSound (nonempty s.entries) _ _
        (λ n.
          Returns-if IsSound (ltb s.cursor.selected (length s.entries)) _ _
            (λ lt. (
              omega
                  (tests, h.0, length-erase_at s.entries s.cursor.selected (omega (tests, lt)), lt),
              (λ v. ground arith),
              refl,
              AllComplete-erase_at s.entries s.cursor.selected h.3,
              h.4,
            ))
            (λ past. absurd (inside n past)))
        (λ _. h)
    where
      inside : nonempty s.entries ≡ true → ltb s.cursor.selected (length s.entries) ≡ false → ⊥
      inside n past = ground (arith, h.0, length-nonempty s.entries n)

  list_key-IsSound : s.mode ≡ list → (key : Key) → Returns IsSound (list_key s key)
  unfolding list_key
  list_key-IsSound m key =
      Returns-if IsSound (is k_down key) _ _
        (λ _. (down-IsWithin 9 (length s.entries) s.cursor h.0, (λ v. ground arith), h.2, h.3, h.4))
        λ _.
          Returns-if IsSound (is k_up key) _ _
            (λ _. (up-IsWithin (length s.entries) s.cursor h.0, (λ v. ground arith), h.2, h.3, h.4))
            λ _.
              Returns-if IsSound (is k_n key) _ _ (λ _. (h.0, (λ v. cc), h.2, h.3, tt))
                λ _.
                  Returns-if IsSound (is k_v key) _ _
                    (λ _.
                      IsSound-if (nonempty s.entries) _ _
                        (λ n. (
                          h.0,
                          (λ v. omega (arith, h.0, length-nonempty s.entries n)),
                          h.2,
                          h.3,
                          h.4,
                        ))
                        (λ _. h))
                    λ _. Returns-if IsSound (is k_d key) _ _ (λ _. delete-IsSound m) (λ _. h)

  next_stage-IsSound :
      s.mode ≡ add → nonempty (input_at s.stage s.inputs) ≡ true → IsSound (next_stage s)
  unfolding next_stage save input_at load
  next_stage-IsSound m n = on_stage s.stage refl
    where
      on_stage : (st : Stage) → s.stage ≡ st → IsSound (next_stage s)
      on_stage at_site e =
          let filled : nonempty s.inputs.site ≡ true = rw (e, input_at) at n in
          rw (e, next_stage) (h.0, (λ v. cc), h.2, h.3, filled)
      on_stage at_user e =
          let filled : nonempty s.inputs.user ≡ true = rw (e, input_at) at n in
          let before : nonempty s.inputs.site ≡ true = rw e at h.4 in
          rw (e, next_stage) (h.0, (λ v. cc), h.2, h.3, (before, filled))
      on_stage at_password e =
          let filled : nonempty s.inputs.password ≡ true = rw (e, input_at) at n in
          let before : (nonempty s.inputs.site ≡ true) × (nonempty s.inputs.user ≡ true) =
            rw e at h.4 in
          rw (e, next_stage)
            (
              omega (arith, h.0, length-append s.entries (s.inputs ∷ [])),
              (λ v. cc),
              refl,
              AllComplete-append s.entries s.inputs h.3 (before.0, before.1, filled),
              h.4,
            )

  add_key-IsSound : s.mode ≡ add → (key : Key) (u : Text) → IsSound (add_key s key u)
  unfolding add_key
  add_key-IsSound m key u =
      let typed = input_at s.stage s.inputs in
      IsSound-if (is k_return key) _ _
        (λ _. IsSound-if (nonempty typed) _ _ (λ n. next_stage-IsSound m n) (λ _. h))
        λ _.
          IsSound-if (is k_backspace key) _ _
            (λ _. (h.0, h.1, h.2, h.3, with_input-IsFilled s.stage (drop_last typed) s.inputs h.4))
            λ _.
              IsSound-if (is k_escape key) _ _ (λ _. (h.0, (λ v. cc), h.2, h.3, h.4))
                λ _. (h.0, h.1, h.2, h.3, with_input-IsFilled s.stage (typed ++ u) s.inputs h.4)

  view_key-IsSound : (key : Key) → IsSound (view_key s key)
  unfolding view_key
  view_key-IsSound key =
      IsSound-if (is k_escape key) _ _ (λ _. (h.0, (λ v. cc), h.2, h.3, h.4))
        λ _. IsSound-if (is k_s key) _ _ (λ _. h) λ _. IsSound-if (is k_h key) _ _ (λ _. h) (λ _. h)

-- If the selection is on the list (on an entry while one is shown), the file holds the entries,
-- every entry has a site, a user and a password, and the fields typed before the current one are
-- filled in, then no event raises an exception and the same holds after it.
pub handle_input-IsSound :
    (s : PasswordManager) (e : Event) → IsSound s → Returns IsSound (handle_input s e)
unfolding handle_input
handle_input-IsSound s (keydown key u) h = on_mode s.mode refl
  where
    on_mode : (m : Mode) → s.mode ≡ m → Returns IsSound (handle_input s (keydown key u))
    on_mode list e =
        let go : handle_input s (keydown key u) ≡ list_key s key = ground arith in
        rw go (list_key-IsSound s h e key)
    on_mode add e =
        let go : handle_input s (keydown key u) ≡ done (add_key s key u) = ground arith in
        rw go (add_key-IsSound s h e key u)
    on_mode view e =
        let go : handle_input s (keydown key u) ≡ done (view_key s key) = ground arith in
        rw go (view_key-IsSound s h key)
handle_input-IsSound s _ h = h

-- The password that the view shows of any entry is a row of stars.
abbrev pub IsHidden : PasswordManager → Type 0
IsHidden s = (e : Entry) → view_password s e ≡ take 20 (mask e.password)

hidden : (s : PasswordManager) → s.shown ≡ false → IsHidden s
unfolding view_password
hidden s h e = rw h refl

-- The view is entered from another mode only.
abbrev pub EntersHidden : PasswordManager → Type 0
EntersHidden s = s.mode ≡ view → IsHidden s

EntersHidden-if :
    (b : Bool) (m n : PasswordManager)
    → EntersHidden m
    → EntersHidden n
    → EntersHidden (if b then m else n)
EntersHidden-if true m n h k = h
EntersHidden-if false m n h k = k

after-if :
    (b : Bool) (m n : Outcome PasswordManager)
    → EntersHidden (after m)
    → EntersHidden (after n)
    → EntersHidden (after (if b then m else n))
after-if true m n h k = h
after-if false m n h k = k

module _ (s : PasswordManager) (elsewhere : s.mode ≢ view) where
  still-EntersHidden : EntersHidden s
  still-EntersHidden v = absurd (elsewhere v)

  delete-EntersHidden : EntersHidden (after (delete_selected s))
  unfolding delete_selected save retreat
  delete-EntersHidden =
      after-if (nonempty s.entries) _ _
        (after-if (ltb s.cursor.selected (length s.entries)) _ _ (λ v. absurd (elsewhere v))
          still-EntersHidden)
        still-EntersHidden

  list_key-EntersHidden : (key : Key) → EntersHidden (after (list_key s key))
  unfolding list_key
  list_key-EntersHidden key =
      after-if (is k_down key) _ _ (λ v. absurd (elsewhere v))
        (after-if (is k_up key) _ _ (λ v. absurd (elsewhere v))
          (after-if (is k_n key) _ _ (λ v. cc)
            (after-if (is k_v key) _ _
              (EntersHidden-if (nonempty s.entries) _ _
                (λ v. hidden (record s { mode = view; shown = false }) refl) still-EntersHidden)
              (after-if (is k_d key) _ _ delete-EntersHidden still-EntersHidden))))

  next_stage-EntersHidden : EntersHidden (next_stage s)
  unfolding next_stage save
  next_stage-EntersHidden = on_stage s.stage refl
    where
      on_stage : (st : Stage) → s.stage ≡ st → EntersHidden (next_stage s)
      on_stage at_site e = rw (e, next_stage) (λ v. absurd (elsewhere v))
      on_stage at_user e = rw (e, next_stage) (λ v. absurd (elsewhere v))
      on_stage at_password e = rw (e, next_stage) (λ v. cc)

  add_key-EntersHidden : (key : Key) (u : Text) → EntersHidden (add_key s key u)
  unfolding add_key
  add_key-EntersHidden key u =
      EntersHidden-if (is k_return key) _ _
        (EntersHidden-if (nonempty (input_at s.stage s.inputs)) _ _ next_stage-EntersHidden
          still-EntersHidden)
        (EntersHidden-if (is k_backspace key) _ _ (λ v. absurd (elsewhere v))
          (EntersHidden-if (is k_escape key) _ _ (λ v. cc) (λ v. absurd (elsewhere v))))

-- From another mode than the view of an entry, an event that leads into the view shows every
-- password as stars, whatever was shown before.
pub handle_input-EntersHidden :
    (s : PasswordManager) (e : Event) → s.mode ≢ view → EntersHidden (after (handle_input s e))
unfolding handle_input
handle_input-EntersHidden s (keydown key u) elsewhere = on_mode s.mode refl
  where
    on_mode : (m : Mode) → s.mode ≡ m → EntersHidden (after (handle_input s (keydown key u)))
    on_mode list e =
        let go : handle_input s (keydown key u) ≡ list_key s key = ground arith in
        rw go (list_key-EntersHidden s elsewhere key)
    on_mode add e =
        let go : handle_input s (keydown key u) ≡ done (add_key s key u) = ground arith in
        rw go (add_key-EntersHidden s elsewhere key u)
    on_mode view e = absurd (elsewhere e)
handle_input-EntersHidden s _ elsewhere = λ v. absurd (elsewhere v)
