-- ===== src/Shell/Locking.antt =====
-- The locked screen of src/julius_ui.py: what opens it, and what is left open when ESC locks it.
use julius_os.Prelude.{
  ℕ, ◌+◌, ◌-◌, ◌≡◌, ◌≢◌, ◌≤◌, ◌⊎◌, inl, inr, refl, Bool, true, false, Option, none, some, List,
  arith, ltb,
}
use julius_os.Events.{
  Key, k_escape, key_index, Pos, Event, keydown, mouse_down, mouse_up, mouse_wheel, quit,
}
use julius_os.Outcome.{done, Returns}
use julius_os.Shell.Loop.{
  state_lock, state_home, Parts, Ui, Gesture, gesture, release, release_lock, release_drop,
  mouse_released, key_pressed, escape, effect, message, lifted, handle,
}
use julius_os.Shell.Steps.{wheel_turned-scroll}

module _ {A O : Type 0} where
  -- No overlay is shown.
  abbrev pub IsBare : Ui A O → Type 0
  IsBare u =
      (u.show_switcher ≡ false)
      × (u.show_folder ≡ false)
      × (u.show_cc ≡ false)
      × (u.show_notif ≡ false)
      × (u.show_spotlight ≡ false)
      × (u.show_ai ≡ false)
      × (u.show_drop ≡ false)
      × (u.show_cloud ≡ false)

  -- Locked still, with at most one swipe more counted; or the home screen, after a second swipe.
  abbrev pub Unlocks : Ui A O → Ui A O → Type 0
  Unlocks u u' =
      ((u'.state ≡ state_lock) × (u'.swipe_count ≤ u.swipe_count + 1))
      ⊎ ((u'.state ≡ state_home) × (u'.swipe_count ≡ 0) × (1 ≤ u.swipe_count))

  abbrev pub StaysShut : Ui A O → Ui A O → Type 0
  StaysShut u u' =
      Unlocks u u'
      × IsBare u'
      × (u'.app_states ≡ u.app_states)
      × (u'.current_app ≡ u.current_app)
      × (u'.settings ≡ u.settings)

module _ {A O : Type 0} (parts : Parts A O) where
  release-lock :
      (g : Gesture) (p : Pos) (u : Ui A O)
      → u.state ≡ state_lock
      → IsBare u
      → release parts g p u ≡ done (release_lock parts g u)
  unfolding release
  release-lock g p u locked (a, b, c, d, e, f, h, i) = ground arith

  release_lock-StaysShut :
      (g : Gesture) (u : Ui A O)
      → u.state ≡ state_lock
      → IsBare u
      → StaysShut u (release_lock parts g u)
  unfolding release_lock effect message
  release_lock-StaysShut g u locked bare =
      on_tests g.is_swipe_left (ltb 1 (u.swipe_count + 1)) parts.backend refl refl refl
    where
      on_tests :
          (swiped twice told : Bool)
          → g.is_swipe_left ≡ swiped
          → ltb 1 (u.swipe_count + 1) ≡ twice
          → parts.backend ≡ told
          → StaysShut u (release_lock parts g u)
      on_tests false twice told e f k =
          rw (e, release_lock) (inl (locked, omega arith), bare, refl, refl, refl)
      on_tests true false told e f k =
          rw (e, release_lock, f) (inl (locked, omega arith), bare, refl, refl, refl)
      on_tests true true false e f k =
          rw (e, release_lock, f, k) (inr (refl, refl, ground arith), bare, refl, refl, refl)
      on_tests true true true e f k =
          rw (e, release_lock, f, k) (inr (refl, refl, ground arith), bare, refl, refl, refl)

  key_pressed-lock :
      (key : Key) (t : List ℕ) (u : Ui A O)
      → u.state ≡ state_lock
      → IsBare u
      → key_pressed parts key t u ≡ done u
  unfolding key_pressed escape
  key_pressed-lock key t u locked (a, b, c, d, e, f, h, i) = ground arith

  mouse_released-StaysShut :
      (p : Pos) (now : ℕ) (u : Ui A O)
      → u.state ≡ state_lock
      → IsBare u
      → Returns (StaysShut u) (mouse_released parts p now u)
  unfolding mouse_released lifted
  mouse_released-StaysShut p now u locked bare = on_start u.touch_start refl
    where
      on_start :
          (o : Option Pos)
          → u.touch_start ≡ o
          → Returns (StaysShut u) (mouse_released parts p now u)
      on_start none e =
          let idle : mouse_released parts p now u ≡ done u = ground arith in
          rw idle (inl (locked, omega arith), bare, refl, refl, refl)
      on_start (some start) e =
          let g = gesture start p (now - u.touch_time) in
          let same = release-lock g p u locked bare in
          let lift : mouse_released parts p now u ≡ done (lifted parts (release_lock parts g u)) =
            ground arith in
          rw lift (release_lock-StaysShut g u locked bare)

  -- On the locked screen with no overlay shown, any event but QUIT, at any time, returns,
  -- reaches no app and no setting and shows no overlay. It leaves the screen locked with at most
  -- one more swipe counted, or it opens the home screen with the count at 0, and that only if a
  -- swipe was counted before.
  pub handle-StaysShut :
      (e : Event) (now : ℕ) (u : Ui A O)
      → e ≢ quit
      → u.state ≡ state_lock
      → IsBare u
      → Returns (StaysShut u) (handle parts e now u)
  unfolding handle
  handle-StaysShut (mouse_down p) now u stays locked bare =
      (inl (locked, omega arith), bare, refl, refl, refl)
  handle-StaysShut (mouse_up p) now u stays locked bare =
      mouse_released-StaysShut p now u locked bare
  handle-StaysShut (keydown key t) now u stays locked bare =
      let idle : key_pressed parts key t u ≡ done u = key_pressed-lock key t u locked bare in
      rw idle (inl (locked, omega arith), bare, refl, refl, refl)
  handle-StaysShut (mouse_wheel y) now u stays locked bare =
      let turned = wheel_turned-scroll parts y u in
      rw turned.1 (inl (locked, omega arith), bare, refl, refl, refl)
  handle-StaysShut quit now u stays locked bare = absurd (stays refl)

  -- On the home screen with the Drop panel shown, and none of the overlays before it, ESC locks
  -- the device and leaves the panel: the next release goes to it.
  pub escape_leaves_drop :
      (t : List ℕ) (now : ℕ) (g : Gesture) (p : Pos) (u : Ui A O)
      → u.state ≡ state_home
      → u.show_drop ≡ true
      → (u.show_switcher ≡ false)
        × (u.show_folder ≡ false)
        × (u.show_cc ≡ false)
        × (u.show_notif ≡ false)
        × (u.show_spotlight ≡ false)
        × (u.show_ai ≡ false)
      → (u' : Ui A O) × (handle parts (keydown k_escape t) now u ≡ done u')
        × (u'.state ≡ state_lock)
        × (release parts g p u' ≡ done (release_drop parts g p u'))
  unfolding handle key_pressed escape release key_index
  escape_leaves_drop t now g p u home open_ (a, b, c, d, e, f) =
      (record u { state = state_lock; swipe_count = 0 }, ground arith, refl, ground arith)
