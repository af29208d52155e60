-- ===== src/Shell/Freezing.antt =====
-- The search panel of src/system/spotlight.py hides itself at a touch outside of it, and
-- src/julius_ui.py goes on handing every event to it.
use julius_os.Prelude.{
  ℕ, ◌≡◌, ◌≢◌, refl, ◌∙◌, ◌-◌, true, false, Option, none, some, List, [], ◌∷◌, arith,
}
use julius_os.Prelude.Int.{pos, ltb_ℤ}
use julius_os.Events.{Key, Pos, Event, keydown, mouse_down, mouse_up, mouse_wheel, quit}
use julius_os.Outcome.{Outcome, done, raised, Returns}
use julius_os.System.Spotlight.{touched_result, handle_touch, handle_key, hide}
use julius_os.System.Spotlight.Answers.{outside_hides}
use julius_os.Shell.Loop.{
  Parts, Ui, Gesture, gesture, release, release_spotlight, on_reply, mouse_released, key_pressed,
  search_answered, wheel_turned, handle, run,
}
use julius_os.Shell.Steps.{wheel_turned-scroll}

-- None of the events is QUIT.
abbrev pub HasNoQuit : List (Event × ℕ) → Type 0
HasNoQuit [] = Unit {0}
HasNoQuit (e ∷ es) = (e.0 ≢ quit) × HasNoQuit es

module _ {A O : Type 0} where
  -- The loop shows the search panel, no overlay before it, and the panel is hidden.
  abbrev pub IsFrozen : Ui A O → Type 0
  IsFrozen u =
      (u.show_spotlight ≡ true)
      × (u.spotlight.visible ≡ false)
      × (u.show_switcher ≡ false)
      × (u.show_folder ≡ false)
      × (u.show_cc ≡ false)
      × (u.show_notif ≡ false)

  -- Frozen, on the same screen and page, with the apps and the settings as they were.
  abbrev pub StaysFrozen : Ui A O → Ui A O → Type 0
  StaysFrozen u u' =
      IsFrozen u'
      × (u'.state ≡ u.state)
      × (u'.current_page ≡ u.current_page)
      × (u'.app_states ≡ u.app_states)
      × (u'.settings ≡ u.settings)

module _ {A O : Type 0} (parts : Parts A O) where
  release-frozen : (g : Gesture) (p : Pos) (u : Ui A O) → IsFrozen u → release parts g p u ≡ done u
  unfolding release release_spotlight on_reply handle_touch
  release-frozen g p u (shown, hidden_, a, b, c, d) = ground arith

  key_pressed-frozen :
      (key : Key) (t : List ℕ) (u : Ui A O) → IsFrozen u → key_pressed parts key t u ≡ done u
  unfolding key_pressed search_answered on_reply handle_key
  key_pressed-frozen key t u (shown, hidden_, a, b, c, d) = ground arith

  mouse_released-frozen :
      (p : Pos) (now : ℕ) (u : Ui A O)
      → IsFrozen u
      → Returns (StaysFrozen u) (mouse_released parts p now u)
  unfolding mouse_released
  mouse_released-frozen p now u h = on_start u.touch_start refl
    where
      on_start :
          (o : Option Pos)
          → u.touch_start ≡ o
          → Returns (StaysFrozen u) (mouse_released parts p now u)
      on_start none e =
          let idle : mouse_released parts p now u ≡ done u = ground arith in
          rw idle (h, refl, refl, refl, refl)
      on_start (some start) e =
          let same = release-frozen (gesture start p (now - u.touch_time)) p u h in
          let lift : mouse_released parts p now u ≡ done (record u { touch_start = none }) =
            ground arith in
          rw lift (h, refl, refl, refl, refl)

  -- No event but QUIT thaws the search panel.
  handle-frozen :
      (e : Event) (now : ℕ) (u : Ui A O)
      → e ≢ quit
      → IsFrozen u
      → Returns (StaysFrozen u) (handle parts e now u)
  unfolding handle wheel_turned
  handle-frozen (mouse_down p) now u stays h = (h, refl, refl, refl, refl)
  handle-frozen (mouse_up p) now u stays h = mouse_released-frozen p now u h
  handle-frozen (keydown key t) now u stays h =
      rw (key_pressed-frozen key t u h) (h, refl, refl, refl, refl)
  handle-frozen (mouse_wheel y) now u stays h =
      let turned = wheel_turned-scroll parts y u in rw turned.1 (h, refl, refl, refl, refl)
  handle-frozen quit now u stays h = absurd (stays refl)

  StaysFrozen-trans : (u v w : Ui A O) → StaysFrozen u v → StaysFrozen v w → StaysFrozen u w
  StaysFrozen-trans u v w (_, a, b, c, d) (h, a', b', c', d') = (h, a' ∙ a, b' ∙ b, c' ∙ c, d' ∙ d)

  Returns-trans :
      (u v : Ui A O) (o : Outcome (Ui A O))
      → StaysFrozen u v
      → Returns (StaysFrozen v) o
      → Returns (StaysFrozen u) o
  Returns-trans u v (done w) h k = StaysFrozen-trans u v w h k
  Returns-trans u v (raised w) h k = k

  -- If the loop shows the search panel and no switcher, folder, control center or notifications,
  -- while the panel itself is hidden, then every run of events without QUIT returns in such a
  -- state, on the same screen and page, with the apps and the settings as they were.
  pub run-frozen :
      (es : List (Event × ℕ)) (u : Ui A O)
      → HasNoQuit es
      → IsFrozen u
      → Returns (StaysFrozen u) (run parts es u)
  unfolding run
  run-frozen [] u stays h = (h, refl, refl, refl, refl)
  run-frozen (e ∷ es) u stays h =
      next (handle parts e.0 e.1 u) (handle-frozen e.0 e.1 u stays.0 h)
        (λ v k. run-frozen es v stays.1 k)
    where
      next :
          (o : Outcome (Ui A O))
          → Returns (StaysFrozen u) o
          → ((v : Ui A O) → IsFrozen v → Returns (StaysFrozen v) (run parts es v))
          → Returns (StaysFrozen u) (elim o [ done u' ↦ run parts es u' | raised u' ↦ raised u' ])
      next (done v) k rest = Returns-trans u v (run parts es v) k (rest v k.0)
      next (raised v) k rest = k

  -- If the loop and the panel both show the search, and no overlay before it is shown, then a
  -- touch that ends above the panel on none of its results returns with the panel hidden and
  -- still shown by the loop.
  pub touch_above_freezes :
      (p start : Pos) (now : ℕ) (u : Ui A O)
      → u.touch_start ≡ some start
      → u.show_spotlight ≡ true
      → u.spotlight.visible ≡ true
      → (u.show_switcher ≡ false)
        × (u.show_folder ≡ false)
        × (u.show_cc ≡ false)
        × (u.show_notif ≡ false)
      → touched_result p u.spotlight.result_rects ≡ none
      → ltb_ℤ p.1 (pos 50) ≡ true
      → Returns IsFrozen (handle parts (mouse_up p) now u)
  unfolding handle mouse_released release release_spotlight on_reply hide
  touch_above_freezes p start now u e shown v (a, b, c, d) missed above =
      let answer = outside_hides p u.spotlight v missed above in
      let end : handle parts (mouse_up p) now u
          ≡ done (record u { spotlight = hide u.spotlight; touch_start = none }) =
        ground arith in
      rw end (shown, refl, a, b, c, d)
