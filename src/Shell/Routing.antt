-- ===== src/Shell/Routing.antt =====
-- Which app gets the events of src/julius_ui.py, and that the folder manager never does.
use julius_os.Prelude.{
  ℕ, ◌+◌, ◌-◌, ◌≡◌, ◌≤◌, refl, Bool, true, false, ◌&&◌, ◌||◌, Option, none, some, ◌++◌, arith,
  if◌then◌else◌, ltb, ◌==◌,
}
use julius_os.Prelude.Text.{Text, codes, text_eq}
use julius_os.Events.{
  Key, k_escape, is, Pos, Event, keydown, mouse_down, mouse_up, mouse_wheel, quit,
}
use julius_os.Outcome.{Outcome, done, raised, after}
use julius_os.System.Spotlight.{
  Spotlight, Kind, Reply, nothing, hidden, picked, app, command, setting,
}
use julius_os.System.AppSwitcher.{AppSwitcher}
use julius_os.Shell.Icons.{is_listed, get_tapped_app}
use julius_os.Shell.Settings.{Settings}
use julius_os.Shell.Loop.{
  Screen, state_lock, state_home, state_app, state_settings, Parts, Ui, Gesture, open_app, message,
  effect, notify, tap, swipe, unlock, start_scan, handle, switcher_answered, folder_answered,
  on_reply, release_cc, cc_answered, release_notif, release_ai, release_drop, release_cloud,
  release_lock, release_home, turn_page, release_app, release_settings, release_switcher,
  release_folder, release_spotlight, release, send, escape, key_pressed, search_answered,
  mouse_released, gesture, lifted, app_instances,
}
use julius_os.Shell.Steps.{wheel_turned-scroll}

module _ {A O : Type 0} where
  -- The app screen has an app of `app_instances`; the first page or the second is shown; the folder
  -- manager is not.
  abbrev pub IsRouted : Ui A O → Type 0
  IsRouted u =
      (u.state ≡ state_app
        → (n : Text) × (u.current_app ≡ some n) × (is_listed n app_instances ≡ true))
      × (u.current_page ≤ 1)
      × (u.show_folder ≡ false)

  IsRouted-if :
      (b : Bool) (m n : Ui A O)
      → (b ≡ true → IsRouted m)
      → (b ≡ false → IsRouted n)
      → IsRouted (if b then m else n)
  IsRouted-if true m n yes_case no_case = yes_case refl
  IsRouted-if false m n yes_case no_case = no_case refl

  Outcome-if :
      (b : Bool) (m n : Outcome (Ui A O))
      → (b ≡ true → IsRouted (after m))
      → (b ≡ false → IsRouted (after n))
      → IsRouted (after (if b then m else n))
  Outcome-if true m n yes_case no_case = yes_case refl
  Outcome-if false m n yes_case no_case = no_case refl

module _ {A O : Type 0} (parts : Parts A O) where
  message-IsRouted : (a t : Text) (u : Ui A O) → IsRouted u → IsRouted (message parts a t u)
  unfolding message effect
  message-IsRouted a t u h =
      IsRouted-if parts.backend (effect parts (notify a t) u) u (λ _. h) (λ _. h)

  open_app-IsRouted : (name : Text) (u : Ui A O) → IsRouted u → IsRouted (open_app parts name u)
  unfolding open_app effect
  open_app-IsRouted name u h =
      let told = message-IsRouted name (name ++ codes " opened") (effect parts tap u) h in
      IsRouted-if (text_eq name (codes "Settings")) _ _ (λ _. ((λ e. cc), told.1, told.2))
        λ _.
          IsRouted-if (text_eq name (codes "AI")) _ _ (λ _. told)
            λ _.
              IsRouted-if (text_eq name (codes "Drop")) _ _ (λ _. told)
                λ _.
                  IsRouted-if (text_eq name (codes "Cloud")) _ _ (λ _. told)
                    λ _.
                      IsRouted-if (is_listed name app_instances) _ _
                        (λ k. ((λ e. (name, refl, k)), told.1, told.2)) λ _. told

  switcher_answered-IsRouted :
      (g : Gesture) (o : Outcome AppSwitcher) (a : Option Text) (u : Ui A O)
      → IsRouted u
      → IsRouted (after (switcher_answered parts g o a u))
  unfolding switcher_answered
  switcher_answered-IsRouted g (raised s) a u h = h
  switcher_answered-IsRouted g (done s) none u h = Outcome-if g.is_swipe_down _ _ (λ _. h) (λ _. h)
  switcher_answered-IsRouted g (done s) (some name) u h =
      let opened = open_app-IsRouted name (record u { switcher = s }) h in
      Outcome-if g.is_swipe_down _ _ (λ _. h)
        λ _.
          Outcome-if (text_eq name (codes "closed")) (done (record u { switcher = s }))
            (done
              (record (open_app parts name (record u { switcher = s })) { show_switcher = false }))
            (λ _. h) (λ _. opened)

  folder_answered-IsRouted :
      (a : Option Text) (u : Ui A O) → IsRouted u → IsRouted (folder_answered parts a u)
  unfolding folder_answered
  folder_answered-IsRouted none u h = h
  folder_answered-IsRouted (some name) u h =
      let opened = open_app-IsRouted name u h in
      IsRouted-if (text_eq name (codes "closed")) _
        (record (open_app parts name u) { show_folder = false }) (λ _. (h.0, h.1, refl))
        (λ _. (opened.0, opened.1, refl))

  on_reply-IsRouted : (r : Reply) (u : Ui A O) → IsRouted u → IsRouted (on_reply parts r u)
  unfolding on_reply
  on_reply-IsRouted nothing u h = h
  on_reply-IsRouted hidden u h = h
  on_reply-IsRouted (picked r) u h = on_kind r.kind (open_app-IsRouted r.name u h)
    where
      on_kind :
          (k : Kind)
          → IsRouted (open_app parts r.name u)
          → IsRouted (elim k [
            | app ↦ record (open_app parts r.name u) { show_spotlight = false }
            | command ↦ u
            | setting ↦ u
          ])
      on_kind app opened = opened
      on_kind command opened = h
      on_kind setting opened = h

  cc_answered-IsRouted :
      (g : Gesture) (r : Outcome (Settings × O)) (u : Ui A O)
      → IsRouted u
      → IsRouted (after (cc_answered parts g r u))
  unfolding cc_answered effect
  cc_answered-IsRouted g (raised r) u h = h
  cc_answered-IsRouted g (done r) u h = Outcome-if g.is_swipe_down _ _ (λ _. h) (λ _. h)

  panels-IsRouted :
      (g : Gesture) (p : Pos) (u : Ui A O)
      → IsRouted u
      → IsRouted (after (release_cc parts g p u))
        × IsRouted (release_notif parts g p u)
        × IsRouted (release_ai parts g p u)
        × IsRouted (release_drop parts g p u)
        × IsRouted (release_cloud parts g p u)
  unfolding release_cc release_notif release_ai release_drop release_cloud effect
  panels-IsRouted g p u h = (
    cc_answered-IsRouted g (parts.cc_touch p u.settings u.panels) u h,
    IsRouted-if g.is_swipe_up _ _ (λ _. h) (λ _. h),
    IsRouted-if (g.is_swipe_right || g.is_swipe_down) _ _ (λ _. h) (λ _. h),
    IsRouted-if (g.is_swipe_right || g.is_swipe_down) _ _ (λ _. h) (λ _. h),
    IsRouted-if (g.is_swipe_right || g.is_swipe_down) _ _ (λ _. h) (λ _. h),
  )

  release_lock-IsRouted :
      (g : Gesture) (u : Ui A O) → IsRouted u → IsRouted (release_lock parts g u)
  unfolding release_lock effect
  release_lock-IsRouted g u h =
      IsRouted-if g.is_swipe_left _ _
        (λ _.
          IsRouted-if (ltb 1 (u.swipe_count + 1)) _ _
            (λ _.
              message-IsRouted (codes "Julius OS") (codes "Unlocked")
                (effect parts unlock
                  (record (effect parts start_scan
                    (effect parts swipe (record u { swipe_count = u.swipe_count + 1 }))) {
                      state = state_home;
                      swipe_count = 0;
                    }))
                ((λ e. cc), h.1, h.2))
            (λ _. h))
        (λ _. h)

  turn_page-IsRouted :
      (g : Gesture) (p : Pos) (u : Ui A O) → IsRouted u → IsRouted (turn_page parts g p u)
  unfolding turn_page effect
  turn_page-IsRouted g p u h =
      IsRouted-if (g.is_swipe_left && u.current_page == 0) _ _ (λ _. (h.0, omega arith, h.2))
        λ _.
          IsRouted-if (g.is_swipe_right && u.current_page == 1) _ _ (λ _. (h.0, omega arith, h.2))
            λ _. IsRouted-if g.is_tap _ _ (λ _. on_icon (get_tapped_app u.current_page p)) (λ _. h)
    where
      on_icon :
          (o : Option Text) → IsRouted (elim o [ none ↦ u | some name ↦ open_app parts name u ])
      on_icon none = h
      on_icon (some name) = open_app-IsRouted name u h

  release_home-IsRouted :
      (g : Gesture) (p : Pos) (u : Ui A O) → IsRouted u → IsRouted (release_home parts g p u)
  unfolding release_home effect
  release_home-IsRouted g p u h =
      IsRouted-if (g.is_swipe_down && g.from_top) _ _ (λ _. h)
        λ _.
          IsRouted-if (g.is_swipe_up && g.from_bottom) _ _ (λ _. h)
            λ _.
              IsRouted-if (g.is_swipe_up && g.is_long) _ _ (λ _. h)
                λ _.
                  IsRouted-if g.is_swipe_up _ _ (λ _. h)
                    λ _.
                      IsRouted-if g.is_swipe_down _ _ (λ _. ((λ e. cc), h.1, h.2))
                        λ _. turn_page-IsRouted g p u h

  send-IsRouted : (e : Event) (u : Ui A O) → IsRouted u → IsRouted (send parts e u)
  unfolding send
  send-IsRouted e u h = on_app u.current_app
    where
      on_app :
          (o : Option Text)
          → IsRouted (elim o [
            | none ↦ u
            | some name ↦
                if is_listed name app_instances
                then record u { app_states = parts.app_input name e u.app_states }
                else u
          ])
      on_app none = h
      on_app (some name) = IsRouted-if (is_listed name app_instances) _ _ (λ _. h) (λ _. h)

  release_app-IsRouted :
      (g : Gesture) (p : Pos) (u : Ui A O) → IsRouted u → IsRouted (release_app parts g p u)
  unfolding release_app effect
  release_app-IsRouted g p u h =
      IsRouted-if (g.is_swipe_right || g.is_swipe_down && g.from_top) _ _
        (λ _. ((λ e. cc), h.1, h.2))
        λ _. IsRouted-if g.is_tap _ _ (λ _. send-IsRouted (mouse_up p) u h) (λ _. h)

  release_settings-IsRouted :
      (g : Gesture) (p : Pos) (u : Ui A O) → IsRouted u → IsRouted (release_settings parts g p u)
  unfolding release_settings effect
  release_settings-IsRouted g p u h =
      IsRouted-if (g.is_swipe_right || g.is_swipe_down) _ _ (λ _. ((λ e. cc), h.1, h.2))
        λ _. IsRouted-if g.is_swipe_up _ _ (λ _. h) λ _. IsRouted-if g.is_tap _ _ (λ _. h) (λ _. h)

  release-IsRouted :
      (g : Gesture) (p : Pos) (u : Ui A O) → IsRouted u → IsRouted (after (release parts g p u))
  unfolding release release_switcher release_folder release_spotlight
  release-IsRouted g p u h =
      let (cc_, notif, ai, drop, cloud) = panels-IsRouted g p u h in
      Outcome-if u.show_switcher _ _ (λ _. switcher_answered-IsRouted g _ _ u h)
        λ _.
          Outcome-if u.show_folder _ _ (λ _. folder_answered-IsRouted _ _ h)
            λ _.
              Outcome-if u.show_cc _ _ (λ _. cc_)
                λ _.
                  Outcome-if u.show_notif _ _ (λ _. notif)
                    λ _.
                      Outcome-if u.show_spotlight _ _ (λ _. on_reply-IsRouted _ _ h)
                        λ _.
                          Outcome-if u.show_ai _ _ (λ _. ai)
                            λ _.
                              Outcome-if u.show_drop _ _ (λ _. drop)
                                λ _. Outcome-if u.show_cloud _ _ (λ _. cloud) λ _. on_screen u.state
    where
      on_screen :
          (st : Screen)
          → IsRouted (
              after (elim st [
                | state_lock ↦ done (release_lock parts g u)
                | state_home ↦ done (release_home parts g p u)
                | state_app ↦ done (release_app parts g p u)
                | state_settings ↦ done (release_settings parts g p u)
              ]))
      on_screen state_lock = release_lock-IsRouted g u h
      on_screen state_home = release_home-IsRouted g p u h
      on_screen state_app = release_app-IsRouted g p u h
      on_screen state_settings = release_settings-IsRouted g p u h

  lifted-IsRouted :
      (o : Outcome (Ui A O))
      → IsRouted (after o)
      → IsRouted (after (elim o [ done u' ↦ done (lifted parts u') | raised u' ↦ raised u' ]))
  unfolding lifted
  lifted-IsRouted (done u) h = h
  lifted-IsRouted (raised u) h = h

  mouse_released-IsRouted :
      (p : Pos) (now : ℕ) (u : Ui A O)
      → IsRouted u
      → IsRouted (after (mouse_released parts p now u))
  unfolding mouse_released
  mouse_released-IsRouted p now u h = on_start u.touch_start
    where
      on_start :
          (o : Option Pos)
          → IsRouted (
              after (elim o [
                | none ↦ done u
                | some start ↦ elim (release parts (gesture start p (now - u.touch_time)) p u) [
                  | done u' ↦ done (lifted parts u')
                  | raised u' ↦ raised u'
                ]
              ]))
      on_start none = h
      on_start (some start) =
          lifted-IsRouted (release parts (gesture start p (now - u.touch_time)) p u)
            (release-IsRouted (gesture start p (now - u.touch_time)) p u h)

  escape-IsRouted : (u : Ui A O) → IsRouted u → IsRouted (escape parts u)
  unfolding escape
  escape-IsRouted u h =
      IsRouted-if u.show_switcher _ _ (λ _. h)
        λ _.
          IsRouted-if u.show_folder _ _ (λ _. (h.0, h.1, refl))
            λ _.
              IsRouted-if u.show_cc _ _ (λ _. h)
                λ _. IsRouted-if u.show_notif _ _ (λ _. h) λ _. on_screen u.state
    where
      on_screen :
          (st : Screen)
          → IsRouted (elim st [
            | state_app ↦ record u { state = state_home; current_app = none }
            | state_settings ↦ record u { state = state_home }
            | state_home ↦ record u { state = state_lock; swipe_count = 0 }
            | state_lock ↦ u
          ])
      on_screen state_app = ((λ e. cc), h.1, h.2)
      on_screen state_settings = ((λ e. cc), h.1, h.2)
      on_screen state_home = ((λ e. cc), h.1, h.2)
      on_screen state_lock = h

  search_answered-IsRouted :
      (r : Outcome Spotlight × Reply) (u : Ui A O)
      → IsRouted u
      → IsRouted (after (search_answered parts r u))
  unfolding search_answered
  search_answered-IsRouted (done s, r) u h = on_reply-IsRouted r (record u { spotlight = s }) h
  search_answered-IsRouted (raised s, r) u h = h

  key_pressed-IsRouted :
      (key : Key) (t : Text) (u : Ui A O)
      → IsRouted u
      → IsRouted (after (key_pressed parts key t u))
  unfolding key_pressed
  key_pressed-IsRouted key t u h =
      Outcome-if u.show_spotlight _ _ (λ _. search_answered-IsRouted _ u h)
        λ _.
          Outcome-if u.show_ai _ _ (λ _. h)
            λ _. Outcome-if (is k_escape key) _ _ (λ _. escape-IsRouted u h) λ _. on_screen u.state
    where
      on_screen :
          (st : Screen)
          → IsRouted
              (after (elim st [ state_app ↦ done (send parts (keydown key t) u) | _ ↦ done u ]))
      on_screen state_app = send-IsRouted (keydown key t) u h
      on_screen state_settings = h
      on_screen state_home = h
      on_screen state_lock = h

  -- If on the app screen the current app is one of `app_instances`, the page is 0 or 1 and the
  -- folder manager is not shown, then the same holds after any event, one that raises an
  -- exception included.
  pub handle-IsRouted :
      (e : Event) (now : ℕ) (u : Ui A O) → IsRouted u → IsRouted (after (handle parts e now u))
  unfolding handle
  handle-IsRouted (mouse_down p) now u h = h
  handle-IsRouted (mouse_up p) now u h = mouse_released-IsRouted p now u h
  handle-IsRouted (keydown key t) now u h = key_pressed-IsRouted key t u h
  handle-IsRouted (mouse_wheel y) now u h =
      let turned = wheel_turned-scroll parts y u in rw turned.1 h
  handle-IsRouted quit now u h = message-IsRouted (codes "Julius OS") (codes "Shutting down") u h
