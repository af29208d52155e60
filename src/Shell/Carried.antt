-- ===== src/Shell/Carried.antt =====
-- What the loop of src/julius_ui.py does with the states of the apps: it hands them events, and
-- changes them in no other way.
use julius_os.Prelude.{
  ℕ, ◌-◌, ◌≡◌, refl, sym, subst, Bool, true, false, ◌&&◌, ◌||◌, Option, none, some, ◌++◌, arith,
  if◌then◌else◌, ◌==◌,
}
use julius_os.Prelude.Text.{Text, codes, text_eq}
use julius_os.Events.{
  Key, k_escape, is, Pos, Event, keydown, mouse_down, mouse_up, mouse_wheel, quit,
}
use julius_os.Outcome.{Outcome, done, raised, after, holds-if}
use julius_os.System.Spotlight.{
  Spotlight, Kind, Reply, nothing, hidden, picked, app, command, setting,
}
use julius_os.System.AppSwitcher.{AppSwitcher}
use julius_os.Shell.Icons.{is_listed, get_tapped_app}
use julius_os.Shell.Settings.{Settings}
use julius_os.Shell.Loop.{
  Screen, state_lock, state_home, state_app, state_settings, Parts, Ui, Gesture, open_app, message,
  effect, tap, swipe, handle, switcher_answered, folder_answered, on_reply, release_cc, cc_answered,
  release_notif, release_ai, release_drop, release_cloud, release_lock, release_home, turn_page,
  release_app, release_settings, release_switcher, release_folder, release_spotlight, release, send,
  escape, key_pressed, search_answered, mouse_released, gesture, lifted, app_instances,
}
use julius_os.Shell.Steps.{wheel_turned-scroll}

-- One branch of an `if` at a time.
same-if :
    {A O : Type 0} (a : A) (b : Bool) (m n : Ui A O)
    → m.app_states ≡ a
    → n.app_states ≡ a
    → (if b then m else n).app_states ≡ a
same-if a true m n yes_case no_case = yes_case
same-if a false m n yes_case no_case = no_case

module _ {A O : Type 0} (parts : Parts A O) where
  message-apps : (a t : Text) (u : Ui A O) → (message parts a t u).app_states ≡ u.app_states
  unfolding message effect
  message-apps a t u = ground arith

  open_app-apps : (name : Text) (u : Ui A O) → (open_app parts name u).app_states ≡ u.app_states
  unfolding open_app effect
  open_app-apps name u =
      let told = message-apps name (name ++ codes " opened") (effect parts tap u) in
      same-if u.app_states (text_eq name (codes "Settings")) _ _ told (
        same-if u.app_states (text_eq name (codes "AI")) _ _ told (
          same-if u.app_states (text_eq name (codes "Drop")) _ _ told (
            same-if u.app_states (text_eq name (codes "Cloud")) _ _ told
              (same-if u.app_states (is_listed name app_instances) _ _ told told))))

  cc_answered-apps :
      (g : Gesture) (r : Outcome (Settings × O)) (u : Ui A O)
      → (after (cc_answered parts g r u)).app_states ≡ u.app_states
  unfolding cc_answered effect
  cc_answered-apps g (raised r) u = refl
  cc_answered-apps g (done r) u = ground arith

  panels-apps :
      (g : Gesture) (p : Pos) (u : Ui A O)
      → ((after (release_cc parts g p u)).app_states ≡ u.app_states)
        × ((release_notif parts g p u).app_states ≡ u.app_states)
        × ((release_ai parts g p u).app_states ≡ u.app_states)
        × ((release_drop parts g p u).app_states ≡ u.app_states)
        × ((release_cloud parts g p u).app_states ≡ u.app_states)
  unfolding release_cc release_notif release_ai release_drop release_cloud effect
  panels-apps g p u = (
    cc_answered-apps g (parts.cc_touch p u.settings u.panels) u,
    ground arith,
    ground arith,
    ground arith,
    ground arith,
  )

  release_lock-apps :
      (g : Gesture) (u : Ui A O) → (release_lock parts g u).app_states ≡ u.app_states
  unfolding release_lock effect message
  release_lock-apps g u = ground arith

  turn_page-apps :
      (g : Gesture) (p : Pos) (u : Ui A O) → (turn_page parts g p u).app_states ≡ u.app_states
  unfolding turn_page effect
  turn_page-apps g p u = same-if u.app_states (g.is_swipe_left && u.current_page == 0) _ _ refl (
      same-if u.app_states (g.is_swipe_right && u.current_page == 1) _ _ refl
        (same-if u.app_states g.is_tap _ u (on_icon (get_tapped_app u.current_page p)) refl))
    where
      on_icon :
          (o : Option Text)
          → (elim o as (λ _. Ui A O) [ none ↦ u | some name ↦ open_app parts name u ]).app_states
            ≡ u.app_states
      on_icon none = refl
      on_icon (some name) = open_app-apps name u

  release_home-apps :
      (g : Gesture) (p : Pos) (u : Ui A O) → (release_home parts g p u).app_states ≡ u.app_states
  unfolding release_home effect
  release_home-apps g p u = ground (arith, turn_page-apps g p u)

  release_settings-apps :
      (g : Gesture) (p : Pos) (u : Ui A O)
      → (release_settings parts g p u).app_states ≡ u.app_states
  unfolding release_settings effect
  release_settings-apps g p u = ground arith

  escape-apps : (u : Ui A O) → (escape parts u).app_states ≡ u.app_states
  unfolding escape
  escape-apps u = ground arith

  folder_answered-apps :
      (a : Option Text) (u : Ui A O) → (folder_answered parts a u).app_states ≡ u.app_states
  unfolding folder_answered
  folder_answered-apps none u = refl
  folder_answered-apps (some name) u =
      same-if u.app_states (text_eq name (codes "closed")) _
        (record (open_app parts name u) { show_folder = false }) refl (open_app-apps name u)

  on_reply-apps : (r : Reply) (u : Ui A O) → (on_reply parts r u).app_states ≡ u.app_states
  unfolding on_reply
  on_reply-apps nothing u = refl
  on_reply-apps hidden u = refl
  on_reply-apps (picked r) u = on_kind r.kind
    where
      on_kind :
          (k : Kind)
          → (elim k as (λ _. Ui A O) [
            | app ↦ record (open_app parts r.name u) { show_spotlight = false }
            | command ↦ u
            | setting ↦ u
          ]).app_states
            ≡ u.app_states
      on_kind app = open_app-apps r.name u
      on_kind command = refl
      on_kind setting = refl

  same_after :
      (b : Bool) (a : A) (m n : Outcome (Ui A O))
      → (after m).app_states ≡ a
      → (after n).app_states ≡ a
      → (after (if b then m else n)).app_states ≡ a
  same_after true a m n yes_case no_case = yes_case
  same_after false a m n yes_case no_case = no_case

  switcher_answered-apps :
      (g : Gesture) (o : Outcome AppSwitcher) (a : Option Text) (u : Ui A O)
      → (after (switcher_answered parts g o a u)).app_states ≡ u.app_states
  unfolding switcher_answered
  switcher_answered-apps g (raised s) a u = refl
  switcher_answered-apps g (done s) none u = same_after g.is_swipe_down u.app_states _ _ refl refl
  switcher_answered-apps g (done s) (some name) u =
      let opened = open_app-apps name (record u { switcher = s }) in
      same_after g.is_swipe_down u.app_states _ _ refl (
        same_after (text_eq name (codes "closed")) u.app_states (done (record u { switcher = s }))
          (done
            (record (open_app parts name (record u { switcher = s })) { show_switcher = false }))
          refl opened)

  -- A property that every app's handler keeps, whichever app gets the event.
  module _ (P : A → Type 0)
      (kept : (name : Text) (e : Event) (a : A) → P a → P (parts.app_input name e a)) where
    Holds-if :
        (b : Bool) (m n : Outcome (Ui A O))
        → P (after m).app_states
        → P (after n).app_states
        → P (after (if b then m else n)).app_states
    Holds-if true m n yes_case no_case = yes_case
    Holds-if false m n yes_case no_case = no_case

    same : (u v : Ui A O) → v.app_states ≡ u.app_states → P u.app_states → P v.app_states
    same u v e h = subst P (sym e) h

    send-apps : (e : Event) (u : Ui A O) → P u.app_states → P (send parts e u).app_states
    unfolding send
    send-apps e u h = on_app u.current_app
      where
        on_app :
            (o : Option Text)
            → P
                (elim o as (λ _. Ui A O) [
                  | none ↦ u
                  | some name ↦
                      if is_listed name app_instances
                      then record u { app_states = parts.app_input name e u.app_states }
                      else u
                ]).app_states
        on_app none = h
        on_app (some name) =
            holds-if (λ (v : Ui A O). P v.app_states) (is_listed name app_instances)
              (record u { app_states = parts.app_input name e u.app_states }) u
              (λ _. kept name e u.app_states h) (λ _. h)

    release_app-apps :
        (g : Gesture) (p : Pos) (u : Ui A O)
        → P u.app_states
        → P (release_app parts g p u).app_states
    unfolding release_app effect
    release_app-apps g p u h =
        holds-if (λ (v : Ui A O). P v.app_states)
          (g.is_swipe_right || g.is_swipe_down && g.from_top)
          (effect parts swipe (record u { state = state_home; current_app = none }))
          (if g.is_tap then send parts (mouse_up p) u else u) (λ _. h)
          λ _.
            holds-if (λ (v : Ui A O). P v.app_states) g.is_tap (send parts (mouse_up p) u) u
              (λ _. send-apps (mouse_up p) u h) (λ _. h)

    release-apps :
        (g : Gesture) (p : Pos) (u : Ui A O)
        → P u.app_states
        → P (after (release parts g p u)).app_states
    unfolding release release_switcher release_folder release_spotlight
    release-apps g p u h =
        let (cc_, notif, ai, drop, cloud) = panels-apps g p u in
        Holds-if u.show_switcher _ _ (subst P (sym (switcher_answered-apps g _ _ u)) h) (
          Holds-if u.show_folder _ _ (subst P (sym (folder_answered-apps _ _)) h) (
            Holds-if u.show_cc _ _ (subst P (sym cc_) h) (
              Holds-if u.show_notif _ _ (subst P (sym notif) h) (
                Holds-if u.show_spotlight _ _ (subst P (sym (on_reply-apps _ _)) h) (
                  Holds-if u.show_ai _ _ (subst P (sym ai) h) (
                    Holds-if u.show_drop _ _ (subst P (sym drop) h)
                      (Holds-if u.show_cloud _ _ (subst P (sym cloud) h) (on_screen u.state))))))))
      where
        on_screen :
            (st : Screen)
            → P
                (after (elim st as (λ _. Outcome (Ui A O)) [
                  | state_lock ↦ done (release_lock parts g u)
                  | state_home ↦ done (release_home parts g p u)
                  | state_app ↦ done (release_app parts g p u)
                  | state_settings ↦ done (release_settings parts g p u)
                ])).app_states
        on_screen state_lock = same u (release_lock parts g u) (release_lock-apps g u) h
        on_screen state_home = same u (release_home parts g p u) (release_home-apps g p u) h
        on_screen state_app = release_app-apps g p u h
        on_screen state_settings =
            same u (release_settings parts g p u) (release_settings-apps g p u) h

    lifted-apps :
        (o : Outcome (Ui A O))
        → P (after o).app_states
        → P
            (after (elim o as (λ _. Outcome (Ui A O)) [
              | done u' ↦ done (lifted parts u')
              | raised u' ↦ raised u'
            ])).app_states
    unfolding lifted
    lifted-apps (done u) h = h
    lifted-apps (raised u) h = h

    mouse_released-apps :
        (p : Pos) (now : ℕ) (u : Ui A O)
        → P u.app_states
        → P (after (mouse_released parts p now u)).app_states
    unfolding mouse_released
    mouse_released-apps p now u h = on_start u.touch_start
      where
        on_start :
            (o : Option Pos)
            → P
                (after (elim o as (λ _. Outcome (Ui A O)) [
                  | none ↦ done u
                  | some start ↦
                      elim (release parts (gesture start p (now - u.touch_time)) p u)
                        as (λ _. Outcome (Ui A O)) [
                          | done u' ↦ done (lifted parts u')
                          | raised u' ↦ raised u'
                        ]
                ])).app_states
        on_start none = h
        on_start (some start) =
            lifted-apps (release parts (gesture start p (now - u.touch_time)) p u)
              (release-apps (gesture start p (now - u.touch_time)) p u h)

    search_answered-apps :
        (r : Outcome Spotlight × Reply) (u : Ui A O)
        → P u.app_states
        → P (after (search_answered parts r u)).app_states
    unfolding search_answered
    search_answered-apps (done s, r) u h =
        subst P (sym (on_reply-apps r (record u { spotlight = s }))) h
    search_answered-apps (raised s, r) u h = h

    key_pressed-apps :
        (key : Key) (t : Text) (u : Ui A O)
        → P u.app_states
        → P (after (key_pressed parts key t u)).app_states
    unfolding key_pressed
    key_pressed-apps key t u h = Holds-if u.show_spotlight _ _ (search_answered-apps _ u h) (
        Holds-if u.show_ai _ _ h
          (Holds-if (is k_escape key) _ _ (subst P (sym (escape-apps u)) h) (on_screen u.state)))
      where
        on_screen :
            (st : Screen)
            → P
                (after (elim st as (λ _. Outcome (Ui A O)) [
                  | state_app ↦ done (send parts (keydown key t) u)
                  | _ ↦ done u
                ])).app_states
        on_screen state_app = send-apps (keydown key t) u h
        on_screen state_settings = h
        on_screen state_home = h
        on_screen state_lock = h

    -- If every handler of an app keeps a property of the apps' states, the loop keeps it with every
    -- event, one that raises an exception included.
    pub handle-apps :
        (e : Event) (now : ℕ) (u : Ui A O)
        → P u.app_states
        → P (after (handle parts e now u)).app_states
    unfolding handle
    handle-apps (mouse_down p) now u h = h
    handle-apps (mouse_up p) now u h = mouse_released-apps p now u h
    handle-apps (keydown key t) now u h = key_pressed-apps key t u h
    handle-apps (mouse_wheel y) now u h =
        let turned = wheel_turned-scroll parts y u in rw turned.1 h
    handle-apps quit now u h =
        subst P (sym (message-apps (codes "Julius OS") (codes "Shutting down") u)) h
