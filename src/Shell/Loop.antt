-- ===== src/Shell/Loop.antt =====
-- The loop of src/julius_ui.py: `open_app`, and what each event does to the screens and overlays.
use julius_os.Prelude.{
  ℕ, ◌+◌, ◌-◌, ◌*◌, ◌==◌, Bool, true, false, not, ◌&&◌, ◌||◌, Option, none, some, List, [], ◌∷◌,
  ◌++◌, ltb, min, if◌then◌else◌,
}
use julius_os.Prelude.Int.{ℤ, pos, negsuc, ◌-ℤ◌, ltb_ℤ, min_ℤ, max_ℤ, pos_part, neg_part}
use julius_os.Prelude.Text.{Text, codes, text_eq}
use julius_os.Events.{
  Key, k_escape, is, Pos, Event, keydown, mouse_down, mouse_up, mouse_wheel, quit,
}
use julius_os.Outcome.{Outcome, done, raised}
use julius_os.System.AppSwitcher.{
  AppSwitcher, add_recent, show as show_cards, hide as hide_cards, handle_touch as touch_cards_at,
  draw as draw_cards,
}
use julius_os.System.Notifications.{
  NotificationCenter, show as show_notifs, hide as hide_notifs, handle_touch as touch_notifs,
  draw as draw_notifs,
}
use julius_os.System.Spotlight.{
  Spotlight, Reply, nothing, hidden, picked, app, command, setting, show as show_search,
  handle_key as search_key, handle_touch as touch_search, draw as draw_search,
}
use julius_os.Shell.Icons.{W, H, get_tapped_app, is_listed}
use julius_os.Shell.Settings.{Settings, Placed, handle_settings_tap, items_flat}

pub data Screen : Type 0 where
  state_lock state_home state_app state_settings : Screen

-- The overlays whose insides this module does not look into.
pub data Panel : Type 0 where
  control_center julius_ai julius_drop julius_cloud folder_mgr : Panel

-- What the loop calls on the vibration motor, the lock animation and the status service, of whose
-- messages the sender and the title are kept.
pub data Effect : Type 0 where
  tap swipe long_press unlock error start_scan : Effect
  notify : Text → Text → Effect

-- What the loop calls of the parts that it is given: an app's `handle_input`, as the `try` around
-- it leaves the apps, and the panels' handlers. `A` is the state of all apps, `O` of all panels.
-- `cc_touch` is the control centre's `handle_touch`, which writes the configuration that it shares
-- with the loop, and can raise.
pub record Parts (A O : Type 0) : Type 0 where
  pub lower : Text → Text
  pub printable : Text → Bool
  pub app_names : List Text
  pub app_input : Text → Event → A → A
  pub panel_show : Panel → O → O
  pub panel_hide : Panel → O → O
  pub panel_touch : Panel → Pos → O → O
  pub cc_touch : Pos → Settings → O → Outcome (Settings × O)
  pub folder_touch : Pos → Bool → O → O × Option Text
  pub panel_draw : Panel → O → O
  pub app_draw : Text → A → A
  pub ai_key : Key → Text → O → O
  pub backend : Bool

-- The names of `app_instances`.
abbrev pub app_instances : List Text
app_instances =
    codes "Terminal"
    ∷ codes "WiFi"
    ∷ codes "IR"
    ∷ codes "Bluetooth"
    ∷ codes "GPIO"
    ∷ codes "Connect"
    ∷ codes "Transfer"
    ∷ codes "Clipboard"
    ∷ codes "Hotspot"
    ∷ codes "Scanner"
    ∷ codes "Files"
    ∷ codes "SysMon"
    ∷ codes "SSH"
    ∷ codes "Notes"
    ∷ codes "NetTools"
    ∷ codes "Packets"
    ∷ codes "WakeOnLAN"
    ∷ codes "SpeedTest"
    ∷ codes "Calc"
    ∷ codes "Todo"
    ∷ codes "Passwords"
    ∷ codes "Weather"
    ∷ codes "Hasher"
    ∷ codes "Encoder"
    ∷ codes "NetMon"
    ∷ codes "Editor"
    ∷ codes "Timer"
    ∷ codes "ProcKill"
    ∷ codes "NetMapper"
    ∷ codes "SysInfo"
    ∷ codes "Firewall"
    ∷ codes "Logs"
    ∷ codes "USB"
    ∷ codes "Radio"
    ∷ codes "Maps"
    ∷ []

-- Times are in milliseconds; `log` holds the effects, the latest first.
pub record Ui (A O : Type 0) : Type 0 where
  pub state : Screen
  pub swipe_count : ℕ
  pub current_app : Option Text
  pub current_page : ℕ
  pub touch_start : Option Pos
  pub touch_time : ℕ
  pub settings_scroll : ℕ
  pub items_flat_cache : List Placed
  pub show_cc : Bool
  pub show_notif : Bool
  pub show_spotlight : Bool
  pub show_ai : Bool
  pub show_drop : Bool
  pub show_cloud : Bool
  pub show_switcher : Bool
  pub show_folder : Bool
  pub switcher : AppSwitcher
  pub notifs : NotificationCenter
  pub spotlight : Spotlight
  pub panels : O
  pub app_states : A
  pub settings : Settings
  pub log : List Effect

-- How the finger moved from its start to the place where it left the screen.
pub record Gesture : Type 0 where
  pub is_tap : Bool
  pub is_swipe_left : Bool
  pub is_swipe_right : Bool
  pub is_swipe_down : Bool
  pub is_swipe_up : Bool
  pub from_top : Bool
  pub from_bottom : Bool
  pub is_long : Bool

-- `abs(d) < n`
unfoldable pub within : ℤ → ℕ → Bool
within d n = ltb (pos_part d) n && ltb (neg_part d) n

unfoldable pub gesture : Pos → Pos → ℕ → Gesture
unfolding within
gesture start p elapsed =
    let dx = p.0 -ℤ start.0 in
    let dy = p.1 -ℤ start.1 in
    record {
      is_tap = within dx 14 && within dy 14;
      is_swipe_left = ltb_ℤ dx (negsuc 49) && within dy 60;
      is_swipe_right = ltb_ℤ (pos 50) dx && within dy 60;
      is_swipe_down = ltb_ℤ (pos 70) dy && within dx 60;
      is_swipe_up = ltb_ℤ dy (negsuc 49) && within dx 60;
      from_top = ltb_ℤ start.1 (pos 80);
      from_bottom = ltb_ℤ (pos (H - 100)) start.1;
      is_long = ltb 400 elapsed;
    }

module _ {A O : Type 0} (parts : Parts A O) where
  unfoldable pub effect : Effect → Ui A O → Ui A O
  effect e u = record u { log = e ∷ u.log }

  unfoldable pub message : Text → Text → Ui A O → Ui A O
  unfolding effect
  message sender title u = if parts.backend then effect (notify sender title) u else u

  unfoldable pub open_app : Text → Ui A O → Ui A O
  unfolding effect message
  open_app name u =
      let told = message name (name ++ codes " opened") (effect tap u) in
      if text_eq name (codes "Settings")
      then record told { state = state_settings }
      else if text_eq name (codes "AI")
      then record told { panels = parts.panel_show julius_ai u.panels; show_ai = true }
      else if text_eq name (codes "Drop")
      then record told { panels = parts.panel_show julius_drop u.panels; show_drop = true }
      else if text_eq name (codes "Cloud")
      then record told { panels = parts.panel_show julius_cloud u.panels; show_cloud = true }
      else if is_listed name app_instances
      then record told {
        current_app = some name;
        state = state_app;
        switcher = add_recent name u.switcher;
      }
      else effect error told

  -- What the loop does with what `app_switcher.handle_touch` left and returned.
  unfoldable pub switcher_answered :
      Gesture → Outcome AppSwitcher → Option Text → Ui A O → Outcome (Ui A O)
  unfolding open_app
  switcher_answered g (raised s) answer u = raised (record u { switcher = s })
  switcher_answered g (done s) none u =
      if g.is_swipe_down
      then done (record u { switcher = hide_cards s; show_switcher = false })
      else done (record u { switcher = s })
  switcher_answered g (done s) (some name) u =
      if g.is_swipe_down
      then done (record u { switcher = hide_cards s; show_switcher = false })
      else if text_eq name (codes "closed")
      then done (record u { switcher = s })
      else done (record (open_app name (record u { switcher = s })) { show_switcher = false })

  unfoldable pub release_switcher : Gesture → Pos → Ui A O → Outcome (Ui A O)
  unfolding switcher_answered
  release_switcher g p u =
      let answer = touch_cards_at p g.is_swipe_left g.is_swipe_right u.switcher in
      switcher_answered g answer.0 answer.1 u

  unfoldable pub folder_answered : Option Text → Ui A O → Ui A O
  unfolding open_app
  folder_answered none u = u
  folder_answered (some name) u =
      if text_eq name (codes "closed")
      then record u { show_folder = false }
      else record (open_app name u) { show_folder = false }

  unfoldable pub release_folder : Gesture → Pos → Ui A O → Ui A O
  unfolding folder_answered
  release_folder g p u =
      let answer = parts.folder_touch p g.is_swipe_down u.panels in
      folder_answered answer.1 (record u { panels = answer.0 })

  -- What follows the control centre's `handle_touch`; its exception ends the program.
  unfoldable pub cc_answered : Gesture → Outcome (Settings × O) → Ui A O → Outcome (Ui A O)
  unfolding effect
  cc_answered g (raised r) u = raised (record u { settings = r.0; panels = r.1 })
  cc_answered g (done r) u =
      if g.is_swipe_down
      then done (
          effect swipe (record u {
            settings = r.0;
            panels = parts.panel_hide control_center r.1;
            show_cc = false;
          }))
      else done (record u { settings = r.0; panels = r.1 })

  unfoldable pub release_cc : Gesture → Pos → Ui A O → Outcome (Ui A O)
  unfolding cc_answered
  release_cc g p u = cc_answered g (parts.cc_touch p u.settings u.panels) u

  unfoldable pub release_notif : Gesture → Pos → Ui A O → Ui A O
  unfolding effect
  release_notif g p u =
      let touched = (touch_notifs p u.notifs).0 in
      if g.is_swipe_up
      then effect swipe (record u { notifs = hide_notifs touched; show_notif = false })
      else record u { notifs = touched }

  -- What the loop does with an answer of the search panel.
  unfoldable pub on_reply : Reply → Ui A O → Ui A O
  unfolding open_app
  on_reply nothing u = u
  on_reply hidden u = record u { show_spotlight = false }
  on_reply (picked r) u = elim r.kind [
    | app ↦ record (open_app r.name u) { show_spotlight = false }
    | command ↦ u
    | setting ↦ u
  ]

  unfoldable pub release_spotlight : Pos → Ui A O → Ui A O
  unfolding on_reply
  release_spotlight p u =
      let answer = touch_search p u.spotlight in
      on_reply answer.1 (record u { spotlight = answer.0 })

  unfoldable pub release_ai : Gesture → Pos → Ui A O → Ui A O
  unfolding effect
  release_ai g p u =
      let touched = parts.panel_touch julius_ai p u.panels in
      if g.is_swipe_right || g.is_swipe_down
      then effect swipe (record u { panels = parts.panel_hide julius_ai touched; show_ai = false })
      else record u { panels = touched }

  unfoldable pub release_drop : Gesture → Pos → Ui A O → Ui A O
  release_drop g p u =
      let touched = parts.panel_touch julius_drop p u.panels in
      if g.is_swipe_right || g.is_swipe_down
      then record u { panels = parts.panel_hide julius_drop touched; show_drop = false }
      else record u { panels = touched }

  unfoldable pub release_cloud : Gesture → Pos → Ui A O → Ui A O
  release_cloud g p u =
      let touched = parts.panel_touch julius_cloud p u.panels in
      if g.is_swipe_right || g.is_swipe_down
      then record u { panels = parts.panel_hide julius_cloud touched; show_cloud = false }
      else record u { panels = touched }

  unfoldable pub release_lock : Gesture → Ui A O → Ui A O
  unfolding effect message
  release_lock g u =
      let counted = effect swipe (record u { swipe_count = u.swipe_count + 1 }) in
      if g.is_swipe_left
      then (if ltb 1 counted.swipe_count
          then message (codes "Julius OS") (codes "Unlocked") (
              effect unlock
                (record (effect start_scan counted) { state = state_home; swipe_count = 0 }))
          else counted)
      else u

  -- The last branches of a release on the home screen: the pages, then the icons.
  unfoldable pub turn_page : Gesture → Pos → Ui A O → Ui A O
  unfolding effect open_app
  turn_page g p u =
      if g.is_swipe_left && u.current_page == 0
      then effect swipe (record u { current_page = 1 })
      else if g.is_swipe_right && u.current_page == 1
      then effect swipe (record u { current_page = 0 })
      else if g.is_tap
      then elim (get_tapped_app u.current_page p) [ none ↦ u | some name ↦ open_app name u ]
      else u

  unfoldable pub release_home : Gesture → Pos → Ui A O → Ui A O
  unfolding effect turn_page
  release_home g p u =
      if g.is_swipe_down && g.from_top
      then effect swipe (record u { notifs = show_notifs u.notifs; show_notif = true })
      else if g.is_swipe_up && g.from_bottom
      then effect swipe
          (record u { panels = parts.panel_show control_center u.panels; show_cc = true })
      else if g.is_swipe_up && g.is_long
      then effect long_press (record u { switcher = show_cards u.switcher; show_switcher = true })
      else if g.is_swipe_up
      then effect swipe (record u { spotlight = show_search u.spotlight; show_spotlight = true })
      else if g.is_swipe_down
      then effect swipe (record u { state = state_lock; swipe_count = 0 })
      else turn_page g p u

  -- `app_instances[current_app].handle_input(event)`, in its `try`.
  unfoldable pub send : Event → Ui A O → Ui A O
  send e u = elim u.current_app [
    | none ↦ u
    | some name ↦
        if is_listed name app_instances
        then record u { app_states = parts.app_input name e u.app_states }
        else u
  ]

  unfoldable pub release_app : Gesture → Pos → Ui A O → Ui A O
  unfolding effect send
  release_app g p u =
      if g.is_swipe_right || g.is_swipe_down && g.from_top
      then effect swipe (record u { state = state_home; current_app = none })
      else if g.is_tap
      then send (mouse_up p) u
      else u

  unfoldable pub release_settings : Gesture → Pos → Ui A O → Ui A O
  unfolding effect
  release_settings g p u =
      if g.is_swipe_right || g.is_swipe_down
      then effect swipe (record u { state = state_home })
      else if g.is_swipe_up
      then record u { settings_scroll = min (u.settings_scroll + 40) 500 }
      else if g.is_tap
      then effect tap (record u {
        settings = handle_settings_tap parts.backend p u.items_flat_cache u.settings;
      })
      else u

  -- A release, once its touch has a start: the first overlay that is shown takes it, or the screen.
  unfoldable pub release : Gesture → Pos → Ui A O → Outcome (Ui A O)
  unfolding release_switcher release_folder release_cc release_notif release_spotlight release_ai
      release_drop release_cloud release_lock release_home release_app release_settings
  release g p u =
      if u.show_switcher
      then release_switcher g p u
      else if u.show_folder
      then done (release_folder g p u)
      else if u.show_cc
      then release_cc g p u
      else if u.show_notif
      then done (release_notif g p u)
      else if u.show_spotlight
      then done (release_spotlight p u)
      else if u.show_ai
      then done (release_ai g p u)
      else if u.show_drop
      then done (release_drop g p u)
      else if u.show_cloud
      then done (release_cloud g p u)
      else elim u.state [
        | state_lock ↦ done (release_lock g u)
        | state_home ↦ done (release_home g p u)
        | state_app ↦ done (release_app g p u)
        | state_settings ↦ done (release_settings g p u)
      ]

  unfoldable pub lifted : Ui A O → Ui A O
  lifted u = record u { touch_start = none }

  unfoldable pub mouse_released : Pos → ℕ → Ui A O → Outcome (Ui A O)
  unfolding release lifted gesture
  mouse_released p now u = elim u.touch_start [
    | none ↦ done u
    | some start ↦ elim (release (gesture start p (now - u.touch_time)) p u) [
      | done u' ↦ done (lifted u')
      | raised u' ↦ raised u'
    ]
  ]

  -- ESC, when neither the search nor the AI panel takes the keys.
  unfoldable pub escape : Ui A O → Ui A O
  escape u =
      if u.show_switcher
      then record u { show_switcher = false; switcher = hide_cards u.switcher }
      else if u.show_folder
      then record u { show_folder = false; panels = parts.panel_hide folder_mgr u.panels }
      else if u.show_cc
      then record u { show_cc = false; panels = parts.panel_hide control_center u.panels }
      else if u.show_notif
      then record u { show_notif = false; notifs = hide_notifs u.notifs }
      else elim u.state [
        | state_app ↦ record u { state = state_home; current_app = none }
        | state_settings ↦ record u { state = state_home }
        | state_home ↦ record u { state = state_lock; swipe_count = 0 }
        | state_lock ↦ u
      ]

  unfoldable pub search_answered : Outcome Spotlight × Reply → Ui A O → Outcome (Ui A O)
  unfolding on_reply
  search_answered (done s, reply) u = done (on_reply reply (record u { spotlight = s }))
  search_answered (raised s, reply) u = raised (record u { spotlight = s })

  unfoldable pub key_pressed : Key → Text → Ui A O → Outcome (Ui A O)
  unfolding search_answered escape send
  key_pressed key unicode u =
      if u.show_spotlight
      then search_answered
          (search_key parts.lower parts.printable parts.app_names key unicode u.spotlight) u
      else if u.show_ai
      then done
          (record u { panels = parts.ai_key key unicode u.panels; show_ai = not (is k_escape key) })
      else if is k_escape key
      then done (escape u)
      else elim u.state [ state_app ↦ done (send (keydown key unicode) u) | _ ↦ done u ]

  unfoldable pub wheel_turned : ℤ → Ui A O → Ui A O
  wheel_turned y u = elim u.state [
    | state_settings ↦ record u {
      settings_scroll = pos_part (
          max_ℤ (pos 0)
            (min_ℤ (pos (u.settings_scroll + neg_part y * 20) -ℤ pos (pos_part y * 20)) (pos 500)));
    }
    | _ ↦ u
  ]

  -- One event, at a time; QUIT leaves by the exception of `sys.exit`.
  unfoldable pub handle : Event → ℕ → Ui A O → Outcome (Ui A O)
  unfolding mouse_released key_pressed wheel_turned message
  handle (mouse_down p) now u = done (record u { touch_start = some p; touch_time = now })
  handle (mouse_up p) now u = mouse_released p now u
  handle (keydown key unicode) now u = key_pressed key unicode u
  handle (mouse_wheel y) now u = done (wheel_turned y u)
  handle quit now u = raised (message (codes "Julius OS") (codes "Shutting down") u)

  unfoldable pub draw_panel : Panel → Bool → Ui A O → Ui A O
  draw_panel p shown u = if shown then record u { panels = parts.panel_draw p u.panels } else u

  -- The screen of a frame: an exception of an app's `draw` is caught, and shown as a text.
  unfoldable pub draw_screen : Ui A O → Ui A O
  draw_screen u = elim u.state [
    | state_app ↦ elim u.current_app [
      | none ↦ u
      | some name ↦ record u { app_states = parts.app_draw name u.app_states }
    ]
    | state_settings ↦ record u { items_flat_cache = items_flat u.settings_scroll }
    | _ ↦ u
  ]

  unfoldable pub draw_overlays : ℤ → Ui A O → Ui A O
  unfolding draw_panel
  draw_overlays off u =
      let cc = draw_panel control_center u.show_cc u in
      let searched =
        if u.show_spotlight then record cc { spotlight = draw_search W u.spotlight } else cc in
      let ai = draw_panel julius_ai u.show_ai searched in
      let drop = draw_panel julius_drop u.show_drop ai in
      let cloud = draw_panel julius_cloud u.show_cloud drop in
      let cards =
        if u.show_switcher
        then record cloud { switcher = draw_cards W H off u.switcher }
        else cloud in
      draw_panel folder_mgr u.show_folder cards

  -- One frame: the panel of the notifications is the first overlay, and can raise.
  unfoldable pub frame : ℕ → ℤ → Ui A O → Outcome (Ui A O)
  unfolding draw_screen draw_overlays
  frame clear_w off u =
      let screen = draw_screen u in
      if u.show_notif
      then elim (draw_notifs W clear_w u.notifs) [
        | raised n ↦ raised (record screen { notifs = n })
        | done n ↦ done (draw_overlays off (record screen { notifs = n }))
      ]
      else done (draw_overlays off screen)

  -- The events of a run, each with its time; an exception ends the program.
  unfoldable pub run : List (Event × ℕ) → Ui A O → Outcome (Ui A O)
  unfolding handle
  run [] u = done u
  run (e ∷ es) u = elim (handle e.0 e.1 u) [ done u' ↦ run es u' | raised u' ↦ raised u' ]
