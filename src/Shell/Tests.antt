-- ===== src/Shell/Tests.antt =====
-- The loop with panels and apps that do nothing, as it starts and in three later states.
use julius_os.Prelude.{ℕ, inl, ◌==◌, ◌+◌, ◌≡◌, refl, true, false, none, some, [], ◌∷◌, arith}
use julius_os.Prelude.Int.{pos}
use julius_os.Prelude.Text.{Text, codes}
use julius_os.Events.{Event, k_escape, k_n, keydown, mouse_up, mouse_down}
use julius_os.Geometry.{hits}
use julius_os.Outcome.{done, Returns, after}
use julius_os.Shell.Icons.{is_listed, page_icons, tapped, get_tapped_app}
use julius_os.Shell.Loop.{Parts, Ui, state_lock, state_home, state_app, handle, run, app_instances}
use julius_os.Shell.Reach.{out_of_reach, get_tapped_app-out_of_reach}
use julius_os.Shell.Routing.{IsRouted, handle-IsRouted}
use julius_os.Shell.Locking.{StaysShut, handle-StaysShut}
use julius_os.Shell.Freezing.{StaysFrozen, run-frozen}
use julius_os.System.AppSwitcher.{init as no_cards}
use julius_os.System.Notifications.{init as no_notifs, missing}
use julius_os.System.Spotlight.{init as no_search}
use julius_os.Shell.Settings.{
  default_settings, Placed, slider, items_flat, place_sections, place_items, after_items, joined,
  on_row, tap_item, handle_settings_tap,
}
use julius_os.Shell.Filled.{AppStates, Outside, AllKept, app_input, filled, run-AllKept}
use julius_os.Apps.Table.{failed}
use julius_os.Apps.Todo.{init as no_tasks}
use julius_os.Apps.Notes.{init as no_notes}
use julius_os.Apps.Passwords.{init as no_passwords}
use julius_os.Apps.TextEditor.{init as no_text}
use julius_os.Apps.WakeOnLan.{init as no_devices}
use julius_os.Apps.ProcessKiller.{init as no_processes}
use julius_os.Apps.Firewall.{init as no_rules}
use julius_os.Shell.Rows.{handle_settings_tap-row}

abbrev idle_parts : {A : Type 0} → (Text → Event → A → A) → Parts A ℕ
idle_parts app_input = record {
  lower = λ t. t;
  printable = λ t. true;
  app_names = app_instances;
  app_input = app_input;
  panel_show = λ p o. o;
  panel_hide = λ p o. o;
  panel_touch = λ p at o. o + 1;
  cc_touch = λ at settings o. done (settings, o + 1);
  folder_touch = λ at down o. (o, none);
  panel_draw = λ p o. o;
  app_draw = λ n a. a;
  ai_key = λ k t o. o;
  backend = false;
}

abbrev idle : Parts ℕ ℕ
idle = idle_parts (λ n e a. a + 1)

abbrev start_with : {A : Type 0} → A → Ui A ℕ
start_with a = record {
  state = state_lock;
  swipe_count = 0;
  current_app = none;
  current_page = 0;
  touch_start = none;
  touch_time = 0;
  settings_scroll = 0;
  items_flat_cache = [];
  show_cc = false;
  show_notif = false;
  show_spotlight = false;
  show_ai = false;
  show_drop = false;
  show_cloud = false;
  show_switcher = false;
  show_folder = false;
  switcher = no_cards;
  notifs = no_notifs 480 [] missing;
  spotlight = no_search;
  panels = 0;
  app_states = a;
  settings = record { cfg = default_settings; file = none; wifi_calls = [] };
  log = [];
}

abbrev started : Ui ℕ ℕ
started = start_with 0

abbrev at_home : Ui ℕ ℕ
at_home = record started { state = state_home; touch_start = some (pos 40, pos 260) }

abbrev dropping : Ui ℕ ℕ
dropping = record at_home { show_drop = true }

abbrev searching : Ui ℕ ℕ
searching = record at_home {
  show_spotlight = true;
  spotlight = record no_search { visible = true };
}

abbrev frozen : Ui ℕ ℕ
frozen = record at_home { show_spotlight = true }

get_tapped_app-out_of_reach_example : is_listed (codes "Terminal") out_of_reach ≡ false
get_tapped_app-out_of_reach_example =
    get_tapped_app-out_of_reach 0 (pos 20, pos 140) (codes "Terminal") (omega arith) refl
      (unfold get_tapped_app tapped page_icons hits in refl)

handle-IsRouted_example : IsRouted (after (handle idle (mouse_up (pos 40, pos 260)) 0 at_home))
handle-IsRouted_example =
    handle-IsRouted idle (mouse_up (pos 40, pos 260)) 0 at_home ((λ e. cc), omega arith, refl)

handle-StaysShut_example :
    Returns (StaysShut started) (handle idle (mouse_up (pos 40, pos 260)) 0 started)
handle-StaysShut_example =
    handle-StaysShut idle (mouse_up (pos 40, pos 260)) 0 started (λ x. cc) refl
      (refl, refl, refl, refl, refl, refl, refl, refl)

run-frozen_example : Returns (StaysFrozen frozen) (
    run idle
      ((keydown k_escape [], 0)
        ∷ (mouse_down (pos 9, pos 9), 1)
        ∷ (mouse_up (pos 9, pos 9), 2)
        ∷ [])
      frozen)
run-frozen_example =
    run-frozen idle
      ((keydown k_escape [], 0)
        ∷ (mouse_down (pos 9, pos 9), 1)
        ∷ (mouse_up (pos 9, pos 9), 2)
        ∷ [])
      frozen ((λ x. cc), ((λ x. cc), ((λ x. cc), tt)))
      (unfold no_search in (refl, refl, refl, refl, refl, refl))

abbrev brightness : Placed
brightness = record { y = pos 434; item = record { key = codes "brightness"; kind = slider } }

handle_settings_tap-row_example :
    handle_settings_tap true (pos 240, pos 440) (items_flat 100) started.settings
    ≡ tap_item true (pos 240) brightness.item started.settings
handle_settings_tap-row_example =
    handle_settings_tap-row true (pos 240, pos 440) 100 started.settings 8 brightness
      (unfold items_flat place_sections place_items after_items joined in refl)
      (unfold on_row in refl)

abbrev no_answers : Outside ℕ
no_answers = record {
  space = λ c. c == 32;
  lower = λ t. t;
  os_error = λ name. none;
  control_held = λ n. false;
  send_failure = λ n. none;
  kill_answers = λ n. record { ps = failed []; kill = none };
  rule_answers = λ n. record { listing = failed []; failure = none };
  disk = λ n name. none;
  affected = λ name a. a.rest + 1;
  other_input = λ name e n. n + 1;
}

abbrev all_apps : AppStates ℕ
all_apps = record {
  todo = no_tasks none;
  notes = no_notes none;
  passwords = no_passwords none;
  editor = no_text (λ name. none);
  wake = no_devices none;
  procs = no_processes;
  firewall = no_rules;
  rest = 0;
}

abbrev in_todo : Ui (AppStates ℕ) ℕ
in_todo = record (start_with all_apps) { state = state_app; current_app = some (codes "Todo") }

run-AllKept_example :
    AllKept no_answers
      (after (
        run
          (filled no_answers (idle_parts (app_input no_answers)))
          ((keydown k_n [], 0) ∷ [])
          in_todo)).app_states
unfolding no_tasks no_notes no_passwords no_text no_devices
run-AllKept_example =
    run-AllKept no_answers (idle_parts (app_input no_answers)) ((keydown k_n [], 0) ∷ []) in_todo (
      refl,
      omega arith,
      (omega arith, (λ e. cc), refl, tt, tt),
      ([], refl, omega arith),
      (refl, (omega arith, omega arith)),
      (omega arith, omega arith),
      (tt, tt, tt, inl refl, inl refl),
    )
