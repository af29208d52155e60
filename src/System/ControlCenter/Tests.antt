-- ===== src/System/ControlCenter/Tests.antt =====
-- The panel over a configuration in which the airplane mode is off.
use julius_os.Prelude.{◌≡◌, refl, Bool, true, false, none, some, [], ◌∷◌, arith, if◌then◌else◌}
use julius_os.Prelude.Int.{pos, ltb_ℤ}
use julius_os.Prelude.Text.{Text, codes, text_eq}
use julius_os.Outcome.{done, Returns}
use julius_os.Geometry.{hits}
use julius_os.Shell.Settings.{Value, flag, get, Settings, default_settings}
use julius_os.System.ControlCenter.{
  ControlCenter, init, rects_at, slider_rects, flipped, slid, set_brightness, handle_touch, touch,
  shown,
}
use julius_os.System.ControlCenter.Laws.{
  IsShared, IsUp, run, frames, run-IsShared, touch-airplane, touch-slider, shown_arrives,
}

abbrev fresh : Settings
fresh = record { cfg = default_settings; file = none; wifi_calls = [] }

abbrev on_screen : ControlCenter
on_screen = record (init fresh) { visible = true; y_offset = 0; toggle_rects = some (rects_at 160) }

abbrev startable : Bool → Bool
startable on = true

run-IsShared_example : IsShared (run startable (touch (pos 304, pos 390) ∷ []) on_screen)
unfolding init get text_eq
run-IsShared_example = run-IsShared startable (touch (pos 304, pos 390) ∷ []) on_screen (
  (pos 100, refl, omega arith, omega arith),
  (pos 80, refl, omega arith, omega arith),
  (λ d. refl),
  λ d. refl,
)

touch-airplane_example :
    Returns
      (λ s'.
        ((key : Text) (d : Value)
          → get key d s'.settings.cfg ≡ (
              if text_eq key (codes "bluetooth")
              then flag false
              else if text_eq key (codes "wifi")
              then flag false
              else if text_eq key (codes "airplane")
              then flag true
              else get key d default_settings))
        × (s'.settings.file ≡ some s'.settings.cfg))
      (handle_touch startable (pos 170, pos 220) on_screen)
unfolding init flipped get text_eq hits
touch-airplane_example =
    touch-airplane startable on_screen (pos 170, pos 220) (refl, refl, refl) refl refl

touch-slider_example :
    handle_touch startable (pos 160, pos 380) on_screen
    ≡ done
        (if ltb_ℤ (pos 380) (pos 384) then on_screen else set_brightness (slid (pos 160)) on_screen)
unfolding init slider_rects hits
touch-slider_example = touch-slider startable on_screen (pos 160, pos 380) (refl, refl, refl) refl

shown_arrives_example : IsUp (run startable (shown ∷ frames 16) on_screen)
shown_arrives_example = shown_arrives startable 16 on_screen (omega arith)

-- The left end of the slider is 0 percent, its right end 100, and so is what is farther out.
ends : (slid (pos 16) ≡ pos 0) × (slid (pos 304) ≡ pos 100) × (slid (pos 0) ≡ pos 0)
unfolding slid
ends = (refl, refl, refl)
