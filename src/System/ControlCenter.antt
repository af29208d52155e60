-- ===== src/System/ControlCenter.antt =====
-- src/system/control_center.py: the panel of toggles and sliders that a swipe up from the lower
-- edge opens. The screen is the one of src/julius_ui.py, 320 by 480.
mod Laws
mod Tests
use julius_os.Prelude.{
  ℕ, ◌+◌, ◌-◌, ◌*◌, ◌/◌, min, Bool, true, false, not, ◌&&◌, Option, none, some, List, [], ◌∷◌, ◌++◌,
  ltb, if◌then◌else◌,
}
use julius_os.Prelude.Int.{ℤ, pos, ◌+ℤ◌, ◌-ℤ◌, leb_ℤ, ltb_ℤ, min_ℤ, max_ℤ, pos_part, neg_part}
use julius_os.Prelude.Text.{codes}
use julius_os.Events.{Pos}
use julius_os.Outcome.{Outcome, done, raised}
use julius_os.Geometry.{Rect, rect, hits}
use julius_os.Shell.Icons.{W, H}
use julius_os.Shell.Settings.{
  Value, flag, number, is_true, Config, get, put, Settings, save_settings,
}

abbrev pub panel_h : ℕ
panel_h = 320

-- The actions of the toggles; those of the second row do nothing.
pub data Toggle : Type 0 where
  wifi bluetooth airplane hotspot inert : Toggle

-- `settings` is the configuration that the panel shares with the rest of the program, and its
-- file. `toggle_rects` is `none` until the first drawing. `started` are the programs started by
-- `Popen`, the latest first: true for julius_wifi_enable.
pub record ControlCenter : Type 0 where
  pub settings : Settings
  pub brightness : Value
  pub volume : Value
  pub visible : Bool
  pub y_offset : ℕ
  pub toggle_rects : Option (List (Rect × Toggle))
  pub started : List Bool

unfoldable pub init : Settings → ControlCenter
init settings = record {
  settings = settings;
  brightness = get (codes "brightness") (number (pos 80)) settings.cfg;
  volume = get (codes "volume") (number (pos 70)) settings.cfg;
  visible = false;
  y_offset = H;
  toggle_rects = none;
  started = [];
}

unfoldable pub show : ControlCenter → ControlCenter
show s = record s { visible = true; y_offset = H }

unfoldable pub hide : ControlCenter → ControlCenter
hide s = record s { visible = false }

-- `self.cfg[key] = v`
unfoldable pub assign : List ℕ → Value → Settings → Settings
assign key v s = record s { cfg = put key v s.cfg }

-- `not self.cfg.get(key, d)`
unfoldable pub flipped : List ℕ → Bool → Settings → Bool
flipped key d s = not (is_true (get key (flag d) s.cfg))

-- `popen on`: whether julius_wifi_enable, or julius_wifi_disable, can be started; `Popen` raises
-- FileNotFoundError if not.
unfoldable pub toggle_wifi : (Bool → Bool) → ControlCenter → Outcome ControlCenter
unfolding assign flipped save_settings
toggle_wifi popen s =
    let on = flipped (codes "wifi") true s.settings in
    let s' = record s { settings = save_settings (assign (codes "wifi") (flag on) s.settings) } in
    if popen on then done (record s' { started = on ∷ s.started }) else raised s'

unfoldable pub toggle_bt : ControlCenter → ControlCenter
unfolding assign flipped save_settings
toggle_bt s =
    let on = flipped (codes "bluetooth") true s.settings in
    record s { settings = save_settings (assign (codes "bluetooth") (flag on) s.settings) }

unfoldable pub toggle_airplane : ControlCenter → ControlCenter
unfolding assign flipped save_settings
toggle_airplane s =
    let on = flipped (codes "airplane") false s.settings in
    let set = assign (codes "airplane") (flag on) s.settings in
    record s {
      settings = save_settings (
          if on
          then assign (codes "bluetooth") (flag false) (assign (codes "wifi") (flag false) set)
          else set);
    }

unfoldable pub toggle_hotspot : ControlCenter → ControlCenter
unfolding assign flipped save_settings
toggle_hotspot s =
    let on = flipped (codes "hotspot") false s.settings in
    record s { settings = save_settings (assign (codes "hotspot") (flag on) s.settings) }

-- The rectangles of one row of toggles: 64 wide, 12 apart.
abbrev row : ℕ → List Toggle → ℕ → List (Rect × Toggle)
row x [] y = []
row x (t ∷ ts) y = (rect (pos x) (pos y) (pos 64) (pos 64), t) ∷ row (x + 76) ts y

-- The `toggle_rects` of a panel whose upper edge is at py.
unfoldable pub rects_at : ℕ → List (Rect × Toggle)
rects_at py =
    row 12 (wifi ∷ bluetooth ∷ airplane ∷ hotspot ∷ []) (py + 52)
    ++ row 12 (inert ∷ inert ∷ inert ∷ inert ∷ []) (py + 126)

-- Where `draw` paints the brightness slider and the volume slider of that panel.
unfoldable pub slider_rects : ℕ → Rect × Rect
slider_rects py =
    let sy1 = py + 52 + 64 + 10 + 64 + 24 in
    (
      rect (pos 16) (pos sy1) (pos (W - 32)) (pos 16),
      rect (pos 16) (pos (sy1 + 44)) (pos (W - 32)) (pos 16),
    )

-- The upper edge that the next `draw` gives the panel, from the offset.
unfoldable pub panel_top : ControlCenter → ℕ
panel_top s = H - panel_h + s.y_offset

unfoldable pub draw : ControlCenter → ControlCenter
unfolding panel_top
draw s =
    if s.visible
    then (let s' = record s { y_offset = s.y_offset - 30 } in
        record s' { toggle_rects = some (rects_at (panel_top s')) })
    else s

unfoldable pub perform : (Bool → Bool) → Toggle → ControlCenter → Outcome ControlCenter
perform popen wifi s = toggle_wifi popen s
perform popen bluetooth s = done (toggle_bt s)
perform popen airplane s = done (toggle_airplane s)
perform popen hotspot s = done (toggle_hotspot s)
perform popen inert s = done s

-- The action of the first rectangle that holds the position.
unfoldable pub touched : Pos → List (Rect × Toggle) → Option Toggle
touched p [] = none
touched p (r ∷ rs) = if hits r.0 p then some r.1 else touched p rs

-- `int((pos[0]-16)/(self.W-32)*100)`: `int` cuts towards zero. The quotient of the floats is exact
-- where it is a whole number, so that they give the same.
unfoldable pub percent : ℤ → ℤ
percent x =
    let d = x -ℤ pos 16 in pos (pos_part d * 100 / (W - 32)) -ℤ pos (neg_part d * 100 / (W - 32))

-- `max(0,min(100,val))`
unfoldable pub slid : ℤ → ℤ
unfolding percent
slid x = max_ℤ (pos 0) (min_ℤ (pos 100) (percent x))

unfoldable pub set_brightness : ℤ → ControlCenter → ControlCenter
unfolding assign save_settings
set_brightness n s = record s {
  brightness = number n;
  settings = save_settings (assign (codes "brightness") (number n) s.settings);
}

unfoldable pub set_volume : ℤ → ControlCenter → ControlCenter
unfolding assign save_settings
set_volume n s = record s {
  volume = number n;
  settings = save_settings (assign (codes "volume") (number n) s.settings);
}

-- Whether a position is in the slider that begins at the height y.
abbrev pub in_slider : ℕ → Pos → Bool
in_slider y p =
    (leb_ℤ (pos 16) p.0 && leb_ℤ p.0 (pos (W - 16)))
    && (leb_ℤ (pos y) p.1 && leb_ℤ p.1 (pos (y + 16)))

-- A touch that no toggle takes; sy1 is 384.
unfoldable pub touch_sliders : Pos → ControlCenter → ControlCenter
unfolding set_brightness set_volume
touch_sliders p s =
    let sy1 = H - panel_h + 52 + 64 * 2 + 10 * 2 + 24 in
    if in_slider sy1 p
    then set_brightness (slid p.0) s
    else if in_slider (sy1 + 44) p
    then set_volume (slid p.0) s
    else s

-- The call of the toggle's action, if one was touched.
unfoldable pub touch_found :
    (Bool → Bool) → Pos → ControlCenter → Option Toggle → Outcome ControlCenter
unfolding perform touch_sliders
touch_found popen p s none = done (touch_sliders p s)
touch_found popen p s (some t) = perform popen t s

-- The loop over `toggle_rects`, which is AttributeError before the first drawing.
unfoldable pub touch_panel :
    (Bool → Bool) → Pos → ControlCenter → Option (List (Rect × Toggle)) → Outcome ControlCenter
unfolding touch_found touched
touch_panel popen p s none = raised s
touch_panel popen p s (some rects) = touch_found popen p s (touched p rects)

unfoldable pub handle_touch : (Bool → Bool) → Pos → ControlCenter → Outcome ControlCenter
unfolding touch_panel hide
handle_touch popen p s =
    if s.visible
    then (if ltb_ℤ p.1 (pos (H - panel_h))
        then done (hide s)
        else touch_panel popen p s s.toggle_rects)
    else done s

-- The calls that the shell makes.
pub data Call : Type 0 where
  shown hidden frame : Call
  touch : Pos → Call

unfoldable pub call : (Bool → Bool) → Call → ControlCenter → Outcome ControlCenter
call popen shown s = done (show s)
call popen hidden s = done (hide s)
call popen frame s = done (draw s)
call popen (touch p) s = handle_touch popen p s
