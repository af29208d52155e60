-- ===== src/System/ControlCenter/Laws.antt =====
-- What the control centre keeps: the range and the keys of the sliders, the switches of the airplane mode, and
-- where its sliders are drawn and touched.
use julius_os.Prelude.{
  ℕ, zero, suc, ◌+◌, ◌-◌, ◌*◌, ◌≤◌, ◌≡◌, refl, ◌∙◌, ap, Bool, true, false, Option, none, some, List,
  [], ◌∷◌, arith, if◌then◌else◌,
}
use julius_os.Prelude.Int.{ℤ, ◌≤ℤ◌, pos, ltb_ℤ}
use julius_os.Prelude.Text.{Text, codes, text_eq, text_eq→eq, text_eq_refl}
use julius_os.Events.{Pos}
use julius_os.Outcome.{Outcome, done, raised, after, Returns, after-if, holds-if}
use julius_os.Geometry.{Rect, rect, hits}
use julius_os.Shell.Settings.{Value, flag, number, Config, get, put, Settings, save_settings}
use julius_os.System.ControlCenter.{
  Toggle, wifi, bluetooth, airplane, hotspot, inert, ControlCenter, show, hide, assign, flipped,
  toggle_wifi, toggle_bt, toggle_airplane, toggle_hotspot, rects_at, slider_rects, panel_top, draw,
  perform, touched, slid, set_brightness, set_volume, touch_sliders, touch_found, in_slider,
  touch_panel, handle_touch, Call, shown, hidden, frame, touch, call,
}

-- A key that was written has its value, and no other key has a new one.
get-put :
    (k j : Text) (v d : Value) (c : Config)
    → get j d (put k v c) ≡ (if text_eq j k then v else get j d c)
unfolding get put
get-put k j v d [] = refl
get-put k j v d (e ∷ c) = on_key (text_eq k e.0) refl (get-put k j v d c)
  where
    on_key :
        (b : Bool)
        → text_eq k e.0 ≡ b
        → get j d (put k v c) ≡ (if text_eq j k then v else get j d c)
        → get j d (put k v (e ∷ c)) ≡ (if text_eq j k then v else get j d (e ∷ c))
    on_key true h rest = rw (text_eq→eq k e.0 h) (ground (arith, text_eq_refl e.0))
    on_key false h rest =
        ground (arith, text_eq→eq j e.0, text_eq→eq j k, text_eq_refl k, text_eq_refl e.0)

-- A whole number of percent.
abbrev pub IsPercent : Value → Type 0
IsPercent v = (n : ℤ) × (v ≡ number n) × (pos 0 ≤ℤ n) × (n ≤ℤ pos 100)

-- What the panel shows is in range, and is what the configuration says under its own key.
abbrev pub IsShared : ControlCenter → Type 0
IsShared s =
    IsPercent s.brightness
    × IsPercent s.volume
    × ((d : Value) → get (codes "brightness") d s.settings.cfg ≡ s.brightness)
    × ((d : Value) → get (codes "volume") d s.settings.cfg ≡ s.volume)

-- The calls in order; an exception ends the run.
unfoldable pub run : (Bool → Bool) → List Call → ControlCenter → ControlCenter
run popen [] s = s
run popen (c ∷ cs) s = elim (call popen c s) [ done s' ↦ run popen cs s' | raised s' ↦ s' ]

slid-IsPercent : (x : ℤ) → IsPercent (number (slid x))
unfolding slid
slid-IsPercent x = (slid x, refl, ground arith, ground arith)

-- Writing another key leaves the two.
assign-IsShared :
    (key : Text) (v : Value) (s : ControlCenter)
    → text_eq (codes "brightness") key ≡ false
    → text_eq (codes "volume") key ≡ false
    → IsShared s
    → IsShared (record s { settings = assign key v s.settings })
unfolding assign
assign-IsShared key v s b w h = (
  h.0,
  h.1,
  λ d. get-put key (codes "brightness") v d s.settings.cfg ∙ rw b (h.2 d),
  λ d. get-put key (codes "volume") v d s.settings.cfg ∙ rw w (h.3 d),
)

module _ (popen : Bool → Bool) where
  perform-IsShared :
      (t : Toggle) (s : ControlCenter) → IsShared s → IsShared (after (perform popen t s))
  unfolding perform toggle_wifi toggle_bt toggle_airplane toggle_hotspot save_settings text_eq
  perform-IsShared wifi s h =
      let on = flipped (codes "wifi") true s.settings in
      let set = assign-IsShared (codes "wifi") (flag on) s refl refl h in
      after-if IsShared (popen on) _ _ (λ _. set) (λ _. set)
  perform-IsShared bluetooth s h =
      assign-IsShared (codes "bluetooth") (flag (flipped (codes "bluetooth") true s.settings)) s
        refl refl h
  perform-IsShared airplane s h =
      let on = flag (flipped (codes "airplane") false s.settings) in
      let s1 = record s { settings = assign (codes "airplane") on s.settings } in
      let s2 = record s1 { settings = assign (codes "wifi") (flag false) s1.settings } in
      let h1 = assign-IsShared (codes "airplane") on s refl refl h in
      let h2 = assign-IsShared (codes "wifi") (flag false) s1 refl refl h1 in
      let h3 = assign-IsShared (codes "bluetooth") (flag false) s2 refl refl h2 in
      holds-if (λ (m : Settings). IsShared (record s { settings = save_settings m }))
        (flipped (codes "airplane") false s.settings) _ _ (λ _. h3) (λ _. h1)
  perform-IsShared hotspot s h =
      assign-IsShared (codes "hotspot") (flag (flipped (codes "hotspot") false s.settings)) s refl
        refl h
  perform-IsShared inert s h = h

  touch_sliders-IsShared : (p : Pos) (s : ControlCenter) → IsShared s → IsShared (touch_sliders p s)
  unfolding touch_sliders set_brightness set_volume assign save_settings text_eq
  touch_sliders-IsShared p s h =
      let v = number (slid p.0) in
      let c = s.settings.cfg in
      holds-if IsShared (in_slider 384 p) (set_brightness (slid p.0) s) _
        (λ _. (
          slid-IsPercent p.0,
          h.1,
          λ d. get-put (codes "brightness") (codes "brightness") v d c,
          λ d. get-put (codes "brightness") (codes "volume") v d c ∙ h.3 d,
        ))
        λ _.
          holds-if IsShared (in_slider 428 p) (set_volume (slid p.0) s) s
            (λ _. (
              h.0,
              slid-IsPercent p.0,
              λ d. get-put (codes "volume") (codes "brightness") v d c ∙ h.2 d,
              λ d. get-put (codes "volume") (codes "volume") v d c,
            ))
            (λ _. h)

  touch_found-IsShared :
      (p : Pos) (s : ControlCenter) (o : Option Toggle)
      → IsShared s
      → IsShared (after (touch_found popen p s o))
  unfolding touch_found
  touch_found-IsShared p s none h = touch_sliders-IsShared p s h
  touch_found-IsShared p s (some t) h = perform-IsShared t s h

  touch_panel-IsShared :
      (p : Pos) (s : ControlCenter) (o : Option (List (Rect × Toggle)))
      → IsShared s
      → IsShared (after (touch_panel popen p s o))
  unfolding touch_panel
  touch_panel-IsShared p s none h = h
  touch_panel-IsShared p s (some rs) h = touch_found-IsShared p s (touched p rs) h

  call-IsShared : (c : Call) (s : ControlCenter) → IsShared s → IsShared (after (call popen c s))
  unfolding call show hide draw handle_touch
  call-IsShared shown s h = h
  call-IsShared hidden s h = h
  call-IsShared frame s h = holds-if IsShared s.visible _ _ (λ _. h) (λ _. h)
  call-IsShared (touch p) s h =
      after-if IsShared s.visible _ _
        (λ _.
          after-if IsShared (ltb_ℤ p.1 (pos 160)) _ _ (λ _. h)
            (λ _. touch_panel-IsShared p s s.toggle_rects h))
        (λ _. h)

  after_call :
      (cs : List Call) (o : Outcome ControlCenter)
      → ((s : ControlCenter) → IsShared s → IsShared (run popen cs s))
      → IsShared (after o)
      → IsShared (elim o [ done s' ↦ run popen cs s' | raised s' ↦ s' ])
  after_call cs (done s) rest h = rest s h
  after_call cs (raised s) rest h = h

  -- If the panel's two values are whole numbers from 0 to 100 and the configuration has them
  -- under "brightness" and "volume", all of that is so after any calls of the panel, one that
  -- raises an exception included, as long as nothing else writes the configuration in between.
  pub run-IsShared : (cs : List Call) (s : ControlCenter) → IsShared s → IsShared (run popen cs s)
  unfolding run
  run-IsShared [] s h = h
  run-IsShared (c ∷ cs) s h = after_call cs (call popen c s) (run-IsShared cs) (call-IsShared c s h)

-- The panel is up: it was drawn without an offset.
abbrev pub IsUp : ControlCenter → Type 0
IsUp s = (s.visible ≡ true) × (s.y_offset ≡ 0) × (s.toggle_rects ≡ some (rects_at 160))

-- Where the touch on a panel that is up goes.
touch_up :
    (popen : Bool → Bool) (s : ControlCenter) (p : Pos)
    → IsUp s
    → ltb_ℤ p.1 (pos 160) ≡ false
    → handle_touch popen p s ≡ touch_found popen p s (touched p (rects_at 160))
unfolding handle_touch touch_panel
touch_up popen s p up low = rw (up.0, up.2, low) refl

touched-airplane :
    (p : Pos)
    → hits (rect (pos 164) (pos 212) (pos 64) (pos 64)) p ≡ true
    → touched p (rects_at 160) ≡ some airplane
unfolding touched hits rects_at
touched-airplane p h = ground arith

low-airplane :
    (p : Pos)
    → hits (rect (pos 164) (pos 212) (pos 64) (pos 64)) p ≡ true
    → ltb_ℤ p.1 (pos 160) ≡ false
unfolding hits
low-airplane p h = ground arith

-- If the panel is up and the airplane mode is off, a touch on its toggle returns with the
-- airplane mode on, Wi-Fi and Bluetooth off and every other key as it was, and the file written.
pub touch-airplane :
    (popen : Bool → Bool) (s : ControlCenter) (p : Pos)
    → IsUp s
    → flipped (codes "airplane") false s.settings ≡ true
    → hits (rect (pos 164) (pos 212) (pos 64) (pos 64)) p ≡ true
    → Returns
        (λ s'.
          ((key : Text) (d : Value)
            → get key d s'.settings.cfg ≡ (
                if text_eq key (codes "bluetooth")
                then flag false
                else if text_eq key (codes "wifi")
                then flag false
                else if text_eq key (codes "airplane")
                then flag true
                else get key d s.settings.cfg))
          × (s'.settings.file ≡ some s'.settings.cfg))
        (handle_touch popen p s)
unfolding touch_found perform toggle_airplane assign save_settings
touch-airplane popen s p up off at =
    rw (touch_up popen s p up (low-airplane p at), touched-airplane p at, off)
      ((λ key d. rw (get-put, get-put, get-put) refl), refl)

untouched-slider : (p : Pos) → hits (slider_rects 160).0 p ≡ true → touched p (rects_at 160) ≡ none
unfolding touched hits rects_at slider_rects
untouched-slider p h = ground arith

low-slider : (p : Pos) → hits (slider_rects 160).0 p ≡ true → ltb_ℤ p.1 (pos 160) ≡ false
unfolding hits slider_rects
low-slider p h = ground arith

split-slider :
    (p : Pos) (s : ControlCenter)
    → hits (slider_rects 160).0 p ≡ true
    → touch_sliders p s ≡ (if ltb_ℤ p.1 (pos 384) then s else set_brightness (slid p.0) s)
unfolding hits slider_rects touch_sliders
split-slider p s h = ground arith

-- If the panel is up, a touch on the brightness slider as it is drawn sets the brightness in the
-- slider's lower part, and does nothing above the height 384.
pub touch-slider :
    (popen : Bool → Bool) (s : ControlCenter) (p : Pos)
    → IsUp s
    → hits (slider_rects 160).0 p ≡ true
    → handle_touch popen p s ≡ done (if ltb_ℤ p.1 (pos 384) then s else set_brightness (slid p.0) s)
unfolding touch_found
touch-slider popen s p up at =
    rw (touch_up popen s p up (low-slider p at), untouched-slider p at)
      (ap done (split-slider p s at))

-- n drawings.
unfoldable pub frames : ℕ → List Call
frames zero = []
frames (suc n) = frame ∷ frames n

draw_visible :
    (s : ControlCenter)
    → s.visible ≡ true
    → draw s ≡ record s {
      y_offset = s.y_offset - 30;
      toggle_rects = some (rects_at (160 + (s.y_offset - 30)));
    }
unfolding draw panel_top
draw_visible s v = rw v refl

frames-IsUp :
    (popen : Bool → Bool) (n : ℕ) (s : ControlCenter)
    → s.visible ≡ true
    → s.y_offset ≤ 30 * suc n
    → IsUp (run popen (frames (suc n)) s)
unfolding run frames call
frames-IsUp popen zero s v k = rw (draw_visible s v) (
  v,
  omega arith,
  ap (λ o. some (rects_at (160 + o))) {x = s.y_offset - 30} {y = 0} (omega arith),
)
frames-IsUp popen (suc n) s v k =
    let drawn = draw_visible s v in
    frames-IsUp popen n (draw s) (rw drawn v) (rw drawn (omega arith))

-- 16 drawings after it was shown, or more, the panel is up.
pub shown_arrives :
    (popen : Bool → Bool) (n : ℕ) (s : ControlCenter)
    → 16 ≤ n
    → IsUp (run popen (shown ∷ frames n) s)
unfolding run call show
shown_arrives popen zero s k = absurd (omega arith)
shown_arrives popen (suc n) s k = frames-IsUp popen n (show s) refl (omega arith)
