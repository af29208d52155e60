-- ===== src/Shell/Settings.antt =====
-- The settings of src/julius_ui.py: the configuration, the rows that `draw_settings` lays out, and
-- the taps on them.
use julius_os.Prelude.{
  ℕ, ◌-◌, ◌*◌, ◌/◌, Bool, true, false, not, ◌&&◌, ◌==◌, Option, some, List, [], ◌∷◌, nonempty, ◌++◌,
  if◌then◌else◌,
}
use julius_os.Prelude.Int.{ℤ, pos, ◌+ℤ◌, ◌-ℤ◌, sub_ℕ, ltb_ℤ, min_ℤ, max_ℤ, pos_part, neg_part}
use julius_os.Prelude.Text.{Text, codes, text_eq}
use julius_os.Events.{Pos}

-- A value of the configuration.
pub data Value : Type 0 where
  flag : Bool → Value
  number : ℤ → Value
  words : Text → Value

-- The type of a row.
pub data Kind : Type 0 where
  toggle slider text info : Kind

pub record Item : Type 0 where
  pub key : Text
  pub kind : Kind

abbrev item : Kind → Text → Item
item k t = record { key = t; kind = k }

abbrev pub settings_sections : List (List Item)
settings_sections =
    (item text (codes "device_name") ∷ item info (codes "version") ∷ [])
    ∷ (item toggle (codes "wifi")
        ∷ item toggle (codes "bluetooth")
        ∷ item toggle (codes "hotspot")
        ∷ item toggle (codes "airplane")
        ∷ [])
    ∷ (item toggle (codes "fingerprint") ∷ item toggle (codes "notifications") ∷ [])
    ∷ (item slider (codes "brightness") ∷ item toggle (codes "dark_mode") ∷ [])
    ∷ (item slider (codes "volume") ∷ [])
    ∷ (item toggle (codes "ota_enabled") ∷ item text (codes "admin_device") ∷ [])
    ∷ []

abbrev pub Config : Type 0
Config = List (Text × Value)

abbrev pub default_settings : Config
default_settings =
    (codes "wifi", flag true)
    ∷ (codes "bluetooth", flag true)
    ∷ (codes "brightness", number (pos 100))
    ∷ (codes "volume", number (pos 80))
    ∷ (codes "airplane", flag false)
    ∷ (codes "dark_mode", flag true)
    ∷ (codes "notifications", flag true)
    ∷ (codes "fingerprint", flag true)
    ∷ (codes "ota_enabled", flag true)
    ∷ (codes "hotspot", flag false)
    ∷ (codes "admin_device", words [])
    ∷ (codes "device_name", words (codes "Julius"))
    ∷ (codes "version", words (codes "Julius OS v1.3"))
    ∷ []

-- `cfg.get(key, d)`
unfoldable pub get : Text → Value → Config → Value
get k d [] = d
get k d (e ∷ c) = if text_eq k e.0 then e.1 else get k d c

-- `cfg[key] = v`: in its place, or at the end.
unfoldable pub put : Text → Value → Config → Config
put k v [] = (k, v) ∷ []
put k v (e ∷ c) = let rest = put k v c in if text_eq k e.0 then (e.0, v) ∷ c else e ∷ rest

-- The truth of a value in a Python condition.
abbrev pub is_true : Value → Bool
is_true (flag b) = b
is_true (number n) = not (pos_part n == 0 && neg_part n == 0)
is_true (words t) = nonempty t

-- `file` is what SETTINGS_FILE holds once this program has written it; `wifi_calls` are the calls
-- of the bridge, the latest first: true for wifi_connect.
pub record Settings : Type 0 where
  pub cfg : Config
  pub file : Option Config
  pub wifi_calls : List Bool

unfoldable pub save_settings : Settings → Settings
save_settings s = record s { file = some s.cfg }

pub record Placed : Type 0 where
  pub y : ℤ
  pub item : Item

-- The rows of `draw_settings`, from the height y on.
unfoldable pub place_items : ℤ → List Item → List Placed
place_items y [] = []
place_items y (i ∷ is) = record { y = y; item = i } ∷ place_items (y +ℤ pos 44) is

unfoldable pub after_items : ℤ → List Item → ℤ
after_items y [] = y
after_items y (i ∷ is) = after_items (y +ℤ pos 44) is

unfoldable pub place_sections : ℤ → List (List Item) → List (List Placed)
unfolding place_items after_items
place_sections y [] = []
place_sections y (s ∷ ss) =
    place_items (y +ℤ pos 22) s ∷ place_sections (after_items (y +ℤ pos 22) s +ℤ pos 8) ss

unfoldable pub joined : List (List Placed) → List Placed
joined [] = []
joined (ps ∷ pss) = ps ++ joined pss

-- What `draw_settings` returns.
unfoldable pub items_flat : ℕ → List Placed
unfolding place_sections joined
items_flat scroll = joined (place_sections (sub_ℕ 70 scroll) settings_sections)

-- `int(rel/bw*100)`, where rel is from 0 to 80 and bw is 80.
unfoldable pub slid_to : ℤ → ℕ
slid_to x = pos_part (max_ℤ (pos 0) (min_ℤ (x -ℤ pos (320 - 100)) (pos 80))) * 100 / 80

-- A tap on one row; `bridge` tells whether the program found the bridge.
unfoldable pub tap_item : Bool → ℤ → Item → Settings → Settings
unfolding save_settings slid_to get put
tap_item bridge x i s = elim i.kind [
  | toggle ↦
      let on = not (is_true (get i.key (flag false) s.cfg)) in
      let flipped = save_settings (record s { cfg = put i.key (flag on) s.cfg }) in
      if text_eq i.key (codes "wifi") && bridge
      then record flipped { wifi_calls = on ∷ s.wifi_calls }
      else flipped
  | slider ↦ save_settings (record s { cfg = put i.key (number (pos (slid_to x))) s.cfg })
  | text ↦ s
  | info ↦ s
]

-- `iy<pos[1]<iy+40`
unfoldable pub on_row : Pos → Placed → Bool
on_row p e = ltb_ℤ e.y p.1 && ltb_ℤ p.1 (e.y +ℤ pos 40)

unfoldable pub handle_settings_tap : Bool → Pos → List Placed → Settings → Settings
unfolding on_row tap_item
handle_settings_tap bridge p [] s = s
handle_settings_tap bridge p (e ∷ es) s =
    if on_row p e
    then handle_settings_tap bridge p es (tap_item bridge p.0 e.item s)
    else handle_settings_tap bridge p es s
