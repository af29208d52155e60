-- ===== src/Shell/Icons.antt =====
-- The icons of src/julius_ui.py: APPS, DOCK_NAMES, and `get_tapped_app` on the screen of 320 by 480.
use julius_os.Prelude.{
  ℕ, ◌+◌, ◌-◌, ◌*◌, ◌/◌, ◌%◌, Bool, false, ◌||◌, Option, none, some, List, [], ◌∷◌, ◌++◌, keep, map,
  length, ◌==◌, if◌then◌else◌,
}
use julius_os.Prelude.Int.{pos}
use julius_os.Prelude.Text.{Text, codes, text_eq}
use julius_os.Events.{Pos}
use julius_os.Geometry.{Rect, rect, hits}

abbrev pub W : ℕ
W = 320

abbrev pub H : ℕ
H = 480

pub record App : Type 0 where
  pub name : Text
  pub page : ℕ

abbrev first_page : List Text
first_page =
    codes "Terminal"
    ∷ codes "WiFi"
    ∷ codes "IR"
    ∷ codes "Bluetooth"
    ∷ codes "Connect"
    ∷ codes "Transfer"
    ∷ codes "Scanner"
    ∷ codes "Files"
    ∷ codes "SysMon"
    ∷ codes "SSH"
    ∷ codes "Notes"
    ∷ codes "NetTools"
    ∷ codes "Packets"
    ∷ codes "Clipboard"
    ∷ codes "Hotspot"
    ∷ codes "GPIO"
    ∷ []

abbrev second_page : List Text
second_page =
    codes "Calc"
    ∷ codes "Todo"
    ∷ codes "Passwords"
    ∷ codes "Weather"
    ∷ codes "Hasher"
    ∷ codes "Encoder"
    ∷ codes "NetMon"
    ∷ codes "Editor"
    ∷ codes "Timer"
    ∷ codes "WakeOnLAN"
    ∷ codes "SpeedTest"
    ∷ codes "ProcKill"
    ∷ codes "NetMapper"
    ∷ codes "SysInfo"
    ∷ codes "Firewall"
    ∷ codes "Logs"
    ∷ codes "USB"
    ∷ codes "Drop"
    ∷ codes "Cloud"
    ∷ codes "AI"
    ∷ codes "Radio"
    ∷ codes "Maps"
    ∷ codes "Settings"
    ∷ []

abbrev pub apps : List App
apps =
    map (λ n. record { name = n; page = 0 }) first_page
    ++ map (λ n. record { name = n; page = 1 }) second_page

abbrev pub dock_names : List Text
dock_names = codes "Terminal" ∷ codes "WiFi" ∷ codes "AI" ∷ codes "Settings" ∷ []

-- `name in names`
abbrev pub is_listed : Text → List Text → Bool
is_listed n [] = false
is_listed n (m ∷ ms) = text_eq n m || is_listed n ms

-- The icons of a page, from number i on: four in a row.
abbrev pub grid : ℕ → List App → List (Rect × Text)
grid i [] = []
grid i (a ∷ rest) =
    let icon_size = (W - 9 * 5) / 4 in
    (
      rect (pos (9 + i % 4 * (icon_size + 9))) (pos (132 + i / 4 * (icon_size + 20 + 5)))
          (pos icon_size) (pos icon_size),
      a.name,
    )
    ∷ grid (i + 1) rest

-- The icons of the dock, from number i on; `n` is how many the dock has.
abbrev pub dock : ℕ → ℕ → List App → List (Rect × Text)
dock n i [] = []
dock n i (a ∷ rest) =
    let dpd = (W - 24 - n * 46) / (n + 1) in
    (rect (pos (12 + dpd * (i + 1) + 46 * i)) (pos (H - 70 + 7)) (pos 46) (pos 46), a.name)
    ∷ dock n (i + 1) rest

unfoldable pub page_icons : ℕ → List (Rect × Text)
page_icons page = grid 0 (keep (λ a. a.page == page) apps)

unfoldable pub dock_icons : List (Rect × Text)
dock_icons =
    let dock_apps = keep (λ a. is_listed a.name dock_names) apps in
    dock (length dock_apps) 0 dock_apps

-- The first icon that the position is on.
unfoldable pub tapped : Pos → List (Rect × Text) → Option Text
tapped p [] = none
tapped p (i ∷ is) = let rest = tapped p is in if hits i.0 p then some i.1 else rest

unfoldable pub get_tapped_app : ℕ → Pos → Option Text
unfolding tapped
get_tapped_app current_page p = elim (tapped p (page_icons current_page)) [
  | none ↦ tapped p dock_icons
  | some n ↦ some n
]
