-- ===== src/Cursor.antt =====
-- The list that most apps show: a window of `page` rows of which one is highlighted. The code is
-- the K_DOWN and K_UP branches of `handle_input` in src/apps (todo, notes, passwords, firewall),
-- which are the same text up to the height of the window.
pub mod Laws
use julius_os.Prelude.{
  ℕ, zero, suc, ◌+◌, ◌-◌, ◌≤◌, ◌<◌, Bool, List, [], ◌∷◌, ltb, leb, ◌==◌, if◌then◌else◌, take, drop,
}

pub record Cursor : Type 0 where
  pub selected : ℕ
  pub scroll : ℕ

abbrev pub top : Cursor
top = record { selected = 0; scroll = 0 }

-- K_DOWN, over a list of `len` rows; `selected < len - 1` is over Python's integers.
unfoldable pub down : ℕ → ℕ → Cursor → Cursor
down page len c =
    let sel = if ltb (c.selected + 1) len then c.selected + 1 else c.selected in
    record { selected = sel; scroll = if leb (c.scroll + page) sel then c.scroll + 1 else c.scroll }

-- K_UP
unfoldable pub up : Cursor → Cursor
up c =
    let sel = if ltb 0 c.selected then c.selected - 1 else c.selected in
    record { selected = sel; scroll = if ltb sel c.scroll then c.scroll - 1 else c.scroll }

-- `max(0, self.selected - 1)`, after a row was removed; the window stays where it is.
unfoldable pub retreat : Cursor → Cursor
retreat c = record c { selected = c.selected - 1 }

-- The rows that `draw_list` shows, each with whether it is drawn as the selected one.
unfoldable pub mark : {A : Type 0} → ℕ → ℕ → List A → List (A × Bool)
mark i sel [] = []
mark i sel (x ∷ xs) = (x, i == sel) ∷ mark (i + 1) sel xs

unfoldable pub rows : {A : Type 0} → ℕ → Cursor → List A → List (A × Bool)
unfolding mark
rows page c xs = mark c.scroll c.selected (take page (drop c.scroll xs))

-- The highlighted row lies in the window.
abbrev pub IsShown : ℕ → Cursor → Type 0
IsShown page c = (c.scroll ≤ c.selected) × (c.selected < c.scroll + page)

-- The highlighted row is one of the list's, or the list is empty and it is the first.
abbrev pub IsWithin : ℕ → Cursor → Type 0
IsWithin len c = c.selected ≤ len - 1
