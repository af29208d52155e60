-- ===== src/System/AppSwitcher.antt =====
-- src/system/app_switcher.py: the recent apps, the cards that `draw` lays out for them, and the
-- touches of the cards.
pub mod Recency
pub mod Touch
mod Tests
use julius_os.Prelude.{
  ℕ, zero, suc, ◌+◌, ◌-◌, ◌*◌, ◌/◌, Bool, true, false, ◌&&◌, ◌||◌, Option, none, some, List, [],
  ◌∷◌, length, take, ltb, ◌==◌, if◌then◌else◌,
}
use julius_os.Prelude.Int.{ℤ, pos, negsuc, ◌+ℤ◌, ◌-ℤ◌, sub_ℕ, ltb_ℤ, min_ℤ, max_ℤ}
use julius_os.Prelude.Text.{Text, codes, text_eq}
use julius_os.Events.{Pos}
use julius_os.Geometry.{Rect, rect, hits}
use julius_os.Outcome.{Outcome, done, raised}

pub record Card : Type 0 where
  pub area : Rect
  pub close : Rect
  pub name : Text
  pub index : ℕ

-- `card_rects` is `none` until the first `draw`; a card outside the screen has no rectangle.
-- `snapshots` holds the names that have a picture.
pub record AppSwitcher : Type 0 where
  pub visible : Bool
  pub recent : List Text
  pub selected : ℤ
  pub scroll_x : ℤ
  pub target_x : ℤ
  pub snapshots : List Text
  pub card_rects : Option (List (Option Card))

unfoldable pub init : AppSwitcher
init = record {
  visible = false;
  recent = [];
  selected = pos 0;
  scroll_x = pos 0;
  target_x = pos 0;
  snapshots = [];
  card_rects = none;
}

-- `name in names`
unfoldable pub is_among : Text → List Text → Bool
is_among n [] = false
is_among n (m ∷ ms) = text_eq n m || is_among n ms

-- `names.remove(name)`, where the name is there
unfoldable pub remove : Text → List Text → List Text
remove n [] = []
remove n (m ∷ ms) = if text_eq n m then ms else m ∷ remove n ms

unfoldable pub add_recent : Text → AppSwitcher → AppSwitcher
unfolding is_among remove
add_recent name s =
    let recent = if is_among name s.recent then remove name s.recent else s.recent in
    let recent' = name ∷ recent in
    record s { recent = if ltb 8 (length recent') then take 8 recent' else recent' }

unfoldable pub take_snapshot : Text → AppSwitcher → AppSwitcher
unfolding is_among
take_snapshot name s = record s {
  snapshots = if is_among name s.snapshots then s.snapshots else name ∷ s.snapshots;
}

unfoldable pub show : AppSwitcher → AppSwitcher
show s = record s { visible = true; scroll_x = pos 0; target_x = pos 0; selected = pos 0 }

unfoldable pub hide : AppSwitcher → AppSwitcher
hide s = record s { visible = false }

-- The place of one app's card; `off` is `int(self.scroll_x)`, `total` the number of the cards.
unfoldable pub card_at : ℕ → ℕ → ℤ → ℕ → ℤ → ℕ → Text → Card
card_at W H off total selected i name =
    let start_x = sub_ℕ (W / 2) 80 -ℤ off in
    let x = start_x +ℤ sub_ℕ (i * 180) (total / 2 * 180) in
    let y = sub_ℕ (H / 2 + 20) 130 in
    let is_selected = ltb_ℤ (pos i -ℤ selected) (pos 1) && ltb_ℤ (selected -ℤ pos i) (pos 1) in
    let sw = if is_selected then 168 else 160 in
    let sh = if is_selected then 273 else 260 in
    let sx = x -ℤ pos ((sw - 160) / 2) in
    let sy = y -ℤ pos ((sh - 260) / 2) in
    let close_x = sx +ℤ sub_ℕ sw 18 in
    let close_y = sy +ℤ pos 6 in
    record {
      area = rect sx sy (pos sw) (pos sh);
      close = rect (close_x -ℤ pos 10) (close_y -ℤ pos 10) (pos 20) (pos 20);
      name = name;
      index = i;
    }

-- `sx > self.W+100 or sx+sw < -100`
unfoldable pub off_screen : ℕ → Rect → Bool
off_screen W r = ltb_ℤ (pos (W + 100)) r.x || ltb_ℤ (r.x +ℤ r.w) (negsuc 99)

unfoldable pub card : ℕ → ℕ → ℤ → ℕ → ℤ → ℕ → Text → Option Card
unfolding card_at off_screen
card W H off total selected i name =
    let c = card_at W H off total selected i name in if off_screen W c.area then none else some c

unfoldable pub cards : ℕ → ℕ → ℤ → ℕ → ℤ → ℕ → List Text → List (Option Card)
cards W H off total selected i [] = []
cards W H off total selected i (name ∷ names) =
    card W H off total selected i name ∷ cards W H off total selected (i + 1) names

-- `draw`, as far as it changes the state: `off` is the place that the smooth scroll has reached.
unfoldable pub draw : ℕ → ℕ → ℤ → AppSwitcher → AppSwitcher
unfolding cards
draw W H off s =
    let laid = record s {
      scroll_x = off;
      card_rects = some (cards W H off (length s.recent) s.selected 0 s.recent);
    } in
    if s.visible then elim s.recent [ [] ↦ record s { scroll_x = off } | _ ∷ _ ↦ laid ] else s

-- The loop over the cards: the close button, then the card.
unfoldable pub touch_cards :
    Pos → List (Option Card) → AppSwitcher → Outcome AppSwitcher × Option Text
unfolding is_among remove hide
touch_cards p [] s = (done s, none)
touch_cards p (none ∷ cs) s = touch_cards p cs s
touch_cards p (some c ∷ cs) s =
    let rest = touch_cards p cs s in
    if hits c.close p
    then (if is_among c.name s.recent
        then (
          done
              (record s { recent = remove c.name s.recent; snapshots = remove c.name s.snapshots }),
          some (codes "closed"),
        )
        else (raised s, none))
    else if hits c.area p
    then (done (hide s), some c.name)
    else rest

unfoldable pub handle_touch : Pos → Bool → Bool → AppSwitcher → Outcome AppSwitcher × Option Text
unfolding touch_cards
handle_touch p is_swipe_left is_swipe_right s =
    if s.visible
    then (if is_swipe_left
        then (
          done (record s {
            selected = min_ℤ (s.selected +ℤ pos 1) (sub_ℕ (length s.recent) 1);
            target_x = s.target_x +ℤ pos 180;
          }),
          none,
        )
        else if is_swipe_right
        then (
          done (record s {
            selected = max_ℤ (s.selected -ℤ pos 1) (pos 0);
            target_x = s.target_x -ℤ pos 180;
          }),
          none,
        )
        else elim s.card_rects [ none ↦ (done s, none) | some cs ↦ touch_cards p cs s ])
    else (done s, none)
