-- ===== src/System/Notifications.antt =====
-- src/system/notification_center.py: the notifications, the file that they are saved in, the
-- rectangles that `draw` lays out and the touches of the panel.
mod History
mod Reading
mod Panel
mod Saving
mod Tests
use julius_os.Prelude.{
  ℕ, zero, suc, ◌+◌, ◌-◌, ◌*◌, Bool, true, false, not, ◌&&◌, ◌||◌, Option, none, some, List, [],
  ◌∷◌, length, take, get_elem?, set, ltb, ◌==◌, min, if◌then◌else◌,
}
use julius_os.Prelude.Int.{ℤ, pos, negsuc, ◌+ℤ◌, ◌-ℤ◌, sub_ℕ, ltb_ℤ, min_ℤ}
use julius_os.Prelude.Text.{Text, codes}
use julius_os.Events.{Pos}
use julius_os.Geometry.{Rect, rect, hits}
use julius_os.Outcome.{Outcome, done, raised}

pub record Notif : Type 0 where
  pub app : Text
  pub title : Text
  pub body : Text
  pub time : Text
  pub color : List ℕ
  pub read : Bool

-- `file` is what NOTIF_FILE holds, once this program has written it; `clear_rect` and
-- `notif_rects` are `none` until `draw` sets them.
pub record NotificationCenter : Type 0 where
  pub visible : Bool
  pub y_offset : ℤ
  pub notifs : List Notif
  pub scroll : ℕ
  pub file : Option (List Notif)
  pub clear_rect : Option Rect
  pub notif_rects : Option (List (Option Rect))

-- What NOTIF_FILE holds when the program starts.
pub data NotifFile : Type 0 where
  missing : NotifFile
  invalid : NotifFile
  holding : List Notif → NotifFile

unfoldable pub demo_notifs : Text → List Notif
demo_notifs now =
    record {
      app = codes "Julius OS";
      title = codes "System Ready";
      body = codes "All services running";
      time = now;
      color = 48 ∷ 209 ∷ 88 ∷ [];
      read = false;
    }
    ∷ record {
      app = codes "WiFi";
      title = codes "Connected";
      body = codes "Connected to home network";
      time = now;
      color = 10 ∷ 132 ∷ 255 ∷ [];
      read = false;
    }
    ∷ record {
      app = codes "OTA";
      title = codes "Up to date";
      body = codes "Julius OS v1.0 is current";
      time = now;
      color = 255 ∷ 159 ∷ 10 ∷ [];
      read = true;
    }
    ∷ []

unfoldable pub load : Text → NotifFile → List Notif
unfolding demo_notifs
load now missing = demo_notifs now
load now invalid = []
load now (holding ns) = ns

-- `negsuc (H - 1)` is -H, on a screen that has a row at all.
unfoldable pub init : ℕ → Text → NotifFile → NotificationCenter
unfolding load
init H now f = record {
  visible = false;
  y_offset = sub_ℕ 0 H;
  notifs = load now f;
  scroll = 0;
  file = none;
  clear_rect = none;
  notif_rects = none;
}

unfoldable pub save : NotificationCenter → NotificationCenter
save s = record s { file = some s.notifs }

-- The notification that `add` writes: the colour is the default when none is given.
unfoldable pub written : Text → Text → Text → Text → List ℕ → Notif
written now app title body color = record {
  app = app;
  title = title;
  body = body;
  time = now;
  color = elim color [ [] ↦ 10 ∷ 132 ∷ 255 ∷ [] | c ∷ cs ↦ c ∷ cs ];
  read = false;
}

unfoldable pub add : Text → Text → Text → Text → List ℕ → NotificationCenter → NotificationCenter
unfolding save written
add now app title body color s =
    let longer = written now app title body color ∷ s.notifs in
    save (record s { notifs = if ltb 50 (length longer) then take 50 longer else longer })

unfoldable pub clear_all : NotificationCenter → NotificationCenter
unfolding save
clear_all s = save (record s { notifs = [] })

-- `idx` comes from `enumerate`, so it is not negative; out of range nothing is written.
unfoldable pub mark_read : ℕ → NotificationCenter → NotificationCenter
unfolding save
mark_read idx s = elim (get_elem? s.notifs idx) [
  | none ↦ s
  | some n ↦ save (record s { notifs = set s.notifs idx (record n { read = true }) })
]

unfoldable pub show : NotificationCenter → NotificationCenter
show s = record s { visible = true; y_offset = negsuc 299 }

unfoldable pub hide : NotificationCenter → NotificationCenter
hide s = record s { visible = false }

unfoldable pub unread : List Notif → ℕ
unread [] = 0
unread (n ∷ ns) = (if n.read then 0 else 1) + unread ns

unfoldable pub unread_count : NotificationCenter → ℕ
unfolding unread
unread_count s = unread s.notifs

unfoldable pub panel_h : List Notif → ℕ
panel_h ns = min 360 (80 + length ns * 72)

-- The loop of `draw` over the notifications: a row outside the panel has no rectangle.
unfoldable pub rows : ℕ → ℤ → ℕ → ℤ → List Notif → List (Option Rect)
rows W py h y [] = []
rows W py h y (n ∷ ns) =
    (if ltb_ℤ (y +ℤ pos 66) (py +ℤ pos 40) || ltb_ℤ (py +ℤ pos h) y
      then none
      else some (rect (pos 8) y (sub_ℕ W 16) (pos 66)))
    ∷ rows W py h (y +ℤ pos 72) ns

-- `y_offset` after a frame of the panel's slide.
unfoldable pub slid : ℤ → ℤ
slid y = if ltb_ℤ y (pos 0) then min_ℤ (pos 0) (y +ℤ pos 25) else y

-- `draw`, as far as it changes the state: `clear_w` is the width of the drawn word. The division
-- by `len(self.notifs)*72-panel_h` raises where that is 0.
unfoldable pub draw : ℕ → ℕ → NotificationCenter → Outcome NotificationCenter
unfolding panel_h rows slid
draw W clear_w s =
    let y_offset = slid s.y_offset in
    let py = y_offset +ℤ pos 36 in
    let h = panel_h s.notifs in
    let framed = record s {
      y_offset = y_offset;
      clear_rect = some (rect (sub_ℕ W (clear_w + 20)) (py +ℤ pos 12) (pos (clear_w + 8)) (pos 24));
    } in
    let laid = record framed {
      notif_rects = some (rows W py h ((py +ℤ pos 44) -ℤ pos s.scroll) s.notifs);
    } in
    if s.visible
    then elim s.notifs [
      | [] ↦ done framed
      | _ ∷ _ ↦
          if ltb 4 (length s.notifs) && length s.notifs * 72 == h then raised laid else done laid
    ]
    else done s

-- The loop of `handle_touch` over the rectangles, with the number of the first.
unfoldable pub touched_row : ℕ → Pos → List (Option Rect) → Option ℕ
touched_row i p [] = none
touched_row i p (r ∷ rs) =
    let rest = touched_row (suc i) p rs in
    elim r [ none ↦ rest | some r ↦ if hits r p then some i else rest ]

unfoldable pub touch_rows : Pos → NotificationCenter → NotificationCenter
unfolding touched_row mark_read
touch_rows p s = elim s.notif_rects [
  | none ↦ s
  | some rs ↦ elim (touched_row 0 p rs) [ none ↦ s | some i ↦ mark_read i s ]
]

unfoldable pub touch_panel : Pos → NotificationCenter → NotificationCenter
unfolding touch_rows clear_all
touch_panel p s = elim s.clear_rect [
  | none ↦ touch_rows p s
  | some cr ↦ if hits cr p then clear_all s else touch_rows p s
]

unfoldable pub handle_touch : Pos → NotificationCenter → NotificationCenter × Bool
unfolding touch_panel hide panel_h
handle_touch p s =
    if s.visible
    then (if ltb_ℤ ((s.y_offset +ℤ pos 36) +ℤ pos (panel_h s.notifs)) p.1
        then (hide s, true)
        else (touch_panel p s, true))
    else (s, false)
