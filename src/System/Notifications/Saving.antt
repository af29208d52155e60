-- ===== src/System/Notifications/Saving.antt =====
-- What a touch of the panel of src/system/notification_center.py can do to the list and the file.
use julius_os.Prelude.{
  ℕ, ◌≤◌, ◌≡◌, refl, sym, ◌⊎◌, inl, inr, Bool, true, false, Option, none, some, List, arith,
  if◌then◌else◌, get_elem?, Option-cases,
}
use julius_os.Prelude.Int.{pos, ◌+ℤ◌, ltb_ℤ}
use julius_os.Events.{Pos}
use julius_os.Geometry.{Rect, hits}
use julius_os.System.Notifications.{
  NotificationCenter, touched_row, touch_rows, touch_panel, handle_touch, mark_read, unread_count,
  unread, clear_all, hide, save, panel_h,
}
use julius_os.System.Notifications.Reading.{
  mark_read-unread_le, mark_read-unread_count, mark_read-out,
}

-- From one state to the next: the list is as it was or saved, and no more of it is unread.
abbrev pub Settles : NotificationCenter → NotificationCenter → Type 0
Settles s s' =
    ((s'.file ≡ some s'.notifs) ⊎ ((s'.notifs ≡ s.notifs) × (s'.file ≡ s.file)))
    × (unread_count s' ≤ unread_count s)

still-Settles : (s : NotificationCenter) → Settles s s
still-Settles s = (inr (refl, refl), omega arith)

mark_read-Settles : (i : ℕ) (s : NotificationCenter) → Settles s (mark_read i s)
mark_read-Settles i s = elim (Option-cases (get_elem? s.notifs i)) [
  | inl out ↦ rw (mark_read-out i s out) (still-Settles s)
  | inr (n, found) ↦ (inl (mark_read-unread_count i s n found).3, mark_read-unread_le i s)
]

clear_all-Settles : (s : NotificationCenter) → Settles s (clear_all s)
unfolding clear_all save unread_count unread
clear_all-Settles s = (inl refl, omega arith)

touch_rows-Settles : (p : Pos) (s : NotificationCenter) → Settles s (touch_rows p s)
unfolding touch_rows
touch_rows-Settles p s = on_rects s.notif_rects
  where
    on_row : (o : Option ℕ) → Settles s (elim o [ none ↦ s | some i ↦ mark_read i s ])
    on_row none = still-Settles s
    on_row (some i) = mark_read-Settles i s

    on_rects :
        (o : Option (List (Option Rect)))
        → Settles s (elim o [
          | none ↦ s
          | some rs ↦ elim (touched_row 0 p rs) [ none ↦ s | some i ↦ mark_read i s ]
        ])
    on_rects none = still-Settles s
    on_rects (some rs) = on_row (touched_row 0 p rs)

Settles-if :
    (b : Bool) (s m n : NotificationCenter)
    → Settles s m
    → Settles s n
    → Settles s (if b then m else n)
Settles-if true s m n h k = h
Settles-if false s m n h k = k

touch_panel-Settles : (p : Pos) (s : NotificationCenter) → Settles s (touch_panel p s)
unfolding touch_panel
touch_panel-Settles p s = on_clear s.clear_rect
  where
    on_clear :
        (o : Option Rect)
        → Settles s (elim o [
          | none ↦ touch_rows p s
          | some cr ↦ if hits cr p then clear_all s else touch_rows p s
        ])
    on_clear none = touch_rows-Settles p s
    on_clear (some cr) =
        Settles-if (hits cr p) s (clear_all s) (touch_rows p s) (clear_all-Settles s)
          (touch_rows-Settles p s)

-- A touch anywhere answers whether the panel was shown, leaves no more notifications unread than
-- before, and leaves a list that the file holds, or list and file as they were.
pub handle_touch-Settles :
    (p : Pos) (s : NotificationCenter)
    → ((handle_touch p s).1 ≡ s.visible) × Settles s (handle_touch p s).0
unfolding handle_touch hide unread_count
handle_touch-Settles p s = on_visible s.visible refl
  where
    on_below :
        (b : Bool)
        → ltb_ℤ ((s.y_offset +ℤ pos 36) +ℤ pos (panel_h s.notifs)) p.1 ≡ b
        → s.visible ≡ true
        → ((handle_touch p s).1 ≡ s.visible) × Settles s (handle_touch p s).0
    on_below true e v =
        let below : handle_touch p s ≡ (hide s, true) = ground arith in
        rw (below, v) (refl, still-Settles s)
    on_below false e v =
        let on_panel : handle_touch p s ≡ (touch_panel p s, true) = ground arith in
        rw on_panel (sym v, touch_panel-Settles p s)

    on_visible :
        (b : Bool)
        → s.visible ≡ b
        → ((handle_touch p s).1 ≡ s.visible) × Settles s (handle_touch p s).0
    on_visible true v =
        on_below (ltb_ℤ ((s.y_offset +ℤ pos 36) +ℤ pos (panel_h s.notifs)) p.1) refl v
    on_visible false v =
        let idle : handle_touch p s ≡ (s, false) = ground arith in rw idle (sym v, still-Settles s)
