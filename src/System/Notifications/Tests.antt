-- ===== src/System/Notifications/Tests.antt =====
-- A panel of 320 by 480 with the notifications that the program starts with.
use julius_os.Prelude.{◌≡◌, refl, ◌↔◌, true, false, some, [], ◌∷◌, ◌++◌, map, take, length, arith}
use julius_os.Prelude.Int.{pos}
use julius_os.Prelude.Text.{Text, codes}
use julius_os.Geometry.{rect, hits}
use julius_os.System.Notifications.{
  Notif, NotificationCenter, missing, init, load, demo_notifs, draw, handle_touch, mark_read,
  panel_h, rows, slid,
}
use julius_os.System.Notifications.History.{Alert, entry, added, added-notifs}
use julius_os.System.Notifications.Panel.{Fails, draw-Fails, drawn, touch-marks}

abbrev noon : Text
noon = codes "12:00"

abbrev started : NotificationCenter
started = init 480 noon missing

abbrev opened : NotificationCenter
opened = record started { visible = true; y_offset = pos 0 }

abbrev wifi : Notif
wifi = record {
  app = codes "WiFi";
  title = codes "Connected";
  body = codes "Connected to home network";
  time = noon;
  color = 10 ∷ 132 ∷ 255 ∷ [];
  read = false;
}

abbrev ping : Alert
ping = record { now = noon; app = codes "Ping"; title = codes "Ping"; body = codes "-"; color = [] }

added-notifs_example :
    ((added (ping ∷ ping ∷ []) started).notifs
      ≡ take 50 (map entry (ping ∷ ping ∷ []) ++ started.notifs))
    × ((added (ping ∷ ping ∷ []) started).file ≡ some (added (ping ∷ ping ∷ []) started).notifs)
added-notifs_example = added-notifs ping (ping ∷ []) started

-- Two more notifications, and the panel cannot be drawn.
draw-Fails_example :
    Fails (draw 320 40 (added (ping ∷ ping ∷ []) opened))
    ↔ ((added (ping ∷ ping ∷ []) opened).visible ≡ true)
      × (length (added (ping ∷ ping ∷ []) opened).notifs ≡ 5)
draw-Fails_example = draw-Fails 320 40 (added (ping ∷ ping ∷ []) opened)

touch-marks_example :
    handle_touch (pos 20, pos 160) (drawn 320 40 opened) ≡ (mark_read 1 (drawn 320 40 opened), true)
touch-marks_example =
    touch-marks 320 40 opened
      (some (rect (pos 8) (pos 80) (pos 304) (pos 66))
        ∷ some (rect (pos 8) (pos 152) (pos 304) (pos 66))
        ∷ some (rect (pos 8) (pos 224) (pos 304) (pos 66))
        ∷ [])
      (rect (pos 8) (pos 152) (pos 304) (pos 66)) 1 (pos 20, pos 160) refl
      (unfold init load demo_notifs in λ e. cc)
      (unfold init load demo_notifs draw rows slid panel_h in refl) refl (unfold hits in refl)
      (unfold hits init load demo_notifs draw rows slid panel_h in λ cr e. ground arith)
      (unfold init load demo_notifs draw rows slid panel_h in refl)
