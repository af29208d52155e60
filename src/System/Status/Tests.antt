-- ===== src/System/Status/Tests.antt =====
-- A level of 40 percent, sent to a status bar that subscribed to it.
use julius_os.Prelude.{◌≡◌, refl, true, Option, none, some, [], ◌∷◌, ◌++◌, arith}
use julius_os.Prelude.Text.{Text, codes}
use julius_os.System.Bytes.{Bytes, rstrip, word}
use julius_os.Prelude.Int.{pos}
use julius_os.System.Bridge.{Bridge, Call, core_message, handle_message}
use julius_os.System.Status.{Info, init, run_call, subscribe_events}
use julius_os.System.Status.Battery.{battery_event_taken}

-- Texts whose code points are their bytes.
abbrev ascii : Text → Bytes
ascii t = t

abbrev any : Bytes → Option Text
any b = some b

abbrev no_json : Bytes → Option Info
no_json b = none

abbrev fresh : Bridge
fresh = record { connected = true; callbacks = []; calls = []; sent = [] }

battery_event_taken_example :
    (c : Call) × ((handle_message ascii any
        (core_message (codes "BATTERY") (word 40))
        (subscribe_events ascii any (λ i. true) 7 9 fresh)).calls
      ≡ [] ++ c ∷ [])
    × (run_call no_json c (init true) ≡ record (init true) { battery_level = pos 40 })
battery_event_taken_example =
    battery_event_taken ascii any no_json (λ i. true) 7 9 40 fresh (init true) refl (omega arith)
      (unfold rstrip in refl) refl (omega arith)
