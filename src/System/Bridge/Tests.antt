-- ===== src/System/Bridge/Tests.antt =====
-- One subscription, and the answers of the permission and the keychain service.
use julius_os.Prelude.{◌≡◌, refl, true, Option, some, [], ◌∷◌, ◌++◌, map, arith}
use julius_os.Prelude.Text.{Text, codes}
use julius_os.System.Bytes.{Bytes, rstrip}
use julius_os.System.Bridge.{Bridge, callbacks_of, subscribe, handle_message}
use julius_os.System.Bridge.Delivery.{received, call_of, subscribe-delivers}

-- Texts whose code points are their bytes.
abbrev ascii : Text → Bytes
ascii t = t

abbrev any : Bytes → Option Text
any b = some b

abbrev power : Bridge
power = record {
  connected = true;
  callbacks = (codes "POWER", 1 ∷ 2 ∷ []) ∷ [];
  calls = [];
  sent = [];
}

subscribe-delivers_example :
    (handle_message ascii any
      (received (codes "POWER") (codes "85") 7 9)
      (subscribe ascii any true 7 9 (codes "POWER") 3 power)).calls
    ≡ []
      ++ map
          (call_of ascii any (codes "POWER") (codes "85"))
          (callbacks_of (codes "POWER") power.callbacks ++ 3 ∷ [])
subscribe-delivers_example =
    subscribe-delivers ascii any true (codes "POWER") (codes "85") 3 7 9 power refl (omega arith)
      (omega arith) (unfold rstrip in refl) (unfold rstrip in refl)

abbrev yes : Bytes
yes = 0 ∷ 0 ∷ 0 ∷ 0 ∷ 1 ∷ 0 ∷ 0 ∷ 0 ∷ []
