-- ===== src/Apps/WakeOnLan/Tests.antt =====
-- Two devices, and an address of two bytes.
use julius_os.Prelude.{◌≡◌, refl, none, some, [], ◌∷◌, ◌++◌, arith}
use julius_os.Prelude.Int.{negsuc}
use julius_os.Prelude.Text.{codes}
use julius_os.Events.{k_return, keydown}
use julius_os.Outcome.{Returns}
use julius_os.Apps.WakeOnLan.{Device, WakeOnLan, init, load, magic, handle_input}
use julius_os.Apps.WakeOnLan.Laws.{IsOrderly, handle_input-IsOrderly}
use julius_os.Apps.WakeOnLan.Packet.{address, copies, magic-address}

abbrev box : Device
box = record { name = codes "box"; mac = codes "0A:FF" }

abbrev before_first : WakeOnLan
before_first = record (init (some (box ∷ box ∷ []))) { selected = negsuc 0 }

handle_input-IsOrderly_example :
    Returns IsOrderly (handle_input none before_first (keydown k_return []))
unfolding init load
handle_input-IsOrderly_example =
    handle_input-IsOrderly none before_first (keydown k_return [])
      (refl, (omega arith, omega arith))

magic-address_example :
    magic (address (10 ∷ 255 ∷ [])) ≡ some (copies 6 (255 ∷ []) ++ copies 16 (10 ∷ 255 ∷ []))
magic-address_example = magic-address (10 ∷ 255 ∷ []) (omega arith, (omega arith, tt))

written : address (10 ∷ 255 ∷ []) ≡ codes "0A:FF"
written = refl
