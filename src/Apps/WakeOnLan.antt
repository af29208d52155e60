-- ===== src/Apps/WakeOnLan.antt =====
-- src/apps/wakeonlan/wakeonlan.py: the list of devices, and the packet that wakes one.
pub mod Laws
mod Packet
mod Tests
use julius_os.Prelude.{
  ℕ, zero, suc, ◌+◌, ◌-◌, ◌*◌, Bool, true, false, ◌&&◌, ◌||◌, Option, none, some, List, [], ◌∷◌,
  ◌++◌, length, get_elem?, erase_at, drop_last, nonempty, keep, not, ltb, leb, ◌==◌, if◌then◌else◌,
}
use julius_os.Prelude.Int.{ℤ, pos, negsuc, ◌+ℤ◌, ◌-ℤ◌, sub_ℕ, min_ℤ, max_ℤ}
use julius_os.Prelude.Text.{Text, codes}
use julius_os.Events.{
  Key, k_return, k_backspace, k_escape, k_up, k_down, k_d, k_n, is, Event, keydown,
}
use julius_os.Outcome.{Outcome, done, raised}

pub record Device : Type 0 where
  pub name : Text
  pub mac : Text

pub data Mode : Type 0 where
  list add : Mode

pub data Stage : Type 0 where
  at_name at_mac : Stage

-- What the status line says; `bad_mac` is the error of `bytes.fromhex`.
pub data Status : Type 0 where
  blank sent bad_mac : Status
  added failed : Text → Status

-- `saved` is what the app last read from or wrote to WOL_FILE, and `packets` are those sent, the latest first.
pub record WakeOnLan : Type 0 where
  pub devices : List Device
  pub selected : ℤ
  pub mode : Mode
  pub name_in : Text
  pub mac_in : Text
  pub stage : Stage
  pub status : Status
  pub saved : Option (List Device)
  pub packets : List (List ℕ)

unfoldable pub load : Option (List Device) → List Device
load none = []
load (some ds) = ds

unfoldable pub init : Option (List Device) → WakeOnLan
unfolding load
init file = record {
  devices = load file;
  selected = pos 0;
  mode = list;
  name_in = [];
  mac_in = [];
  stage = at_name;
  status = blank;
  saved = file;
  packets = [];
}

unfoldable pub save : WakeOnLan → WakeOnLan
save s = record s { saved = some s.devices }

-- The value of a hexadecimal digit.
unfoldable pub hex_value : ℕ → Option ℕ
hex_value c =
    if leb 48 c && leb c 57
    then some (c - 48)
    else if leb 65 c && leb c 70
    then some (c - 55)
    else if leb 97 c && leb c 102
    then some (c - 87)
    else none

abbrev byte : Option ℕ → Option ℕ → Option (List ℕ) → Option (List ℕ)
byte (some h) (some l) (some bs) = some ((16 * h + l) ∷ bs)
byte _ _ _ = none

-- White space of ASCII, which `fromhex` skips between bytes.
abbrev ascii_space : ℕ → Bool
ascii_space c = c == 32 || leb 9 c && leb c 13

-- `bytes.fromhex`, `none` for ValueError.
unfoldable pub from_hex : Text → Option (List ℕ)
unfolding hex_value
from_hex [] = some []
from_hex (c ∷ []) = if ascii_space c then some [] else none
from_hex (c ∷ d ∷ cs) =
    let skipped = from_hex (d ∷ cs) in
    let rest = from_hex cs in
    if ascii_space c then skipped else byte (hex_value c) (hex_value d) rest

-- `text.replace(c, "")`
abbrev pub without : ℕ → Text → Text
without c t = keep (λ x. not (x == c)) t

-- `t * n`
unfoldable pub times : ℕ → Text → Text
times zero t = []
times (suc n) t = t ++ times n t

-- The bytes of the packet for a device.
unfoldable pub magic : Text → Option (List ℕ)
unfolding from_hex times
magic mac = from_hex (times 6 (codes "FF") ++ times 16 (without b'-' (without b':' mac)))

-- `failure` is the exception of the socket, if it has one.
unfoldable pub send_magic : Option Text → Text → WakeOnLan → WakeOnLan
unfolding magic
send_magic failure mac s = elim (magic mac) [
  | none ↦ record s { status = bad_mac }
  | some packet ↦ elim failure [
    | none ↦ record s { packets = packet ∷ s.packets; status = sent }
    | some e ↦ record s { status = failed e }
  ]
]

-- The place that a Python index stands for: -1 is the last one.
unfoldable pub place : ℤ → ℕ → Option ℕ
place (pos n) len = if ltb n len then some n else none
place (negsuc n) len = if ltb n len then some (len - 1 - n) else none

-- RETURN on a list that is not empty; `none` is IndexError.
unfoldable pub wake_at : Option Text → WakeOnLan → Option Device → Outcome WakeOnLan
unfolding send_magic
wake_at failure s none = raised s
wake_at failure s (some d) = done (send_magic failure d.mac s)

-- D on a list that is not empty.
unfoldable pub delete_at : WakeOnLan → Option ℕ → Outcome WakeOnLan
unfolding save
delete_at s none = raised s
delete_at s (some i) = done (
    save
      (record s { devices = erase_at s.devices i; selected = max_ℤ (pos 0) (s.selected -ℤ pos 1) }))

abbrev device_at : List Device → Option ℕ → Option Device
device_at ds none = none
device_at ds (some i) = get_elem? ds i

unfoldable pub list_key : Option Text → WakeOnLan → Key → Outcome WakeOnLan
unfolding wake_at delete_at place
list_key failure s key =
    let at = place s.selected (length s.devices) in
    if is k_down key
    then done (record s { selected = min_ℤ (s.selected +ℤ pos 1) (sub_ℕ (length s.devices) 1) })
    else if is k_up key
    then done (record s { selected = max_ℤ (s.selected -ℤ pos 1) (pos 0) })
    else if is k_return key
    then (if nonempty s.devices then wake_at failure s (device_at s.devices at) else done s)
    else if is k_n key
    then done (record s { mode = add; stage = at_name; name_in = []; mac_in = [] })
    else if is k_d key
    then (if nonempty s.devices then delete_at s at else done s)
    else done s

unfoldable pub name_key : WakeOnLan → Key → Text → WakeOnLan
name_key s key unicode =
    if is k_return key && nonempty s.name_in
    then record s { stage = at_mac }
    else if is k_backspace key
    then record s { name_in = drop_last s.name_in }
    else if is k_escape key
    then record s { mode = list }
    else record s { name_in = s.name_in ++ unicode }

unfoldable pub mac_key : WakeOnLan → Key → Text → WakeOnLan
unfolding save
mac_key s key unicode =
    if is k_return key && nonempty s.mac_in
    then (let s' =
          save (record s {
            devices = s.devices ++ record { name = s.name_in; mac = s.mac_in } ∷ [];
          }) in
        record s' { mode = list; status = added s.name_in })
    else if is k_backspace key
    then record s { mac_in = drop_last s.mac_in }
    else if is k_escape key
    then record s { mode = list }
    else record s { mac_in = s.mac_in ++ unicode }

-- A key in the form, at its stage.
unfoldable pub add_key : WakeOnLan → Key → Text → Stage → WakeOnLan
unfolding name_key mac_key
add_key s key unicode at_name = name_key s key unicode
add_key s key unicode at_mac = mac_key s key unicode

unfoldable pub handle_input : Option Text → WakeOnLan → Event → Outcome WakeOnLan
unfolding list_key add_key
handle_input failure s (keydown key unicode) = elim s.mode [
  | list ↦ list_key failure s key
  | add ↦ done (add_key s key unicode s.stage)
]
handle_input failure s _ = done s
