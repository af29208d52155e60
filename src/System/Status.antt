-- ===== src/System/Status.antt =====
-- src/system/julius_status.py: what the status bar knows of the services, from the events of the
-- bridge, from its readings of the state files, and from files read directly without a bridge.
mod Laws
mod Battery
mod Tests
use julius_os.Prelude.{
  ℕ, ◌+◌, ◌-◌, ◌*◌, ◌/◌, min, Bool, true, false, ◌||◌, Option, none, some, List, [], ◌∷◌, ◌++◌,
  drop, take, get_elem?, ltb, ◌==◌, if◌then◌else◌,
}
use julius_os.Prelude.Int.{ℤ, pos, negsuc, ltb_ℤ}
use julius_os.Prelude.Text.{Text, codes, text_eq, starts_with}
use julius_os.Apps.Table.{words}
use julius_os.Apps.LogViewer.{readlines}
use julius_os.Apps.Timer.{second}
use julius_os.System.Bytes.{Bytes, unword}
use julius_os.System.Bridge.{Bridge, Call, subscribe}
use julius_os.System.StateFiles.{
  State, get, read_state, get_battery_level, get_charging, get_health_score,
}

-- `last_update` is a time in the units of the timer.
pub record JuliusStatus : Type 0 where
  pub battery_level : ℤ
  pub charging : Bool
  pub wifi_connected : Bool
  pub wifi_ssid : Text
  pub wifi_signal : ℤ
  pub bt_connected : Bool
  pub bt_enabled : Bool
  pub health_score : ℤ
  pub cpu_usage : ℕ
  pub last_update : ℕ
  pub has_bridge : Bool

-- `bridged` tells whether `get_bridge` gave a bridge.
abbrev pub init : Bool → JuliusStatus
init bridged = record {
  battery_level = pos 85;
  charging = false;
  wifi_connected = false;
  wifi_ssid = [];
  wifi_signal = pos 0;
  bt_connected = false;
  bt_enabled = true;
  health_score = pos 100;
  cpu_usage = 0;
  last_update = 0;
  has_bridge = bridged;
}

-- The fields of an event's JSON that are read, none for one that is missing.
pub record Info : Type 0 where
  pub connected : Option Bool
  pub ssid : Option Text
  pub signal : Option ℤ

-- `info.get(k, d)`
unfoldable pub or_else : {A : Type 0} → A → Option A → A
or_else d none = d
or_else d (some v) = v

-- A level is four bytes; with any other number `struct.unpack` raises, and nothing is written.
unfoldable pub on_level : Option ℕ → JuliusStatus → JuliusStatus
on_level none s = s
on_level (some level) s = record s { battery_level = pos level }

unfoldable pub on_battery : Bytes → JuliusStatus → JuliusStatus
unfolding on_level unword
on_battery payload s = on_level (unword (take 4 payload)) s

unfoldable pub on_info : Option Info → JuliusStatus → JuliusStatus
unfolding or_else
on_info none s = s
on_info (some i) s = record s {
  wifi_connected = or_else false i.connected;
  wifi_ssid = or_else [] i.ssid;
  wifi_signal = or_else (pos 0) i.signal;
}

unfoldable pub on_bt_info : Option Info → JuliusStatus → JuliusStatus
unfolding or_else
on_bt_info none s = s
on_bt_info (some i) s = record s { bt_connected = or_else false i.connected }

-- `parse` is `json.loads` of the decoded bytes, with the fields' types as the services write them;
-- none for an exception.
module _ (parse : Bytes → Option Info) where
  unfoldable pub on_wifi : Bytes → JuliusStatus → JuliusStatus
  unfolding on_info
  on_wifi payload s = on_info (parse payload) s

  unfoldable pub on_bt : Bytes → JuliusStatus → JuliusStatus
  unfolding on_bt_info
  on_bt payload s = on_bt_info (parse payload) s

-- The numbers under which the bridge knows the three callbacks.
abbrev pub battery_callback : ℕ
battery_callback = 0

abbrev pub wifi_callback : ℕ
wifi_callback = 1

abbrev pub bt_callback : ℕ
bt_callback = 2

-- One call of a callback that the bridge makes; an exception is caught there.
unfoldable pub run_call : (Bytes → Option Info) → Call → JuliusStatus → JuliusStatus
unfolding on_battery on_wifi on_bt
run_call parse c s =
    if c.callback == battery_callback
    then on_battery c.payload s
    else if c.callback == wifi_callback
    then on_wifi parse c.payload s
    else if c.callback == bt_callback
    then on_bt parse c.payload s
    else s

-- `_subscribe_events`; `accepted` tells of each call whether the socket took its message.
unfoldable pub subscribe_events :
    (Text → Bytes) → (Bytes → Option Text) → (ℕ → Bool) → ℕ → ℕ → Bridge → Bridge
unfolding subscribe
subscribe_events encode decode accepted pid now b =
    let b1 = subscribe encode decode (accepted 0) pid now (codes "BATTERY") battery_callback b in
    let b2 = subscribe encode decode (accepted 1) pid now (codes "WIFI_STATE") wifi_callback b1 in
    subscribe encode decode (accepted 2) pid now (codes "BT_STATE") bt_callback b2

-- The files at one time, none for one that cannot be read.
pub record Files : Type 0 where
  pub power : Option Text
  pub health : Option Text
  pub wifi : Option Text
  pub bt : Option Text
  pub capacity : Option Text
  pub battery_status : Option Text
  pub stat : Option Text

-- `line.split("=")`, with the item read so far.
unfoldable pub split_equals : Text → Text → List Text
split_equals item [] = item ∷ []
split_equals item (c ∷ cs) =
    let ended = split_equals [] cs in
    let longer = split_equals (item ++ c ∷ []) cs in if c == b'=' then item ∷ ended else longer

unfoldable pub is_one : Option Text → Bool
is_one none = false
is_one (some v) = text_eq v (codes "1")

-- `get_wifi_bars`
unfoldable pub get_wifi_bars : JuliusStatus → ℕ
get_wifi_bars s =
    if s.wifi_connected
    then (if ltb_ℤ (negsuc 49) s.wifi_signal
        then 4
        else if ltb_ℤ (negsuc 59) s.wifi_signal
        then 3
        else if ltb_ℤ (negsuc 69) s.wifi_signal
        then 2
        else if ltb_ℤ (negsuc 79) s.wifi_signal
        then 1
        else 0)
    else 0

unfoldable pub sum : List ℕ → ℕ
sum [] = 0
sum (x ∷ xs) = x + sum xs

-- The percentage of `_read_cpu`, of the idle time and the whole. The source divides floats, which
-- gives the same for a total below 2^46; a total of zero is an exception.
unfoldable pub cpu_of : Option ℕ → ℕ → JuliusStatus → JuliusStatus
cpu_of none total s = s
cpu_of (some idle) total s =
    if total == 0 then s else record s { cpu_usage = min 100 (100 - idle * 100 / total) }

-- `strip` is Python's, `space` its white space, `to_int` is `int`, none for an exception, and
-- `counter` is `int` of a field of /proc/stat, which is never negative.
module _ (space : ℕ → Bool) (strip : Text → Text) (to_int : Text → Option ℤ)
    (counter : Text → Option ℕ) where
  -- The level stays written when the second file cannot be read.
  unfoldable pub read_status : Option Text → JuliusStatus → JuliusStatus
  read_status none s = s
  read_status (some status) s = record s {
    charging = text_eq (strip status) (codes "Charging") || text_eq (strip status) (codes "Full");
  }

  unfoldable pub level_read : Option ℤ → Option Text → JuliusStatus → JuliusStatus
  unfolding read_status
  level_read none status s = s
  level_read (some n) status s = read_status status (record s { battery_level = n })

  unfoldable pub read_battery : Option Text → Option Text → JuliusStatus → JuliusStatus
  unfolding level_read
  read_battery none status s = s
  read_battery (some capacity) status s = level_read (to_int (strip capacity)) status s

  -- One line of the state file; none where `split("=")[1]` is IndexError, which ends the reading.
  unfoldable pub wifi_line : Text → JuliusStatus → Option JuliusStatus
  unfolding split_equals is_one
  wifi_line line s =
      let value = get_elem? (split_equals [] (strip line)) 1 in
      if starts_with (codes "connected=") line
      then elim value [
        | none ↦ none
        | some v ↦ some (record s { wifi_connected = text_eq v (codes "1") })
      ]
      else if starts_with (codes "ssid=") line
      then elim value [ none ↦ none | some v ↦ some (record s { wifi_ssid = v }) ]
      else if starts_with (codes "signal=") line
      then elim value [
        | none ↦ some s
        | some v ↦ elim (to_int v) [ none ↦ some s | some n ↦ some (record s { wifi_signal = n }) ]
      ]
      else some s

  unfoldable pub wifi_lines : List Text → JuliusStatus → JuliusStatus
  unfolding wifi_line
  wifi_lines [] s = s
  wifi_lines (l ∷ ls) s = elim (wifi_line l s) [ none ↦ s | some s' ↦ wifi_lines ls s' ]

  unfoldable pub read_wifi : Option Text → JuliusStatus → JuliusStatus
  unfolding wifi_lines readlines
  read_wifi none s = s
  read_wifi (some file) s = wifi_lines (readlines file) s

  -- `[int(x) for x in …]`
  unfoldable pub counters : List Text → Option (List ℕ)
  counters [] = some []
  counters (w ∷ ws) =
      let rest = counters ws in
      elim (counter w) [
        | none ↦ none
        | some n ↦ elim rest [ none ↦ none | some ns ↦ some (n ∷ ns) ]
      ]

  unfoldable pub cpu_line : Option (List ℕ) → JuliusStatus → JuliusStatus
  unfolding sum cpu_of
  cpu_line none s = s
  cpu_line (some fields) s = cpu_of (get_elem? fields 3) (sum fields) s

  unfoldable pub read_cpu : Option Text → JuliusStatus → JuliusStatus
  unfolding cpu_line counters words readlines
  read_cpu none s = s
  read_cpu (some file) s =
      cpu_line (counters (drop 1 (words space (or_else [] (get_elem? (readlines file) 0))))) s

  -- The readings of the bridge; the signal and the load are not among them.
  unfoldable pub from_bridge : Files → JuliusStatus → JuliusStatus
  unfolding get_battery_level get_charging get_health_score read_state get is_one or_else
  from_bridge f s = record s {
    battery_level = get_battery_level strip to_int f.power;
    charging = get_charging strip to_int f.power;
    wifi_connected = is_one (get (codes "connected") (read_state strip to_int f.wifi));
    wifi_ssid = or_else [] (get (codes "ssid") (read_state strip to_int f.wifi));
    bt_enabled = is_one (get (codes "enabled") (read_state strip to_int f.bt));
    health_score = get_health_score strip to_int f.health;
  }

  unfoldable pub from_files : Files → JuliusStatus → JuliusStatus
  unfolding read_battery read_wifi read_cpu
  from_files f s = read_cpu f.stat (read_wifi f.wifi (read_battery f.capacity f.battery_status s))

  -- A reading at most every five seconds.
  unfoldable pub update : Files → ℕ → JuliusStatus → JuliusStatus
  unfolding from_bridge from_files
  update f now s =
      if ltb (now - s.last_update) (5 * second)
      then s
      else if s.has_bridge
      then from_bridge f (record s { last_update = now })
      else from_files f (record s { last_update = now })
