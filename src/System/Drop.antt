-- ===== src/System/Drop.antt =====
-- src/system/julius_drop.py: the devices nearby, the files that are sent and received, and the
-- touches of its panel. The threads are sequences of the calls below.
mod Sending
mod Touch
mod Tests
use julius_os.Prelude.{
  ℕ, zero, suc, ◌+◌, ◌-◌, Bool, true, false, not, ◌&&◌, ◌||◌, Option, none, some, List, [], ◌∷◌,
  ◌++◌, length, take, drop, nonempty, ◌==◌, if◌then◌else◌,
}
use julius_os.Prelude.Int.{ℤ, pos, ◌+ℤ◌, leb_ℤ}
use julius_os.Prelude.Text.{Text, codes, text_eq, starts_with}
use julius_os.Events.{Pos}
use julius_os.Geometry.{Rect, rect}
use julius_os.Shell.Icons.{W}
use julius_os.System.Stream.{Bytes, Segments, read_line, read_body}

-- A device that sent its beacon: `info`.
pub record Device : Type 0 where
  pub name : Text
  pub ip : Text

pub data Direction : Type 0 where
  received sent : Direction

-- An entry of `transfers`; `peer` is its "from" or "to".
pub record Transfer : Type 0 where
  pub name : Text
  pub peer : Text
  pub size : ℕ
  pub direction : Direction

-- What the status line says.
pub data Status : Type 0 where
  ready receive_error send_error : Status
  received_file sent_file select_file : Text → Status

-- `written` are the files that were written, the latest first, and `device_rects` is `none` until
-- the first drawing.
pub record Drop : Type 0 where
  pub visible : Bool
  pub nearby : List Device
  pub transfers : List Transfer
  pub status : Status
  pub written : List (Text × Bytes)
  pub device_rects : Option (List (Rect × Text))

abbrev pub init : Drop
init = record {
  visible = false;
  nearby = [];
  transfers = [];
  status = ready;
  written = [];
  device_rects = none;
}

abbrev pub drop_dir : Text
drop_dir = codes "/var/julius/drops/"

unfoldable pub show : Drop → Drop
show s = record s { visible = true }

unfoldable pub hide : Drop → Drop
hide s = record s { visible = false }

-- `info["ip"] in existing`
unfoldable pub is_known : Text → List Device → Bool
is_known ip [] = false
is_known ip (d ∷ ds) = text_eq ip d.ip || is_known ip ds

-- One round of `listen`: `none` is a datagram that is not a beacon, `own` what `get_ip` gives.
unfoldable pub beacon_heard : Text → Option Device → Drop → Drop
unfolding is_known
beacon_heard own none s = s
beacon_heard own (some d) s =
    if text_eq d.ip own
    then s
    else if is_known d.ip s.nearby
    then s
    else record s { nearby = s.nearby ++ d ∷ [] }

-- `os.path.join(DROP_DIR, filename)`: a name that begins with a slash is taken as it is.
unfoldable pub join_path : Text → Text
join_path filename = if starts_with (codes "/") filename then filename else drop_dir ++ filename

-- `os.path.basename`: what stands behind the last slash.
unfoldable pub basename_from : Text → Text → Text
basename_from base [] = base
basename_from base (c ∷ cs) =
    let fresh = basename_from [] cs in
    let longer = basename_from (base ++ c ∷ []) cs in if c == b'/' then fresh else longer

unfoldable pub basename : Text → Text
unfolding basename_from
basename path = basename_from [] path

-- The rounds of the loop of `send_file`: 4096 bytes of the file each, until there are none.
unfoldable pub send_chunks : ℕ → Bytes → Bytes → Option Bytes
send_chunks zero wire content = none
send_chunks (suc fuel) wire content =
    let rest = send_chunks fuel (wire ++ take 4096 content) (drop 4096 content) in
    if nonempty (take 4096 content) then rest else some wire

-- `loads` is what `json.loads(header.decode().strip())` with its "name" and its "size" gives,
-- `none` for an exception, and `dumps` the header for a name and a size, without its line break.
-- `cannot_open path` tells whether opening the file for writing fails.
module _ (loads : Bytes → Option (Text × ℕ)) (dumps : Text → ℕ → Bytes)
    (cannot_open : Text → Bool) where
  -- The file is open; what arrived of it is what the loop wrote.
  unfoldable pub received_body : Text → Text → ℕ → Option (Bytes × Segments) → Drop → Option Drop
  received_body filename from size none s = none
  received_body filename from size (some r) s = some (record s {
    written = (join_path filename, r.0) ∷ s.written;
    transfers =
        s.transfers
        ++ record { name = filename; peer = from; size = size; direction = received } ∷ [];
    status = received_file filename;
  })

  -- The header is read.
  unfoldable pub received_header : ℕ → Text → Option (Text × ℕ) → Segments → Drop → Option Drop
  unfolding received_body join_path
  received_header fuel from none segs s = some (record s { status = receive_error })
  received_header fuel from (some info) segs s =
      if cannot_open (join_path info.0)
      then some (record s { status = receive_error })
      else received_body info.0 from info.1 (read_body fuel info.1 [] segs) s

  unfoldable pub received_line : ℕ → Text → Option (Bytes × Segments) → Drop → Option Drop
  unfolding received_header
  received_line fuel from none s = none
  received_line fuel from (some line) s = received_header fuel from (loads line.0) line.1 s

  -- `handle_receive` with a number of rounds for each of its loops; `none` is a call that does not
  -- end within them.
  unfoldable pub handle_receive : ℕ → Text → Segments → Drop → Option Drop
  unfolding received_line
  handle_receive fuel from segs s = received_line fuel from (read_line fuel [] segs) s

  -- The bytes that `send_file` puts on the connection, for the file's path and content; the
  -- connection fails before the first byte, or not at all.
  unfoldable pub sent_bytes : Text → Bytes → Option Bytes
  unfolding send_chunks
  sent_bytes path content =
      send_chunks (suc (length content)) (dumps (basename path) (length content) ++ 10 ∷ []) content

  unfoldable pub send_file : Bool → Text → Text → Bytes → Drop → Drop
  send_file connects ip path content s =
      if connects
      then record s {
        transfers =
            s.transfers
            ++ record { name = basename path; peer = ip; size = length content; direction = sent }
              ∷ [];
        status = sent_file (basename path);
      }
      else record s { status = send_error }

-- The cards of the first devices, from the height y on: `n` of them at most.
unfoldable pub cards : ℕ → ℕ → List Device → List (Rect × Text)
cards zero y ds = []
cards (suc n) y [] = []
cards (suc n) y (d ∷ ds) =
    (rect (pos 8) (pos y) (pos (W - 16)) (pos 46), d.ip) ∷ cards n (y + 52) ds

unfoldable pub draw : Drop → Drop
unfolding cards
draw s = if s.visible then record s { device_rects = some (cards 4 116 s.nearby) } else s

-- The button "Send" of a card.
unfoldable pub on_button : Pos → Rect → Bool
on_button p r =
    (leb_ℤ (pos (W - 60)) p.0 && leb_ℤ p.0 (pos (W - 8)))
    && (leb_ℤ (r.y +ℤ pos 10) p.1 && leb_ℤ p.1 (r.y +ℤ pos 38))

unfoldable pub touched : Pos → List (Rect × Text) → Option Text
unfolding on_button
touched p [] = none
touched p (r ∷ rs) = if on_button p r.0 then some r.1 else touched p rs

unfoldable pub selected : Option Text → Drop → Drop
selected none s = s
selected (some ip) s = record s { status = select_file ip }

unfoldable pub touch_cards : Pos → Option (List (Rect × Text)) → Drop → Drop
unfolding touched selected
touch_cards p none s = s
touch_cards p (some rects) s = selected (touched p rects) s

unfoldable pub handle_touch : Pos → Drop → Drop
unfolding touch_cards
handle_touch p s = if s.visible then touch_cards p s.device_rects s else s
