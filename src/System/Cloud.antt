-- ===== src/System/Cloud.antt =====
-- src/system/julius_cloud.py: the configuration, and the conversation with the server that `sync`
-- starts in a thread. The server's bytes are those of System.Stream.
mod Config
mod Syncing
mod Tests
use julius_os.Prelude.{
  ℕ, zero, suc, ◌+◌, ◌-◌, Bool, true, false, Option, none, some, List, [], ◌∷◌, ◌++◌, length, take,
  nonempty, if◌then◌else◌, ◌==◌, ◌&&◌,
}
use julius_os.Prelude.Text.{Text, codes, text_eq, is_in, starts_with}
use julius_os.Events.{Pos}
use julius_os.Prelude.Int.{pos}
use julius_os.Outcome.{Outcome, done, raised, ◌>>=◌}
use julius_os.Geometry.{Rect, rect, hits}
use julius_os.Shell.Icons.{W}
use julius_os.Apps.TextEditor.{split, universal_newlines}
use julius_os.System.Stream.{Bytes, Segments, read_line, read_body}

-- A file of the cloud directory, as `get_local_files` lists it.
pub record Local : Type 0 where
  pub name : Text
  pub path : Text
  pub size : ℕ
  pub hash : Text

-- What the program sends: the manifest, an upload's header and bytes, or a request.
pub data Message : Type 0 where
  manifest : List Local → Message
  upload : Text → ℕ → Bytes → Message
  download : Text → Message

pub data Status : Type 0 where
  idle no_server in_progress sync_error : Status
  synced : ℕ → Status

-- `saved` is the text of SYNC_FILE, `sent` the messages in their order, `written` the files
-- written, the latest first, and `started` the number of threads started.
pub record Cloud : Type 0 where
  pub visible : Bool
  pub status : Status
  pub syncing : Bool
  pub files : List Local
  pub server_ip : Text
  pub last_sync : Text
  pub saved : Option Text
  pub sent : List Message
  pub written : List (Text × Bytes)
  pub started : ℕ
  pub sync_btn_rect : Option Rect

-- The second part of `line.split("=")`, of a line with a `=`.
unfoldable pub until_equals : Text → Text
until_equals [] = []
until_equals (c ∷ cs) = let rest = until_equals cs in if c == b'=' then [] else c ∷ rest

unfoldable pub behind_equals : Text → Text
unfolding until_equals
behind_equals [] = []
behind_equals (c ∷ cs) = let rest = behind_equals cs in if c == b'=' then until_equals cs else rest

-- `strip` is Python's.
module _ (strip : Text → Text) where
  unfoldable pub load_line : Text → Cloud → Cloud
  unfolding behind_equals
  load_line line s =
      if is_in (codes "server=") line
      then record s { server_ip = strip (behind_equals line) }
      else if is_in (codes "last_sync=") line
      then record s { last_sync = strip (behind_equals line) }
      else s

  unfoldable pub load_lines : List Text → Cloud → Cloud
  unfolding load_line
  load_lines [] s = s
  load_lines (l ∷ ls) s = load_lines ls (load_line l s)

  unfoldable pub load_config : Option Text → Cloud → Cloud
  unfolding load_lines universal_newlines
  load_config none s = s
  load_config (some content) s = load_lines (split (universal_newlines content)) s

  unfoldable pub init : Option Text → Cloud
  unfolding load_config
  init file = load_config file (record {
    visible = false;
    status = idle;
    syncing = false;
    files = [];
    server_ip = [];
    last_sync = codes "Never";
    saved = file;
    sent = [];
    written = [];
    started = 0;
    sync_btn_rect = none;
  })

unfoldable pub save_config : Cloud → Cloud
save_config s = record s {
  saved =
      some (codes "server=" ++ s.server_ip ++ 10 ∷ (codes "last_sync=" ++ s.last_sync ++ 10 ∷ []));
}

abbrev pub sync_file : Text
sync_file = codes "/etc/julius/cloud_sync.conf"

abbrev pub cloud_dir : Text
cloud_dir = codes "/var/julius/cloud/"

-- `os.path.join(CLOUD_DIR, fname)`
unfoldable pub join_path : Text → Text
join_path fname = if starts_with (codes "/") fname then fname else cloud_dir ++ fname

-- `next((f for f in local if f["name"]==fname), None)`
unfoldable pub find_local : Text → List Local → Option Local
find_local fname [] = none
find_local fname (f ∷ fs) =
    let rest = find_local fname fs in if text_eq f.name fname then some f else rest

-- The thread's state: `count` is its `synced`, and `incoming` what the server will still send.
pub record Sync : Type 0 where
  pub cloud : Cloud
  pub count : ℕ
  pub incoming : Segments

abbrev pub say : Message → Sync → Sync
say m p = record p { cloud = record p.cloud { sent = p.cloud.sent ++ m ∷ [] } }

-- What is outside of the program: the content of a file, `none` for an exception; whether a file
-- can be opened for writing; and what `json.loads` gives of a line of the server: the names of
-- "need" and of "send", or a "size", `none` for an exception.
pub record World : Type 0 where
  pub read_file : Text → Option Bytes
  pub cannot_open : Text → Bool
  pub names : Bytes → Option (List Text × List Text)
  pub size : Bytes → Option ℕ

module _ (w : World) where
  -- The upload of a file with its content, `none` where reading it raised an exception.
  unfoldable pub uploaded : Text → Option Bytes → Sync → Outcome Sync
  uploaded fname none p = raised p
  uploaded fname (some content) p =
      let p' = say (upload fname (length content) content) p in
      done (record p' { count = p'.count + 1 })

  unfoldable pub upload_found : Text → Option Local → Sync → Outcome Sync
  unfolding uploaded
  upload_found fname none p = done p
  upload_found fname (some f) p = uploaded fname (w.read_file f.path) p

  -- The loop over "need".
  unfoldable pub upload_all : List Local → List Text → Sync → Outcome Sync
  unfolding upload_found find_local
  upload_all files [] p = done p
  upload_all files (n ∷ ns) p = upload_found n (find_local n files) p >>= upload_all files ns

  unfoldable pub downloaded : Text → Option (Bytes × Segments) → Sync → Option (Outcome Sync)
  unfolding join_path
  downloaded fname none p = none
  downloaded fname (some r) p = some (
      done (record p {
        cloud = record p.cloud { written = (join_path fname, r.0) ∷ p.cloud.written };
        count = p.count + 1;
        incoming = r.1;
      }))

  unfoldable pub download_sized : ℕ → Text → Option ℕ → Segments → Sync → Option (Outcome Sync)
  unfolding downloaded join_path
  download_sized fuel fname none segs p = some (raised p)
  download_sized fuel fname (some size) segs p =
      if w.cannot_open (join_path fname)
      then some (raised p)
      else downloaded fname (read_body fuel size [] segs) p

  unfoldable pub download_line : ℕ → Text → Option (Bytes × Segments) → Sync → Option (Outcome Sync)
  unfolding download_sized
  download_line fuel fname none p = none
  download_line fuel fname (some line) p = download_sized fuel fname (w.size line.0) line.1 p

  -- One round of the loop over "send". `none` is a call that does not end within the fuel.
  unfoldable pub download_one : ℕ → Text → Sync → Option (Outcome Sync)
  unfolding download_line
  download_one fuel fname p =
      let p' = say (download fname) p in download_line fuel fname (read_line fuel [] p'.incoming) p'

  -- What follows a round.
  unfoldable pub go_on :
      (Sync → Option (Outcome Sync)) → Option (Outcome Sync) → Option (Outcome Sync)
  go_on next none = none
  go_on next (some (raised p)) = some (raised p)
  go_on next (some (done p)) = next p

  unfoldable pub download_all : ℕ → List Text → Sync → Option (Outcome Sync)
  unfolding download_one go_on
  download_all fuel [] p = some (done p)
  download_all fuel (n ∷ ns) p = go_on (download_all fuel ns) (download_one fuel n p)

  -- The loop over "send", if the uploads raised no exception.
  unfoldable pub downloads_after : ℕ → List Text → Outcome Sync → Option (Outcome Sync)
  unfolding download_all
  downloads_after fuel ns (done p) = download_all fuel ns p
  downloads_after fuel ns (raised p) = some (raised p)

  unfoldable pub exchange_names :
      ℕ → List Local → Option (List Text × List Text) → Sync → Option (Outcome Sync)
  unfolding upload_all downloads_after
  exchange_names fuel files none p = some (raised p)
  exchange_names fuel files (some ns) p = downloads_after fuel ns.1 (upload_all files ns.0 p)

  unfoldable pub exchange_line :
      ℕ → List Local → Option (Bytes × Segments) → Sync → Option (Outcome Sync)
  unfolding exchange_names
  exchange_line fuel files none p = none
  exchange_line fuel files (some line) p =
      exchange_names fuel files (w.names line.0) (record p { incoming = line.1 })

  -- The body of the thread's `try`, once it is connected.
  unfoldable pub exchange : ℕ → List Local → Sync → Option (Outcome Sync)
  unfolding exchange_line
  exchange fuel files p =
      let p' = say (manifest files) p in exchange_line fuel files (read_line fuel [] p'.incoming) p'

  -- The end of the conversation: `now` is the time, `after_files` what the directory then holds.
  -- Where SYNC_FILE cannot be opened, `save_config` raises, and the handler says so.
  unfoldable pub stored : Text → List Local → Sync → Cloud
  unfolding save_config
  stored now after_files p =
      let c = record p.cloud { last_sync = now } in
      if w.cannot_open sync_file
      then record c { status = sync_error; syncing = false }
      else record (save_config c) { files = after_files; status = synced p.count; syncing = false }

  -- The end of the thread, with its handler of exceptions.
  unfoldable pub finish : Text → List Local → Option (Outcome Sync) → Option Cloud
  unfolding stored
  finish now after_files none = none
  finish now after_files (some (raised p)) =
      some (record p.cloud { status = sync_error; syncing = false })
  finish now after_files (some (done p)) = some (stored now after_files p)

  -- The thread that `sync` starts, of a connection that was made.
  unfoldable pub run : ℕ → List Local → List Local → Text → Segments → Cloud → Option Cloud
  unfolding finish exchange
  run fuel files after_files now incoming s =
      finish now after_files
        (exchange fuel files (record { cloud = s; count = 0; incoming = incoming }))

-- `sync` up to the start of the thread.
unfoldable pub sync : Cloud → Cloud
sync s =
    if nonempty s.server_ip
    then record s { syncing = true; status = in_progress; started = s.started + 1 }
    else record s { status = no_server }

unfoldable pub show : List Local → Cloud → Cloud
show files s = record s { visible = true; files = files }

unfoldable pub hide : Cloud → Cloud
hide s = record s { visible = false }

unfoldable pub draw : Cloud → Cloud
draw s =
    if s.visible
    then record s { sync_btn_rect = some (rect (pos (W - 90)) (pos 63) (pos 80) (pos 36)) }
    else s

unfoldable pub touch_button : Pos → Option Rect → Cloud → Cloud
unfolding sync
touch_button p none s = s
touch_button p (some r) s = if hits r p then sync s else s

unfoldable pub handle_touch : Pos → Cloud → Cloud
unfolding touch_button
handle_touch p s = if s.visible then touch_button p s.sync_btn_rect s else s
