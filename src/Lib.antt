-- ===== src/Lib.antt =====
-- Julius OS: the user interface of the phone, as far as it decides something.
--
-- src/julius_ui.py is one loop that owns the screen. It hands every touch and key to the first
-- overlay that is shown (app switcher, folders, control center, notifications, search, AI, Drop,
-- Cloud) or else to the screen (lock, home, app, settings), and draws a frame after each batch of
-- events. The overlays live in src/system, the apps in src/apps.
--
-- Files and what they model:
-- - Events, Geometry, Outcome: pygame's events as far as the handlers read them, rectangles and
--   their hit test, and how a call ends (it returns, or an exception leaves it; the state is kept in
--   both cases).
-- - Cursor: the selection and the window of a list, as the apps write it out.
-- - Apps.Todo: src/apps/todo/todo.py. `handle_input` is one function for each mode's keys.
-- - Apps.TextEditor: src/apps/texteditor/texteditor.py. The files are a map from names to texts;
--   what the operating system answers to a name is a parameter, as are the modifier keys.
-- - System.AppSwitcher, System.Notifications, System.Spotlight: src/system/app_switcher.py,
--   notification_center.py and spotlight.py. Each has its state as a record, one function for each
--   method under the method's name, and `draw` as far as it writes the rectangles that the touches
--   read. Widths of rendered texts, the time, and Python's `lower` and `isprintable` are arguments.
-- - Shell: src/julius_ui.py. Icons has the lists of apps and `get_tapped_app`, Settings the settings
--   page, Loop the state of the loop, one `release_` function for each branch of a release,
--   `key_pressed` for a key, `frame` for a frame and `run` for many events. The apps' `handle_input`
--   and the panels without a module here are the operations of the record `Parts`.
-- - Apps.Notes, Apps.Passwords: src/apps/notes/notes.py and src/apps/passwords/passwords.py.
-- - System.Bridge, with System.Bytes: src/system/julius_bridge.py, the layout of its messages and
--   what it makes of those it gets; what a socket gives is an argument.
-- - System.StateFiles: the same file's `read_state` and the readings of the services' states.
-- - System.Status: src/system/julius_status.py, the events of the bridge and what it reads itself;
--   the battery's event is the message of services/julius_core/ipc.c.
-- - Apps.Timer: src/apps/timer/timer.py. Apps.WakeOnLan: src/apps/wakeonlan/wakeonlan.py, with the
--   packet and `bytes.fromhex`.
-- - Apps.Firewall, Apps.ProcessKiller: src/apps/firewall/firewall.py and
--   src/apps/processkiller/processkiller.py, with the commands they run; Apps.Table is how both read
--   the table that a command prints. What the commands answer is an argument.
-- - System.ControlCenter: src/system/control_center.py, over the configuration of Shell.Settings.
-- - System.Stream: the bytes of a connection, in the pieces in which they arrive, and the two loops
--   that read them. System.Drop and System.Cloud: src/system/julius_drop.py and julius_cloud.py, one
--   function for each call that a thread makes.
-- - Apps.LogViewer: src/apps/logviewer/logviewer.py; what `dmesg` and the files answer is an
--   argument.
-- - Shell.Carried and Shell.Filled: the loop's `app_instances` filled with the apps modelled here but
--   for the timer, the file manager and the log viewer, each handler inside the `try` that the loop
--   puts around it. The files of all apps are in one directory, which is outside of the apps' states:
--   an app reads its file at its start and has what it last read or wrote; the editor reads the
--   directory as it is then.
-- - Apps.FileManager: src/apps/filemanager/filemanager.py. System.Ai: src/system/julius_ai.py, the
--   thread of a question in three steps that interleave with everything else.
--
-- Integers that the source keeps from going below zero are natural numbers; where it does not (a
-- selection of -1, places on the screen) they are integers. No bound is set on lists, texts or
-- runs. The loops of the source run over lists, but for those over a connection in System.Stream,
-- which run on fuel, a number of rounds: as many as the bytes to read are enough, and none is enough
-- for a line that never ends. The loop that sends a file has one round more than the file has bytes.
-- Times of the stopwatch and the countdown are multiples of 2^-22 seconds, as `time.time()` gives
-- them until 2038, so that the floats of the code are exact on them.
--
-- Not modelled: pixels and fonts, and the exceptions of drawing but for the one of
-- System.Notifications (a colour out of range in the file of notifications is one); an app's own
-- file that cannot be written, and a write that fails once the file is open; the apps that are not
-- named above, the folder panel, how the threads of Drop, Cloud and the bridge interleave, sockets
-- that fail, called programs, the launcher of src/launcher, and the C services, drivers and build
-- files, which are in other languages.
pub mod Prelude
pub mod Events
pub mod Outcome
pub mod Cursor
pub mod Apps
pub mod Geometry
pub mod Shell
pub mod System
