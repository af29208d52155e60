-- ===== src/Apps/FileManager.antt =====
-- src/apps/filemanager/filemanager.py: the directory that is shown, and what is removed and copied.
mod Laws
mod Tests
use julius_os.Prelude.{
  ℕ, zero, suc, ◌+◌, Bool, true, false, not, ◌&&◌, Option, none, some, List, [], ◌∷◌, ◌++◌, length,
  get_elem?, nonempty, keep, ltb, ◌==◌, if◌then◌else◌,
}
use julius_os.Prelude.Text.{Text, codes, text_eq, starts_with}
use julius_os.Events.{Key, k_return, k_up, k_down, k_c, k_d, k_v, is, Event, keydown}
use julius_os.Outcome.{Outcome, done, raised}
use julius_os.Cursor.{Cursor, top, down, up, rows}

-- The names in a directory, or the text of an exception.
pub data Listing : Type 0 where
  names : List Text → Listing
  unreadable : Text → Listing

-- What the operating system says of its paths at one moment: what is in a directory, and which
-- paths are directories and files.
pub record Disk : Type 0 where
  pub entries : Text → Listing
  pub is_dir : Text → Bool
  pub is_file : Text → Bool

-- The calls of `os.remove`, `shutil.rmtree`, `shutil.copy2` and `shutil.copytree`.
pub data Action : Type 0 where
  remove rmtree : Text → Action
  copy2 copytree : Text → Text → Action

pub data Status : Type 0 where
  quiet : Status
  file copied deleted pasted error : Text → Status

-- `actions` are the calls that were made, the latest first.
pub record FileManager : Type 0 where
  pub path : Text
  pub items : List Text
  pub cursor : Cursor
  pub status : Status
  pub clipboard : Option Text
  pub actions : List Action

-- What the system answers during one handler: the disk before and after the action, and the
-- action's exception if it has one.
pub record Answers : Type 0 where
  pub before : Disk
  pub later : Disk
  pub failure : Option Text

abbrev pub parent : Text
parent = codes ".."

-- `a < b` on texts
unfoldable pub text_lt : Text → Text → Bool
text_lt [] [] = false
text_lt [] (y ∷ ys) = true
text_lt (x ∷ xs) [] = false
text_lt (x ∷ xs) (y ∷ ys) = if x == y then text_lt xs ys else ltb x y

unfoldable pub insert : Text → List Text → List Text
unfolding text_lt
insert t [] = t ∷ []
insert t (u ∷ us) = let rest = insert t us in if text_lt t u then t ∷ u ∷ us else u ∷ rest

-- `sorted`
unfoldable pub sorted : List Text → List Text
unfolding insert
sorted [] = []
sorted (t ∷ ts) = insert t (sorted ts)

abbrev ends_in_slash : Text → Bool
ends_in_slash [] = false
ends_in_slash (c ∷ []) = c == b'/'
ends_in_slash (c ∷ d ∷ cs) = ends_in_slash (d ∷ cs)

-- `os.path.join`
unfoldable pub join_path : Text → Text → Text
join_path path name =
    if starts_with (codes "/") name
    then name
    else if nonempty path
    then (if ends_in_slash path then path ++ name else path ++ b'/' ∷ name)
    else name

-- What stands before the last slash, the slash included.
unfoldable pub head_of : Text → Text
head_of [] = []
head_of (c ∷ cs) =
    let rest = head_of cs in if nonempty rest then c ∷ rest else if c == b'/' then c ∷ [] else []

unfoldable pub tail_of : Text → Text → Text
tail_of base [] = base
tail_of base (c ∷ cs) =
    let fresh = tail_of [] cs in
    let longer = tail_of (base ++ c ∷ []) cs in if c == b'/' then fresh else longer

unfoldable pub strip_slashes : Text → Text
strip_slashes [] = []
strip_slashes (c ∷ cs) =
    let rest = strip_slashes cs in
    if nonempty rest then c ∷ rest else if c == b'/' then [] else c ∷ []

-- `os.path.dirname`: a head of slashes only is kept.
unfoldable pub dirname : Text → Text
unfolding head_of strip_slashes
dirname path =
    if nonempty (strip_slashes (head_of path)) then strip_slashes (head_of path) else head_of path

-- `os.path.basename`
unfoldable pub basename : Text → Text
unfolding tail_of
basename path = tail_of [] path

-- `..`, then the directories, then the files, each in order.
unfoldable pub listed : Disk → Text → List Text → List Text
unfolding sorted join_path
listed disk path es =
    parent ∷ sorted (keep (λ e. disk.is_dir (join_path path e)) es)
    ++ sorted (keep (λ e. disk.is_file (join_path path e)) es)

unfoldable pub relisted : Disk → FileManager → Listing → FileManager
unfolding listed
relisted disk s (names es) = record s { items = listed disk s.path es; cursor = top }
relisted disk s (unreadable e) = record s { status = error e; items = parent ∷ []; cursor = top }

unfoldable pub refresh : Disk → FileManager → FileManager
unfolding relisted
refresh disk s = relisted disk s (disk.entries s.path)

unfoldable pub init : Disk → Text → FileManager
unfolding refresh
init disk home = refresh disk (record {
  path = home;
  items = [];
  cursor = top;
  status = quiet;
  clipboard = none;
  actions = [];
})

-- `enter` on an item; an empty name is as good as none.
unfoldable pub enter : Answers → Text → FileManager → FileManager
unfolding refresh dirname join_path
enter a item s =
    if nonempty item
    then (if text_eq item parent
        then refresh a.later (record s { path = dirname s.path })
        else if a.before.is_dir (join_path s.path item)
        then refresh a.later (record s { path = join_path s.path item })
        else record s { status = file item })
    else s

-- The end of an action: the exception's text, or the new status and the list read again.
unfoldable pub acted : Answers → Option Text → Status → FileManager → FileManager
unfolding refresh
acted a none st s = refresh a.later (record s { status = st })
acted a (some e) st s = record s { status = error e }

unfoldable pub delete : Answers → Text → FileManager → FileManager
unfolding acted join_path
delete a item s =
    let fp = join_path s.path item in
    if nonempty item && not (text_eq item parent)
    then acted a a.failure (deleted item)
        (record s { actions = (if a.before.is_dir fp then rmtree fp else remove fp) ∷ s.actions })
    else s

unfoldable pub copy : Text → FileManager → FileManager
unfolding join_path
copy item s =
    if nonempty item && not (text_eq item parent)
    then record s { clipboard = some (join_path s.path item); status = copied item }
    else s

unfoldable pub paste : Answers → Option Text → FileManager → FileManager
unfolding acted join_path basename
paste a none s = s
paste a (some from) s =
    let name = basename from in
    let dst = join_path s.path name in
    if nonempty from
    then acted a a.failure (pasted name) (record s {
      actions = (if a.before.is_dir from then copytree from dst else copy2 from dst) ∷ s.actions;
    })
    else s

-- What follows `current_item`, which is `items[selected]`: IndexError past the end, and nothing on
-- an empty list.
unfoldable pub at_item :
    (Text → FileManager → FileManager) → FileManager → Option Text → Outcome FileManager
at_item f s none = if nonempty s.items then raised s else done s
at_item f s (some item) = done (f item s)

unfoldable pub handle_input : Answers → FileManager → Event → Outcome FileManager
unfolding at_item enter delete copy paste
handle_input a s (keydown key unicode) =
    let item = get_elem? s.items s.cursor.selected in
    if is k_down key
    then done (record s { cursor = down 10 (length s.items) s.cursor })
    else if is k_up key
    then done (record s { cursor = up s.cursor })
    else if is k_return key
    then at_item (enter a) s item
    else if is k_d key
    then at_item (delete a) s item
    else if is k_c key
    then at_item copy s item
    else if is k_v key
    then done (paste a s.clipboard s)
    else done s
handle_input a s _ = done s

-- The rows that `draw` shows, each with whether it is drawn as the selected one.
unfoldable pub drawn : FileManager → List (Text × Bool)
drawn s = rows 10 s.cursor s.items
