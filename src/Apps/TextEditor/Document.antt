-- ===== src/Apps/TextEditor/Document.antt =====
-- What an editor promises: a text with a place in it. The lines and the cursor implement it.
use julius_os.Prelude.{◌≡◌, ◌≤◌, some, ◌++◌, length, get_elem?, drop_last}
use julius_os.Prelude.Text.{Text}
use julius_os.Apps.TextEditor.{TextEditor}
use julius_os.Apps.TextEditor.Lines.{before, behind}

pub record Document : Type 0 where
  pub left : Text
  pub right : Text

abbrev pub type_text : Text → Document → Document
type_text t d = record d { left = d.left ++ t }

-- On an empty left side there is nothing to erase.
abbrev pub erase : Document → Document
erase d = record d { left = drop_last d.left }

abbrev pub document : TextEditor → Document
document s = record {
  left = before s.lines s.cursor_y s.cursor_x;
  right = behind s.lines s.cursor_y s.cursor_x;
}

-- The cursor stands within a line of the text.
abbrev pub IsInside : TextEditor → Type 0
IsInside s = (line : Text) × (get_elem? s.lines s.cursor_y ≡ some line) × (s.cursor_x ≤ length line)
