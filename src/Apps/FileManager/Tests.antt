-- ===== src/Apps/FileManager/Tests.antt =====
-- A directory with a directory and two files, the second of them selected.
use julius_os.Prelude.{◌≡◌, refl, true, false, none, [], ◌∷◌, if◌then◌else◌}
use julius_os.Prelude.Text.{codes, text_eq}
use julius_os.Apps.FileManager.{
  Disk, names, FileManager, Answers, init, parent, refresh, relisted, listed, sorted, insert,
  text_lt, join_path, dirname, head_of, strip_slashes,
}

abbrev disk : Disk
disk = record {
  entries = λ path. names (codes "b" ∷ codes "a" ∷ codes "d" ∷ []);
  is_dir = λ path. text_eq path (codes "/h/d");
  is_file = λ path. if text_eq path (codes "/h/d") then false else true;
}

abbrev calm : Answers
calm = record { before = disk; later = disk; failure = none }

abbrev home : FileManager
home = record (init disk (codes "/h")) { cursor = record { selected = 2; scroll = 0 } }

shown_in_order : (init disk (codes "/h")).items ≡ parent ∷ codes "d" ∷ codes "a" ∷ codes "b" ∷ []
unfolding init refresh relisted listed sorted insert text_lt join_path text_eq
shown_in_order = refl

paths : (dirname (codes "/h/d") ≡ codes "/h") × (dirname (codes "/h") ≡ codes "/")
unfolding dirname head_of strip_slashes
paths = (refl, refl)
