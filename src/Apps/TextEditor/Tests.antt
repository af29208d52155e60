-- ===== src/Apps/TextEditor/Tests.antt =====
-- Two lines in the text editor, with the cursor in the second.
use Prim.Native.Nat.{zero-le}
use julius_os.Prelude.{◌≡◌, refl, true, false, none, Option, [], ◌∷◌, arith}
use julius_os.Prelude.Text.{Text, codes}
use julius_os.Events.{k_backspace, keydown}
use julius_os.Outcome.{done, Returns}
use julius_os.Apps.TextEditor.{TextEditor, edit, backspace, handle_input, load, save}
use julius_os.Apps.TextEditor.Document.{document, erase, IsInside}
use julius_os.Apps.TextEditor.Edits.{backspace-document}
use julius_os.Apps.TextEditor.Bounds.{handle_input-IsInside}
use julius_os.Apps.TextEditor.RoundTrip.{load-save}

abbrev hosts : TextEditor
hosts = record {
  lines = codes "router" ∷ codes "nas" ∷ [];
  cursor_x = 0;
  cursor_y = 1;
  scroll = 0;
  filename = codes "hosts.txt";
  mode = edit;
  status = [];
  modified = false;
  disk = λ name. none;
}

abbrev no_error : Text → Option Text
no_error name = none

hosts-IsInside : IsInside hosts
hosts-IsInside = (codes "nas", refl, zero-le)

backspace-document_example : Returns (λ s'. document s' ≡ erase (document hosts)) (backspace hosts)
backspace-document_example = backspace-document hosts hosts-IsInside

handle_input-IsInside_example :
    Returns IsInside (handle_input no_error false hosts (keydown k_backspace []))
handle_input-IsInside_example =
    handle_input-IsInside no_error false hosts (keydown k_backspace []) hosts-IsInside

abbrev low : TextEditor
low = record hosts {
  cursor_y = 12;
  lines = [] ∷ [] ∷ [] ∷ [] ∷ [] ∷ [] ∷ [] ∷ [] ∷ [] ∷ [] ∷ [] ∷ [] ∷ [] ∷ [];
}

load-save_example :
    let s' = load no_error (save no_error hosts) in
    (s'.lines ≡ hosts.lines)
    × (s'.mode ≡ edit)
    × (s'.cursor_x ≡ 0)
    × (s'.cursor_y ≡ 0)
    × (s'.modified ≡ false)
load-save_example = load-save no_error hosts refl (λ e. cc) (omega arith)

-- BACKSPACE at the start of the second line joins the two.
joins :
    backspace hosts
    ≡ done (record hosts {
      lines = codes "routernas" ∷ [];
      cursor_x = 6;
      cursor_y = 0;
      modified = true;
    })
unfolding backspace
joins = refl
