-- ===== src/Apps/LogViewer/Tests.antt =====
-- A log of three lines, opened from the menu.
use julius_os.Prelude.{ℕ, ◌==◌, ◌≡◌, refl, Bool, ◌||◌, [], ◌∷◌}
use julius_os.Prelude.Text.{Text, codes, text_eq}
use julius_os.Events.{k_return, keydown, key_index}
use julius_os.Outcome.{after}
use julius_os.Apps.Table.{failed, strip}
use julius_os.Apps.TextEditor.{universal_newlines}
use julius_os.Apps.LogViewer.{
  LogViewer, Answers, init, content, red, yellow, white, draw_view, handle_input,
}

abbrev is_blank : ℕ → Bool
is_blank c = (c == 32) || (c == 10)

abbrev plain : Text → Text
plain t = t

abbrev one_file : Answers
one_file = record {
  dmesg = failed [];
  file = λ path. content (codes " disk error\nwarning: hot\nup");
}

abbrev opened : LogViewer
opened = after (handle_input is_blank plain one_file init (keydown k_return []))

opened_lines : opened.lines ≡ codes " disk error\n" ∷ codes "warning: hot\n" ∷ codes "up" ∷ []
unfolding handle_input key_index text_eq universal_newlines
opened_lines = refl

opened_drawn :
    draw_view is_blank plain opened
    ≡ (codes "disk error", red) ∷ (codes "warning: hot", yellow) ∷ (codes "up", white) ∷ []
unfolding handle_input draw_view key_index text_eq universal_newlines strip
opened_drawn = refl
