-- ===== src/Apps/Notes/Tests.antt =====
-- Two notes, the first of which is read.
use julius_os.Prelude.{some, [], ◌∷◌, arith}
use julius_os.Prelude.Text.{codes}
use julius_os.Events.{k_e, keydown}
use julius_os.Outcome.{Returns}
use julius_os.Apps.Notes.{Note, Notes, view, init, load, handle_input}
use julius_os.Apps.Notes.Laws.{IsSafe, handle_input-IsSafe}

abbrev first : Note
first = record { title = codes "first"; body = codes "one" }

abbrev second : Note
second = record { title = codes "second"; body = codes "two" }

abbrev reading : Notes
reading = record (init (some (first ∷ second ∷ []))) { mode = view }

handle_input-IsSafe_example : Returns IsSafe (handle_input reading (keydown k_e []))
unfolding init
handle_input-IsSafe_example =
    handle_input-IsSafe reading (keydown k_e []) (unfold load in omega arith)
