-- ===== src/Shell/Filled.antt =====
-- The loop of src/julius_ui.py over the apps that have a module here: `app_instances` as far as it
-- goes, and what the loop's `try` around `handle_input` leaves of their states.
use julius_os.Prelude.{ℕ, Bool, Option, List, [], ◌∷◌, if◌then◌else◌}
use julius_os.Prelude.Text.{Text, codes, text_eq}
use julius_os.Events.{Event}
use julius_os.Outcome.{Outcome, done, raised, after, returned, holds-if}
use julius_os.Apps.Todo.{Todo, handle_input as todo_input}
use julius_os.Apps.Todo.Laws.{IsSaved, handle_input-IsSaved}
use julius_os.Apps.Notes.{Notes, handle_input as notes_input}
use julius_os.Apps.Notes.Laws.{IsSafe, handle_input-IsSafe}
use julius_os.Apps.Passwords.{PasswordManager, handle_input as passwords_input}
use julius_os.Apps.Passwords.Laws.{IsSound, handle_input-IsSound}
use julius_os.Apps.TextEditor.{TextEditor, Files, handle_input as editor_input}
use julius_os.Apps.TextEditor.Document.{IsInside}
use julius_os.Apps.TextEditor.Bounds.{handle_input-IsInside}
use julius_os.Apps.WakeOnLan.{WakeOnLan, handle_input as wake_input}
use julius_os.Apps.WakeOnLan.Laws.{IsOrderly, handle_input-IsOrderly}
use julius_os.Apps.ProcessKiller.{ProcessKiller, Answers as KillAnswers, handle_input as kill_input}
use julius_os.Apps.ProcessKiller.Laws.{InWindow, handle_input-InWindow}
use julius_os.Apps.Firewall.{Firewall, Answers as RuleAnswers, handle_input as rules_input}
use julius_os.Apps.Firewall.Laws.{IsFitting, handle_input-IsFitting}
use julius_os.Shell.Loop.{Parts, Ui, handle, run}
use julius_os.Shell.Carried.{handle-apps}

-- The states of the apps, each with what it last read from or wrote to its own file. All files are
-- in one directory, which every app can write: that directory is part of `rest`, the state of the
-- other apps and of what is outside.
pub record AppStates (R : Type 0) : Type 0 where
  pub todo : Todo
  pub notes : Notes
  pub passwords : PasswordManager
  pub editor : TextEditor
  pub wake : WakeOnLan
  pub procs : ProcessKiller
  pub firewall : Firewall
  pub rest : R

-- What the apps get from outside of the program, and the handlers of the other apps. `disk` is the
-- content of the files at a time, and `affected` what is outside after a call of the named app: the
-- directory with what the app wrote there, over the files of other apps as well, and whatever else
-- happened meanwhile.
pub record Outside (R : Type 0) : Type 0 where
  pub space : ℕ → Bool
  pub lower : Text → Text
  pub os_error : Text → Option Text
  pub control_held : R → Bool
  pub send_failure : R → Option Text
  pub kill_answers : R → KillAnswers
  pub rule_answers : R → RuleAnswers
  pub disk : R → Files
  pub affected : Text → AppStates R → R
  pub other_input : Text → Event → R → R

module _ {R : Type 0} (o : Outside R) where
  -- `handle_input` of each app, in the loop's `try`.
  unfoldable pub todo_event : Event → AppStates R → AppStates R
  todo_event e a = record a { todo = after (todo_input a.todo e) }

  unfoldable pub notes_event : Event → AppStates R → AppStates R
  notes_event e a = record a { notes = after (notes_input a.notes e) }

  unfoldable pub passwords_event : Event → AppStates R → AppStates R
  passwords_event e a = record a { passwords = after (passwords_input a.passwords e) }

  unfoldable pub editor_event : Event → AppStates R → AppStates R
  editor_event e a = record a {
    editor = after (
        editor_input o.os_error (o.control_held a.rest) (record a.editor { disk = o.disk a.rest })
          e);
  }

  unfoldable pub wake_event : Event → AppStates R → AppStates R
  wake_event e a = record a { wake = after (wake_input (o.send_failure a.rest) a.wake e) }

  unfoldable pub procs_event : Event → AppStates R → AppStates R
  procs_event e a = record a {
    procs = after (kill_input o.space o.lower (o.kill_answers a.rest) a.procs e);
  }

  unfoldable pub firewall_event : Event → AppStates R → AppStates R
  firewall_event e a = record a {
    firewall = after (rules_input o.space (o.rule_answers a.rest) a.firewall e);
  }

  unfoldable pub rest_event : Text → Event → AppStates R → AppStates R
  rest_event name e a = record a { rest = o.other_input name e a.rest }

  -- `app_instances[name].handle_input(event)`, as far as the app itself.
  unfoldable pub named_event : Text → Event → AppStates R → AppStates R
  unfolding todo_event notes_event passwords_event editor_event wake_event procs_event
      firewall_event rest_event
  named_event name e a =
      if text_eq name (codes "Todo")
      then todo_event e a
      else if text_eq name (codes "Notes")
      then notes_event e a
      else if text_eq name (codes "Passwords")
      then passwords_event e a
      else if text_eq name (codes "Editor")
      then editor_event e a
      else if text_eq name (codes "WakeOnLAN")
      then wake_event e a
      else if text_eq name (codes "ProcKill")
      then procs_event e a
      else if text_eq name (codes "Firewall")
      then firewall_event e a
      else rest_event name e a

  -- The call, and what it changes outside.
  unfoldable pub app_input : Text → Event → AppStates R → AppStates R
  unfolding named_event
  app_input name e a = let a' = named_event name e a in record a' { rest = o.affected name a' }

  -- Each app keeps its own promise.
  abbrev pub AllKept : AppStates R → Type 0
  AllKept a =
      IsSaved a.todo
      × IsSafe a.notes
      × IsSound a.passwords
      × IsInside a.editor
      × IsOrderly a.wake
      × InWindow a.procs
      × IsFitting o.space a.firewall

  todo_event-AllKept : (e : Event) (a : AppStates R) → AllKept a → AllKept (todo_event e a)
  unfolding todo_event
  todo_event-AllKept e a h = (handle_input-IsSaved a.todo e h.0, h.1, h.2, h.3, h.4, h.5, h.6)

  notes_event-AllKept : (e : Event) (a : AppStates R) → AllKept a → AllKept (notes_event e a)
  unfolding notes_event
  notes_event-AllKept e a h =
      (h.0, returned IsSafe _ (handle_input-IsSafe a.notes e h.1), h.2, h.3, h.4, h.5, h.6)

  passwords_event-AllKept :
      (e : Event) (a : AppStates R) → AllKept a → AllKept (passwords_event e a)
  unfolding passwords_event
  passwords_event-AllKept e a h =
      (h.0, h.1, returned IsSound _ (handle_input-IsSound a.passwords e h.2), h.3, h.4, h.5, h.6)

  editor_event-AllKept : (e : Event) (a : AppStates R) → AllKept a → AllKept (editor_event e a)
  unfolding editor_event
  editor_event-AllKept e a h = (
    h.0,
    h.1,
    h.2,
    returned IsInside _ (
        handle_input-IsInside o.os_error (o.control_held a.rest)
          (record a.editor { disk = o.disk a.rest }) e h.3),
    h.4,
    h.5,
    h.6,
  )

  wake_event-AllKept : (e : Event) (a : AppStates R) → AllKept a → AllKept (wake_event e a)
  unfolding wake_event
  wake_event-AllKept e a h = (
    h.0,
    h.1,
    h.2,
    h.3,
    returned IsOrderly _ (handle_input-IsOrderly (o.send_failure a.rest) a.wake e h.4),
    h.5,
    h.6,
  )

  procs_event-AllKept : (e : Event) (a : AppStates R) → AllKept a → AllKept (procs_event e a)
  unfolding procs_event
  procs_event-AllKept e a h = (
    h.0,
    h.1,
    h.2,
    h.3,
    h.4,
    handle_input-InWindow o.space o.lower (o.kill_answers a.rest) a.procs e h.5,
    h.6,
  )

  firewall_event-AllKept : (e : Event) (a : AppStates R) → AllKept a → AllKept (firewall_event e a)
  unfolding firewall_event
  firewall_event-AllKept e a h = (
    h.0,
    h.1,
    h.2,
    h.3,
    h.4,
    h.5,
    handle_input-IsFitting o.space (o.rule_answers a.rest) a.firewall e h.6,
  )

  rest_event-AllKept :
      (name : Text) (e : Event) (a : AppStates R) → AllKept a → AllKept (rest_event name e a)
  unfolding rest_event
  rest_event-AllKept name e a h = h

  -- Whatever each app's event keeps, the choice by the name keeps.
  named_event-keeps :
      (P : AppStates R → Type 0) (name : Text) (e : Event) (a : AppStates R)
      → P (todo_event e a)
      → P (notes_event e a)
      → P (passwords_event e a)
      → P (editor_event e a)
      → P (wake_event e a)
      → P (procs_event e a)
      → P (firewall_event e a)
      → P (rest_event name e a)
      → P (named_event name e a)
  unfolding named_event
  named_event-keeps P name e a todo notes passwords editor wake procs firewall rest =
      holds-if P (text_eq name (codes "Todo")) _ _ (λ _. todo)
        λ _.
          holds-if P (text_eq name (codes "Notes")) _ _ (λ _. notes)
            λ _.
              holds-if P (text_eq name (codes "Passwords")) _ _ (λ _. passwords)
                λ _.
                  holds-if P (text_eq name (codes "Editor")) _ _ (λ _. editor)
                    λ _.
                      holds-if P (text_eq name (codes "WakeOnLAN")) _ _ (λ _. wake)
                        λ _.
                          holds-if P (text_eq name (codes "ProcKill")) _ _ (λ _. procs)
                            λ _.
                              holds-if P (text_eq name (codes "Firewall")) _ _ (λ _. firewall)
                                λ _. rest

  app_input-AllKept :
      (name : Text) (e : Event) (a : AppStates R) → AllKept a → AllKept (app_input name e a)
  unfolding app_input
  app_input-AllKept name e a h =
      named_event-keeps AllKept name e a (todo_event-AllKept e a h) (notes_event-AllKept e a h)
        (passwords_event-AllKept e a h) (editor_event-AllKept e a h) (wake_event-AllKept e a h)
        (procs_event-AllKept e a h) (firewall_event-AllKept e a h) (rest_event-AllKept name e a h)

  -- The loop's parts with these apps.
  abbrev pub filled : {O : Type 0} → Parts (AppStates R) O → Parts (AppStates R) O
  filled parts = record parts { app_input = app_input }

module _ {R O : Type 0} (o : Outside R) (parts : Parts (AppStates R) O) where
  after_event :
      (es : List (Event × ℕ)) (r : Outcome (Ui (AppStates R) O))
      → ((v : Ui (AppStates R) O)
          → AllKept o v.app_states
          → AllKept o (after (run (filled o parts) es v)).app_states)
      → AllKept o (after r).app_states
      → AllKept o
          (after (elim r as (λ _. Outcome (Ui (AppStates R) O)) [
            | done v ↦ run (filled o parts) es v
            | raised v ↦ raised v
          ])).app_states
  after_event es (done v) rest h = rest v h
  after_event es (raised v) rest h = h

  -- If each app keeps its promise, then each does so after any run of events, one that ends with
  -- an exception included, whichever apps the events open and whatever is outside, the files of
  -- the shared directory included: the task list, the passwords and the devices last read or
  -- wrote the entries that they hold, the selections of the notes, the passwords and the devices
  -- and the cursor of the editor are in their bounds, the selection of the process list is in
  -- its window of nine rows, and the commands of the firewall are fit to be run.
  pub run-AllKept :
      (es : List (Event × ℕ)) (u : Ui (AppStates R) O)
      → AllKept o u.app_states
      → AllKept o (after (run (filled o parts) es u)).app_states
  unfolding run
  run-AllKept [] u h = h
  run-AllKept (e ∷ es) u h =
      after_event es (handle (filled o parts) e.0 e.1 u) (run-AllKept es)
        (handle-apps (filled o parts) (AllKept o) (app_input-AllKept o) e.0 e.1 u h)
