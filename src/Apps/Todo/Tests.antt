-- ===== src/Apps/Todo/Tests.antt =====
-- Three tasks in the task list, two of them pending.
use julius_os.Prelude.{◌≡◌, refl, true, false, some, [], ◌∷◌, map}
use julius_os.Events.{k_return, k_d, keydown, key_index}
use julius_os.Outcome.{done, Returns}
use julius_os.Cursor.{Cursor, retreat}
use julius_os.Prelude.Text.{codes, text_eq}
use julius_os.Apps.Todo.{
  Task, Todo, pending, init, filtered, handle_input, delete_selected, remove_first,
}
use julius_os.Apps.Todo.View.{toggled_view}
use julius_os.Apps.Todo.Laws.{return_toggles}

abbrev milk : Task
milk = record { text = codes "milk"; finished = false }

abbrev post : Task
post = record { text = codes "post"; finished = true }

abbrev call : Task
call = record { text = codes "call"; finished = false }

abbrev second : Cursor
second = record { selected = 1; scroll = 0 }

abbrev chores : Todo
chores = record (init (some (milk ∷ post ∷ call ∷ []))) { cursor = second }

abbrev to_do : Todo
to_do = record chores { filter = pending }

return_toggles_example :
    Returns
      (λ s'.
        (filtered s' ≡ toggled_view pending (filtered to_do) 1 call)
        × (map (λ v. v.text) s'.tasks ≡ map (λ v. v.text) to_do.tasks)
        × (s'.saved ≡ some s'.tasks)
        × (s'.cursor ≡ second))
      (handle_input to_do (keydown k_return []))
unfolding init
return_toggles_example = return_toggles to_do call (unfold filtered in refl) [] refl

-- D on the second of two equal tasks takes the first one away.
delete_equal :
    handle_input
      (record chores {
        tasks = milk ∷ post ∷ milk ∷ [];
        cursor = record { selected = 2; scroll = 0 };
      })
      (keydown k_d [])
    ≡ done (record chores { tasks = post ∷ milk ∷ []; saved = some (post ∷ milk ∷ []) })
unfolding handle_input delete_selected init filtered key_index retreat remove_first text_eq
delete_equal = refl
