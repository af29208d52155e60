-- ===== src/Apps/ProcessKiller/Tests.antt =====
-- Three processes, the second of them selected.
use julius_os.Prelude.{ℕ, ◌==◌, ◌≡◌, refl, Bool, true, none, some, [], ◌∷◌, arith, get_elem?}
use julius_os.Prelude.Text.{Text, codes}
use julius_os.Events.{k_k, keydown}
use julius_os.Outcome.{Returns}
use julius_os.Apps.Table.{output}
use julius_os.Apps.ProcessKiller.{
  Process, ProcessKiller, Answers, init, filtered_procs, drawn, handle_input,
}
use julius_os.Apps.ProcessKiller.Laws.{k_kills_drawn}

abbrev is_blank : ℕ → Bool
is_blank c = c == 32

abbrev plain : Text → Text
plain t = t

abbrev proc : Text → Process
proc pid = record { pid = pid; name = codes "sh"; cpu = codes "1.0"; mem = codes "2.0" }

abbrev busy : ProcessKiller
busy = record init {
  procs = proc (codes "7") ∷ proc (codes "42") ∷ proc (codes "9") ∷ [];
  cursor = record { selected = 1; scroll = 0 };
}

abbrev one_left : Answers
one_left = record { ps = output (codes "PID COMMAND\n7 sh 1.0 2.0"); kill = none }

k_kills_drawn_example :
    Returns
      (λ s'. s'.kills ≡ codes "42" ∷ [])
      (handle_input is_blank plain one_left busy (keydown k_k []))
    × (get_elem? (drawn is_blank plain busy) 1 ≡ some (proc (codes "42"), true))
k_kills_drawn_example =
    k_kills_drawn is_blank plain one_left busy [] (proc (codes "42")) refl
      (omega arith, omega arith) (unfold filtered_procs in refl)
