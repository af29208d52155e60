-- ===== src/Apps/ProcessKiller/Laws.antt =====
-- Which process the key K kills, and what the keys of the process list keep.
use julius_os.Prelude.{
  ℕ, ◌-◌, ◌≤◌, ◌<◌, ◌≡◌, refl, Bool, true, Option, none, some, [], ◌∷◌, arith, length, get_elem?,
  nonempty, get_elem?-none, nonempty-length, nonempty-get_elem?,
}
use julius_os.Prelude.Text.{Text}
use julius_os.Events.{Key, k_up, k_down, k_f, k_k, k_r, is, Event, keydown, key_index}
use julius_os.Outcome.{done, raised, after, Returns, after-if}
use julius_os.Cursor.{IsShown}
use julius_os.Cursor.Laws.{down-IsShown, up-IsShown, rows-selected}
use julius_os.Apps.Table.{Answer, output, failed, table}
use julius_os.Apps.ProcessKiller.{
  Process, list, Mode, ProcessKiller, Answers, processes, counted, refresh, kill, filtered_procs,
  drawn, kill_at, list_key, filter_key, handle_input,
}

-- The selected row is one of the nine that are drawn.
abbrev pub InWindow : ProcessKiller → Type 0
InWindow s = IsShown 9 s.cursor

module _ (space : ℕ → Bool) (lower : Text → Text) where
  kill-kills :
      (a : Answers) (pid : Text) (s : ProcessKiller)
      → ((kill space lower a pid s).kills ≡ pid ∷ s.kills)
        × ((kill space lower a pid s).cursor ≡ s.cursor)
  unfolding kill refresh
  kill-kills a pid s = on_kill a.kill a.ps
    where
      on_kill :
          (k : Option Text) (p : Answer)
          → ((kill space lower (record { ps = p; kill = k }) pid s).kills ≡ pid ∷ s.kills)
            × ((kill space lower (record { ps = p; kill = k }) pid s).cursor ≡ s.cursor)
      on_kill none (output t) = (refl, refl)
      on_kill none (failed e) = (refl, refl)
      on_kill (some e) p = (refl, refl)

  k_done :
      (a : Answers) (s : ProcessKiller) (u : Text) (p : Process)
      → s.mode ≡ list
      → get_elem? (filtered_procs space lower s) s.cursor.selected ≡ some p
      → handle_input space lower a s (keydown k_k u) ≡ done (kill space lower a p.pid s)
  unfolding handle_input list_key key_index kill_at
  k_done a s u p m e =
      rw (m, nonempty-get_elem? (filtered_procs space lower s) s.cursor.selected e, e) refl

  -- If the list is shown, its selection is in the window and p is the process there, K returns,
  -- whatever the programs answer, with the kill of p called and no other, and p is the row that
  -- was drawn as the selected one.
  pub k_kills_drawn :
      (a : Answers) (s : ProcessKiller) (u : Text) (p : Process)
      → s.mode ≡ list
      → IsShown 9 s.cursor
      → get_elem? (filtered_procs space lower s) s.cursor.selected ≡ some p
      → Returns (λ s'. s'.kills ≡ p.pid ∷ s.kills) (handle_input space lower a s (keydown k_k u))
        × (get_elem? (drawn space lower s) (s.cursor.selected - s.cursor.scroll) ≡ some (p, true))
  unfolding drawn
  k_kills_drawn a s u p m shown e = (
    rw (k_done a s u p m e) (kill-kills a p.pid s).0,
    rows-selected 9 s.cursor (filtered_procs space lower s) p shown e,
  )

  refresh-cursor : (a : Answer) (s : ProcessKiller) → (refresh space lower a s).cursor ≡ s.cursor
  unfolding refresh
  refresh-cursor (output t) s = refl
  refresh-cursor (failed e) s = refl

  kill_at-InWindow :
      (a : Answers) (s : ProcessKiller) (o : Option Process)
      → InWindow s
      → InWindow (after (kill_at space lower a s o))
  unfolding kill_at
  kill_at-InWindow a s none h = h
  kill_at-InWindow a s (some p) h = rw ((kill-kills a p.pid s).1) h

  list_key-InWindow :
      (a : Answers) (s : ProcessKiller) (key : Key)
      → InWindow s
      → InWindow (after (list_key space lower a s key))
  unfolding list_key
  list_key-InWindow a s key h =
      after-if InWindow (is k_down key) _ _
        (λ _. down-IsShown 9 (length (filtered_procs space lower s)) (omega arith) h)
        λ _.
          after-if InWindow (is k_up key) _ _ (λ _. up-IsShown 9 h)
            λ _.
              after-if InWindow (is k_r key) _ _ (λ _. rw (refresh-cursor a.ps s) h)
                λ _.
                  after-if InWindow (is k_k key) _ _
                    (λ _.
                      after-if InWindow (nonempty (filtered_procs space lower s)) _ _
                        (λ _. kill_at-InWindow a s _ h) (λ _. h))
                    λ _. after-if InWindow (is k_f key) _ _ (λ _. h) (λ _. h)

  filter_key-InWindow :
      (s : ProcessKiller) (key : Key) (u : Text)
      → InWindow s
      → InWindow (filter_key space lower s key u)
  unfolding filter_key
  filter_key-InWindow s key u h = ground arith

  -- If the selection is in the window of nine rows, it is so after every event, whatever the
  -- programs answer, one that raises an exception included.
  pub handle_input-InWindow :
      (a : Answers) (s : ProcessKiller) (e : Event)
      → InWindow s
      → InWindow (after (handle_input space lower a s e))
  unfolding handle_input
  handle_input-InWindow a s (keydown key u) h = on_mode s.mode refl
    where
      on_mode :
          (m : Mode) → s.mode ≡ m → InWindow (after (handle_input space lower a s (keydown key u)))
      on_mode list e = rw (e, handle_input) (list_key-InWindow a s key h)
      on_mode Mode.filter e = rw (e, handle_input) (filter_key-InWindow s key u h)
  handle_input-InWindow a s _ h = h

  -- If the list is shown without a filter, and `ps` lists some processes and not more than the
  -- selection's place, R returns, and K after it raises an exception.
  pub refreshed_kill_raises :
      (a : Answers) (s : ProcessKiller) (t u : Text)
      → s.mode ≡ list
      → s.filter ≡ []
      → a.ps ≡ output t
      → 0 < length (processes (table space 1 t))
      → length (processes (table space 1 t)) ≤ s.cursor.selected
      → (s' : ProcessKiller) × (handle_input space lower a s (keydown k_r u) ≡ done s')
        × (handle_input space lower a s' (keydown k_k u) ≡ raised s')
  unfolding handle_input list_key key_index filtered_procs refresh kill_at
  refreshed_kill_raises a s t u m f e pos past =
      let ps = processes (table space 1 t) in
      (
        record s { procs = ps; status = counted (length ps); mode = list; filter = [] },
        rw (m, f, e) refl,
        rw (nonempty-length ps pos, get_elem?-none ps s.cursor.selected past) refl,
      )
