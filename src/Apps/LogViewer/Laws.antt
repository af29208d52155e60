-- ===== src/Apps/LogViewer/Laws.antt =====
-- Which log the menu opens, what the window over its lines shows, and what the filter's ESC keeps.
use julius_os.Prelude.{
  drop_past, length-drop, take_all, ℕ, min, take-append-drop, ◌-◌, ◌≤◌, ◌<◌, ◌≡◌, refl, ap, ◌∙◌,
  Bool, true, false, some, List, [], ◌∷◌, ◌++◌, arith, append_assoc, length, get_elem?, take, drop,
  get_elem?-some, ◌==◌, if◌then◌else◌,
}
use julius_os.Prelude.Text.{Text, codes, text_eq}
use julius_os.Events.{
  Key, k_return, k_backspace, k_escape, k_up, k_down, k_f, is, Event, keydown, key_index,
}
use julius_os.Outcome.{Returns, Returns-if, holds-if}
use julius_os.Apps.Table.{Answer, output, failed}
use julius_os.Apps.TextEditor.{newline_char, universal_newlines}
use julius_os.Apps.LogViewer.{
  Log, logs, Mode, menu, view, LogViewer, Content, missing, content, unreadable, Answers,
  lines_from, readlines, loaded, load_failed, from_dmesg, from_file, load_log, load_at, menu_key,
  filter_key, filtered_lines, window, view_key, handle_input,
}

-- In the menu there is no filter.
abbrev pub IsUnfiltered : Mode → Text → Type 0
IsUnfiltered menu f = f ≡ []
IsUnfiltered _ f = Unit

-- The selection is a log of the menu, and the menu has no filter.
abbrev pub IsOpenable : LogViewer → Type 0
IsOpenable s = (s.selected < length logs) × IsUnfiltered s.mode s.filter

-- The lines that `readlines` gives, one after the other.
abbrev pub joined : List Text → Text
joined [] = []
joined (l ∷ ls) = l ++ joined ls

joined-branch :
    (b : Bool) (line : Text) (c : ℕ) (cs : Text)
    → joined (lines_from [] cs) ≡ cs
    → joined (lines_from (line ++ c ∷ []) cs) ≡ (line ++ c ∷ []) ++ cs
    → joined (if b then (line ++ c ∷ []) ∷ lines_from [] cs else lines_from (line ++ c ∷ []) cs)
      ≡ line ++ c ∷ cs
joined-branch true line c cs ended longer = rw ended (append_assoc line (c ∷ []) cs)
joined-branch false line c cs ended longer = longer ∙ append_assoc line (c ∷ []) cs

joined-lines_from : (line text : Text) → joined (lines_from line text) ≡ line ++ text
unfolding lines_from
joined-lines_from [] [] = refl
joined-lines_from (x ∷ line) [] = refl
joined-lines_from [] (c ∷ cs) =
    joined-branch (c == newline_char) [] c cs (joined-lines_from [] cs)
      (joined-lines_from (c ∷ []) cs)
joined-lines_from (x ∷ line) (c ∷ cs) =
    joined-branch (c == newline_char) (x ∷ line) c cs (joined-lines_from [] cs)
      (joined-lines_from ((x ∷ line) ++ c ∷ []) cs)

-- `readlines` loses no character: its lines, joined, are the text as text mode gives it.
pub joined-readlines : (text : Text) → joined (readlines text) ≡ universal_newlines text
unfolding readlines
joined-readlines text = joined-lines_from [] (universal_newlines text)

from_dmesg-IsOpenable : (a : Answer) (s : LogViewer) → IsOpenable s → IsOpenable (from_dmesg a s)
unfolding from_dmesg loaded load_failed
from_dmesg-IsOpenable (output t) s h = (h.0, tt)
from_dmesg-IsOpenable (failed e) s h = (h.0, tt)

from_file-IsOpenable :
    (p : Text) (c : Content) (s : LogViewer) → IsOpenable s → IsOpenable (from_file p c s)
unfolding from_file loaded load_failed
from_file-IsOpenable p missing s h = (h.0, tt)
from_file-IsOpenable p (content t) s h = (h.0, tt)
from_file-IsOpenable p (unreadable e) s h = (h.0, tt)

load_log-IsOpenable :
    (a : Answers) (log : Log) (s : LogViewer) → IsOpenable s → IsOpenable (load_log a log s)
unfolding load_log
load_log-IsOpenable a log s h =
    holds-if IsOpenable (text_eq log.path (codes "dmesg")) _ _
      (λ _. from_dmesg-IsOpenable a.dmesg s h)
      λ _. from_file-IsOpenable log.path (a.file log.path) s h

load_at-IsOpenable :
    (a : Answers) (s : LogViewer)
    → IsOpenable s
    → Returns IsOpenable (load_at a s (get_elem? logs s.selected))
unfolding load_at
load_at-IsOpenable a s h =
    let found = get_elem?-some logs s.selected h.0 in
    rw (found.1) (load_log-IsOpenable a found.0 s h)

menu_key-IsOpenable :
    (a : Answers) (s : LogViewer) (key : Key) → IsOpenable s → Returns IsOpenable (menu_key a s key)
unfolding menu_key
menu_key-IsOpenable a s key h =
    Returns-if IsOpenable (is k_down key) _ _ (λ _. (omega arith, h.1))
      λ _.
        Returns-if IsOpenable (is k_up key) _ _ (λ _. (omega (arith, h.0), h.1))
          λ _. Returns-if IsOpenable (is k_return key) _ _ (λ _. load_at-IsOpenable a s h) (λ _. h)

-- The last n elements are not cut by a window of n.
take_end : (n : ℕ) (xs : List Text) → take n (drop (length xs - n) xs) ≡ drop (length xs - n) xs
take_end n xs = take_all n (drop (length xs - n) xs) (omega (arith, length-drop (length xs - n) xs))

length-end : (n : ℕ) (xs : List Text) → length (drop (length xs - n) xs) ≡ min n (length xs)
length-end n xs = omega (arith, length-drop (length xs - n) xs)

module _ (space : ℕ → Bool) (lower : Text → Text) where
  view_key-IsOpenable :
      (s : LogViewer) (key : Key)
      → s.mode ≡ view
      → IsOpenable s
      → IsOpenable (view_key space lower s key)
  unfolding view_key
  view_key-IsOpenable s key m h =
      holds-if IsOpenable (is k_down key) _ _ (λ _. h)
        λ _.
          holds-if IsOpenable (is k_up key) _ _ (λ _. h)
            λ _.
              holds-if IsOpenable (is k_f key) _ _ (λ _. (h.0, tt))
                λ _. holds-if IsOpenable (is k_escape key) _ _ (λ _. (h.0, refl)) (λ _. h)

  filter_key-IsOpenable :
      (s : LogViewer) (key : Key) (u : Text)
      → s.mode ≡ Mode.filter
      → IsOpenable s
      → IsOpenable (filter_key s key u)
  unfolding filter_key
  filter_key-IsOpenable s key u m h =
      holds-if IsOpenable (is k_return key) _ _ (λ _. (h.0, tt))
        λ _.
          holds-if IsOpenable (is k_backspace key) _ _ (λ _. (h.0, rw m tt))
            λ _. holds-if IsOpenable (is k_escape key) _ _ (λ _. (h.0, tt)) (λ _. (h.0, rw m tt))

  -- If the selection is a log of the menu, and the menu has no filter, every event returns, and it
  -- is so after it, whatever `dmesg` and the files answer.
  pub handle_input-IsOpenable :
      (a : Answers) (s : LogViewer) (e : Event)
      → IsOpenable s
      → Returns IsOpenable (handle_input space lower a s e)
  unfolding handle_input
  handle_input-IsOpenable a s (keydown key u) h = on_mode s.mode refl
    where
      on_mode :
          (m : Mode)
          → s.mode ≡ m
          → Returns IsOpenable (handle_input space lower a s (keydown key u))
      on_mode menu e = rw (e, handle_input) (menu_key-IsOpenable a s key h)
      on_mode view e = rw (e, handle_input) (view_key-IsOpenable s key e h)
      on_mode Mode.filter e = rw (e, handle_input) (filter_key-IsOpenable s key u e h)
  handle_input-IsOpenable a s _ h = h

  -- If the menu stands on a log that is a file with the characters t, RETURN shows the end of the
  -- file: the window has the last twelve lines of t, or all of them if there are fewer.
  pub return_shows_end :
      (a : Answers) (s : LogViewer) (log : Log) (t u : Text)
      → s.mode ≡ menu
      → s.filter ≡ []
      → get_elem? logs s.selected ≡ some log
      → text_eq log.path (codes "dmesg") ≡ false
      → a.file log.path ≡ content t
      → let ls = readlines t in
        Returns
          (λ s'.
            (take (length ls - 12) ls ++ window space lower s' ≡ ls)
            × (length (window space lower s') ≡ min 12 (length ls)))
          (handle_input space lower a s (keydown k_return u))
  unfolding handle_input menu_key key_index load_at load_log from_file loaded window filtered_lines
  return_shows_end a s log t u m f e other file =
      rw (m, e, other, file, f, take_end 12 (readlines t))
        (take-append-drop (length (readlines t) - 12) (readlines t), length-end 12 (readlines t))

  -- K_DOWN in the view never puts the window past the end of the lines that the filter keeps, and
  -- brings it back if it was past it.
  pub down_shows :
      (a : Answers) (s : LogViewer) (u : Text)
      → s.mode ≡ view
      → Returns
          (λ s'. s'.scroll ≤ length (filtered_lines space lower s') - 12)
          (handle_input space lower a s (keydown k_down u))
  unfolding handle_input view_key key_index filtered_lines
  down_shows a s u m = rw m (omega arith)

  -- ESC in the filter's page, which says it cancels, keeps the filter and the window's place: if
  -- the filter keeps no more lines than the place, the view has no line, be there matches or not.
  pub escape_shows_none :
      (a : Answers) (s : LogViewer) (u : Text)
      → s.mode ≡ Mode.filter
      → length (filtered_lines space lower s) ≤ s.scroll
      → Returns
          (λ s'. (s'.mode ≡ view) × (s'.filter ≡ s.filter) × (window space lower s' ≡ []))
          (handle_input space lower a s (keydown k_escape u))
  unfolding handle_input filter_key key_index window filtered_lines
  escape_shows_none a s u m past =
      rw m (refl, refl, ap (take 12) (drop_past s.scroll (filtered_lines space lower s) past))
