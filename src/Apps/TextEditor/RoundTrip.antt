-- ===== src/Apps/TextEditor/RoundTrip.antt =====
-- Saving a file and opening it again.
use julius_os.Prelude.{
  ◌≡◌, ◌≢◌, refl, sym, ap, ◌∙◌, ◌==◌, false, Option, none, List, [], ◌∷◌, ◌++◌, arith,
}
use mathlib.Core.List.{append_assoc, append-nil}
use julius_os.Prelude.Text.{Text, text_eq_refl}
use julius_os.Apps.TextEditor.{
  newline_char, TextEditor, edit, join, split, split_from, universal_newlines, load, save,
}

-- A line that a text file can hold: no line break inside, of either kind.
abbrev pub IsPlain : Text → Type 0
IsPlain [] = Unit {0}
IsPlain (c ∷ cs) = (c ≢ 10) × (c ≢ 13) × IsPlain cs

abbrev pub ArePlain : List Text → Type 0
ArePlain [] = Unit {0}
ArePlain (l ∷ ls) = IsPlain l × ArePlain ls

split_from-line : (line l : Text) → IsPlain l → split_from line l ≡ (line ++ l) ∷ []
unfolding split_from
split_from-line line [] h = ap (λ t. t ∷ []) (sym (append-nil line))
split_from-line line (c ∷ cs) h =
    let inner : (c == newline_char) ≡ false = ground arith in
    rw inner
      (split_from-line (line ++ c ∷ []) cs h.2 ∙ ap (λ t. t ∷ []) (append_assoc line (c ∷ []) cs))

split_from-append :
    (line l text : Text)
    → IsPlain l
    → split_from line (l ++ newline_char ∷ text) ≡ (line ++ l) ∷ split_from [] text
unfolding split_from
split_from-append line [] text h = ap (λ t. t ∷ split_from [] text) (sym (append-nil line))
split_from-append line (c ∷ cs) text h =
    let inner : (c == newline_char) ≡ false = ground arith in
    rw inner (
      split_from-append (line ++ c ∷ []) cs text h.2
      ∙ ap (λ t. t ∷ split_from [] text) (append_assoc line (c ∷ []) cs))

-- Splitting undoes joining.
pub split-join : (ls : List Text) → ls ≢ [] → ArePlain ls → split (join ls) ≡ ls
unfolding join split
split-join [] ne h = absurd (ne refl)
split-join (l ∷ []) ne h = split_from-line [] l h.0
split-join (l ∷ m ∷ ls) ne h =
    split_from-append [] l (join (m ∷ ls)) h.0 ∙ ap (λ t. l ∷ t) (split-join (m ∷ ls) (λ e. cc) h.1)

-- No carriage return: nothing is translated.
abbrev pub NoReturns : Text → Type 0
NoReturns [] = Unit {0}
NoReturns (c ∷ cs) = (c ≢ 13) × NoReturns cs

pub universal_newlines-id : (t : Text) → NoReturns t → universal_newlines t ≡ t
unfolding universal_newlines
universal_newlines-id [] h = refl
universal_newlines-id (c ∷ []) h = ground arith
universal_newlines-id (c ∷ d ∷ cs) h = ground (arith, universal_newlines-id (d ∷ cs) h.1)

NoReturns-append : (a b : Text) → IsPlain a → NoReturns b → NoReturns (a ++ b)
NoReturns-append [] b h k = k
NoReturns-append (c ∷ a) b h k = (h.1, NoReturns-append a b h.2 k)

pub join-NoReturns : (ls : List Text) → ArePlain ls → NoReturns (join ls)
unfolding join
join-NoReturns [] h = tt
join-NoReturns (l ∷ []) h = rw (← append-nil l) (NoReturns-append l [] h.0 tt)
join-NoReturns (l ∷ m ∷ ls) h =
    NoReturns-append l _ h.0 ((λ e. absurd (omega arith)), join-NoReturns (m ∷ ls) h.1)

module _ (os_error : Text → Option Text) where
  -- If the operating system has no error for the file's name, and the text has at least one line
  -- and no line break or carriage return inside a line, then saving and opening the file again
  -- gives the same lines, in the edit mode, with the cursor at the start and the text not
  -- modified.
  pub load-save :
      (s : TextEditor)
      → os_error s.filename ≡ none
      → s.lines ≢ []
      → ArePlain s.lines
      → let s' = load os_error (save os_error s) in
        (s'.lines ≡ s.lines)
        × (s'.mode ≡ edit)
        × (s'.cursor_x ≡ 0)
        × (s'.cursor_y ≡ 0)
        × (s'.modified ≡ false)
  unfolding load save
  load-save s ok ne plain =
      let back = universal_newlines-id (join s.lines) (join-NoReturns s.lines plain) in
      let same = ap split back ∙ split-join s.lines ne plain in
      ground (arith, text_eq_refl s.filename, same)
