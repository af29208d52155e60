-- ===== src/System/StateFiles/Entries.antt =====
-- What src/system/julius_bridge.py reads from a file that holds one entry on each line.
use julius_os.Prelude.{
  ◌≡◌, ◌≢◌, refl, ap, ap₂, ◌∙◌, Bool, true, false, Option, none, some, List, [], ◌∷◌, ◌++◌, map,
  ◌==◌, if◌then◌else◌, arith,
}
use julius_os.Prelude.Int.{ℤ}
use julius_os.Prelude.Text.{Text, text_eq, text_eq_refl, text_eq→eq}
use julius_os.Apps.TextEditor.{join}
use julius_os.Apps.TextEditor.RoundTrip.{IsPlain, ArePlain, split-join}
use julius_os.System.StateFiles.{State, put, get, cut, add_entry, read_lines, read_state}

abbrev pub line_of : Text × Text → Text
line_of e = e.0 ++ b'=' ∷ e.1

-- The key has no `=` in it.
abbrev pub IsKey : Text → Type 0
IsKey [] = Unit {0}
IsKey (c ∷ cs) = (c ≢ b'=') × IsKey cs

-- An entry that a line can hold: a key, and nothing to be stripped or broken.
abbrev pub Fits : (Text → Text) → Text × Text → Type 0
Fits strip e =
    IsKey e.0
    × (strip e.0 ≡ e.0)
    × (strip e.1 ≡ e.1)
    × (strip (line_of e) ≡ line_of e)
    × IsPlain (line_of e)

abbrev pub AllFit : (Text → Text) → List (Text × Text) → Type 0
AllFit strip [] = Unit {0}
AllFit strip (e ∷ es) = Fits strip e × AllFit strip es

-- The value of the last entry with the key, or else o.
abbrev pub last_or : Option Text → Text → List (Text × Text) → Option Text
last_or o k [] = o
last_or o k (e ∷ es) = last_or (if text_eq k e.0 then some e.1 else o) k es

cut-line_of : (k v : Text) → IsKey k → cut (line_of (k, v)) ≡ some (k, v)
unfolding cut
cut-line_of [] v h = refl
cut-line_of (c ∷ k) v h =
    let other : (c == b'=') ≡ false = ground arith in
    let ih = cut-line_of k v h.1 in rw (other, ih) refl

get-put : (k j v : Text) (s : State) → get k (put j v s) ≡ (if text_eq k j then some v else get k s)
unfolding get put
get-put k j v [] = refl
get-put k j v (e ∷ s) =
    on_tests (text_eq j e.0) (text_eq k e.0) (text_eq k j) refl refl refl (get-put k j v s)
  where
    on_tests :
        (a b c : Bool)
        → text_eq j e.0 ≡ a
        → text_eq k e.0 ≡ b
        → text_eq k j ≡ c
        → get k (put j v s) ≡ (if text_eq k j then some v else get k s)
        → get k (put j v (e ∷ s)) ≡ (if text_eq k j then some v else get k (e ∷ s))
    on_tests true b c x y z ih =
        let same : j ≡ e.0 = text_eq→eq j e.0 x in rw same (ground (arith, text_eq_refl e.0))
    on_tests false true true x y z ih =
        let same : text_eq j e.0 ≡ true = rw (text_eq→eq k j z) at y in cc
    on_tests false true false x y z ih = ground arith
    on_tests false false c x y z ih = ground arith

module _ (strip : Text → Text) (to_int : Text → Option ℤ) where
  get-read_lines :
      (k : Text) (es : List (Text × Text)) (s : State)
      → AllFit strip es
      → get k (read_lines strip to_int (map line_of es) s) ≡ last_or (get k s) k es
  unfolding read_lines add_entry
  get-read_lines k [] s h = refl
  get-read_lines k (e ∷ es) s (fit, rest) =
      let read : add_entry strip to_int (cut (strip (line_of e))) s ≡ put e.0 e.1 s =
        ap (λ l. add_entry strip to_int (cut l) s) fit.3
        ∙ ap (λ o. add_entry strip to_int o s) (cut-line_of e.0 e.1 fit.0)
        ∙ ap₂ (λ a b. put a b s) fit.1 fit.2 in
      ap (λ t. get k (read_lines strip to_int (map line_of es) t)) read
      ∙ get-read_lines k es (put e.0 e.1 s) rest
      ∙ ap (λ o. last_or o k es) (get-put k e.0 e.1 s)

  lines-ArePlain : (es : List (Text × Text)) → AllFit strip es → ArePlain (map line_of es)
  lines-ArePlain [] h = tt
  lines-ArePlain (e ∷ es) h = (h.0.4, lines-ArePlain es h.1)

  -- A file of at least one entry, one on each line, gives for each key the value of the last
  -- entry with it, and for a key of no entry nothing, if no key has a `=`, no line an inner
  -- break, and no key, value or line white space at its ends.
  pub get-read_state :
      (k : Text) (e : Text × Text) (es : List (Text × Text))
      → AllFit strip (e ∷ es)
      → get k (read_state strip to_int (some (join (map line_of (e ∷ es)))))
        ≡ last_or none k (e ∷ es)
  unfolding read_state get
  get-read_state k e es h =
      ap (λ ls. get k (read_lines strip to_int ls []))
        (split-join (map line_of (e ∷ es)) (λ x. cc) (lines-ArePlain (e ∷ es) h))
      ∙ get-read_lines k (e ∷ es) [] h
