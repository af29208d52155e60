-- ===== src/Apps/Table.antt =====
-- The table that a command prints, as src/apps/firewall/firewall.py and
-- src/apps/processkiller/processkiller.py read it: `strip`, `split("\n")`, and `split()` of a line.
-- `space` is Python's white space.
use julius_os.Prelude.{
  ℕ, ◌<◌, ◌≡◌, refl, Bool, true, false, List, [], ◌∷◌, ◌++◌, arith, drop, length, nonempty,
  if◌then◌else◌,
}
use julius_os.Prelude.Text.{Text}
use julius_os.Apps.TextEditor.{split}

-- How the command ended: what it printed, or the text of the exception of `check_output`.
pub data Answer : Type 0 where
  output : Text → Answer
  failed : Text → Answer

module _ (space : ℕ → Bool) where
  unfoldable pub lstrip : Text → Text
  lstrip [] = []
  lstrip (c ∷ cs) = let rest = lstrip cs in if space c then rest else c ∷ cs

  unfoldable pub rstrip : Text → Text
  rstrip [] = []
  rstrip (c ∷ cs) =
      let rest = rstrip cs in if nonempty rest then c ∷ rest else if space c then [] else c ∷ []

  unfoldable pub strip : Text → Text
  unfolding lstrip rstrip
  strip t = rstrip (lstrip t)

  -- The word read so far, if it has a character.
  unfoldable pub flush : Text → List Text
  flush [] = []
  flush (c ∷ cs) = (c ∷ cs) ∷ []

  -- `split()`, with the word read so far.
  unfoldable pub words_from : Text → Text → List Text
  unfolding flush
  words_from w [] = flush w
  words_from w (c ∷ cs) =
      let ended = words_from [] cs in
      let longer = words_from (w ++ c ∷ []) cs in if space c then flush w ++ ended else longer

  unfoldable pub words : Text → List Text
  unfolding words_from
  words line = words_from [] line

  -- The lines of the table behind its n lines of header, each split into its words.
  unfoldable pub split_all : List Text → List (List Text)
  unfolding words strip
  split_all [] = []
  split_all (l ∷ ls) = words (strip l) ∷ split_all ls

  unfoldable pub table : ℕ → Text → List (List Text)
  unfolding split_all strip
  table n out = split_all (drop n (split (strip out)))

  -- A word: it has a character, and none is white space.
  abbrev pub HasNoSpace : Text → Type 0
  HasNoSpace [] = Unit
  HasNoSpace (c ∷ cs) = (space c ≡ false) × HasNoSpace cs

  abbrev pub IsWord : Text → Type 0
  IsWord t = (0 < length t) × HasNoSpace t

  abbrev pub AllWords : List Text → Type 0
  AllWords [] = Unit
  AllWords (w ∷ ws) = IsWord w × AllWords ws

  HasNoSpace-snoc : (w : Text) (c : ℕ) → HasNoSpace w → space c ≡ false → HasNoSpace (w ++ c ∷ [])
  HasNoSpace-snoc [] c h k = (k, tt)
  HasNoSpace-snoc (x ∷ w) c h k = (h.0, HasNoSpace-snoc w c h.1 k)

  AllWords-flush :
      (w : Text) (ws : List Text) → HasNoSpace w → AllWords ws → AllWords (flush w ++ ws)
  unfolding flush
  AllWords-flush [] ws h k = k
  AllWords-flush (c ∷ cs) ws h k = ((omega arith, h), k)

  words_from-AllWords : (w t : Text) → HasNoSpace w → AllWords (words_from w t)
  unfolding words_from flush
  words_from-AllWords [] [] h = tt
  words_from-AllWords (x ∷ w) [] h = ((omega arith, h), tt)
  words_from-AllWords w (c ∷ cs) h =
      on_space (space c) refl (words_from-AllWords [] cs tt)
        (λ k. words_from-AllWords (w ++ c ∷ []) cs (HasNoSpace-snoc w c h k))
    where
      on_space :
          (b : Bool)
          → space c ≡ b
          → AllWords (words_from [] cs)
          → (space c ≡ false → AllWords (words_from (w ++ c ∷ []) cs))
          → AllWords (if b then flush w ++ words_from [] cs else words_from (w ++ c ∷ []) cs)
      on_space true e ended longer = AllWords-flush w (words_from [] cs) h ended
      on_space false e ended longer = longer e

  -- `split()` gives words only.
  pub words-AllWords : (t : Text) → AllWords (words t)
  unfolding words
  words-AllWords t = words_from-AllWords [] t tt
