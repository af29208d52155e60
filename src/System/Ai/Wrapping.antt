-- ===== src/System/Ai/Wrapping.antt =====
-- The lines into which src/system/julius_ai.py breaks a message.
use julius_os.Prelude.{
  ℕ, ◌≤◌, ◌≡◌, ◌⊎◌, inl, inr, refl, ap, ◌∙◌, Bool, true, false, List, [], ◌∷◌, ◌++◌, arith,
  nonempty, append_assoc, ltb, if◌then◌else◌,
}
use julius_os.Prelude.Text.{Text}
use julius_os.System.Ai.{wrap, lines_of, max_w, extended, broken_off}

-- Texts joined with spaces.
abbrev pub spaced : List Text → Text
spaced [] = []
spaced (t ∷ []) = t
spaced (t ∷ u ∷ ts) = t ++ 32 ∷ spaced (u ∷ ts)

-- No text is empty: `split` gives such words.
abbrev pub AllFull : List Text → Type 0
AllFull [] = Unit
AllFull (t ∷ ts) = (nonempty t ≡ true) × AllFull ts

-- A member of the list.
abbrev pub IsIn : Text → List Text → Type 0
IsIn t [] = ⊥
IsIn t (u ∷ us) = (t ≡ u) ⊎ IsIn t us

-- The width of each line is within the bound, or the line is one of the words.
abbrev pub AllFit : (Text → ℕ) → List Text → List Text → Type 0
AllFit size words [] = Unit
AllFit size words (l ∷ ls) = ((size l ≤ max_w) ⊎ IsIn l words) × AllFit size words ls

module _ (size : Text → ℕ) where
  nonempty-extended : (a b : Text) → nonempty b ≡ true → nonempty (extended a b) ≡ true
  unfolding extended
  nonempty-extended [] b h = h
  nonempty-extended (x ∷ a) b h = refl

  spaced-full : (w : Text) (ws : List Text) → nonempty w ≡ true → nonempty (spaced (w ∷ ws)) ≡ true
  spaced-full w [] h = h
  spaced-full (x ∷ w) (v ∷ ws) h = refl
  spaced-full [] (v ∷ ws) h = cc

  -- A line before the others.
  spaced-broken_off :
      (line : Text) (ls ws : List Text) (w : Text)
      → nonempty w ≡ true
      → spaced ls ≡ spaced (w ∷ ws)
      → spaced (broken_off line ls) ≡ spaced (broken_off line (w ∷ ws))
  unfolding broken_off
  spaced-broken_off [] ls ws w n e = e
  spaced-broken_off (c ∷ cs) [] ws w n e =
      let full = spaced-full w ws n in let none_full = ap (λ (t : Text). nonempty t) e in cc
  spaced-broken_off (c ∷ cs) (l ∷ ls) ws w n e = ap (λ v. (c ∷ cs) ++ 32 ∷ v) e

  spaced-extended :
      (line w : Text) (ws : List Text)
      → spaced (extended line w ∷ ws) ≡ spaced (broken_off line (w ∷ ws))
  unfolding extended broken_off
  spaced-extended [] w ws = refl
  spaced-extended (c ∷ cs) w [] = refl
  spaced-extended (c ∷ cs) w (v ∷ ws) = append_assoc (c ∷ cs) (32 ∷ w) (32 ∷ spaced (v ∷ ws))

  broken_off-full :
      (line : Text) (ws : List Text) → nonempty line ≡ true → broken_off line ws ≡ line ∷ ws
  unfolding broken_off
  broken_off-full [] ws h = cc
  broken_off-full (c ∷ cs) ws h = refl

  spaced-wrap :
      (line : Text) (words : List Text)
      → AllFull words
      → spaced (wrap size line words) ≡ spaced (broken_off line words)
  unfolding wrap
  spaced-wrap line [] h = refl
  spaced-wrap line (w ∷ ws) h =
      on_width (ltb 200 (size (extended line w)))
        (spaced-wrap w ws h.1 ∙ ap spaced (broken_off-full w ws h.0))
        (spaced-wrap (extended line w) ws h.1
          ∙ ap spaced (broken_off-full (extended line w) ws (nonempty-extended line w h.0)))
    where
      on_width :
          (b : Bool)
          → spaced (wrap size w ws) ≡ spaced (w ∷ ws)
          → spaced (wrap size (extended line w) ws) ≡ spaced (extended line w ∷ ws)
          → spaced (if b then broken_off line (wrap size w ws) else wrap size (extended line w) ws)
            ≡ spaced (broken_off line (w ∷ ws))
      on_width true broken longer = spaced-broken_off line (wrap size w ws) ws w h.0 broken
      on_width false broken longer = longer ∙ spaced-extended line w ws

  AllFit-broken_off :
      (all : List Text) (line : Text) (ls : List Text)
      → (size line ≤ max_w) ⊎ (line ≡ []) ⊎ IsIn line all
      → AllFit size all ls
      → AllFit size all (broken_off line ls)
  unfolding broken_off
  AllFit-broken_off all [] ls h k = k
  AllFit-broken_off all (c ∷ cs) ls (inl small) k = (inl small, k)
  AllFit-broken_off all (c ∷ cs) ls (inr (inl e)) k = cc
  AllFit-broken_off all (c ∷ cs) ls (inr (inr word)) k = (inr word, k)

  abbrev Within : List Text → List Text → Type 0
  Within all words = (w : Text) → IsIn w words → IsIn w all

  fits : (t : Text) → ltb 200 (size t) ≡ false → size t ≤ max_w
  fits t e = ground arith

  wrap-AllFit :
      (all : List Text) (line : Text) (words : List Text)
      → (size line ≤ max_w) ⊎ (line ≡ []) ⊎ IsIn line all
      → Within all words
      → AllFit size all (wrap size line words)
  unfolding wrap
  wrap-AllFit all line [] h k = AllFit-broken_off all line [] h tt
  wrap-AllFit all line (w ∷ ws) h k =
      on_width (ltb 200 (size (extended line w))) refl
        (wrap-AllFit all w ws (inr (inr (k w (inl refl)))) (λ v m. k v (inr m)))
        (λ small. wrap-AllFit all (extended line w) ws (inl small) (λ v m. k v (inr m)))
    where
      on_width :
          (b : Bool)
          → ltb 200 (size (extended line w)) ≡ b
          → AllFit size all (wrap size w ws)
          → (size (extended line w) ≤ max_w → AllFit size all (wrap size (extended line w) ws))
          → AllFit size all
              (if b then broken_off line (wrap size w ws) else wrap size (extended line w) ws)
      on_width true e broken longer = AllFit-broken_off all line (wrap size w ws) h broken
      on_width false e broken longer = longer (fits (extended line w) e)

  -- The lines of a message of words joined with spaces are the words joined with spaces: none is
  -- lost or moved. Each line is at most 200 wide or is a single word.
  pub lines_of-wraps :
      (words : List Text)
      → AllFull words
      → (spaced (lines_of size words) ≡ spaced words) × AllFit size words (lines_of size words)
  unfolding lines_of broken_off
  lines_of-wraps words h =
      (spaced-wrap [] words h, wrap-AllFit words [] words (inr (inl refl)) (λ w m. m))
