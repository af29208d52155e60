-- ===== src/System/Spotlight/Answers.antt =====
-- What src/system/spotlight.py answers to keys and touches.
use julius_os.Prelude.{
  ℕ, zero, suc, ◌-◌, ◌≡◌, refl, sym, ap, ◌∙◌, Bool, true, false, Option, none, some, List, [], ◌∷◌,
  length, get_elem?, get_elem?-some, length-append, nonempty, ◌&&◌, ◌++◌, arith, if◌then◌else◌,
  drop_last,
}
use julius_os.Prelude.Int.{ℤ, pos, negsuc, ◌≤ℤ◌, ltb_ℤ, ◌+ℤ◌, sub_ℕ, min_ℤ, max_ℤ, ◌-ℤ◌}
use julius_os.Prelude.Text.{Text}
use julius_os.Events.{Key, k_return, k_backspace, k_escape, k_up, k_down, Pos, key_index, is}
use julius_os.Outcome.{Outcome, done, Returns}
use julius_os.System.Spotlight.{
  Result, Spotlight, Reply, nothing, picked, show, hide, found, search, at_index, reply_with, enter,
  type_text, handle_key, draw, touched_result, handle_touch,
}

-- The selection is never more than one place before the first result, and what is shown answers
-- the query.
abbrev pub IsSound : (Text → List Result) → Spotlight → Type 0
IsSound answers s = (negsuc 0 ≤ℤ s.selected) × (s.visible ≡ true → s.results ≡ answers s.query)

module _ (lower : Text → Text) (printable : Text → Bool) (apps : List Text) where
  abbrev answers : Text → List Result
  answers q = found lower printable apps q

  at_index-enter :
      (rs : List Result) (i : ℤ)
      → negsuc 0 ≤ℤ i
      → nonempty rs ≡ true
      → ltb_ℤ i (pos (length rs)) ≡ true
      → (r : Result) × (at_index lower printable apps rs i ≡ some r)
  unfolding at_index
  at_index-enter [] i h ne lt = cc
  at_index-enter (r ∷ rs) (pos i) h ne lt = get_elem?-some (r ∷ rs) i (ground arith)
  at_index-enter (r ∷ rs) (negsuc zero) h ne lt =
      let last : (q : Result) × (get_elem? (r ∷ rs) (length (r ∷ rs) - 1 - 0) ≡ some q) =
        get_elem?-some (r ∷ rs) (length (r ∷ rs) - 1 - 0) (omega arith) in
      (last.0, ground (arith, last.1))
  at_index-enter (r ∷ rs) (negsuc (suc n)) h ne lt = elim (below n h) [ ]
    where
      below : (n : ℕ) → negsuc 0 ≤ℤ negsuc (suc n) → ⊥
      below n h = omega arith

  Replies-if :
      (P : Spotlight → Type 0) (b : Bool) (m n : Outcome Spotlight × Reply)
      → (b ≡ true → Returns P m.0)
      → (b ≡ false → Returns P n.0)
      → Returns P (if b then m else n).0
  Replies-if P true m n yes_case no_case = yes_case refl
  Replies-if P false m n yes_case no_case = no_case refl

  search-IsSound :
      (q : Text) (s : Spotlight)
      → IsSound answers s
      → IsSound answers (search lower printable apps q s)
  unfolding search
  search-IsSound q s h = (h.0, λ v. refl)

  type_text-IsSound :
      (t : Text) (s : Spotlight)
      → IsSound answers s
      → IsSound answers (type_text lower printable apps t s)
  unfolding type_text search
  type_text-IsSound t s h = on_text (nonempty t && printable t)
    where
      on_text :
          (b : Bool)
          → IsSound answers (
              if b
              then record (search lower printable apps (s.query ++ t) s) { selected = pos 0 }
              else s)
      on_text true = (omega arith, λ v. refl)
      on_text false = h

  enter-IsSound :
      (s : Spotlight)
      → IsSound answers s
      → Returns (IsSound answers) (enter lower printable apps s).0
  unfolding enter reply_with
  enter-IsSound s h =
      Replies-if (IsSound answers) (nonempty s.results && ltb_ℤ s.selected (pos (length s.results)))
        _ (done s, nothing) (λ e. chosen (ground arith) (ground arith)) (λ e. h)
    where
      chosen :
          nonempty s.results ≡ true
          → ltb_ℤ s.selected (pos (length s.results)) ≡ true
          → Returns
              (IsSound answers)
              (reply_with lower printable apps
                (at_index lower printable apps s.results s.selected)
                s).0
      chosen ne lt = let r = at_index-enter s.results s.selected h.0 ne lt in rw r.1 h

  down-least : (i : ℤ) (n : ℕ) → negsuc 0 ≤ℤ i → negsuc 0 ≤ℤ min_ℤ (i +ℤ pos 1) (sub_ℕ n 1)
  down-least i n h = ground arith

  up-least : (i : ℤ) → negsuc 0 ≤ℤ max_ℤ (i -ℤ pos 1) (pos 0)
  up-least i = ground arith

  -- If the selection is at least -1 and the results of a shown panel are those of its query,
  -- then no key raises an exception, and the same holds after it.
  pub handle_key-IsSound :
      (key : Key) (t : Text) (s : Spotlight)
      → IsSound answers s
      → Returns (IsSound answers) (handle_key lower printable apps key t s).0
  unfolding handle_key hide
  handle_key-IsSound key t s h =
      let P = IsSound answers in
      Replies-if P s.visible _ (done s, nothing)
        (λ _.
          Replies-if P (is k_escape key) _ _ (λ _. (h.0, λ v. cc))
            λ _.
              Replies-if P (is k_backspace key) _ _ (λ _. search-IsSound (drop_last s.query) s h)
                λ _.
                  Replies-if P (is k_return key) _ _ (λ _. enter-IsSound s h)
                    λ _.
                      Replies-if P (is k_down key) _ _
                        (λ _. (down-least s.selected (length s.results) h.0, h.1))
                        λ _.
                          Replies-if P (is k_up key) _ _ (λ _. (up-least s.selected, h.1))
                            λ _. type_text-IsSound t s h)
        (λ _. h)

  at_index-answer :
      (rs : List Result) (i : ℤ) (r : Result)
      → at_index lower printable apps rs i ≡ some r
      → (j : ℕ) × (get_elem? rs j ≡ some r)
  unfolding at_index
  at_index-answer rs (pos i) r e = (i, e)
  at_index-answer rs (negsuc n) r e = (length rs - 1 - n, ground arith)

  reply_with-picked :
      (o : Option Result) (s : Spotlight) (o' : Outcome Spotlight) (r : Result)
      → reply_with lower printable apps o s ≡ (o', picked r)
      → o ≡ some r
  unfolding reply_with
  reply_with-picked none s o' r e = cc
  reply_with-picked (some q) s o' r e = cc

  -- If the selection is at least -1 and the results of a shown panel are those of its query,
  -- then what RETURN picks is one of the results of that query.
  pub return_answers :
      (t : Text) (s : Spotlight) (o : Outcome Spotlight) (r : Result)
      → IsSound answers s
      → handle_key lower printable apps k_return t s ≡ (o, picked r)
      → (j : ℕ) × (get_elem? (found lower printable apps s.query) j ≡ some r)
  unfolding handle_key enter key_index
  return_answers t s o r h e =
      on_visible s.visible (nonempty s.results && ltb_ℤ s.selected (pos (length s.results))) refl
        refl
    where
      on_visible :
          (b c : Bool)
          → s.visible ≡ b
          → (nonempty s.results && ltb_ℤ s.selected (pos (length s.results))) ≡ c
          → (j : ℕ) × (get_elem? (answers s.query) j ≡ some r)
      on_visible false c v k = ground arith
      on_visible true false v k = ground arith
      on_visible true true v k =
          let reply : handle_key lower printable apps k_return t s
              ≡ reply_with lower printable apps (at_index lower printable apps s.results s.selected)
                  s =
            ground arith in
          let at : at_index lower printable apps s.results s.selected ≡ some r =
            reply_with-picked (at_index lower printable apps s.results s.selected) s o r
              (sym reply ∙ e) in
          let j = at_index-answer s.results s.selected r at in
          (j.0, ap (λ rs. get_elem? rs j.0) (sym (h.1 v)) ∙ j.1)

  at_last :
      (rs : List Result) (r : Result)
      → get_elem? (rs ++ r ∷ []) (length (rs ++ r ∷ []) - 1 - 0) ≡ some r
  at_last rs r =
      let place : length (rs ++ r ∷ []) - 1 - 0 ≡ length rs =
        omega (arith, length-append rs (r ∷ [])) in
      rw place (go rs)
    where
      go : (qs : List Result) → get_elem? (qs ++ r ∷ []) (length qs) ≡ some r
      go [] = refl
      go (q ∷ qs) = go qs

  nonempty-append : (rs : List Result) (r : Result) → nonempty (rs ++ r ∷ []) ≡ true
  nonempty-append [] r = refl
  nonempty-append (q ∷ rs) r = refl

  -- If the panel is shown with no results and the selection at 0, and the query without its last
  -- character has results, then DOWN, BACKSPACE and RETURN pick the last of these.
  pub down_picks_last :
      (t : Text) (s : Spotlight) (rs : List Result) (last : Result)
      → s.visible ≡ true
      → s.results ≡ []
      → s.selected ≡ pos 0
      → found lower printable apps (drop_last s.query) ≡ rs ++ last ∷ []
      → (s₁ s₂ : Spotlight) × (handle_key lower printable apps k_down t s ≡ (done s₁, nothing))
        × (handle_key lower printable apps k_backspace t s₁ ≡ (done s₂, nothing))
        × (handle_key lower printable apps k_return t s₂ ≡ (done s₂, picked last))
  unfolding handle_key enter reply_with at_index search key_index
  down_picks_last t s rs last v none_found first back = (
    record s { selected = negsuc 0 },
    record s { selected = negsuc 0; query = drop_last s.query; results = rs ++ last ∷ [] },
    ground arith,
    ground arith,
    (let at = at_last rs last in
        let some_found = nonempty-append rs last in ground (arith, length-append rs (last ∷ []))),
  )

-- If a touch finds a result in the rectangles of an earlier search, then, with the panel opened
-- again and drawn, the results are empty and the touch still picks that result.
pub stale_touch :
    (W : ℕ) (p : Pos) (s : Spotlight) (r : Result)
    → touched_result p s.result_rects ≡ some r
    → ((draw W (show s)).results ≡ [])
      × (handle_touch p (draw W (show s)) ≡ (draw W (show s), picked r))
unfolding draw show handle_touch
stale_touch W p s r e = (refl, rw e refl)

-- A touch above or below the panel hides it, and the answer is None, not "hide".
pub outside_hides :
    (p : Pos) (s : Spotlight)
    → s.visible ≡ true
    → touched_result p s.result_rects ≡ none
    → ltb_ℤ p.1 (pos 50) ≡ true
    → handle_touch p s ≡ (hide s, nothing)
unfolding handle_touch
outside_hides p s v e above = ground arith
