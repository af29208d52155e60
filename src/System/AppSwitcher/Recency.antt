-- ===== src/System/AppSwitcher/Recency.antt =====
-- `recent` against the history of the opened apps.
use julius_os.Prelude.{
  ℕ, zero, suc, ◌+◌, ◌≤◌, ◌≡◌, refl, ap, ◌∙◌, false, List, [], ◌∷◌, length, take, arith,
  if◌then◌else◌, Bool-cases, inl, inr, max,
}
use julius_os.Prelude.Text.{Text, text_eq, text_eq→eq}
use julius_os.System.AppSwitcher.{AppSwitcher, init, is_among, remove, add_recent}

-- The opened apps, the latest first, each once.
abbrev pub recency : List Text → List Text
recency [] = []
recency (n ∷ older) = n ∷ remove n (recency older)

-- The switcher after a history, the latest app first.
abbrev pub opened : List Text → AppSwitcher → AppSwitcher
opened [] s = s
opened (n ∷ older) s = add_recent n (opened older s)

take-short : (k : ℕ) (xs : List Text) → length xs ≤ k → take k xs ≡ xs
take-short zero [] h = refl
take-short zero (x ∷ xs) h = elim h [ ]
take-short (suc k) [] h = refl
take-short (suc k) (x ∷ xs) h = ap (λ t. x ∷ t) (take-short k xs (omega arith))

take-take : (k : ℕ) (xs : List Text) → take k (take k xs) ≡ take k xs
take-take zero xs = refl
take-take (suc k) [] = refl
take-take (suc k) (x ∷ xs) = ap (λ t. x ∷ t) (take-take k xs)

-- Below the cut nothing matters.
take-remove :
    (k : ℕ) (n : Text) (xs : List Text) → take k (remove n (take (suc k) xs)) ≡ take k (remove n xs)
unfolding remove
take-remove zero n xs = refl
take-remove (suc k) n [] = refl
take-remove (suc k) n (x ∷ xs) = elim (Bool-cases (text_eq n x)) [
  | inl same ↦ rw same (take-take (suc k) xs)
  | inr other ↦ rw other (ap (λ t. x ∷ t) (take-remove k n xs))
]

remove-absent : (n : Text) (xs : List Text) → is_among n xs ≡ false → remove n xs ≡ xs
unfolding is_among remove
remove-absent n [] h = refl
remove-absent n (x ∷ xs) h = ground (arith, remove-absent n xs)

add_recent-take :
    (n : Text) (s : AppSwitcher) → (add_recent n s).recent ≡ take 8 (n ∷ remove n s.recent)
unfolding add_recent
add_recent-take n s = ground (
  arith,
  remove-absent n s.recent,
  take-short 8 (n ∷ s.recent),
  take-short 8 (n ∷ remove n s.recent),
)

-- After any history of opened apps the recent apps are the eight that were opened last, each
-- once, the latest first.
pub recent-recency : (history : List Text) → (opened history init).recent ≡ take 8 (recency history)
unfolding init
recent-recency [] = refl
recent-recency (n ∷ older) =
    add_recent-take n (opened older init)
    ∙ ap (λ r. n ∷ take 7 (remove n r)) (recent-recency older)
    ∙ ap (λ t. n ∷ t) (take-remove 7 n (recency older))

-- How often a name stands in a list.
abbrev pub occurrences : Text → List Text → ℕ
occurrences n [] = 0
occurrences n (m ∷ ms) = (if text_eq n m then 1 else 0) + occurrences n ms

occurrences-take :
    (n : Text) (k : ℕ) (xs : List Text) → occurrences n (take k xs) ≤ occurrences n xs
occurrences-take n zero xs = omega arith
occurrences-take n (suc k) [] = omega arith
occurrences-take n (suc k) (x ∷ xs) = omega (arith, occurrences-take n k xs)

occurrences-remove_le :
    (n m : Text) (xs : List Text) → occurrences n (remove m xs) ≤ occurrences n xs
unfolding remove
occurrences-remove_le n m [] = omega arith
occurrences-remove_le n m (x ∷ xs) = elim (Bool-cases (text_eq m x)) [
  | inl same ↦ rw same (omega arith)
  | inr other ↦ rw other (omega (arith, occurrences-remove_le n m xs))
]

occurrences-remove :
    (n m : Text) (xs : List Text)
    → occurrences n (remove m xs) + (if text_eq n m then 1 else 0) ≤ max 1 (occurrences n xs)
unfolding remove
occurrences-remove n m [] = ground arith
occurrences-remove n m (x ∷ xs) = elim (Bool-cases (text_eq m x)) [
  | inl same ↦ rw (same, text_eq→eq m x same) (omega arith)
  | inr other ↦ elim (Bool-cases (text_eq n m)) [
    | inl named ↦
        let off : text_eq n x ≡ false = rw (text_eq→eq n m named) other in
        rw (other, named, off) (let ih = occurrences-remove n m xs in ground arith)
    | inr third ↦ rw (other, third) (omega (arith, occurrences-remove_le n m xs))
  ]
]

-- If every name stands at most once among the recent apps, it does so after any app was opened.
pub add_recent-once :
    (m : Text) (s : AppSwitcher)
    → ((n : Text) → occurrences n s.recent ≤ 1)
    → (n : Text) → occurrences n (add_recent m s).recent ≤ 1
add_recent-once m s h n =
    rw (add_recent-take m s) (
      omega (arith, h n, occurrences-take n 7 (remove m s.recent), occurrences-remove n m s.recent))
