-- ===== src/Apps/TextEditor/Lines.antt =====
-- The text on either side of a place in a list of lines, and how the edits of one line move it.
use mathlib.Core.Option.{some-injective}
use mathlib.Core.List.{append_assoc, append-nil}
use julius_os.Prelude.{
  ℕ, zero, suc, ◌<◌, ◌≡◌, refl, sym, ap, ◌∙◌, some, List, [], ◌∷◌, ◌++◌, arith, length, get_elem?,
  set, take, drop, erase_at, take-append-drop,
}
use julius_os.Prelude.Text.{Text}
use julius_os.Apps.TextEditor.{newline_char, insert_at, join}

-- The lines below, each behind its line break.
abbrev pub below : List Text → Text
below [] = []
below (l ∷ ls) = newline_char ∷ (l ++ below ls)

-- The text before column `x` of row `y`, and the text behind it.
abbrev pub before : List Text → ℕ → ℕ → Text
before [] y x = []
before (l ∷ ls) zero x = take x l
before (l ∷ ls) (suc y) x = l ++ newline_char ∷ before ls y x

abbrev pub behind : List Text → ℕ → ℕ → Text
behind [] y x = []
behind (l ∷ ls) zero x = drop x l ++ below ls
behind (l ∷ ls) (suc y) x = behind ls y x

join-cons : (l : Text) (ls : List Text) → join (l ∷ ls) ≡ l ++ below ls
unfolding join
join-cons l [] = sym (append-nil l)
join-cons l (m ∷ ls) = ap (λ t. l ++ newline_char ∷ t) (join-cons m ls)

-- The two sides make up the text.
pub join-before-behind :
    (ls : List Text) (y x : ℕ) → y < length ls → join ls ≡ before ls y x ++ behind ls y x
unfolding join
join-before-behind [] y x h = elim h [ ]
join-before-behind (l ∷ ls) zero x h =
    join-cons l ls
    ∙ ap (λ t. t ++ below ls) (sym (take-append-drop x l))
    ∙ append_assoc (take x l) (drop x l) (below ls)
join-before-behind (l ∷ []) (suc y) x h = absurd (omega arith)
join-before-behind (l ∷ m ∷ ls) (suc y) x h =
    ap (λ t. l ++ newline_char ∷ t) (join-before-behind (m ∷ ls) y x (omega arith))
    ∙ sym (append_assoc l (newline_char ∷ before (m ∷ ls) y x) (behind (m ∷ ls) y x))

take_long : (a b : Text) (n : ℕ) → length a ≡ n → take n (a ++ b) ≡ a
take_long [] b zero e = refl
take_long [] b (suc n) e = absurd (omega arith)
take_long (x ∷ a) b zero e = absurd (omega arith)
take_long (x ∷ a) b (suc n) e = ap (λ t. x ∷ t) (take_long a b n (omega arith))

drop_long : (a b : Text) (n : ℕ) → length a ≡ n → drop n (a ++ b) ≡ b
drop_long [] b zero e = refl
drop_long [] b (suc n) e = absurd (omega arith)
drop_long (x ∷ a) b zero e = absurd (omega arith)
drop_long (x ∷ a) b (suc n) e = drop_long a b n (omega arith)

-- The part of `before` above the row, and of `behind` below it.
abbrev pub above : List Text → ℕ → Text
above ls y = before ls y 0

abbrev pub rest : List Text → ℕ → Text
rest [] y = []
rest (l ∷ ls) zero = below ls
rest (l ∷ ls) (suc y) = rest ls y

pub before-split :
    (ls : List Text) (y x : ℕ) {l : Text}
    → get_elem? ls y ≡ some l
    → before ls y x ≡ above ls y ++ take x l
before-split [] y x e = cc
before-split (m ∷ ls) zero x {l} e = ap (λ t. take x t) (some-injective m l e)
before-split (m ∷ ls) (suc y) x {l} e =
    ap (λ t. m ++ newline_char ∷ t) (before-split ls y x e)
    ∙ sym (append_assoc m (newline_char ∷ above ls y) (take x l))

pub behind-split :
    (ls : List Text) (y x : ℕ) {l : Text}
    → get_elem? ls y ≡ some l
    → behind ls y x ≡ drop x l ++ rest ls y
behind-split [] y x e = cc
behind-split (m ∷ ls) zero x {l} e = ap (λ t. drop x t ++ below ls) (some-injective m l e)
behind-split (m ∷ ls) (suc y) x e = behind-split ls y x e

pub get_elem?-set :
    (ls : List Text) (y : ℕ) (v : Text) → y < length ls → get_elem? (set ls y v) y ≡ some v
get_elem?-set [] y v h = elim h [ ]
get_elem?-set (m ∷ ls) zero v h = refl
get_elem?-set (m ∷ ls) (suc y) v h = get_elem?-set ls y v (omega arith)

pub above-set : (ls : List Text) (y : ℕ) (v : Text) → above (set ls y v) y ≡ above ls y
above-set [] y v = refl
above-set (m ∷ ls) zero v = refl
above-set (m ∷ ls) (suc y) v = ap (λ t. m ++ newline_char ∷ t) (above-set ls y v)

pub rest-set : (ls : List Text) (y : ℕ) (v : Text) → rest (set ls y v) y ≡ rest ls y
rest-set [] y v = refl
rest-set (m ∷ ls) zero v = refl
rest-set (m ∷ ls) (suc y) v = rest-set ls y v

-- The line of row `y` becomes `left ++ right`, with the cursor between the two.
module _ (ls : List Text) (y x : ℕ) (left right : Text) (here : y < length ls)
    (at : length left ≡ x) where
  pub before-set : before (set ls y (left ++ right)) y x ≡ above ls y ++ left
  before-set =
      before-split (set ls y (left ++ right)) y x (get_elem?-set ls y (left ++ right) here)
      ∙ rw (above-set ls y (left ++ right), take_long left right x at) refl

  pub behind-set : behind (set ls y (left ++ right)) y x ≡ right ++ rest ls y
  behind-set =
      behind-split (set ls y (left ++ right)) y x (get_elem?-set ls y (left ++ right) here)
      ∙ rw (rest-set ls y (left ++ right), drop_long left right x at) refl

-- The line of row `y` is broken in two, and the cursor stands at the start of the second.
module _ (left right : Text) where
  pub before-break :
      (ls : List Text) (y : ℕ)
      → y < length ls
      → before (insert_at (set ls y left) (suc y) right) (suc y) 0
        ≡ above ls y ++ (left ++ newline_char ∷ [])
  before-break [] y h = elim h [ ]
  before-break (l ∷ ls) zero h = refl
  before-break (l ∷ ls) (suc y) h =
      ap (λ t. l ++ newline_char ∷ t) (before-break ls y (omega arith))
      ∙ sym (append_assoc l (newline_char ∷ above ls y) (left ++ newline_char ∷ []))

  pub behind-break :
      (ls : List Text) (y : ℕ)
      → y < length ls
      → behind (insert_at (set ls y left) (suc y) right) (suc y) 0 ≡ right ++ rest ls y
  behind-break [] y h = elim h [ ]
  behind-break (l ∷ ls) zero h = refl
  behind-break (l ∷ ls) (suc y) h = behind-break ls y (omega arith)

-- The line of row `y + 1` joins the line above it, and the cursor stands between the two.
module _ (prev line : Text) where
  pub before-join :
      (ls : List Text) (y : ℕ)
      → get_elem? ls y ≡ some prev
      → get_elem? ls (suc y) ≡ some line
      → before (erase_at (set ls y (prev ++ line)) (suc y)) y (length prev) ++ newline_char ∷ []
        ≡ before ls (suc y) 0
  before-join [] y p q = cc
  before-join (l ∷ []) zero p q = cc
  before-join (l ∷ m ∷ ls) zero p q =
      rw (take_long prev line (length prev) refl, some-injective l prev p) refl
  before-join (l ∷ ls) (suc y) p q =
      append_assoc l
        (newline_char ∷ before (erase_at (set ls y (prev ++ line)) (suc y)) y (length prev))
        (newline_char ∷ [])
      ∙ ap (λ t. l ++ newline_char ∷ t) (before-join ls y p q)

  pub behind-join :
      (ls : List Text) (y : ℕ)
      → get_elem? ls y ≡ some prev
      → get_elem? ls (suc y) ≡ some line
      → behind (erase_at (set ls y (prev ++ line)) (suc y)) y (length prev) ≡ behind ls (suc y) 0
  behind-join [] y p q = cc
  behind-join (l ∷ []) zero p q = cc
  behind-join (l ∷ m ∷ ls) zero p q =
      rw (drop_long prev line (length prev) refl, some-injective m line q) refl
  behind-join (l ∷ ls) (suc y) p q = behind-join ls y p q

pub before-start : (ls : List Text) → before ls 0 0 ≡ []
before-start [] = refl
before-start (l ∷ ls) = refl

-- The last character of a nonempty part of a line.
pub take-suc : (n : ℕ) (l : Text) → n < length l → (c : ℕ) × (take (suc n) l ≡ take n l ++ c ∷ [])
take-suc n [] h = elim h [ ]
take-suc zero (c ∷ l) h = (c, refl)
take-suc (suc n) (d ∷ l) h = let (c, e) = take-suc n l (omega arith) in (c, ap (λ t. d ∷ t) e)
