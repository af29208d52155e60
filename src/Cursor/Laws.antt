-- ===== src/Cursor/Laws.antt =====
-- What the two arrow keys keep, and which row is drawn as the selected one.
use julius_os.Prelude.{
  ℕ, zero, suc, ◌+◌, ◌-◌, ◌<◌, ◌≡◌, refl, ◌∙◌, ap, true, some, List, [], ◌∷◌, arith, get_elem?,
  take, drop,
}
use julius_os.Cursor.{Cursor, down, up, retreat, mark, rows, IsShown, IsWithin}

pub down-IsShown :
    (page len : ℕ) {c : Cursor} → 0 < page → IsShown page c → IsShown page (down page len c)
unfolding down
down-IsShown page len p h = ground arith

pub up-IsShown : (page : ℕ) {c : Cursor} → IsShown page c → IsShown page (up c)
unfolding up
up-IsShown page h = ground arith

pub down-IsWithin : (page len : ℕ) (c : Cursor) → IsWithin len c → IsWithin len (down page len c)
unfolding down
down-IsWithin page len c h = ground arith

pub up-IsWithin : (len : ℕ) (c : Cursor) → IsWithin len c → IsWithin len (up c)
unfolding up
up-IsWithin len c h = ground arith

-- After one row is gone the cursor is still within.
pub retreat-IsWithin : (len : ℕ) (c : Cursor) → IsWithin (suc len) c → IsWithin len (retreat c)
unfolding retreat
retreat-IsWithin len c h = omega arith

get_elem?-mark :
    {A : Type 0} (i sel k : ℕ) (xs : List A) (x : A)
    → get_elem? xs k ≡ some x
    → i + k ≡ sel
    → get_elem? (mark i sel xs) k ≡ some (x, true)
unfolding mark
get_elem?-mark i sel k [] x e h = cc
get_elem?-mark i sel zero (y ∷ xs) x e h = ground arith
get_elem?-mark i sel (suc k) (y ∷ xs) x e h = get_elem?-mark (i + 1) sel k xs x e (omega arith)

get_elem?-take :
    {A : Type 0} (n k : ℕ) (xs : List A) → k < n → get_elem? (take n xs) k ≡ get_elem? xs k
get_elem?-take zero k xs h = elim h [ ]
get_elem?-take (suc n) k [] h = refl
get_elem?-take (suc n) zero (x ∷ xs) h = refl
get_elem?-take (suc n) (suc k) (x ∷ xs) h = get_elem?-take n k xs (omega arith)

get_elem?-drop :
    {A : Type 0} (n k : ℕ) (xs : List A) → get_elem? (drop n xs) k ≡ get_elem? xs (n + k)
get_elem?-drop zero k xs = ap (get_elem? xs) (omega arith)
get_elem?-drop (suc n) k [] = refl
get_elem?-drop (suc n) k (x ∷ xs) =
    get_elem?-drop n k xs ∙ ap (get_elem? (x ∷ xs)) {x = suc (n + k)} (omega arith)

-- A cursor that is shown and within: the row drawn as selected is the item that the keys act on.
pub rows-selected :
    {A : Type 0} (page : ℕ) (c : Cursor) (xs : List A) (x : A)
    → IsShown page c
    → get_elem? xs c.selected ≡ some x
    → get_elem? (rows page c xs) (c.selected - c.scroll) ≡ some (x, true)
unfolding rows
rows-selected page c xs x h e =
    get_elem?-mark c.scroll c.selected (c.selected - c.scroll) (take page (drop c.scroll xs)) x
      (get_elem?-take page (c.selected - c.scroll) (drop c.scroll xs) (omega arith)
        ∙ get_elem?-drop c.scroll (c.selected - c.scroll) xs
        ∙ ap (get_elem? xs) (omega arith)
        ∙ e)
      (omega arith)

-- Removing the topmost row of a scrolled window leaves the selection above the window.
pub retreat_hides :
    (page : ℕ) (c : Cursor) → c.selected ≡ c.scroll → 0 < c.scroll → ¬ IsShown page (retreat c)
unfolding retreat
retreat_hides page c e h shown = omega arith
