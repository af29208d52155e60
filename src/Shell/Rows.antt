-- ===== src/Shell/Rows.antt =====
-- The rows of the settings page of src/julius_ui.py: they do not overlap, so a tap reaches one.
use julius_os.Prelude.{
  ℕ, zero, suc, ◌+◌, ◌≡◌, refl, sym, ap, subst, ◌∙◌, Bool, true, false, ◌&&◌, some, List, [], ◌∷◌,
  ◌++◌, get_elem?, arith,
}
use mathlib.Core.Option.{some-injective}
use julius_os.Prelude.Int.{ℤ, pos, ◌+ℤ◌, ◌≤ℤ◌, sub_ℕ, ltb_ℤ}
use julius_os.Events.{Pos}
use julius_os.Shell.Settings.{
  Item, Settings, Placed, settings_sections, place_items, after_items, place_sections, joined,
  items_flat, tap_item, on_row, handle_settings_tap,
}

-- The rows start at y or below, each at least 40 below the one before.
abbrev IsSpaced : ℤ → List Placed → Type 0
IsSpaced y [] = Unit {0}
IsSpaced y (e ∷ es) = (y ≤ℤ e.y) × IsSpaced (e.y +ℤ pos 40) es

le_trans_ℤ : (a b c : ℤ) → a ≤ℤ b → b ≤ℤ c → a ≤ℤ c
le_trans_ℤ a b c h k = omega arith

le_add_ℤ : (a : ℤ) (m n : ℕ) → a +ℤ pos m ≤ℤ a +ℤ pos (m + n)
le_add_ℤ a m n = ground arith

le_self_add_ℤ : (a : ℤ) (n : ℕ) → a ≤ℤ a +ℤ pos n
le_self_add_ℤ a n = ground arith

IsSpaced-from : (y z : ℤ) (es : List Placed) → z ≤ℤ y → IsSpaced y es → IsSpaced z es
IsSpaced-from y z [] h k = tt
IsSpaced-from y z (e ∷ es) h k = (le_trans_ℤ z y e.y h k.0, k.1)

place_items-IsSpaced :
    (y : ℤ) (is : List Item) (rest : List Placed)
    → IsSpaced (after_items y is) rest
    → IsSpaced y (place_items y is ++ rest)
unfolding place_items after_items
place_items-IsSpaced y [] rest h = h
place_items-IsSpaced y (i ∷ is) rest h = (
  omega arith,
  IsSpaced-from (y +ℤ pos 44) (y +ℤ pos 40) (place_items (y +ℤ pos 44) is ++ rest) (le_add_ℤ y 40 4)
      (place_items-IsSpaced (y +ℤ pos 44) is rest h),
)

place_sections-IsSpaced :
    (y : ℤ) (ss : List (List Item)) → IsSpaced y (joined (place_sections y ss))
unfolding place_sections joined
place_sections-IsSpaced y [] = tt
place_sections-IsSpaced y (s ∷ ss) =
    let end = after_items (y +ℤ pos 22) s in
    let below = place_sections-IsSpaced (end +ℤ pos 8) ss in
    let rest = joined (place_sections (end +ℤ pos 8) ss) in
    IsSpaced-from (y +ℤ pos 22) y (place_items (y +ℤ pos 22) s ++ rest) (le_self_add_ℤ y 22) (
      place_items-IsSpaced (y +ℤ pos 22) s rest
        (IsSpaced-from (end +ℤ pos 8) end rest (le_self_add_ℤ end 8) below))

IsSpaced-get_elem? :
    (y : ℤ) (es : List Placed) (k : ℕ) (e : Placed)
    → IsSpaced y es
    → get_elem? es k ≡ some e
    → y ≤ℤ e.y
IsSpaced-get_elem? y [] k e h at = cc
IsSpaced-get_elem? y (d ∷ es) zero e h at =
    subst (λ (q : Placed). y ≤ℤ q.y) (some-injective d e at) h.0
IsSpaced-get_elem? y (d ∷ es) (suc k) e h at = le_trans_ℤ y d.y e.y h.0 (
    le_trans_ℤ d.y (d.y +ℤ pos 40) e.y (le_self_add_ℤ d.y 40)
      (IsSpaced-get_elem? (d.y +ℤ pos 40) es k e h.1 at))

-- A position above a row, or at its top, is not on it; nor is one below it.
above_row : (p : Pos) (e : Placed) → p.1 ≤ℤ e.y → on_row p e ≡ false
unfolding on_row
above_row p e h = ground arith

both : (a b : Bool) → (a && b) ≡ true → (a ≡ true) × (b ≡ true)
both true b h = (refl, h)
both false b h = cc

neither : (a b : Bool) → b ≡ false → (a && b) ≡ false
neither true b h = h
neither false b h = refl

ltb→le_ℤ : (a b : ℤ) → ltb_ℤ a b ≡ true → a ≤ℤ b
ltb→le_ℤ a b h = ground arith

ltb_ℤ-le : (a b : ℤ) → b ≤ℤ a → ltb_ℤ a b ≡ false
ltb_ℤ-le a b h = ground arith

on_row-within : (p : Pos) (e : Placed) → on_row p e ≡ true → (e.y ≤ℤ p.1) × (p.1 ≤ℤ e.y +ℤ pos 40)
unfolding on_row
on_row-within p e h =
    let sides = both (ltb_ℤ e.y p.1) (ltb_ℤ p.1 (e.y +ℤ pos 40)) h in
    (ltb→le_ℤ e.y p.1 sides.0, ltb→le_ℤ p.1 (e.y +ℤ pos 40) sides.1)

below_row : (p : Pos) (d : Placed) → d.y +ℤ pos 40 ≤ℤ p.1 → on_row p d ≡ false
unfolding on_row
below_row p d h =
    neither (ltb_ℤ d.y p.1) (ltb_ℤ p.1 (d.y +ℤ pos 40)) (ltb_ℤ-le p.1 (d.y +ℤ pos 40) h)

tap-above :
    (bridge : Bool) (p : Pos) (y : ℤ) (es : List Placed) (s : Settings)
    → IsSpaced y es
    → p.1 ≤ℤ y
    → handle_settings_tap bridge p es s ≡ s
unfolding handle_settings_tap
tap-above bridge p y [] s h k = refl
tap-above bridge p y (e ∷ es) s h k =
    let at_top = le_trans_ℤ p.1 y e.y k h.0 in
    rw (above_row p e at_top) (
      tap-above bridge p (e.y +ℤ pos 40) es s h.1
        (le_trans_ℤ p.1 e.y (e.y +ℤ pos 40) at_top (le_self_add_ℤ e.y 40)))

tap-spaced :
    (bridge : Bool) (p : Pos) (y : ℤ) (es : List Placed) (s : Settings) (k : ℕ) (e : Placed)
    → IsSpaced y es
    → get_elem? es k ≡ some e
    → on_row p e ≡ true
    → handle_settings_tap bridge p es s ≡ tap_item bridge p.0 e.item s
unfolding handle_settings_tap
tap-spaced bridge p y [] s k e h at on = cc
tap-spaced bridge p y (d ∷ es) s zero e h at on =
    let same : d ≡ e = some-injective d e at in
    let on_d : on_row p d ≡ true = subst (λ q. on_row p q ≡ true) (sym same) on in
    let reached = on_row-within p d on_d in
    rw on_d (
      tap-above bridge p (d.y +ℤ pos 40) es (tap_item bridge p.0 d.item s) h.1 reached.1
      ∙ ap (λ (q : Placed). tap_item bridge p.0 q.item s) same)
tap-spaced bridge p y (d ∷ es) s (suc k) e h at on =
    let under = IsSpaced-get_elem? (d.y +ℤ pos 40) es k e h.1 at in
    let reached = on_row-within p e on in
    rw (below_row p d (le_trans_ℤ (d.y +ℤ pos 40) e.y p.1 under reached.0))
      (tap-spaced bridge p (d.y +ℤ pos 40) es s k e h.1 at on)

-- However far the settings page is scrolled, a tap on the place of one of its rows does what the
-- tap does to that row's setting, and nothing to another row's.
pub handle_settings_tap-row :
    (bridge : Bool) (p : Pos) (scroll : ℕ) (s : Settings) (k : ℕ) (e : Placed)
    → get_elem? (items_flat scroll) k ≡ some e
    → on_row p e ≡ true
    → handle_settings_tap bridge p (items_flat scroll) s ≡ tap_item bridge p.0 e.item s
unfolding items_flat
handle_settings_tap-row bridge p scroll s k e at on =
    tap-spaced bridge p (sub_ℕ 70 scroll)
      (joined (place_sections (sub_ℕ 70 scroll) settings_sections)) s k e
      (place_sections-IsSpaced (sub_ℕ 70 scroll) settings_sections) at on
