-- ===== src/System/Drop/Touch.antt =====
-- The devices nearby and the panel of src/system/julius_drop.py.
use julius_os.Prelude.{
  ℕ, zero, suc, ◌+◌, ◌*◌, ◌≤◌, ◌<◌, ◌≡◌, refl, ap, ◌∙◌, Bool, true, false, ◌||◌, Option, none, some,
  List, [], ◌∷◌, ◌++◌, arith, get_elem?, if◌then◌else◌,
}
use julius_os.Prelude.Int.{pos}
use julius_os.Prelude.Text.{Text, text_eq, text_eq_sym}
use julius_os.Events.{Pos}
use julius_os.Geometry.{rect}
use julius_os.System.Drop.{
  Device, Drop, is_known, beacon_heard, select_file, cards, draw, on_button, touched, selected,
  touch_cards, handle_touch,
}

-- No device is listed twice, and this one not at all.
abbrev pub AllDistinct : List Device → Type 0
AllDistinct [] = Unit
AllDistinct (d ∷ ds) = (is_known d.ip ds ≡ false) × AllDistinct ds

abbrev pub AllOther : Text → List Device → Type 0
AllOther own ds = is_known own ds ≡ false

is_known-snoc :
    (ip : Text) (ds : List Device) (d : Device)
    → is_known ip (ds ++ d ∷ []) ≡ (is_known ip ds || text_eq ip d.ip)
unfolding is_known
is_known-snoc ip [] d = ground arith
is_known-snoc ip (x ∷ ds) d = ground (arith, is_known-snoc ip ds d)

AllDistinct-snoc :
    (ds : List Device) (d : Device)
    → AllDistinct ds
    → is_known d.ip ds ≡ false
    → AllDistinct (ds ++ d ∷ [])
unfolding is_known
AllDistinct-snoc [] d h k = (refl, tt)
AllDistinct-snoc (x ∷ ds) d h k = (
  ground (arith, is_known-snoc x.ip ds d, text_eq_sym x.ip d.ip),
  AllDistinct-snoc ds d h.1 (ground arith),
)

-- If no address is listed twice and the device's own not at all, the same holds after any
-- datagram.
pub beacon_heard-AllDistinct :
    (own : Text) (o : Option Device) (s : Drop)
    → AllDistinct s.nearby × AllOther own s.nearby
    → AllDistinct (beacon_heard own o s).nearby × AllOther own (beacon_heard own o s).nearby
unfolding beacon_heard
beacon_heard-AllDistinct own none s h = h
beacon_heard-AllDistinct own (some d) s h =
    on_own (text_eq d.ip own) (is_known d.ip s.nearby) refl refl
  where
    Kept : Drop → Type 0
    Kept s' = AllDistinct s'.nearby × AllOther own s'.nearby

    on_own :
        (b c : Bool)
        → text_eq d.ip own ≡ b
        → is_known d.ip s.nearby ≡ c
        → Kept (if b then s else if c then s else record s { nearby = s.nearby ++ d ∷ [] })
    on_own true c e f = h
    on_own false true e f = h
    on_own false false e f = (
      AllDistinct-snoc s.nearby d h.0 f,
      ground (arith, is_known-snoc own s.nearby d, text_eq_sym own d.ip),
    )

-- The height at which the card of the i-th device begins.
abbrev pub card_y : ℕ → ℕ
card_y i = 116 + 52 * i

-- A touch on the button of a later card is not on that of the first one.
not_on_first :
    (y k : ℕ) (p : Pos)
    → y + 52 ≤ k
    → on_button p (rect (pos 8) (pos k) (pos 304) (pos 46)) ≡ true
    → on_button p (rect (pos 8) (pos y) (pos 304) (pos 46)) ≡ false
unfolding on_button
not_on_first y k p h b = ground arith

-- Of a touch on the button of the i-th card the loop finds that card.
touched-cards :
    (n y i k : ℕ) (ds : List Device) (d : Device) (p : Pos)
    → i < n
    → get_elem? ds i ≡ some d
    → k ≡ y + 52 * i
    → on_button p (rect (pos 8) (pos k) (pos 304) (pos 46)) ≡ true
    → touched p (cards n y ds) ≡ some d.ip
unfolding touched cards
touched-cards zero y i k ds d p h e at b = absurd (omega arith)
touched-cards (suc n) y i k [] d p h e at b = cc
touched-cards (suc n) y zero k (x ∷ ds) d p h e at b =
    let here =
      ap (λ v. on_button p (rect (pos 8) (pos v) (pos 304) (pos 46))) {x = y} {y = k} (omega arith)
      ∙ b in
    rw here (
      ap (λ (o : Option Device). elim o as (λ _. Option Text) [ none ↦ none | some v ↦ some v.ip ])
        e)
touched-cards (suc n) y (suc i) k (x ∷ ds) d p h e at b =
    rw (not_on_first y k p (omega arith) b)
      (touched-cards n (y + 52) i k ds d p (omega arith) e (omega arith) b)

-- If the panel is shown and was drawn with its devices, a touch on the button of one of the first
-- four asks for a file for that device, and changes nothing else.
pub touch-selects :
    (s : Drop) (i : ℕ) (d : Device) (p : Pos)
    → s.visible ≡ true
    → i < 4
    → get_elem? s.nearby i ≡ some d
    → on_button p (rect (pos 8) (pos (card_y i)) (pos 304) (pos 46)) ≡ true
    → handle_touch p (draw s) ≡ record (draw s) { status = select_file d.ip }
unfolding handle_touch draw touch_cards selected
touch-selects s i d p v h e b =
    rw (v, touched-cards 4 116 i (card_y i) s.nearby d p h e refl b) refl
