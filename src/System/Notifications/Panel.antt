-- ===== src/System/Notifications/Panel.antt =====
-- The panel of src/system/notification_center.py: what `draw` lays out, and what touches do.
use julius_os.Prelude.{
  ℕ, zero, suc, ◌+◌, ◌*◌, ◌≡◌, ◌≢◌, ◌↔◌, refl, sym, subst, ap, ◌∙◌, Bool, true, false, ◌&&◌, Option,
  none, some, List, [], ◌∷◌, length, get_elem?, ltb, ◌==◌, if◌then◌else◌, arith, inl, inr,
  Bool-cases,
}
use mathlib.Core.Option.{some-injective}
use julius_os.Prelude.Int.{ℤ, pos, ◌+ℤ◌, ◌-ℤ◌, ◌≤ℤ◌, sub_ℕ, ltb_ℤ, leb_ℤ}
use julius_os.Events.{Pos}
use julius_os.Geometry.{Rect, rect, hits}
use julius_os.Outcome.{Outcome, done, raised, after}
use julius_os.System.Notifications.{
  Notif, NotificationCenter, panel_h, rows, slid, draw, touched_row, touch_rows, touch_panel,
  handle_touch, mark_read,
}

abbrev pub Fails : Outcome NotificationCenter → Type 0
Fails (done s) = ⊥
Fails (raised s) = Unit {0}

-- With exactly five notifications the panel is as high as the rows, and the scroll indicator
-- divides by zero.
five-panel_h :
    (ns : List Notif) → (ltb 4 (length ns) && length ns * 72 == panel_h ns) ≡ length ns == 5
unfolding panel_h
five-panel_h ns = ground arith

-- Drawing raises an exception exactly when the panel is shown with five notifications.
pub draw-Fails :
    (W clear_w : ℕ) (s : NotificationCenter)
    → Fails (draw W clear_w s) ↔ (s.visible ≡ true) × (length s.notifs ≡ 5)
unfolding draw
draw-Fails W clear_w s = on_notifs s.visible s.notifs refl refl
  where
    on_notifs :
        (b : Bool) (ns : List Notif)
        → s.visible ≡ b
        → s.notifs ≡ ns
        → Fails (draw W clear_w s) ↔ (s.visible ≡ true) × (length s.notifs ≡ 5)
    on_notifs false ns v e = rw (v, draw) ((λ f. absurd f), λ h. cc)
    on_notifs true [] v e = rw (v, e, draw) ((λ f. absurd f), λ h. cc)
    on_notifs true (n ∷ ns) v e = elim (Bool-cases (length s.notifs == 5)) [
      | inl five ↦
          rw (v, e, draw, five-panel_h s.notifs, five) ((λ f. (refl, ground arith)), λ h. tt)
      | inr other ↦
          rw (v, e, draw, five-panel_h s.notifs, other) ((λ f. absurd f), λ h. ground arith)
    ]

le_shift : (y z : ℤ) (a : ℕ) → y +ℤ pos a ≤ℤ z → y ≤ℤ z
le_shift y z a h = ground arith

if-some : (b : Bool) {q r : Rect} → (if b then none else some q) ≡ some r → q ≡ r
if-some true e = cc
if-some false e = some-injective _ _ e

rows-below :
    (W : ℕ) (py : ℤ) (h : ℕ) (y : ℤ) (ns : List Notif) (i : ℕ) (r : Rect)
    → get_elem? (rows W py h y ns) i ≡ some (some r)
    → y ≤ℤ r.y
unfolding rows
rows-below W py h y [] i r e = cc
rows-below W py h y (n ∷ ns) zero r e =
    same (ap (λ (q : Rect). q.y) (if-some _ (some-injective _ _ e)))
  where
    same : y ≡ r.y → y ≤ℤ r.y
    same k = rw k (omega arith)
rows-below W py h y (n ∷ ns) (suc i) r e =
    le_shift y r.y 72 (rows-below W py h (y +ℤ pos 72) ns i r e)

leb-above : (a b : ℤ) → a +ℤ pos 1 ≤ℤ b → leb_ℤ b a ≡ false
leb-above a b h = ground arith

hits-top : (r : Rect) (p : Pos) → hits r p ≡ true → leb_ℤ r.y p.1 ≡ true
unfolding hits
hits-top r p h = ground arith

le-leb : (a b : ℤ) → leb_ℤ a b ≡ true → a ≤ℤ b
le-leb a b h = ground arith

gap : (y z w : ℤ) → y +ℤ pos 72 ≤ℤ z → z ≤ℤ w → y +ℤ pos 66 +ℤ pos 1 ≤ℤ w
gap y z w h k = le_trans_ℤ _ z w (gap_here y z h) k
  where
    gap_here : (y z : ℤ) → y +ℤ pos 72 ≤ℤ z → y +ℤ pos 66 +ℤ pos 1 ≤ℤ z
    gap_here y z h = ground arith

    le_trans_ℤ : (a b c : ℤ) → a ≤ℤ b → b ≤ℤ c → a ≤ℤ c
    le_trans_ℤ a b c h k = omega arith

hits-above : (q : Rect) (p : Pos) → q.y +ℤ q.h +ℤ pos 1 ≤ℤ p.1 → hits q p ≡ false
unfolding hits
hits-above q p h = let low = leb-above (q.y +ℤ q.h) p.1 h in ground arith

row_hit :
    (k : ℕ) (p : Pos) (b : Bool) (q r : Rect) (rs : List (Option Rect))
    → (if b then none else some q) ≡ some r
    → hits r p ≡ true
    → touched_row k p ((if b then none else some q) ∷ rs) ≡ some k
unfolding touched_row
row_hit k p true q r rs e t = cc
row_hit k p false q r rs e t =
    let on_q : hits q p ≡ true = subst (λ v. hits v p ≡ true) (sym (some-injective q r e)) t in
    rw on_q refl

row_miss :
    (k : ℕ) (p : Pos) (b : Bool) (q : Rect) (rs : List (Option Rect))
    → hits q p ≡ false
    → touched_row k p ((if b then none else some q) ∷ rs) ≡ touched_row (suc k) p rs
unfolding touched_row
row_miss k p true q rs t = refl
row_miss k p false q rs t = rw t refl

-- The rows do not overlap: a position in the rectangle of row i finds row i.
touched_row-rows :
    (W : ℕ) (py : ℤ) (h : ℕ) (p : Pos) (r : Rect) (k : ℕ) (y : ℤ) (ns : List Notif) (i : ℕ)
    → get_elem? (rows W py h y ns) i ≡ some (some r)
    → hits r p ≡ true
    → touched_row k p (rows W py h y ns) ≡ some (i + k)
unfolding rows
touched_row-rows W py h p r k y [] i e t = cc
touched_row-rows W py h p r k y (n ∷ ns) zero e t =
    row_hit k p _ _ r (rows W py h (y +ℤ pos 72) ns) (some-injective _ _ e) t
    ∙ ap some (omega arith)
touched_row-rows W py h p r k y (n ∷ ns) (suc i) e t =
    let below = rows-below W py h (y +ℤ pos 72) ns i r e in
    let reached = le-leb r.y p.1 (hits-top r p t) in
    row_miss k p _ (rect (pos 8) y (sub_ℕ W 16) (pos 66)) (rows W py h (y +ℤ pos 72) ns)
      (hits-above (rect (pos 8) y (sub_ℕ W 16) (pos 66)) p (gap y r.y p.1 below reached))
    ∙ touched_row-rows W py h p r (suc k) (y +ℤ pos 72) ns i e t
    ∙ ap some (omega arith)

abbrev pub drawn : ℕ → ℕ → NotificationCenter → NotificationCenter
drawn W clear_w s = after (draw W clear_w s)

abbrev laid_rows : ℕ → NotificationCenter → List (Option Rect)
laid_rows W s =
    rows W (slid s.y_offset +ℤ pos 36) (panel_h s.notifs)
      ((slid s.y_offset +ℤ pos 36 +ℤ pos 44) -ℤ pos s.scroll) s.notifs

-- Where `draw` puts the rows of a panel that is shown and not empty, and that it stays shown.
draw-rows :
    (W clear_w : ℕ) (s : NotificationCenter)
    → s.visible ≡ true
    → s.notifs ≢ []
    → ((drawn W clear_w s).notif_rects ≡ some (laid_rows W s))
      × ((drawn W clear_w s).visible ≡ true)
unfolding draw
draw-rows W clear_w s v some_notif = on_notifs s.notifs refl
  where
    on_zero :
        (b : Bool)
        → (ltb 4 (length s.notifs) && length s.notifs * 72 == panel_h s.notifs) ≡ b
        → (n : Notif) (ns : List Notif) → s.notifs ≡ n ∷ ns
        → ((drawn W clear_w s).notif_rects ≡ some (laid_rows W s))
          × ((drawn W clear_w s).visible ≡ true)
    on_zero true k n ns e = (ground arith, ground arith)
    on_zero false k n ns e = (ground arith, ground arith)

    on_notifs :
        (ns : List Notif)
        → s.notifs ≡ ns
        → ((drawn W clear_w s).notif_rects ≡ some (laid_rows W s))
          × ((drawn W clear_w s).visible ≡ true)
    on_notifs [] e = absurd (some_notif e)
    on_notifs (n ∷ ns) e =
        on_zero (ltb 4 (length s.notifs) && length s.notifs * 72 == panel_h s.notifs) refl n ns e

touch_panel-row :
    (p : Pos) (s : NotificationCenter) (rs : List (Option Rect)) (i : ℕ)
    → s.notif_rects ≡ some rs
    → touched_row 0 p rs ≡ some i
    → ((cr : Rect) → s.clear_rect ≡ some cr → hits cr p ≡ false)
    → touch_panel p s ≡ mark_read i s
unfolding touch_panel touch_rows
touch_panel-row p s rs i laid found off = on_clear s.clear_rect refl
  where
    on_clear : (o : Option Rect) → s.clear_rect ≡ o → touch_panel p s ≡ mark_read i s
    on_clear none e = ground arith
    on_clear (some cr) e = let missed = off cr e in ground arith

-- If the panel was shown and not empty when it was drawn, then a touch inside the rectangle of
-- notification i, not below the panel and not on the word Clear, is what `mark_read` of i does,
-- and answers True.
pub touch-marks :
    (W clear_w : ℕ) (s : NotificationCenter) (rs : List (Option Rect)) (r : Rect) (i : ℕ) (p : Pos)
    → s.visible ≡ true
    → s.notifs ≢ []
    → (drawn W clear_w s).notif_rects ≡ some rs
    → get_elem? rs i ≡ some (some r)
    → hits r p ≡ true
    → ((cr : Rect) → (drawn W clear_w s).clear_rect ≡ some cr → hits cr p ≡ false)
    → ltb_ℤ
        (((drawn W clear_w s).y_offset +ℤ pos 36) +ℤ pos (panel_h (drawn W clear_w s).notifs))
        p.1
      ≡ false
    → handle_touch p (drawn W clear_w s) ≡ (mark_read i (drawn W clear_w s), true)
unfolding handle_touch
touch-marks W clear_w s rs r i p v some_notif laid at on off above =
    let same : laid_rows W s ≡ rs =
      some-injective _ _ (sym (draw-rows W clear_w s v some_notif).0 ∙ laid) in
    let found : touched_row 0 p rs ≡ some i =
      subst (λ q. touched_row 0 p q ≡ some i) same
        (touched_row-rows W _ _ p r 0 _ s.notifs i
            (subst (λ q. get_elem? q i ≡ some (some r)) (sym same) at) on
          ∙ ap some (omega arith)) in
    rw
      (
        (draw-rows W clear_w s v some_notif).1,
        above,
        touch_panel-row p (drawn W clear_w s) rs i laid found off,
      )
      refl
