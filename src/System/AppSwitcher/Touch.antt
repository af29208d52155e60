-- ===== src/System/AppSwitcher/Touch.antt =====
-- What a touch of the laid out cards returns.
use julius_os.Prelude.{
  ℕ, ◌+◌, ◌≡◌, ◌≢◌, refl, subst, ◌⊎◌, inl, inr, Bool, true, false, Option, none, some, List, [],
  ◌∷◌, arith, if◌then◌else◌, Bool-cases, length,
}
use julius_os.Prelude.Int.{ℤ}
use julius_os.Prelude.Text.{Text, codes, text_eq_refl}
use julius_os.Events.{Pos}
use julius_os.Geometry.{hits}
use julius_os.Outcome.{Outcome, done, raised}
use julius_os.System.AppSwitcher.{
  Card, AppSwitcher, is_among, remove, card, card_at, off_screen, cards, draw, touch_cards,
  handle_touch, hide,
}

-- Every card bears the name of a recent app.
abbrev pub AreNamed : List Text → List (Option Card) → Type 0
AreNamed names [] = Unit {0}
AreNamed names (none ∷ cs) = AreNamed names cs
AreNamed names (some c ∷ cs) = (is_among c.name names ≡ true) × AreNamed names cs

-- What `draw` has laid out fits the list of the recent apps.
abbrev pub IsFresh : AppSwitcher → Type 0
IsFresh s = elim s.card_rects [ none ↦ Unit {0} | some cs ↦ AreNamed s.recent cs ]

-- Of a touch: it returned, and a name that it gives is a recent app or the word for a closed card.
abbrev pub Opens : AppSwitcher → Outcome AppSwitcher × Option Text → Type 0
Opens s (done s', none) = s' ≡ s
Opens s (done s', some n) =
    ((is_among n s.recent ≡ true) × (s' ≡ hide s))
    ⊎ ((n ≡ codes "closed") × (length s'.recent + 1 ≡ length s.recent))
Opens s (raised s', r) = ⊥

length-remove :
    (n : Text) (xs : List Text) → is_among n xs ≡ true → length (remove n xs) + 1 ≡ length xs
unfolding is_among remove
length-remove n [] h = cc
length-remove n (x ∷ xs) h = ground (arith, length-remove n xs)

touch_cards-Opens :
    (p : Pos) (cs : List (Option Card)) (s : AppSwitcher)
    → AreNamed s.recent cs
    → Opens s (touch_cards p cs s)
unfolding touch_cards
touch_cards-Opens p [] s h = refl
touch_cards-Opens p (none ∷ cs) s h = touch_cards-Opens p cs s h
touch_cards-Opens p (some c ∷ cs) s h = elim (Bool-cases (hits c.close p)) [
  | inl closing ↦ rw (closing, h.0) (inr (refl, length-remove c.name s.recent h.0))
  | inr open_ ↦ elim (Bool-cases (hits c.area p)) [
    | inl opening ↦ rw (open_, opening) (inl (h.0, refl))
    | inr missed ↦ rw (open_, missed) (touch_cards-Opens p cs s h.1)
  ]
]

AreNamed-if :
    (names : List Text) (b : Bool) (c : Card) (cs : List (Option Card))
    → is_among c.name names ≡ true
    → AreNamed names cs
    → AreNamed names ((if b then none else some c) ∷ cs)
AreNamed-if names true c cs h k = k
AreNamed-if names false c cs h k = (h, k)

cards-AreNamed :
    (W H : ℕ) (off : ℤ) (total : ℕ) (selected : ℤ) (i : ℕ) (names every : List Text)
    → ((n : Text) → is_among n names ≡ true → is_among n every ≡ true)
    → AreNamed every (cards W H off total selected i names)
unfolding cards card is_among
cards-AreNamed W H off total selected i [] every h = tt
cards-AreNamed W H off total selected i (n ∷ names) every h =
    let c = card_at W H off total selected i n in
    AreNamed-if every (off_screen W c.area) c (cards W H off total selected (i + 1) names)
      (h n (rw text_eq_refl))
      (cards-AreNamed W H off total selected (i + 1) names every (λ m k. h m (ground arith)))

-- If the switcher is shown and lists an app, every card that drawing lays out bears the name of
-- a recent app.
pub draw-IsFresh :
    (W H : ℕ) (off : ℤ) (s : AppSwitcher)
    → s.visible ≡ true
    → s.recent ≢ []
    → IsFresh (draw W H off s)
unfolding draw
draw-IsFresh W H off s v some_app = on_recent s.recent refl
  where
    on_recent : (r : List Text) → s.recent ≡ r → IsFresh (draw W H off s)
    on_recent [] e = absurd (some_app e)
    on_recent (n ∷ r) e =
        let laid : draw W H off s ≡ record s {
          scroll_x = off;
          card_rects = some (cards W H off (length s.recent) s.selected 0 s.recent);
        } =
          ground arith in
        rw laid (cards-AreNamed W H off (length s.recent) s.selected 0 s.recent s.recent (λ m k. k))

-- If every card laid out bears the name of a recent app, a touch that is no swipe raises
-- nothing: it gives a recent app and hides the switcher, or gives "closed" with one recent app
-- fewer, or gives None and changes nothing.
pub handle_touch-Opens :
    (p : Pos) (s : AppSwitcher) → IsFresh s → Opens s (handle_touch p false false s)
unfolding handle_touch
handle_touch-Opens p s h = on_state s.visible s.card_rects refl refl
  where
    on_state :
        (b : Bool) (o : Option (List (Option Card)))
        → s.visible ≡ b
        → s.card_rects ≡ o
        → Opens s (handle_touch p false false s)
    on_state false o v e =
        let idle : handle_touch p false false s ≡ (done s, none) = ground arith in rw idle refl
    on_state true none v e =
        let idle : handle_touch p false false s ≡ (done s, none) = ground arith in rw idle refl
    on_state true (some cs) v e =
        let loop : handle_touch p false false s ≡ touch_cards p cs s = ground arith in
        rw loop (
          touch_cards-Opens p cs s
            (subst (λ o. elim o [ none ↦ Unit {0} | some ds ↦ AreNamed s.recent ds ]) e h))

-- If the switcher is shown and its first card, that of the only recent app, has its close button
-- under the touch, the touch closes the app; after the next drawing the same touch raises an
-- exception.
pub close_twice_raises :
    (W H : ℕ) (off : ℤ) (p : Pos) (c : Card) (cs : List (Option Card)) (s : AppSwitcher)
    → s.visible ≡ true
    → s.card_rects ≡ some (some c ∷ cs)
    → hits c.close p ≡ true
    → s.recent ≡ c.name ∷ []
    → (s' : AppSwitcher) × (handle_touch p false false s ≡ (done s', some (codes "closed")))
      × (handle_touch p false false (draw W H off s') ≡ (raised (draw W H off s'), none))
unfolding handle_touch draw
close_twice_raises W H off p c cs s v laid hit only = (
  record s { recent = []; snapshots = remove c.name s.snapshots },
  ground (arith, text_eq_refl c.name),
  ground arith,
)
