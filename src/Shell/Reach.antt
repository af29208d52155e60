-- ===== src/Shell/Reach.antt =====
-- Which apps a tap on the home screen of src/julius_ui.py can open.
use julius_os.Prelude.{
  ℕ, zero, suc, ◌≡◌, ◌≤◌, ◌⊎◌, refl, sym, subst, Bool, true, false, Option, none, some, List, [],
  ◌∷◌, get_elem?, arith, Bool-cases, inl, inr, not, ◌||◌, ◌&&◌,
}
use julius_os.Prelude.Int.{pos, leb_ℤ, ltb_ℤ}
use julius_os.Prelude.Text.{Text, codes, text_eq}
use mathlib.Core.Option.{some-injective}
use julius_os.Events.{Pos}
use julius_os.Geometry.{Rect, rect, hits}
use julius_os.Shell.Icons.{H, is_listed, page_icons, dock_icons, tapped, get_tapped_app}

-- Every icon of one of these apps lies below the screen.
abbrev below_screen : List Text → List (Rect × Text) → Bool
below_screen names [] = true
below_screen names (i ∷ is) =
    (not (is_listed i.1 names) || leb_ℤ (pos H) i.0.y) && below_screen names is

and-left : (a b : Bool) → (a && b) ≡ true → a ≡ true
and-left true b h = refl
and-left false b h = h

and-right : (a b : Bool) → (a && b) ≡ true → b ≡ true
and-right true b h = h
and-right false b h = cc

hits-low :
    (r : Rect) (p : Pos) → hits r p ≡ true → leb_ℤ (pos H) r.y ≡ true → leb_ℤ (pos H) p.1 ≡ true
unfolding hits
hits-low r p h k = ground arith

tapped-hit :
    (p : Pos) (j : Rect × Text) (is : List (Rect × Text))
    → hits j.0 p ≡ true
    → tapped p (j ∷ is) ≡ some j.1
unfolding tapped
tapped-hit p j is h = rw h refl

below_screen-get_elem? :
    (names : List Text) (is : List (Rect × Text)) (k : ℕ) (i : Rect × Text)
    → below_screen names is ≡ true
    → get_elem? is k ≡ some i
    → (not (is_listed i.1 names) || leb_ℤ (pos H) i.0.y) ≡ true
below_screen-get_elem? names [] k i low at = cc
below_screen-get_elem? names (j ∷ is) zero i low at =
    subst (λ (q : Rect × Text). (not (is_listed q.1 names) || leb_ℤ (pos H) q.0.y) ≡ true)
      (some-injective j i at)
      (and-left (not (is_listed j.1 names) || leb_ℤ (pos H) j.0.y) (below_screen names is) low)
below_screen-get_elem? names (j ∷ is) (suc k) i low at =
    below_screen-get_elem? names is k i
      (and-right (not (is_listed j.1 names) || leb_ℤ (pos H) j.0.y) (below_screen names is) low) at

-- The icon that a tap finds, and its place in the list.
tapped-found :
    (p : Pos) (is : List (Rect × Text)) (n : Text)
    → tapped p is ≡ some n
    → (k : ℕ) × (i : Rect × Text) × (get_elem? is k ≡ some i) × (hits i.0 p ≡ true) × (i.1 ≡ n)
unfolding tapped
tapped-found p [] n e = cc
tapped-found p (i ∷ is) n e = elim (Bool-cases (hits i.0 p)) [
  | inl hit ↦
      let first : some i.1 ≡ some n = rw (hit, tapped) at e in
      (0, i, refl, hit, some-injective _ _ first)
  | inr miss ↦
      let later : tapped p is ≡ some n = rw (miss, tapped) at e in
      let found = tapped-found p is n later in (suc found.0, found.1, found.2, found.3, found.4)
]

tapped-none :
    (p : Pos) (is : List (Rect × Text)) (k : ℕ) (i : Rect × Text)
    → tapped p is ≡ none
    → get_elem? is k ≡ some i
    → hits i.0 p ≡ false
unfolding tapped
tapped-none p [] k i e at = cc
tapped-none p (j ∷ is) k i e at = on_hit k (hits j.0 p) refl at (λ k m a. tapped-none p is k i m a)
  where
    on_hit :
        (k : ℕ) (b : Bool)
        → hits j.0 p ≡ b
        → get_elem? (j ∷ is) k ≡ some i
        → ((k : ℕ) → tapped p is ≡ none → get_elem? is k ≡ some i → hits i.0 p ≡ false)
        → hits i.0 p ≡ false
    on_hit k true h at rest = let t = tapped-hit p j is h in cc
    on_hit zero false h at rest =
        subst (λ (q : Rect × Text). hits q.0 p ≡ false) (some-injective j i at) h
    on_hit (suc k) false h at rest = let m : tapped p is ≡ none = rw (h, tapped) at e in rest k m at

-- No tap finds these on the screen.
abbrev pub out_of_reach : List Text
out_of_reach =
    codes "AI" ∷ codes "Drop" ∷ codes "Cloud" ∷ codes "USB" ∷ codes "Radio" ∷ codes "Maps" ∷ []

tapped-seen :
    (names : List Text) (p : Pos) (is : List (Rect × Text)) (n : Text)
    → below_screen names is ≡ true
    → leb_ℤ (pos H) p.1 ≡ false
    → tapped p is ≡ some n
    → is_listed n names ≡ false
tapped-seen names p is n low on e =
    let found = tapped-found p is n e in
    let name = below_screen-get_elem? names is found.0 found.1 low found.2 in
    subst (λ m. is_listed m names ≡ false) found.4
      (seen (is_listed found.1.1 names) (leb_ℤ (pos H) found.1.0.y) name
        (λ under. hits-low found.1.0 p found.3 under))
  where
    seen : (b c : Bool) → (not b || c) ≡ true → (c ≡ true → leb_ℤ (pos H) p.1 ≡ true) → b ≡ false
    seen false c h k = refl
    seen true true h k = let q = k refl in cc
    seen true false h k = cc

abbrev third_of_dock : Rect
third_of_dock = rect (pos 170) (pos 417) (pos 46) (pos 46)

-- The dock's icon of AI lies within the icon in the third place of the page's last row.
dock-covered :
    (p : Pos)
    → hits (rect (pos 163) (pos 411) (pos 68) (pos 68)) p ≡ false
    → hits third_of_dock p ≡ false
unfolding hits
dock-covered p h = ground arith

dock-seen :
    (p : Pos) (n : Text)
    → hits third_of_dock p ≡ false
    → tapped p dock_icons ≡ some n
    → is_listed n out_of_reach ≡ false
unfolding text_eq dock_icons
dock-seen p n covered e =
    let found = tapped-found p dock_icons n e in
    subst (λ m. is_listed m out_of_reach ≡ false) found.4 (at_place found.0 found.1 found.2 found.3)
  where
    at_place :
        (k : ℕ) (i : Rect × Text)
        → get_elem? dock_icons k ≡ some i
        → hits i.0 p ≡ true
        → is_listed i.1 out_of_reach ≡ false
    at_place zero i at hit =
        subst (λ (q : Rect × Text). is_listed q.1 out_of_reach ≡ false) (some-injective _ _ at) refl
    at_place (suc zero) i at hit =
        subst (λ (q : Rect × Text). is_listed q.1 out_of_reach ≡ false) (some-injective _ _ at) refl
    at_place (suc (suc zero)) i at hit =
        let on_third : hits third_of_dock p ≡ true =
          subst (λ (q : Rect × Text). hits q.0 p ≡ true) (sym (some-injective _ _ at)) hit in
        cc
    at_place (suc (suc (suc zero))) i at hit =
        subst (λ (q : Rect × Text). is_listed q.1 out_of_reach ≡ false) (some-injective _ _ at) refl
    at_place (suc (suc (suc (suc k)))) i at hit = cc

or_else :
    (o d : Option Text) (n : Text)
    → (elim o as (λ _. Option Text) [ none ↦ d | some m ↦ some m ]) ≡ some n
    → ((o ≡ none) × (d ≡ some n)) ⊎ (o ≡ some n)
or_else none d n e = inl (refl, e)
or_else (some m) d n e = inr e

page-seen :
    (page : ℕ) (icon : Text) (p : Pos) (n : Text)
    → below_screen out_of_reach (page_icons page) ≡ true
    → get_elem? (page_icons page) 14 ≡ some (rect (pos 163) (pos 411) (pos 68) (pos 68), icon)
    → leb_ℤ (pos H) p.1 ≡ false
    → get_tapped_app page p ≡ some n
    → is_listed n out_of_reach ≡ false
unfolding get_tapped_app
page-seen page icon p n low at on e =
    elim (or_else (tapped p (page_icons page)) (tapped p dock_icons) n e) [
      | inl (k, docked) ↦
          dock-seen p n (dock-covered p (tapped-none p (page_icons page) 14 _ k at)) docked
      | inr found ↦ tapped-seen out_of_reach p (page_icons page) n low on found
    ]

-- On either page of the home screen, a name that a position above the screen's lower edge gives
-- is none of AI, Drop, Cloud, USB, Radio and Maps.
pub get_tapped_app-out_of_reach :
    (page : ℕ) (p : Pos) (n : Text)
    → page ≤ 1
    → ltb_ℤ p.1 (pos H) ≡ true
    → get_tapped_app page p ≡ some n
    → is_listed n out_of_reach ≡ false
unfolding page_icons text_eq
get_tapped_app-out_of_reach zero p n small on e =
    page-seen 0 (codes "Hotspot") p n refl refl (ground arith) e
get_tapped_app-out_of_reach (suc zero) p n small on e =
    page-seen 1 (codes "Firewall") p n refl refl (ground arith) e
get_tapped_app-out_of_reach (suc (suc page)) p n small on e = absurd (big page small)
  where
    big : (page : ℕ) → suc (suc page) ≤ 1 → ⊥
    big page h = omega arith
