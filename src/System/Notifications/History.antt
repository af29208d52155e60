-- ===== src/System/Notifications/History.antt =====
-- `add` of src/system/notification_center.py against the history of the notifications.
use julius_os.Prelude.{
  ℕ, zero, suc, ◌≡◌, refl, sym, ap, ◌∙◌, some, List, [], ◌∷◌, ◌++◌, map, take, arith, take_all,
}
use julius_os.Prelude.Text.{Text}
use julius_os.System.Notifications.{Notif, NotificationCenter, written, save, add}

-- The arguments of one call of `add`, and the time of the call.
pub record Alert : Type 0 where
  pub now : Text
  pub app : Text
  pub title : Text
  pub body : Text
  pub color : List ℕ

abbrev pub entry : Alert → Notif
entry a = written a.now a.app a.title a.body a.color

abbrev pub add_alert : Alert → NotificationCenter → NotificationCenter
add_alert a s = add a.now a.app a.title a.body a.color s

-- The calls of a history, the latest first.
abbrev pub added : List Alert → NotificationCenter → NotificationCenter
added [] s = s
added (a ∷ older) s = add_alert a (added older s)

take_twice : (k : ℕ) (xs : List Notif) → take k (take k xs) ≡ take k xs
take_twice zero xs = refl
take_twice (suc k) [] = refl
take_twice (suc k) (x ∷ xs) = ap (λ t. x ∷ t) (take_twice k xs)

-- Below the cut nothing matters.
take-cut : (k : ℕ) (xs : List Notif) → take k (take (suc k) xs) ≡ take k xs
take-cut zero xs = refl
take-cut (suc k) [] = refl
take-cut (suc k) (x ∷ xs) = ap (λ t. x ∷ t) (take-cut k xs)

take-cong : (k : ℕ) (xs ys : List Notif) → take (suc k) xs ≡ take (suc k) ys → take k xs ≡ take k ys
take-cong k xs ys e = sym (take-cut k xs) ∙ ap (λ t. take k t) e ∙ take-cut k ys

add-notifs :
    (a : Alert) (s : NotificationCenter) → (add_alert a s).notifs ≡ take 50 (entry a ∷ s.notifs)
unfolding add save
add-notifs a s = ground (arith, take_all 50 (entry a ∷ s.notifs))

add-file : (a : Alert) (s : NotificationCenter) → (add_alert a s).file ≡ some (add_alert a s).notifs
unfolding add save
add-file a s = refl

take-added :
    (h : List Alert) (s : NotificationCenter)
    → take 50 (added h s).notifs ≡ take 50 (map entry h ++ s.notifs)
take-added [] s = refl
take-added (a ∷ older) s =
    ap (λ t. take 50 t) (add-notifs a (added older s))
    ∙ take_twice 50 (entry a ∷ (added older s).notifs)
    ∙ ap (λ t. entry a ∷ t)
        (take-cong 49 (added older s).notifs (map entry older ++ s.notifs) (take-added older s))

-- After one or more calls of `add`, the list is the fifty latest of the new notifications and
-- the old ones, the latest first, and the file holds that list.
pub added-notifs :
    (a : Alert) (older : List Alert) (s : NotificationCenter)
    → ((added (a ∷ older) s).notifs ≡ take 50 (map entry (a ∷ older) ++ s.notifs))
      × ((added (a ∷ older) s).file ≡ some (added (a ∷ older) s).notifs)
added-notifs a older s = (
  add-notifs a (added older s)
      ∙ ap (λ t. entry a ∷ t)
          (take-cong 49 (added older s).notifs (map entry older ++ s.notifs) (take-added older s)),
  add-file a (added older s),
)
