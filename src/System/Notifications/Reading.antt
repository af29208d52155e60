-- ===== src/System/Notifications/Reading.antt =====
-- `mark_read` and `unread_count` of src/system/notification_center.py.
use julius_os.Prelude.{
  ℕ, zero, suc, ◌+◌, ◌≤◌, ◌≡◌, ◌≢◌, refl, ap, true, none, some, List, [], ◌∷◌, get_elem?, set,
  if◌then◌else◌, arith, inl, inr, Option-cases,
}
use julius_os.System.Notifications.{
  Notif, NotificationCenter, unread, unread_count, mark_read, save,
}

abbrev pub as_read : Notif → Notif
as_read n = record n { read = true }

unread-set :
    (ns : List Notif) (i : ℕ) (n : Notif)
    → get_elem? ns i ≡ some n
    → unread (set ns i (as_read n)) + (if n.read then 0 else 1) ≡ unread ns
unfolding unread
unread-set [] i n e = cc
unread-set (m ∷ ns) zero n e = ground arith
unread-set (m ∷ ns) (suc i) n e = omega (arith, unread-set ns i n e)

get_elem?-set_self :
    (ns : List Notif) (i : ℕ) (n m : Notif)
    → get_elem? ns i ≡ some n
    → get_elem? (set ns i m) i ≡ some m
get_elem?-set_self [] i n m e = cc
get_elem?-set_self (x ∷ ns) zero n m e = refl
get_elem?-set_self (x ∷ ns) (suc i) n m e = get_elem?-set_self ns i n m e

get_elem?-set_other :
    (ns : List Notif) (i j : ℕ) (m : Notif) → i ≢ j → get_elem? (set ns i m) j ≡ get_elem? ns j
get_elem?-set_other [] i j m h = refl
get_elem?-set_other (x ∷ ns) zero zero m h = absurd (h refl)
get_elem?-set_other (x ∷ ns) zero (suc j) m h = refl
get_elem?-set_other (x ∷ ns) (suc i) zero m h = refl
get_elem?-set_other (x ∷ ns) (suc i) (suc j) m h = get_elem?-set_other ns i j m (λ e. h (ap suc e))

pub mark_read-marked :
    (i : ℕ) (s : NotificationCenter) (n : Notif)
    → get_elem? s.notifs i ≡ some n
    → mark_read i s ≡ save (record s { notifs = set s.notifs i (as_read n) })
unfolding mark_read
mark_read-marked i s n e = rw (e, mark_read) refl

pub mark_read-out :
    (i : ℕ) (s : NotificationCenter) → get_elem? s.notifs i ≡ none → mark_read i s ≡ s
unfolding mark_read
mark_read-out i s e = rw (e, mark_read) refl

-- Reading a notification of the list makes it read, changes no other one, lowers the count of
-- the unread ones by one exactly if it was unread, and saves the list.
pub mark_read-unread_count :
    (i : ℕ) (s : NotificationCenter) (n : Notif)
    → get_elem? s.notifs i ≡ some n
    → (unread_count (mark_read i s) + (if n.read then 0 else 1) ≡ unread_count s)
      × (get_elem? (mark_read i s).notifs i ≡ some (as_read n))
      × ((j : ℕ) → i ≢ j → get_elem? (mark_read i s).notifs j ≡ get_elem? s.notifs j)
      × ((mark_read i s).file ≡ some (mark_read i s).notifs)
unfolding save unread_count
mark_read-unread_count i s n e = rw (mark_read-marked i s n e) (
  unread-set s.notifs i n e,
  get_elem?-set_self s.notifs i n (as_read n) e,
  (λ j h. get_elem?-set_other s.notifs i j (as_read n) h),
  refl,
)

pub mark_read-unread_le :
    (i : ℕ) (s : NotificationCenter) → unread_count (mark_read i s) ≤ unread_count s
mark_read-unread_le i s = elim (Option-cases (get_elem? s.notifs i)) [
  | inl out ↦ rw (mark_read-out i s out) (omega arith)
  | inr (n, found) ↦ omega (arith, (mark_read-unread_count i s n found).0)
]
