-- ===== src/Apps/WakeOnLan/Laws.antt =====
-- What the keys of src/apps/wakeonlan/wakeonlan.py keep: the selection, the file, and that no key
-- raises an exception.
use julius_os.Prelude.{
  ℕ, suc, ◌-◌, ◌≤◌, ◌<◌, ◌≡◌, refl, subst, ◌&&◌, Option, none, some, List, [], ◌∷◌, ◌++◌, arith,
  length, erase_at, nonempty, length-append, length-erase_at, length-nonempty, get_elem?-some,
}
use julius_os.Prelude.Int.{ℤ, pos, negsuc, ◌+ℤ◌, ◌-ℤ◌, sub_ℕ, min_ℤ, max_ℤ, pos_part, neg_part}
use julius_os.Prelude.Text.{Text}
use julius_os.Events.{Key, k_return, k_up, k_down, k_d, k_n, is, Event, keydown}
use julius_os.Outcome.{Returns, Returns-if, holds-if}
use julius_os.Apps.WakeOnLan.{
  Mode, list, add, Stage, at_name, at_mac, WakeOnLan, load, save, magic, send_magic, place, wake_at,
  delete_at, device_at, list_key, name_key, mac_key, add_key, handle_input, added, Status,
}

-- The selection is a place of the list, or 0, or -1.
abbrev pub IsNear : ℤ → ℕ → Type 0
IsNear i len = (pos_part i ≤ len - 1) × (neg_part i ≤ 1)

-- The file holds the devices, and the selection is near the list.
abbrev pub IsOrderly : WakeOnLan → Type 0
IsOrderly s = (load s.saved ≡ s.devices) × IsNear s.selected (length s.devices)

place-some :
    (i : ℤ) (len : ℕ) → 0 < len → IsNear i len → (k : ℕ) × (place i len ≡ some k) × (k < len)
unfolding place
place-some (pos n) len p h = (n, ground arith, omega arith)
place-some (negsuc n) len p h = (len - 1 - n, ground arith, omega arith)

down-IsNear : (i : ℤ) (len : ℕ) → IsNear i len → IsNear (min_ℤ (i +ℤ pos 1) (sub_ℕ len 1)) len
down-IsNear i len h = ground arith

up-IsNear : (i : ℤ) (len : ℕ) → IsNear i len → IsNear (max_ℤ (i -ℤ pos 1) (pos 0)) len
up-IsNear i len h = ground arith

deleted-IsNear : (i : ℤ) (len : ℕ) → IsNear i (suc len) → IsNear (max_ℤ (pos 0) (i -ℤ pos 1)) len
deleted-IsNear i len h = ground arith

more-IsNear : (i : ℤ) (len : ℕ) → IsNear i len → IsNear i (suc len)
more-IsNear i len h = (omega (arith, h.0), h.1)

module _ (failure : Option Text) where
  send_magic-IsOrderly :
      (mac : Text) (s : WakeOnLan) → IsOrderly s → IsOrderly (send_magic failure mac s)
  unfolding send_magic
  send_magic-IsOrderly mac s h = on_packet (magic mac) failure
    where
      on_packet :
          (o : Option (List ℕ)) (f : Option Text)
          → IsOrderly (elim o as (λ _. WakeOnLan) [
            | none ↦ record s { status = Status.bad_mac }
            | some packet ↦ elim f [
              | none ↦ record s { packets = packet ∷ s.packets; status = Status.sent }
              | some e ↦ record s { status = Status.failed e }
            ]
          ])
      on_packet none f = h
      on_packet (some packet) none = h
      on_packet (some packet) (some e) = h

  wake_at-IsOrderly :
      (s : WakeOnLan)
      → 0 < length s.devices
      → IsOrderly s
      → Returns IsOrderly
          (wake_at failure s (device_at s.devices (place s.selected (length s.devices))))
  unfolding wake_at
  wake_at-IsOrderly s p h =
      let (k, e, less) = place-some s.selected (length s.devices) p h.1 in
      let (d, at) = get_elem?-some s.devices k less in rw (e, at) (send_magic-IsOrderly d.mac s h)

  delete_at-IsOrderly :
      (s : WakeOnLan)
      → 0 < length s.devices
      → IsOrderly s
      → Returns IsOrderly (delete_at s (place s.selected (length s.devices)))
  unfolding delete_at save load
  delete_at-IsOrderly s p h =
      let (k, e, less) = place-some s.selected (length s.devices) p h.1 in
      let shorter = length-erase_at s.devices k less in
      rw e (
        refl,
        deleted-IsNear s.selected (length (erase_at s.devices k))
            (subst (λ n. IsNear s.selected n) (omega (arith, shorter)) h.1),
      )

  list_key-IsOrderly :
      (s : WakeOnLan) (key : Key) → IsOrderly s → Returns IsOrderly (list_key failure s key)
  unfolding list_key
  list_key-IsOrderly s key h =
      let some_device = length-nonempty s.devices in
      Returns-if IsOrderly (is k_down key) _ _
        (λ _. (h.0, down-IsNear s.selected (length s.devices) h.1))
        λ _.
          Returns-if IsOrderly (is k_up key) _ _
            (λ _. (h.0, up-IsNear s.selected (length s.devices) h.1))
            λ _.
              Returns-if IsOrderly (is k_return key) _ _
                (λ _.
                  Returns-if IsOrderly (nonempty s.devices) _ _
                    (λ n. wake_at-IsOrderly s (some_device n) h) (λ _. h))
                λ _.
                  Returns-if IsOrderly (is k_n key) _ _ (λ _. h)
                    λ _.
                      Returns-if IsOrderly (is k_d key) _ _
                        (λ _.
                          Returns-if IsOrderly (nonempty s.devices) _ _
                            (λ n. delete_at-IsOrderly s (some_device n) h) (λ _. h))
                        (λ _. h)

  name_key-IsOrderly :
      (s : WakeOnLan) (key : Key) (u : Text) → IsOrderly s → IsOrderly (name_key s key u)
  unfolding name_key
  name_key-IsOrderly s key u h = ground arith

  mac_key-IsOrderly :
      (s : WakeOnLan) (key : Key) (u : Text) → IsOrderly s → IsOrderly (mac_key s key u)
  unfolding mac_key save load
  mac_key-IsOrderly s key u h =
      let longer = length-append s.devices (record { name = s.name_in; mac = s.mac_in } ∷ []) in
      let more = more-IsNear s.selected (length s.devices) h.1 in
      holds-if IsOrderly (is k_return key && nonempty s.mac_in)
        (record s {
          devices = s.devices ++ record { name = s.name_in; mac = s.mac_in } ∷ [];
          saved = some (s.devices ++ record { name = s.name_in; mac = s.mac_in } ∷ []);
          mode = list;
          status = added s.name_in;
        })
        _ (λ _. (refl, subst (λ n. IsNear s.selected n) (omega (arith, longer)) more))
        λ _. ground arith

  add_key-IsOrderly :
      (s : WakeOnLan) (key : Key) (u : Text) (st : Stage)
      → IsOrderly s
      → IsOrderly (add_key s key u st)
  unfolding add_key
  add_key-IsOrderly s key u at_name h = name_key-IsOrderly s key u h
  add_key-IsOrderly s key u at_mac h = mac_key-IsOrderly s key u h

  -- If the file holds the devices and the selection is a place of the list, or 0, or -1, then no
  -- event raises an exception, whatever the socket does, and the same holds after it.
  pub handle_input-IsOrderly :
      (s : WakeOnLan) (e : Event) → IsOrderly s → Returns IsOrderly (handle_input failure s e)
  unfolding handle_input
  handle_input-IsOrderly s (keydown key u) h = on_mode s.mode refl
    where
      on_mode : (m : Mode) → s.mode ≡ m → Returns IsOrderly (handle_input failure s (keydown key u))
      on_mode list e = rw (e, handle_input) (list_key-IsOrderly s key h)
      on_mode add e = rw (e, handle_input) (add_key-IsOrderly s key u s.stage h)
  handle_input-IsOrderly s _ h = h
