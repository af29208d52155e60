-- ===== src/System/Status/Laws.antt =====
-- How often src/system/julius_status.py reads, and the bounds of what it shows.
use julius_os.Prelude.{
  ℕ, ◌+◌, ◌-◌, ◌*◌, ◌≤◌, ◌<◌, ◌≡◌, refl, sym, subst, ◌∙◌, Bool, Option, none, some, List, [], ◌∷◌,
  arith, tests, lt→ltb, drop, ltb, ◌==◌, get_elem?,
}
use julius_os.Prelude.Int.{ℤ, ◌≤ℤ◌}
use julius_os.Prelude.Text.{Text, codes, text_eq, starts_with}
use julius_os.Outcome.{holds-if}
use julius_os.Apps.Table.{words}
use julius_os.Apps.LogViewer.{readlines}
use julius_os.Apps.Timer.{second}
use julius_os.System.Status.{
  JuliusStatus, Files, get_wifi_bars, sum, cpu_of, level_read, read_status, read_battery, wifi_line,
  wifi_lines, read_wifi, cpu_line, read_cpu, from_bridge, from_files, update, split_equals,
  counters, or_else,
}

-- A stronger signal never has fewer bars, and there are at most four.
pub get_wifi_bars_mono :
    (s : JuliusStatus) (n : ℤ)
    → s.wifi_signal ≤ℤ n
    → (get_wifi_bars s ≤ get_wifi_bars (record s { wifi_signal = n }))
      × (get_wifi_bars (record s { wifi_signal = n }) ≤ 4)
unfolding get_wifi_bars
get_wifi_bars_mono s n h = (ground arith, ground arith)

-- The load is a percentage, and the time of the last reading is as it was.
abbrev IsKept : JuliusStatus → JuliusStatus → Type 0
IsKept s s' = (s'.cpu_usage ≤ 100) × (s'.last_update ≡ s.last_update)

cpu_of-IsKept :
    (idle : Option ℕ) (total : ℕ) (s : JuliusStatus)
    → s.cpu_usage ≤ 100
    → IsKept s (cpu_of idle total s)
unfolding cpu_of
cpu_of-IsKept none total s h = (h, refl)
cpu_of-IsKept (some idle) total s h =
    holds-if (IsKept s) (total == 0) _ _ (λ _. (h, refl)) (λ _. (omega arith, refl))

-- The load and the time of the last reading are as they were.
abbrev IsSame : JuliusStatus → JuliusStatus → Type 0
IsSame s s' = (s'.cpu_usage ≡ s.cpu_usage) × (s'.last_update ≡ s.last_update)

abbrev IsSame? : JuliusStatus → Option JuliusStatus → Type 0
IsSame? s none = Unit
IsSame? s (some s') = IsSame s s'

module _ (space : ℕ → Bool) (strip : Text → Text) (to_int : Text → Option ℤ)
    (counter : Text → Option ℕ) where
  read_status-IsSame :
      (status : Option Text) (s : JuliusStatus)
      → IsSame s (read_status space strip to_int counter status s)
  unfolding read_status
  read_status-IsSame none s = (refl, refl)
  read_status-IsSame (some status) s = (refl, refl)

  level_read-IsSame :
      (level : Option ℤ) (status : Option Text) (s : JuliusStatus)
      → IsSame s (level_read space strip to_int counter level status s)
  unfolding level_read
  level_read-IsSame none status s = (refl, refl)
  level_read-IsSame (some n) status s = read_status-IsSame status (record s { battery_level = n })

  read_battery-IsSame :
      (capacity status : Option Text) (s : JuliusStatus)
      → IsSame s (read_battery space strip to_int counter capacity status s)
  unfolding read_battery
  read_battery-IsSame none status s = (refl, refl)
  read_battery-IsSame (some c) status s = level_read-IsSame (to_int (strip c)) status s

  wifi_line-IsSame :
      (line : Text) (s : JuliusStatus) → IsSame? s (wifi_line space strip to_int counter line s)
  unfolding wifi_line
  wifi_line-IsSame line s =
      holds-if (IsSame? s) (starts_with (codes "connected=") line) _ _ (λ _. connected value)
        λ _.
          holds-if (IsSame? s) (starts_with (codes "ssid=") line) _ _ (λ _. ssid value)
            λ _.
              holds-if (IsSame? s) (starts_with (codes "signal=") line) _ _ (λ _. signal value)
                λ _. (refl, refl)
    where
      value : Option Text
      value = get_elem? (split_equals [] (strip line)) 1

      connected :
          (o : Option Text)
          → IsSame? s (elim o [
            | none ↦ none
            | some v ↦ some (record s { wifi_connected = text_eq v (codes "1") })
          ])
      connected none = tt
      connected (some v) = (refl, refl)

      ssid :
          (o : Option Text)
          → IsSame? s (elim o [ none ↦ none | some v ↦ some (record s { wifi_ssid = v }) ])
      ssid none = tt
      ssid (some v) = (refl, refl)

      number :
          (o : Option ℤ)
          → IsSame? s (elim o [ none ↦ some s | some n ↦ some (record s { wifi_signal = n }) ])
      number none = (refl, refl)
      number (some n) = (refl, refl)

      signal :
          (o : Option Text)
          → IsSame? s (elim o [
            | none ↦ some s
            | some v ↦ elim (to_int v) [
              | none ↦ some s
              | some n ↦ some (record s { wifi_signal = n })
            ]
          ])
      signal none = (refl, refl)
      signal (some v) = number (to_int v)

  wifi_lines-IsSame :
      (ls : List Text) (s : JuliusStatus) → IsSame s (wifi_lines space strip to_int counter ls s)
  unfolding wifi_lines
  wifi_lines-IsSame [] s = (refl, refl)
  wifi_lines-IsSame (l ∷ ls) s =
      on_line (wifi_line space strip to_int counter l s) (wifi_line-IsSame l s)
        (wifi_lines-IsSame ls)
    where
      on_line :
          (o : Option JuliusStatus)
          → IsSame? s o
          → ((s' : JuliusStatus) → IsSame s' (wifi_lines space strip to_int counter ls s'))
          → IsSame s (elim o [ none ↦ s | some s' ↦ wifi_lines space strip to_int counter ls s' ])
      on_line none h rest = (refl, refl)
      on_line (some s') h rest = ((rest s').0 ∙ h.0, (rest s').1 ∙ h.1)

  read_wifi-IsSame :
      (file : Option Text) (s : JuliusStatus)
      → IsSame s (read_wifi space strip to_int counter file s)
  unfolding read_wifi
  read_wifi-IsSame none s = (refl, refl)
  read_wifi-IsSame (some file) s = wifi_lines-IsSame (readlines file) s

  cpu_line-IsKept :
      (fields : Option (List ℕ)) (s : JuliusStatus)
      → s.cpu_usage ≤ 100
      → IsKept s (cpu_line space strip to_int counter fields s)
  unfolding cpu_line
  cpu_line-IsKept none s h = (h, refl)
  cpu_line-IsKept (some fields) s h = cpu_of-IsKept (get_elem? fields 3) (sum fields) s h

  read_cpu-IsKept :
      (file : Option Text) (s : JuliusStatus)
      → s.cpu_usage ≤ 100
      → IsKept s (read_cpu space strip to_int counter file s)
  unfolding read_cpu
  read_cpu-IsKept none s h = (h, refl)
  read_cpu-IsKept (some file) s h =
      cpu_line-IsKept
        (counters space strip to_int counter
          (drop 1 (words space (or_else [] (get_elem? (readlines file) 0)))))
        s h

  from_files-IsKept :
      (f : Files) (s : JuliusStatus)
      → s.cpu_usage ≤ 100
      → IsKept s (from_files space strip to_int counter f s)
  unfolding from_files
  from_files-IsKept f s h =
      let s1 = read_battery space strip to_int counter f.capacity f.battery_status s in
      let k1 = read_battery-IsSame f.capacity f.battery_status s in
      let k2 = read_wifi-IsSame f.wifi s1 in
      let k3 =
        read_cpu-IsKept f.stat (read_wifi space strip to_int counter f.wifi s1)
          (omega (arith, h, k1.0, k2.0)) in
      (k3.0, k3.1 ∙ k2.1 ∙ k1.1)

  -- The load that is shown stays at most 100.
  pub update-bounds :
      (f : Files) (now : ℕ) (s : JuliusStatus)
      → s.cpu_usage ≤ 100
      → (update space strip to_int counter f now s).cpu_usage ≤ 100
  unfolding update from_bridge
  update-bounds f now s h =
      holds-if (λ (s' : JuliusStatus). s'.cpu_usage ≤ 100) (ltb (now - s.last_update) (5 * second))
        _ _ (λ _. h)
        λ _.
          holds-if (λ (s' : JuliusStatus). s'.cpu_usage ≤ 100) s.has_bridge _ _ (λ _. h)
            λ _. (from_files-IsKept f (record s { last_update = now }) h).0

  update-last :
      (f : Files) (now : ℕ) (s : JuliusStatus)
      → s.cpu_usage ≤ 100
      → 5 * second ≤ now - s.last_update
      → (update space strip to_int counter f now s).last_update ≡ now
  unfolding update from_bridge
  update-last f now s h due =
      holds-if (λ (s' : JuliusStatus). s'.last_update ≡ now)
        (ltb (now - s.last_update) (5 * second)) _ _ (λ early. absurd (omega (tests, early, due)))
        λ _.
          holds-if (λ (s' : JuliusStatus). s'.last_update ≡ now) s.has_bridge _ _ (λ _. refl)
            λ _. (from_files-IsKept f (record s { last_update = now }) h).1

  update-early :
      (f : Files) (now : ℕ) (s : JuliusStatus)
      → now < s.last_update + 5 * second
      → update space strip to_int counter f now s ≡ s
  unfolding update
  update-early f now s early =
      rw (lt→ltb (now - s.last_update) (5 * second) (omega (arith, early))) refl

  -- If the last reading was five seconds ago or more, an update reads, and a second one less than
  -- five seconds later changes nothing, whatever the files say by then.
  pub update_twice :
      (f later : Files) (now soon : ℕ) (s : JuliusStatus)
      → s.cpu_usage ≤ 100
      → 5 * second ≤ now - s.last_update
      → soon < now + 5 * second
      → let s' = update space strip to_int counter f now s in
        (s'.last_update ≡ now) × (update space strip to_int counter later soon s' ≡ s')
  update_twice f later now soon s h due early =
      let at_now = update-last f now s h due in
      (
        at_now,
        update-early later soon (update space strip to_int counter f now s)
            (subst (λ t. soon < t + 5 * second) (sym at_now) early),
      )
