-- ===== src/System/Cloud/Config.antt =====
-- The configuration file of src/system/julius_cloud.py, written and read again.
use julius_os.Prelude.{
  ℕ, ◌≡◌, ◌≢◌, refl, ap, ◌∙◌, Bool, true, false, not, ◌&&◌, ◌||◌, List, [], ◌∷◌, ◌++◌, arith, ◌==◌,
}
use julius_os.Prelude.Text.{Text, codes, is_in, starts_with}
use julius_os.Apps.TextEditor.{join, split}
use julius_os.Apps.TextEditor.RoundTrip.{
  IsPlain, ArePlain, split-join, universal_newlines-id, join-NoReturns,
}
use julius_os.System.Cloud.{
  Cloud, until_equals, behind_equals, load_line, load_lines, load_config, save_config,
}

-- A value without an equals sign.
abbrev pub HasNoEquals : Text → Type 0
HasNoEquals [] = Unit
HasNoEquals (c ∷ cs) = (c ≢ b'=') × HasNoEquals cs

until_equals-id : (t : Text) → HasNoEquals t → until_equals t ≡ t
unfolding until_equals
until_equals-id [] h = refl
until_equals-id (c ∷ cs) h = ground (arith, until_equals-id cs h.1)

-- `c in t`
abbrev pub has : ℕ → Text → Bool
has c [] = false
has c (x ∷ xs) = c == x || has c xs

has-starts_with : (c : ℕ) (t s : Text) → starts_with t s ≡ true → has c t ≡ true → has c s ≡ true
has-starts_with c [] s h k = cc
has-starts_with c (x ∷ t) [] h k = cc
has-starts_with c (x ∷ t) (y ∷ s) h k = ground (arith, has-starts_with c t s)

HasNoEquals-has : (t : Text) → HasNoEquals t → has b'=' t ≡ false
HasNoEquals-has [] h = refl
HasNoEquals-has (x ∷ t) h = ground (arith, HasNoEquals-has t h.1)

pub has-HasNoEquals : (t : Text) → has b'=' t ≡ false → HasNoEquals t
has-HasNoEquals [] h = tt
has-HasNoEquals (x ∷ t) h = ground (arith, has-HasNoEquals t)

starts-false : (t : Text) → HasNoEquals t → starts_with (codes "server=") t ≡ false
starts-false t h = on_start (starts_with (codes "server=") t) refl
  where
    on_start :
        (b : Bool) → starts_with (codes "server=") t ≡ b → starts_with (codes "server=") t ≡ false
    on_start true e =
        let found = has-starts_with b'=' (codes "server=") t e refl in
        let missing = HasNoEquals-has t h in cc
    on_start false e = e

is_in-false : (t : Text) → HasNoEquals t → is_in (codes "server=") t ≡ false
is_in-false [] h = refl
is_in-false (x ∷ t) h = rw (starts-false (x ∷ t) h) (is_in-false t h.1)

IsPlain-append : (a b : Text) → IsPlain a → IsPlain b → IsPlain (a ++ b)
IsPlain-append [] b h k = k
IsPlain-append (c ∷ cs) b h k = (h.0, h.1, IsPlain-append cs b h.2 k)

abbrev pub tests_plain : Text → Bool
tests_plain [] = true
tests_plain (c ∷ cs) = (not (c == 10) && not (c == 13)) && tests_plain cs

pub tested-IsPlain : (t : Text) → tests_plain t ≡ true → IsPlain t
tested-IsPlain [] h = tt
tested-IsPlain (c ∷ cs) h = ground (arith, tested-IsPlain cs)

module _ (strip : Text → Text) where
  server_line :
      (ip : Text) (s : Cloud)
      → HasNoEquals ip
      → strip ip ≡ ip
      → load_line strip (codes "server=" ++ ip) s ≡ record s { server_ip = ip }
  unfolding load_line behind_equals
  server_line ip s h k = rw (until_equals-id ip h, k) refl

  sync_line :
      (t : Text) (s : Cloud)
      → HasNoEquals t
      → strip t ≡ t
      → load_line strip (codes "last_sync=" ++ t) s ≡ record s { last_sync = t }
  unfolding load_line behind_equals
  sync_line t s h k = rw (is_in-false t h, until_equals-id t h, k) refl

  -- If the address and the time of the last synchronisation have no line break, no carriage
  -- return and no equals sign, and begin and end without white space, then what `save_config`
  -- writes is what `load_config` reads, whatever was set before.
  pub load_config-save_config :
      (s t : Cloud)
      → IsPlain s.server_ip
      → IsPlain s.last_sync
      → HasNoEquals s.server_ip
      → HasNoEquals s.last_sync
      → strip s.server_ip ≡ s.server_ip
      → strip s.last_sync ≡ s.last_sync
      → load_config strip (save_config s).saved t
        ≡ record t { server_ip = s.server_ip; last_sync = s.last_sync }
  unfolding load_config save_config load_lines join
  load_config-save_config s t p q h k e f =
      let lines : List Text =
        (codes "server=" ++ s.server_ip) ∷ (codes "last_sync=" ++ s.last_sync) ∷ [] ∷ [] in
      let plain : ArePlain lines = (
        IsPlain-append (codes "server=") s.server_ip (tested-IsPlain (codes "server=") refl) p,
        (
          IsPlain-append (codes "last_sync=") s.last_sync (tested-IsPlain (codes "last_sync=") refl)
              q,
          (tt, tt),
        ),
      ) in
      ap (λ text. load_lines strip (split text) t)
        (universal_newlines-id (join lines) (join-NoReturns lines plain))
      ∙ ap (λ ls. load_lines strip ls t) (split-join lines (λ e. cc) plain)
      ∙ ap (λ v. load_lines strip ((codes "last_sync=" ++ s.last_sync) ∷ [] ∷ []) v)
          (server_line s.server_ip t h e)
      ∙ ap (λ v. load_lines strip ([] ∷ []) v)
          (sync_line s.last_sync (record t { server_ip = s.server_ip }) k f)
