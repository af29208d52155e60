-- ===== src/Apps/Firewall/Laws.antt =====
-- Which commands src/apps/firewall/firewall.py runs, and what the keys of its list keep.
use julius_os.Prelude.{
  ℕ, zero, suc, ◌<◌, ◌≡◌, ◌⊎◌, inl, inr, refl, subst, Bool, Option, none, some, List, [], ◌∷◌, ◌++◌,
  length, get_elem?, drop, nonempty, length-nonempty,
}
use mathlib.Core.Option.{some-injective}
use julius_os.Prelude.Text.{Text, codes}
use julius_os.Events.{
  Key, k_return, k_up, k_down, k_a, k_d, k_r, k_t, k_u, k_backspace, k_escape, is, Event, keydown,
}
use julius_os.Outcome.{after, after-if, holds-if}
use julius_os.Apps.TextEditor.{split}
use julius_os.Apps.Table.{
  strip, Answer, output, failed, table, split_all, IsWord, AllWords, words-AllWords,
}
use julius_os.Apps.Firewall.{
  Rule, rule, parse_rules, Mode, list, add, Stage, at_port, at_proto, at_action, Command, append,
  delete, Firewall, Answers, load_rules, add_rule, delete_rule, delete_at, begin, list_key, confirm,
  field_key, erase, add_key, handle_input,
}

abbrev pub IsProto : Text → Type 0
IsProto t = (t ≡ codes "tcp") ⊎ (t ≡ codes "udp")

abbrev pub IsAction : Text → Type 0
IsAction t = (t ≡ codes "ACCEPT") ⊎ (t ≡ codes "DROP")

-- A number of a rule is one word: what `-D INPUT` gets is neither empty nor several words.
abbrev pub IsFit : (ℕ → Bool) → Command → Type 0
IsFit space (append proto port action) = IsProto proto × (0 < length port) × IsAction action
IsFit space (delete num) = IsWord space num

abbrev pub AllFit : (ℕ → Bool) → List Command → Type 0
AllFit space [] = Unit
AllFit space (c ∷ cs) = IsFit space c × AllFit space cs

abbrev pub AllNumbered : (ℕ → Bool) → List Rule → Type 0
AllNumbered space [] = Unit
AllNumbered space (r ∷ rs) = IsWord space r.num × AllNumbered space rs

-- Behind its first field the form has a port.
abbrev pub HasPort : Stage → Text → Type 0
HasPort at_port t = Unit
HasPort at_proto t = 0 < length t
HasPort at_action t = 0 < length t

-- Every command so far was fit to be run, and the next one will be.
abbrev pub IsFitting : (ℕ → Bool) → Firewall → Type 0
IsFitting space s =
    AllFit space s.commands
    × AllNumbered space s.rules
    × HasPort s.stage s.port_in
    × IsProto s.proto_in
    × IsAction s.action

module _ (space : ℕ → Bool) where
  rule-AllNumbered :
      (l : List Text) (rs : List Rule)
      → AllWords space l
      → AllNumbered space rs
      → AllNumbered space (rule l ++ rs)
  unfolding rule
  rule-AllNumbered [] rs h k = k
  rule-AllNumbered (a ∷ []) rs h k = k
  rule-AllNumbered (a ∷ b ∷ []) rs h k = k
  rule-AllNumbered (a ∷ b ∷ c ∷ []) rs h k = k
  rule-AllNumbered (a ∷ b ∷ c ∷ d ∷ l) rs h k = (h.0, k)

  parse_rules-AllNumbered : (ls : List Text) → AllNumbered space (parse_rules (split_all space ls))
  unfolding parse_rules split_all
  parse_rules-AllNumbered [] = tt
  parse_rules-AllNumbered (l ∷ ls) =
      rule-AllNumbered _ _ (words-AllWords space _) (parse_rules-AllNumbered ls)

  load_rules-IsFitting :
      (a : Answer) (s : Firewall) → IsFitting space s → IsFitting space (load_rules space a s)
  unfolding load_rules table
  load_rules-IsFitting (output t) s h =
      (h.0, parse_rules-AllNumbered (drop 2 (split (strip space t))), h.2, h.3, h.4)
  load_rules-IsFitting (failed e) s h = h

  add_rule-IsFitting :
      (a : Answers) (port proto action : Text) (s : Firewall)
      → IsFit space (append proto port action)
      → IsFitting space s
      → IsFitting space (add_rule space a port proto action s)
  unfolding add_rule
  add_rule-IsFitting a port proto action s fit h = on_failure a.failure
    where
      on_failure :
          (f : Option Text)
          → IsFitting space
              (add_rule space (record { listing = a.listing; failure = f }) port proto action s)
      on_failure none = load_rules-IsFitting a.listing _ ((fit, h.0), h.1, h.2, h.3, h.4)
      on_failure (some e) = ((fit, h.0), h.1, h.2, h.3, h.4)

  delete_rule-IsFitting :
      (a : Answers) (num : Text) (s : Firewall)
      → IsWord space num
      → IsFitting space s
      → IsFitting space (delete_rule space a num s)
  unfolding delete_rule
  delete_rule-IsFitting a num s fit h = on_failure a.failure
    where
      on_failure :
          (f : Option Text)
          → IsFitting space (delete_rule space (record { listing = a.listing; failure = f }) num s)
      on_failure none = load_rules-IsFitting a.listing _ ((fit, h.0), h.1, h.2, h.3, h.4)
      on_failure (some e) = ((fit, h.0), h.1, h.2, h.3, h.4)

  numbered :
      (rs : List Rule) (i : ℕ) (r : Rule)
      → AllNumbered space rs
      → get_elem? rs i ≡ some r
      → IsWord space r.num
  numbered [] i r h e = cc
  numbered (x ∷ rs) zero r h e = subst (λ (v : Rule). IsWord space v.num) (some-injective x r e) h.0
  numbered (x ∷ rs) (suc i) r h e = numbered rs i r h.1 e

  delete_at-IsFitting :
      (a : Answers) (s : Firewall) (o : Option Rule)
      → get_elem? s.rules s.cursor.selected ≡ o
      → IsFitting space s
      → IsFitting space (after (delete_at space a s o))
  unfolding delete_at
  delete_at-IsFitting a s none e h = h
  delete_at-IsFitting a s (some r) e h =
      delete_rule-IsFitting a r.num s (numbered s.rules s.cursor.selected r h.1 e) h

  list_key-IsFitting :
      (a : Answers) (s : Firewall) (key : Key)
      → IsFitting space s
      → IsFitting space (after (list_key space a s key))
  unfolding list_key begin
  list_key-IsFitting a s key h =
      after-if (IsFitting space) (is k_down key) _ _ (λ _. h)
        λ _.
          after-if (IsFitting space) (is k_up key) _ _ (λ _. h)
            λ _.
              after-if (IsFitting space) (is k_r key) _ _ (λ _. load_rules-IsFitting a.listing s h)
                λ _.
                  after-if (IsFitting space) (is k_a key) _ _
                    (λ _. (h.0, h.1, tt, inl refl, inl refl))
                    λ _.
                      after-if (IsFitting space) (is k_d key) _ _
                        (λ _.
                          after-if (IsFitting space) (nonempty s.rules) _ _
                            (λ _. delete_at-IsFitting a s _ refl h) (λ _. h))
                        (λ _. h)

  confirm-IsFitting :
      (a : Answers) (s : Firewall) (st : Stage)
      → HasPort st s.port_in
      → IsFitting space s
      → IsFitting space (confirm space a s st)
  unfolding confirm
  confirm-IsFitting a s at_port p h =
      holds-if (IsFitting space) (nonempty s.port_in) (record s { stage = at_proto }) s
        (λ n. (h.0, h.1, length-nonempty s.port_in n, h.3, h.4)) (λ _. h)
  confirm-IsFitting a s at_proto p h = (h.0, h.1, p, h.3, h.4)
  confirm-IsFitting a s at_action p h =
      add_rule-IsFitting a s.port_in s.proto_in s.action s (h.3, p, h.4) h

  field_key-IsFitting :
      (s : Firewall) (key : Key) (u : Text) (st : Stage)
      → s.stage ≡ st
      → IsFitting space s
      → IsFitting space (field_key space s key u st)
  unfolding field_key
  field_key-IsFitting s key u at_port e h = (h.0, h.1, rw e tt, h.3, h.4)
  field_key-IsFitting s key u at_proto e h =
      holds-if (IsFitting space) (is k_t key) (record s { proto_in = codes "tcp" }) _
        (λ _. (h.0, h.1, h.2, inl refl, h.4))
        λ _.
          holds-if (IsFitting space) (is k_u key) (record s { proto_in = codes "udp" }) s
            (λ _. (h.0, h.1, h.2, inr refl, h.4)) (λ _. h)
  field_key-IsFitting s key u at_action e h =
      holds-if (IsFitting space) (is k_a key) (record s { action = codes "ACCEPT" }) _
        (λ _. (h.0, h.1, h.2, h.3, inl refl))
        λ _.
          holds-if (IsFitting space) (is k_d key) (record s { action = codes "DROP" }) s
            (λ _. (h.0, h.1, h.2, h.3, inr refl)) (λ _. h)

  erase-IsFitting :
      (s : Firewall) (st : Stage)
      → s.stage ≡ st
      → IsFitting space s
      → IsFitting space (erase space s st)
  unfolding erase
  erase-IsFitting s at_port e h = (h.0, h.1, rw e tt, h.3, h.4)
  erase-IsFitting s at_proto e h = h
  erase-IsFitting s at_action e h = h

  add_key-IsFitting :
      (a : Answers) (s : Firewall) (key : Key) (u : Text)
      → IsFitting space s
      → IsFitting space (add_key space a s key u)
  unfolding add_key
  add_key-IsFitting a s key u h =
      holds-if (IsFitting space) (is k_return key) (confirm space a s s.stage) _
        (λ _. confirm-IsFitting a s s.stage h.2 h)
        λ _.
          holds-if (IsFitting space) (is k_backspace key) (erase space s s.stage) _
            (λ _. erase-IsFitting s s.stage refl h)
            λ _.
              holds-if (IsFitting space) (is k_escape key) (record s { mode = list })
                (field_key space s key u s.stage) (λ _. h)
                (λ _. field_key-IsFitting s key u s.stage refl h)

  -- If every command so far was fit to be run, every rule has one word as its number and the
  -- form is in order, then so it is after every event, whatever iptables answers: an appended
  -- rule has tcp or udp, a port that is not empty, and ACCEPT or DROP, and a deleted one is
  -- given by one word.
  pub handle_input-IsFitting :
      (a : Answers) (s : Firewall) (e : Event)
      → IsFitting space s
      → IsFitting space (after (handle_input space a s e))
  unfolding handle_input
  handle_input-IsFitting a s (keydown key u) h = on_mode s.mode refl
    where
      on_mode :
          (m : Mode) → s.mode ≡ m → IsFitting space (after (handle_input space a s (keydown key u)))
      on_mode list e = rw (e, handle_input) (list_key-IsFitting a s key h)
      on_mode add e = rw (e, handle_input) (add_key-IsFitting a s key u h)
  handle_input-IsFitting a s _ h = h
