-- ===== src/Apps/Firewall/Add.antt =====
-- The keys of src/apps/firewall/firewall.py in order: the form from A to its last RETURN, and the
-- key D on the list.
use julius_os.Prelude.{
  ℕ, ◌-◌, ◌≤◌, ◌<◌, ◌≡◌, refl, ◌∙◌, Bool, true, false, Option, none, some, List, [], ◌∷◌, ◌++◌,
  length, get_elem?, nonempty, get_elem?-none, get_elem?-some, append_assoc, append-nil,
  nonempty-length, nonempty-get_elem?,
}
use julius_os.Prelude.Text.{Text, codes}
use julius_os.Events.{Key, k_return, k_backspace, k_escape, k_a, k_d, is, Event, keydown, key_index}
use julius_os.Outcome.{Outcome, done, raised, Returns, ◌>>=◌}
use julius_os.Cursor.{IsShown}
use julius_os.Cursor.Laws.{rows-selected}
use julius_os.Apps.Table.{Answer, output, failed, table}
use julius_os.Apps.Firewall.{
  Rule, parse_rules, list, add, at_port, at_action, append, delete, Firewall, Answers, drawn,
  load_rules, add_rule, delete_rule, delete_at, begin, list_key, confirm, field_key, add_key,
  handle_input, loaded,
}

module _ (space : ℕ → Bool) where
  -- The events in order, each with the answers of iptables during its call.
  unfoldable pub run : Answers → List Event → Firewall → Outcome Firewall
  run a [] s = done s
  run a (e ∷ es) s = handle_input space a s e >>= run a es

  -- Keys that are pressed one by one, each with its `event.unicode`.
  abbrev pub typed : List (Key × Text) → List Event
  typed [] = []
  typed (k ∷ ks) = keydown k.0 k.1 ∷ typed ks

  abbrev pub joined : List (Key × Text) → Text
  joined [] = []
  joined (k ∷ ks) = k.1 ++ joined ks

  -- Not one of the keys that the form's first field reads as a command: RETURN, BACKSPACE, ESC.
  abbrev pub Types : Key → Type 0
  Types k = (is k_return k ≡ false) × (is k_backspace k ≡ false) × (is k_escape k ≡ false)

  abbrev pub AllType : List (Key × Text) → Type 0
  AllType [] = Unit
  AllType (k ∷ ks) = Types k.0 × AllType ks

  -- RETURN three times, whatever `event.unicode` is.
  abbrev pub returns : Text → Text → Text → List Event
  returns a b c = keydown k_return a ∷ keydown k_return b ∷ keydown k_return c ∷ []

  add_rule-commands :
      (a : Answers) (port proto action : Text) (s : Firewall)
      → (add_rule space a port proto action s).commands ≡ append proto port action ∷ s.commands
  unfolding add_rule load_rules
  add_rule-commands a port proto action s = on_failure a.failure a.listing
    where
      on_failure :
          (f : Option Text) (l : Answer)
          → (add_rule space (record { listing = l; failure = f }) port proto action s).commands
            ≡ append proto port action ∷ s.commands
      on_failure none (output t) = refl
      on_failure none (failed e) = refl
      on_failure (some e) l = refl

  delete_rule-commands :
      (a : Answers) (num : Text) (s : Firewall)
      → (delete_rule space a num s).commands ≡ delete num ∷ s.commands
  unfolding delete_rule load_rules
  delete_rule-commands a num s = on_failure a.failure a.listing
    where
      on_failure :
          (f : Option Text) (l : Answer)
          → (delete_rule space (record { listing = l; failure = f }) num s).commands
            ≡ delete num ∷ s.commands
      on_failure none (output t) = refl
      on_failure none (failed e) = refl
      on_failure (some e) l = refl

  -- The last RETURNs run the command.
  returns_append :
      (a : Answers) (r1 r2 r3 : Text) (s : Firewall)
      → s.mode ≡ add
      → s.stage ≡ at_port
      → nonempty s.port_in ≡ true
      → Returns
          (λ s'.
            (s'.commands ≡ append s.proto_in s.port_in s.action ∷ s.commands) × (s'.mode ≡ list))
          (run a (returns r1 r2 r3) s)
  unfolding run handle_input add_key confirm key_index
  returns_append a r1 r2 r3 s m st n =
      rw (m, st, n)
        (
          add_rule-commands a s.port_in s.proto_in s.action
              (record s { mode = add; stage = at_action }),
          refl,
        )

  typed_done :
      (a : Answers) (k : Key) (u : Text) (s : Firewall)
      → s.mode ≡ add
      → s.stage ≡ at_port
      → Types k
      → handle_input space a s (keydown k u) ≡ done (record s { port_in = s.port_in ++ u })
  unfolding handle_input add_key field_key
  typed_done a k u s m st h = rw (m, h.0, h.1, h.2, st) refl

  -- The typed characters stand behind those that were there.
  typed_append :
      (a : Answers) (r1 r2 r3 : Text) (us : List (Key × Text)) (s : Firewall)
      → s.mode ≡ add
      → s.stage ≡ at_port
      → AllType us
      → nonempty (s.port_in ++ joined us) ≡ true
      → Returns
          (λ s'.
            (s'.commands ≡ append s.proto_in (s.port_in ++ joined us) s.action ∷ s.commands)
            × (s'.mode ≡ list))
          (run a (typed us ++ returns r1 r2 r3) s)
  unfolding run
  typed_append a r1 r2 r3 [] s m st h n =
      rw (append-nil s.port_in) (returns_append a r1 r2 r3 s m st (rw (← append-nil s.port_in) n))
  typed_append a r1 r2 r3 (k ∷ us) s m st h n =
      rw (typed_done a k.0 k.1 s m st h.0, ← append_assoc s.port_in k.1 (joined us))
        (typed_append a r1 r2 r3 us (record s { port_in = s.port_in ++ k.1 }) m st h.1
          (rw (append_assoc s.port_in k.1 (joined us)) n))

  -- If the list is shown, then A, any keys but RETURN, BACKSPACE and ESC whose characters
  -- together are a port that is not empty, and RETURN three times, whatever characters come with
  -- A and RETURN, return to the list with one command run: the rule for tcp, that port and
  -- ACCEPT.
  pub add_appends :
      (a : Answers) (u r1 r2 r3 : Text) (ks : List (Key × Text)) (s : Firewall)
      → s.mode ≡ list
      → AllType ks
      → nonempty (joined ks) ≡ true
      → Returns
          (λ s'.
            (s'.commands ≡ append (codes "tcp") (joined ks) (codes "ACCEPT") ∷ s.commands)
            × (s'.mode ≡ list))
          (run a (keydown k_a u ∷ (typed ks ++ returns r1 r2 r3)) s)
  unfolding run handle_input list_key begin key_index
  add_appends a u r1 r2 r3 ks s m h n = rw m (typed_append a r1 r2 r3 ks _ refl refl h n)

  d_done :
      (a : Answers) (s : Firewall) (u : Text) (r : Rule)
      → s.mode ≡ list
      → get_elem? s.rules s.cursor.selected ≡ some r
      → handle_input space a s (keydown k_d u) ≡ done (delete_rule space a r.num s)
  unfolding handle_input list_key key_index delete_at
  d_done a s u r m e = rw (m, nonempty-get_elem? s.rules s.cursor.selected e, e) refl

  -- If the list is shown, its selection is in the window and r is the rule there, D returns,
  -- whatever iptables answers, with one command run, the deletion of r by its number, and r is the
  -- row that was drawn as the selected one.
  pub d_deletes_drawn :
      (a : Answers) (s : Firewall) (u : Text) (r : Rule)
      → s.mode ≡ list
      → IsShown 9 s.cursor
      → get_elem? s.rules s.cursor.selected ≡ some r
      → Returns
          (λ s'. s'.commands ≡ delete r.num ∷ s.commands)
          (handle_input space a s (keydown k_d u))
        × (get_elem? (drawn s) (s.cursor.selected - s.cursor.scroll) ≡ some (r, true))
  unfolding drawn
  d_deletes_drawn a s u r m shown e = (
    rw (d_done a s u r m e) (delete_rule-commands a r.num s),
    rows-selected 9 s.cursor s.rules r shown e,
  )

  -- If the list is shown, the selection is on a rule, and iptables deletes it and then lists some
  -- rules and not more than the selection's place, D returns, and a second D raises an exception.
  pub two_deletes_raise :
      (a : Answers) (s : Firewall) (t u : Text)
      → s.mode ≡ list
      → s.cursor.selected < length s.rules
      → a.failure ≡ none
      → a.listing ≡ output t
      → 0 < length (parse_rules (table space 2 t))
      → length (parse_rules (table space 2 t)) ≤ s.cursor.selected
      → (s' : Firewall) × (handle_input space a s (keydown k_d u) ≡ done s')
        × (handle_input space a s' (keydown k_d u) ≡ raised s')
  unfolding handle_input list_key key_index delete_at delete_rule load_rules
  two_deletes_raise a s t u m on f l pos past =
      let rs = parse_rules (table space 2 t) in
      let (r, e) = get_elem?-some s.rules s.cursor.selected on in
      (
        record s {
          commands = delete r.num ∷ s.commands;
          rules = rs;
          status = loaded (length rs);
          mode = list;
        },
        d_done a s u r m e ∙ rw (f, l, m) refl,
        rw (nonempty-length rs pos, get_elem?-none rs s.cursor.selected past) refl,
      )
