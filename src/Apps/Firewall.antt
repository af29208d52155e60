-- ===== src/Apps/Firewall.antt =====
-- src/apps/firewall/firewall.py: the list of iptables rules, the form for a new rule, and the
-- commands that are run.
pub mod Laws
mod Add
mod Tests
use julius_os.Prelude.{
  ℕ, Bool, true, false, ◌&&◌, Option, none, some, List, [], ◌∷◌, ◌++◌, length, get_elem?, drop_last,
  nonempty, if◌then◌else◌,
}
use julius_os.Prelude.Text.{Text, codes}
use julius_os.Events.{
  Key, k_return, k_backspace, k_escape, k_up, k_down, k_a, k_d, k_r, k_t, k_u, is, Event, keydown,
}
use julius_os.Outcome.{Outcome, done, raised}
use julius_os.Cursor.{Cursor, top, down, up, rows}
use julius_os.Apps.Table.{Answer, output, failed, table}

pub record Rule : Type 0 where
  pub num : Text
  pub target : Text
  pub proto : Text
  pub source : Text

pub data Mode : Type 0 where
  list add : Mode

pub data Stage : Type 0 where
  at_port at_proto at_action : Stage

-- What the status line says.
pub data Status : Type 0 where
  press_r : Status
  loaded : ℕ → Status
  added : Text → Text → Text → Status
  deleted error : Text → Status

-- The commands that change the rules: `iptables -A INPUT -p proto --dport port -j action`, and
-- `iptables -D INPUT num`.
pub data Command : Type 0 where
  append : Text → Text → Text → Command
  delete : Text → Command

-- `commands` are those that were run, the latest first.
pub record Firewall : Type 0 where
  pub rules : List Rule
  pub cursor : Cursor
  pub status : Status
  pub mode : Mode
  pub port_in : Text
  pub proto_in : Text
  pub action : Text
  pub stage : Stage
  pub commands : List Command

abbrev pub init : Firewall
init = record {
  rules = [];
  cursor = top;
  status = press_r;
  mode = list;
  port_in = [];
  proto_in = codes "tcp";
  action = codes "ACCEPT";
  stage = at_port;
  commands = [];
}

-- What iptables answers during one call: the listing, and the exception of the command that
-- changes the rules, if it has one (`check=True`: a failed command has).
pub record Answers : Type 0 where
  pub listing : Answer
  pub failure : Option Text

abbrev fifth : List Text → Text
fifth [] = codes "any"
fifth (source ∷ _) = source

-- The rule of a line of at least four words.
unfoldable pub rule : List Text → List Rule
rule (num ∷ target ∷ proto ∷ _ ∷ rest) =
    record { num = num; target = target; proto = proto; source = fifth rest } ∷ []
rule _ = []

unfoldable pub parse_rules : List (List Text) → List Rule
unfolding rule
parse_rules [] = []
parse_rules (l ∷ ls) = rule l ++ parse_rules ls

-- The rows that `draw_list` shows, each with whether it is drawn as the selected one.
unfoldable pub drawn : Firewall → List (Rule × Bool)
drawn s = rows 9 s.cursor s.rules

-- `space` is Python's white space.
module _ (space : ℕ → Bool) where
  unfoldable pub load_rules : Answer → Firewall → Firewall
  unfolding parse_rules
  load_rules (output t) s =
      let rs = parse_rules (table space 2 t) in record s { rules = rs; status = loaded (length rs) }
  load_rules (failed e) s = record s { status = error e }

  unfoldable pub add_rule : Answers → Text → Text → Text → Firewall → Firewall
  unfolding load_rules
  add_rule a port proto action s =
      let s' = record s { commands = append proto port action ∷ s.commands } in
      elim a.failure [
        | none ↦ load_rules a.listing (record s' { status = added action proto port })
        | some e ↦ record s' { status = error e }
      ]

  unfoldable pub delete_rule : Answers → Text → Firewall → Firewall
  unfolding load_rules
  delete_rule a num s =
      let s' = record s { commands = delete num ∷ s.commands } in
      elim a.failure [
        | none ↦ load_rules a.listing (record s' { status = deleted num })
        | some e ↦ record s' { status = error e }
      ]

  -- D on the rule at the selection; past the end it is IndexError.
  unfoldable pub delete_at : Answers → Firewall → Option Rule → Outcome Firewall
  unfolding delete_rule
  delete_at a s none = raised s
  delete_at a s (some r) = done (delete_rule a r.num s)

  -- A: the form, from its first field.
  unfoldable pub begin : Firewall → Firewall
  begin s = record s {
    mode = add;
    stage = at_port;
    port_in = [];
    proto_in = codes "tcp";
    action = codes "ACCEPT";
  }

  unfoldable pub list_key : Answers → Firewall → Key → Outcome Firewall
  unfolding load_rules delete_at begin
  list_key a s key =
      if is k_down key
      then done (record s { cursor = down 9 (length s.rules) s.cursor })
      else if is k_up key
      then done (record s { cursor = up s.cursor })
      else if is k_r key
      then done (load_rules a.listing s)
      else if is k_a key
      then done (begin s)
      else if is k_d key
      then (if nonempty s.rules
          then delete_at a s (get_elem? s.rules s.cursor.selected)
          else done s)
      else done s

  -- RETURN in the form
  unfoldable pub confirm : Answers → Firewall → Stage → Firewall
  unfolding add_rule
  confirm a s at_port = if nonempty s.port_in then record s { stage = at_proto } else s
  confirm a s at_proto = record s { stage = at_action }
  confirm a s at_action = record (add_rule a s.port_in s.proto_in s.action s) { mode = list }

  -- The other keys, in the fields of the form.
  unfoldable pub field_key : Firewall → Key → Text → Stage → Firewall
  field_key s key unicode at_port = record s { port_in = s.port_in ++ unicode }
  field_key s key unicode at_proto =
      if is k_t key
      then record s { proto_in = codes "tcp" }
      else if is k_u key
      then record s { proto_in = codes "udp" }
      else s
  field_key s key unicode at_action =
      if is k_a key
      then record s { action = codes "ACCEPT" }
      else if is k_d key
      then record s { action = codes "DROP" }
      else s

  unfoldable pub erase : Firewall → Stage → Firewall
  erase s at_port = record s { port_in = drop_last s.port_in }
  erase s at_proto = s
  erase s at_action = s

  unfoldable pub add_key : Answers → Firewall → Key → Text → Firewall
  unfolding confirm field_key erase
  add_key a s key unicode =
      if is k_return key
      then confirm a s s.stage
      else if is k_backspace key
      then erase s s.stage
      else if is k_escape key
      then record s { mode = list }
      else field_key s key unicode s.stage

  unfoldable pub handle_input : Answers → Firewall → Event → Outcome Firewall
  unfolding list_key add_key
  handle_input a s (keydown key unicode) = elim s.mode [
    | list ↦ list_key a s key
    | add ↦ done (add_key a s key unicode)
  ]
  handle_input a s _ = done s
