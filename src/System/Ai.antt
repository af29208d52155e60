-- ===== src/System/Ai.antt =====
-- src/system/julius_ai.py: the conversation, its keys and touches, the threads that `ask` starts,
-- and how `draw` breaks a message into lines.
mod Asking
mod Wrapping
mod Tests
use julius_os.Prelude.{
  ℕ, zero, suc, ◌+◌, ◌-◌, ◌*◌, Bool, true, false, ◌&&◌, Option, none, some, List, [], ◌∷◌, ◌++◌,
  length, get_elem?, erase_at, drop_last, nonempty, ltb, if◌then◌else◌,
}
use julius_os.Prelude.Int.{pos, leb_ℤ}
use julius_os.Prelude.Text.{Text, codes}
use julius_os.Events.{Key, k_return, k_backspace, k_escape, is, Pos}
use julius_os.Shell.Icons.{W, H}

-- "user", "julius" of `messages`; "system", "user" and "assistant" of `history`.
pub data Role : Type 0 where
  user julius system assistant : Role

pub record Message : Type 0 where
  pub role : Role
  pub content : Text

-- `started` are the questions of threads that have not run yet, `waiting` those of threads that
-- wait for the server, `answering` the answers of threads that have not shown them yet.
pub record Ai : Type 0 where
  pub visible : Bool
  pub messages : List Message
  pub input : Text
  pub thinking : Bool
  pub scroll : ℕ
  pub history : List Message
  pub started : List Text
  pub waiting : List Text
  pub answering : List Text

-- The prompt is the text of the source, an argument here.
unfoldable pub init : Text → Ai
init prompt = record {
  visible = false;
  messages = [];
  input = [];
  thinking = false;
  scroll = 0;
  history = record { role = system; content = prompt } ∷ [];
  started = [];
  waiting = [];
  answering = [];
}

unfoldable pub show : Ai → Ai
show s =
    let s' = record s { visible = true } in
    if nonempty s.messages then s' else record s' {
      messages =
          record {
            role = julius;
            content = codes "Hi! I'm Julius, your AI assistant. How can I help?";
          }
          ∷ [];
    }

unfoldable pub hide : Ai → Ai
hide s = record s { visible = false }

-- `ask`, up to the start of its thread.
unfoldable pub ask : Text → Ai → Ai
ask question s = record s {
  messages = s.messages ++ record { role = user; content = question } ∷ [];
  thinking = true;
  started = s.started ++ question ∷ [];
}

-- The thread up to its request: the i-th of those that have not run.
unfoldable pub begun : ℕ → Option Text → Ai → Ai
begun i none s = s
begun i (some question) s = record s {
  history = s.history ++ record { role = user; content = question } ∷ [];
  started = erase_at s.started i;
  waiting = s.waiting ++ question ∷ [];
}

unfoldable pub begin : ℕ → Ai → Ai
unfolding begun
begin i s = begun i (get_elem? s.started i) s

-- The thread once it has its answer, or the text that an exception gives in its place: the i-th of
-- those that wait puts it into the history.
unfoldable pub answered : ℕ → Option Text → Text → Ai → Ai
answered i none answer s = s
answered i (some question) answer s = record s {
  history = s.history ++ record { role = assistant; content = answer } ∷ [];
  waiting = erase_at s.waiting i;
  answering = s.answering ++ answer ∷ [];
}

unfoldable pub finish : ℕ → Text → Ai → Ai
unfolding answered
finish i answer s = answered i (get_elem? s.waiting i) answer s

-- The end of the thread: the i-th of those with an answer shows it.
unfoldable pub told : ℕ → Option Text → Ai → Ai
told i none s = s
told i (some answer) s =
    let messages = s.messages ++ record { role = julius; content = answer } ∷ [] in
    record s {
      messages = messages;
      thinking = false;
      scroll = length messages * 60 - (H - 200);
      answering = erase_at s.answering i;
    }

unfoldable pub tell : ℕ → Ai → Ai
unfolding told
tell i s = told i (get_elem? s.answering i) s

-- `strip` and `printable` are Python's.
module _ (strip : Text → Text) (printable : Text → Bool) where
  -- RETURN, or a touch of "Go", on an input that is not blank.
  unfoldable pub submit : Ai → Ai
  unfolding ask
  submit s = record (ask (strip s.input) s) { input = [] }

  unfoldable pub handle_key : Key → Text → Ai → Ai
  unfolding submit hide
  handle_key key unicode s =
      if s.visible
      then (if is k_return key && nonempty (strip s.input)
          then submit s
          else if is k_backspace key
          then record s { input = drop_last s.input }
          else if is k_escape key
          then hide s
          else if nonempty unicode && printable unicode
          then record s { input = s.input ++ unicode }
          else s)
      else s

  -- Whether a position is on the button "Go".
  unfoldable pub on_go : Pos → Bool
  on_go p =
      (leb_ℤ (pos (W - 52)) p.0 && leb_ℤ p.0 (pos (W - 8)))
      && (leb_ℤ (pos (H - 46)) p.1 && leb_ℤ p.1 (pos (H - 8)))

  unfoldable pub handle_touch : Pos → Ai → Ai
  unfolding submit on_go
  handle_touch p s =
      if s.visible
      then (if on_go p then (if nonempty (strip s.input) then submit s else s) else s)
      else s

abbrev pub max_w : ℕ
max_w = 200

-- `line + (" " if line else "") + word`
unfoldable pub extended : Text → Text → Text
extended [] word = word
extended (c ∷ cs) word = (c ∷ cs) ++ 32 ∷ word

-- `lines.append(line)` if the line has a character, before the lines that follow.
unfoldable pub broken_off : Text → List Text → List Text
broken_off [] lines = lines
broken_off (c ∷ cs) lines = (c ∷ cs) ∷ lines

-- The lines of a message, from its words and the line so far; `size` is the width of a rendered
-- text.
module _ (size : Text → ℕ) where
  unfoldable pub wrap : Text → List Text → List Text
  unfolding extended broken_off
  wrap line [] = broken_off line []
  wrap line (word ∷ words) =
      let broken = broken_off line (wrap word words) in
      let longer = wrap (extended line word) words in
      if ltb max_w (size (extended line word)) then broken else longer

  unfoldable pub lines_of : List Text → List Text
  unfolding wrap
  lines_of words = wrap [] words
