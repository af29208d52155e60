-- ===== src/System/Spotlight.antt =====
-- src/system/spotlight.py: the search field, its results, keys and touches. `str.lower` and
-- `str.isprintable` are Python's, over Unicode's tables: parameters here.
pub mod Answers
mod Tests
use julius_os.Prelude.{
  ℕ, zero, suc, ◌+◌, ◌-◌, ◌*◌, Bool, true, false, ◌&&◌, ◌||◌, Option, none, some, List, [], ◌∷◌,
  ◌++◌, length, take, get_elem?, drop_last, nonempty, keep, map, ltb, if◌then◌else◌,
}
use julius_os.Prelude.Int.{ℤ, pos, negsuc, ◌+ℤ◌, ◌-ℤ◌, sub_ℕ, ltb_ℤ, min_ℤ, max_ℤ}
use julius_os.Prelude.Text.{Text, codes, text_eq, is_in}
use julius_os.Events.{Key, k_return, k_backspace, k_escape, k_up, k_down, Pos, is}
use julius_os.Geometry.{Rect, rect, hits}
use julius_os.Outcome.{Outcome, done, raised}

pub data Kind : Type 0 where
  app : Kind
  command : Kind
  setting : Kind

pub record Result : Type 0 where
  pub kind : Kind
  pub name : Text

-- `result_rects` is `none` until `draw` sets it.
pub record Spotlight : Type 0 where
  pub visible : Bool
  pub query : Text
  pub results : List Result
  pub selected : ℤ
  pub result_rects : Option (List (Rect × Result))

-- What a handler answers: None, the string "hide", or a result.
pub data Reply : Type 0 where
  nothing : Reply
  hidden : Reply
  picked : Result → Reply

unfoldable pub init : Spotlight
init = record { visible = false; query = []; results = []; selected = pos 0; result_rects = none }

unfoldable pub show : Spotlight → Spotlight
show s = record s { visible = true; query = []; results = [] }

unfoldable pub hide : Spotlight → Spotlight
hide s = record s { visible = false; query = [] }

-- `q in [...]`
unfoldable pub is_one_of : Text → List Text → Bool
is_one_of q [] = false
is_one_of q (t ∷ ts) = text_eq q t || is_one_of q ts

abbrev pub commands : List Text
commands =
    codes "nmap"
    ∷ codes "ping"
    ∷ codes "curl"
    ∷ codes "python3"
    ∷ codes "ls"
    ∷ codes "cat"
    ∷ codes "ps"
    ∷ codes "df"
    ∷ []

abbrev pub wifi_words : List Text
wifi_words = codes "wifi" ∷ codes "network" ∷ codes "ip" ∷ []

abbrev pub bluetooth_words : List Text
bluetooth_words = codes "bt" ∷ codes "bluetooth" ∷ []

abbrev pub wifi_result : Result
wifi_result = record { kind = setting; name = codes "WiFi Settings" }

abbrev pub bluetooth_result : Result
bluetooth_result = record { kind = setting; name = codes "Bluetooth" }

abbrev pub of_kind : Kind → Text → Result
of_kind k n = record { kind = k; name = n }

-- `apps` are the names of the apps.
module _ (lower : Text → Text) (printable : Text → Bool) (apps : List Text) where
  -- The results of `search` for a query.
  unfoldable pub found : Text → List Result
  unfolding is_one_of
  found [] = []
  found (c ∷ q) =
      let q_lower = lower (c ∷ q) in
      map (of_kind app) (keep (λ a. is_in q_lower (lower a)) apps)
      ++ (map (of_kind command) (keep (λ a. is_in q_lower a) commands)
          ++ ((if is_one_of q_lower wifi_words then wifi_result ∷ [] else [])
              ++ (if is_one_of q_lower bluetooth_words then bluetooth_result ∷ [] else [])))

  unfoldable pub search : Text → Spotlight → Spotlight
  unfolding found
  search q s = record s { query = q; results = found q }

  -- `l[i]`: an index below zero counts from the end, and out of range is IndexError.
  unfoldable pub at_index : List Result → ℤ → Option Result
  at_index rs (pos i) = get_elem? rs i
  at_index rs (negsuc n) = if ltb n (length rs) then get_elem? rs (length rs - 1 - n) else none

  unfoldable pub reply_with : Option Result → Spotlight → Outcome Spotlight × Reply
  reply_with none s = (raised s, nothing)
  reply_with (some r) s = (done s, picked r)

  unfoldable pub enter : Spotlight → Outcome Spotlight × Reply
  unfolding at_index reply_with
  enter s =
      if nonempty s.results && ltb_ℤ s.selected (pos (length s.results))
      then reply_with (at_index s.results s.selected) s
      else (done s, nothing)

  unfoldable pub type_text : Text → Spotlight → Spotlight
  unfolding search
  type_text t s =
      if nonempty t && printable t then record (search (s.query ++ t) s) { selected = pos 0 } else s

  unfoldable pub handle_key : Key → Text → Spotlight → Outcome Spotlight × Reply
  unfolding hide search enter type_text
  handle_key key unicode s =
      if s.visible
      then (if is k_escape key
          then (done (hide s), hidden)
          else if is k_backspace key
          then (done (search (drop_last s.query) s), nothing)
          else if is k_return key
          then enter s
          else if is k_down key
          then (
            done (record s { selected = min_ℤ (s.selected +ℤ pos 1) (sub_ℕ (length s.results) 1) }),
            nothing,
          )
          else if is k_up key
          then (done (record s { selected = max_ℤ (s.selected -ℤ pos 1) (pos 0) }), nothing)
          else (done (type_text unicode s), nothing))
      else (done s, nothing)

-- The rows of `draw`.
unfoldable pub rows : ℕ → ℕ → List Result → List (Rect × Result)
rows W y [] = []
rows W y (r ∷ rs) = (rect (pos 12) (pos y) (sub_ℕ W 24) (pos 46), r) ∷ rows W (y + 52) rs

-- `draw`, as far as it changes the state: with no results the old rectangles stay.
unfoldable pub draw : ℕ → Spotlight → Spotlight
unfolding rows
draw W s =
    if s.visible && nonempty s.results
    then record s { result_rects = some (rows W 106 (take 8 s.results)) }
    else s

unfoldable pub touched : Pos → List (Rect × Result) → Option Result
touched p [] = none
touched p (r ∷ rs) = let rest = touched p rs in if hits r.0 p then some r.1 else rest

-- The result that a touch finds in the rectangles, if any were laid out.
unfoldable pub touched_result : Pos → Option (List (Rect × Result)) → Option Result
unfolding touched
touched_result p none = none
touched_result p (some rs) = touched p rs

unfoldable pub handle_touch : Pos → Spotlight → Spotlight × Reply
unfolding touched_result hide
handle_touch p s =
    let aside =
      if ltb_ℤ p.1 (pos 50) || ltb_ℤ (pos (106 + length s.results * 52)) p.1 then hide s else s in
    if s.visible
    then elim (touched_result p s.result_rects) [ none ↦ (aside, nothing) | some r ↦ (s, picked r) ]
    else (s, nothing)
