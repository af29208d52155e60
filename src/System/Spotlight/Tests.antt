-- ===== src/System/Spotlight/Tests.antt =====
-- Three apps, and texts whose letters are lower case already.
use julius_os.Prelude.{refl, Bool, true, List, [], ◌∷◌, some, arith}
use julius_os.Prelude.Int.{pos}
use julius_os.Prelude.Text.{Text, codes}
use julius_os.Events.{other}
use julius_os.Geometry.{rect}
use julius_os.Outcome.{Returns}
use julius_os.System.Spotlight.{app, of_kind, Spotlight, init, found, handle_key}
use julius_os.System.Spotlight.Answers.{IsSound, handle_key-IsSound}

abbrev same : Text → Text
same t = t

abbrev any : Text → Bool
any t = true

abbrev names : List Text
names = codes "notes" ∷ codes "todo" ∷ codes "timer" ∷ []

abbrev asked : Spotlight
asked = record init {
  visible = true;
  query = codes "t";
  results = found same any names (codes "t");
}

asked-IsSound : IsSound (found same any names) asked
unfolding init
asked-IsSound = (omega arith, λ v. refl)

handle_key-IsSound_example :
    Returns (IsSound (found same any names)) (handle_key same any names other (codes "o") asked).0
handle_key-IsSound_example = handle_key-IsSound same any names other (codes "o") asked asked-IsSound

abbrev mistyped : Spotlight
mistyped = record init { visible = true; query = codes "tox"; results = [] }

abbrev earlier : Spotlight
earlier = record asked {
  result_rects =
      some ((rect (pos 12) (pos 106) (pos 296) (pos 46), of_kind app (codes "notes")) ∷ []);
}
