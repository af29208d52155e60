-- ===== src/System/AppSwitcher/Tests.antt =====
-- A switcher with three recent apps on a screen of 320 by 480.
use julius_os.Prelude.{◌≡◌, true, some, List, [], ◌∷◌, take}
use julius_os.Prelude.Int.{pos}
use julius_os.Prelude.Text.{Text, codes}
use julius_os.Geometry.{rect}
use julius_os.System.AppSwitcher.{AppSwitcher, Card, init}
use julius_os.System.AppSwitcher.Recency.{recency, opened, recent-recency}

abbrev history : List Text
history = codes "Notes" ∷ codes "Todo" ∷ codes "Notes" ∷ codes "Timer" ∷ []

abbrev shown : AppSwitcher
shown = record init { visible = true; recent = codes "Notes" ∷ codes "Todo" ∷ [] }

recent-recency_example : (opened history init).recent ≡ take 8 (recency history)
recent-recency_example = recent-recency history

abbrev last_card : Card
last_card = record {
  area = rect (pos 76) (pos 124) (pos 168) (pos 273);
  close = rect (pos 216) (pos 120) (pos 20) (pos 20);
  name = codes "Notes";
  index = 0;
}

abbrev one_card : AppSwitcher
one_card = record init {
  visible = true;
  recent = codes "Notes" ∷ [];
  card_rects = some (some last_card ∷ []);
}
