-- ===== src/Geometry.antt =====
-- Rectangles of the screen, and the hit test that the handlers of src/system write out:
-- `r[0]<=pos[0]<=r[0]+r[2] and r[1]<=pos[1]<=r[1]+r[3]`.
use julius_os.Prelude.{Bool, ◌&&◌}
use julius_os.Prelude.Int.{ℤ, ◌+ℤ◌, leb_ℤ}
use julius_os.Events.{Pos}

pub record Rect : Type 0 where
  pub x : ℤ
  pub y : ℤ
  pub w : ℤ
  pub h : ℤ

abbrev pub rect : ℤ → ℤ → ℤ → ℤ → Rect
rect x y w h = record { x = x; y = y; w = w; h = h }

unfoldable pub hits : Rect → Pos → Bool
hits r p = (leb_ℤ r.x p.0 && leb_ℤ p.0 (r.x +ℤ r.w)) && (leb_ℤ r.y p.1 && leb_ℤ p.1 (r.y +ℤ r.h))
