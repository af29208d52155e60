-- ===== src/Events.antt =====
-- The pygame events that the handlers read (src/julius_ui.py, src/launcher/launcher.py, and
-- `handle_input` of each app): the keys are those that some handler names, `other` is the rest.
use julius_os.Prelude.{ℕ, Bool, ◌==◌}
use julius_os.Prelude.Int.{ℤ}
use julius_os.Prelude.Text.{Text}

pub data Key : Type 0 where
  k_return k_backspace k_escape k_up k_down k_left k_right : Key
  k_a k_c k_d k_e k_f k_h k_k k_l k_m k_n k_r k_s k_t k_u k_v k_x k_1 k_2 other : Key

unfoldable pub key_index : Key → ℕ
key_index k_return = 0
key_index k_backspace = 1
key_index k_escape = 2
key_index k_up = 3
key_index k_down = 4
key_index k_left = 5
key_index k_right = 6
key_index k_a = 7
key_index k_c = 8
key_index k_d = 9
key_index k_e = 10
key_index k_f = 11
key_index k_h = 12
key_index k_k = 13
key_index k_l = 14
key_index k_m = 15
key_index k_n = 16
key_index k_r = 17
key_index k_s = 18
key_index k_t = 19
key_index k_u = 20
key_index k_v = 21
key_index k_x = 22
key_index k_1 = 23
key_index k_2 = 24
key_index other = 25

-- `event.key == pygame.K_…`
abbrev pub is : Key → Key → Bool
is wanted key = key_index key == key_index wanted

-- A point of the screen, or a distance between two.
abbrev pub Pos : Type 0
Pos = ℤ × ℤ

-- `keydown key unicode` is a KEYDOWN event; `unicode` is `event.unicode`.
pub data Event : Type 0 where
  keydown : Key → Text → Event
  mouse_down mouse_up : Pos → Event
  mouse_wheel : ℤ → Event
  quit : Event
