-- ===== src/Shell/Steps.antt =====
-- What single steps of the loop of src/julius_ui.py change, for the proofs about it.
use julius_os.Prelude.{ℕ, ◌≡◌, refl, arith}
use julius_os.Prelude.Int.{ℤ}
use julius_os.Shell.Loop.{
  Screen, state_lock, state_home, state_app, state_settings, Parts, Ui, wheel_turned,
}

module _ {A O : Type 0} (parts : Parts A O) where
  -- The wheel changes nothing but the scroll of the settings.
  pub wheel_turned-scroll :
      (y : ℤ) (u : Ui A O) → (n : ℕ) × (wheel_turned parts y u ≡ record u { settings_scroll = n })
  unfolding wheel_turned
  wheel_turned-scroll y u = on_state u.state refl
    where
      on_state :
          (st : Screen)
          → u.state ≡ st
          → (n : ℕ) × (wheel_turned parts y u ≡ record u { settings_scroll = n })
      on_state state_lock e = (u.settings_scroll, ground arith)
      on_state state_home e = (u.settings_scroll, ground arith)
      on_state state_app e = (u.settings_scroll, ground arith)
      on_state state_settings e = ((wheel_turned parts y u).settings_scroll, ground arith)
