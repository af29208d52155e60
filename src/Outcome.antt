-- ===== src/Outcome.antt =====
-- How a call of a handler ends: it returns, or a Python exception leaves it. What was written
-- before an exception stays written, so the state comes back in both cases.
use julius_os.Prelude.{◌≡◌, refl, Bool, true, false, if◌then◌else◌}

pub data Outcome (S : Type 0) : Type 0 where
  done : S → Outcome S
  raised : S → Outcome S

-- What follows a call is run only if it returned.
infixl 5 ◌>>=◌
abbrev pub ◌>>=◌ : {S : Type 0} → Outcome S → (S → Outcome S) → Outcome S
done s >>= f = f s
raised s >>= f = raised s

-- The state that the call left, however it ended.
abbrev pub after : {S : Type 0} → Outcome S → S
after (done s) = s
after (raised s) = s

-- The call returned, in a state with the property.
abbrev pub Returns : {S : Type 0} → (S → Type 0) → Outcome S → Type 0
Returns P (done s) = P s
Returns P (raised s) = ⊥

-- One branch of an `if` at a time, with the outcome of its test.
module _ {S : Type 0} (P : S → Type 0) where
  pub Returns-if :
      (b : Bool) (m n : Outcome S)
      → (b ≡ true → Returns P m)
      → (b ≡ false → Returns P n)
      → Returns P (if b then m else n)
  Returns-if true m n yes_case no_case = yes_case refl
  Returns-if false m n yes_case no_case = no_case refl

  -- The same for what holds of the state that is left, and of a plain state.
  pub after-if :
      (b : Bool) (m n : Outcome S)
      → (b ≡ true → P (after m))
      → (b ≡ false → P (after n))
      → P (after (if b then m else n))
  after-if true m n yes_case no_case = yes_case refl
  after-if false m n yes_case no_case = no_case refl

  pub holds-if :
      (b : Bool) (m n : S) → (b ≡ true → P m) → (b ≡ false → P n) → P (if b then m else n)
  holds-if true m n yes_case no_case = yes_case refl
  holds-if false m n yes_case no_case = no_case refl

  -- A call that returned left such a state.
  pub returned : (o : Outcome S) → Returns P o → P (after o)
  returned (done s) h = h
  returned (raised s) h = absurd h
