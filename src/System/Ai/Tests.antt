-- ===== src/System/Ai/Tests.antt =====
-- A question, the thread that answers it, and a message of three words.
use julius_os.Prelude.{ℕ, inl, ◌*◌, ◌≡◌, refl, Bool, true, [], ◌∷◌, arith, length}
use julius_os.Prelude.Text.{Text, codes}
use julius_os.Events.{k_return, k_a}
use julius_os.System.Ai.{init, lines_of, wrap, extended, broken_off}
use julius_os.System.Ai.Asking.{IsAccounted, shown, key, begins, ends, tells, run, run-IsAccounted}
use julius_os.System.Ai.Wrapping.{spaced, AllFit, lines_of-wraps}

abbrev plain : Text → Text
plain t = t

abbrev any_text : Text → Bool
any_text t = true

run-IsAccounted_example : IsAccounted (
    run plain any_text
      (shown ∷ key k_a (codes "a") ∷ key k_return [] ∷ begins 0 ∷ ends 0 (codes "b") ∷ tells 0 ∷ [])
      (init []))
unfolding init
run-IsAccounted_example =
    run-IsAccounted plain any_text
      (shown ∷ key k_a (codes "a") ∷ key k_return [] ∷ begins 0 ∷ ends 0 (codes "b") ∷ tells 0 ∷ [])
      (init []) ((λ q. omega arith), refl, inl (λ t. omega arith))

-- Each character is 40 wide.
abbrev wide : Text → ℕ
wide t = 40 * length t

lines_of-wraps_example :
    (spaced (lines_of wide (codes "ab" ∷ codes "cd" ∷ codes "ef" ∷ []))
      ≡ spaced (codes "ab" ∷ codes "cd" ∷ codes "ef" ∷ []))
    × AllFit wide
        (codes "ab" ∷ codes "cd" ∷ codes "ef" ∷ [])
        (lines_of wide (codes "ab" ∷ codes "cd" ∷ codes "ef" ∷ []))
lines_of-wraps_example =
    lines_of-wraps wide (codes "ab" ∷ codes "cd" ∷ codes "ef" ∷ []) (refl, (refl, (refl, tt)))

two_lines :
    lines_of wide (codes "ab" ∷ codes "cd" ∷ codes "ef" ∷ []) ≡ codes "ab cd" ∷ codes "ef" ∷ []
unfolding lines_of wrap extended broken_off
two_lines = refl
