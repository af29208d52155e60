-- ===== src/System/Ai/Asking.antt =====
-- The questions of src/system/julius_ai.py, however its threads interleave with the keys and the
-- touches.
use julius_os.Prelude.{
  ℕ, zero, suc, ◌+◌, ◌≡◌, ◌⊎◌, inl, inr, refl, sym, ap, ◌∙◌, Bool, true, false, ◌&&◌, Option, none,
  some, List, [], ◌∷◌, ◌++◌, arith, length, get_elem?, erase_at, nonempty, append-nil,
  length-append, length-erase_at, get_elem?-length, if◌then◌else◌,
}
use mathlib.Core.Option.{some-injective}
use julius_os.Prelude.Text.{Text, codes, text_eq}
use julius_os.Events.{Key, k_return, k_backspace, k_escape, is, Pos}
use julius_os.System.Ai.{
  Role, user, julius, system, assistant, Message, Ai, show, hide, ask, begin, begun, finish,
  answered, told, tell, submit, handle_key, on_go, handle_touch,
}

abbrev is_role : Role → Role → Bool
is_role user user = true
is_role julius julius = true
is_role system system = true
is_role assistant assistant = true
is_role _ _ = false

-- The texts of the messages that have the role, in their order.
abbrev pub contents : Role → List Message → List Text
contents r [] = []
contents r (m ∷ ms) =
    let rest = contents r ms in if is_role r m.role then m.content ∷ rest else rest

contents-append :
    (r : Role) (ms ns : List Message) → contents r (ms ++ ns) ≡ contents r ms ++ contents r ns
contents-append r [] ns = refl
contents-append r (m ∷ ms) ns = on_role (is_role r m.role) (contents-append r ms ns)
  where
    on_role :
        (b : Bool)
        → contents r (ms ++ ns) ≡ contents r ms ++ contents r ns
        → (if b then m.content ∷ contents r (ms ++ ns) else contents r (ms ++ ns))
          ≡ (if b then m.content ∷ contents r ms else contents r ms) ++ contents r ns
    on_role true e = ap (λ ts. m.content ∷ ts) e
    on_role false e = e

-- How often a text is in a list.
abbrev pub times : Text → List Text → ℕ
times q [] = 0
times q (t ∷ ts) = (if text_eq q t then 1 else 0) + times q ts

times-append : (q : Text) (ts us : List Text) → times q (ts ++ us) ≡ times q ts + times q us
times-append q [] us = omega arith
times-append q (t ∷ ts) us = omega (arith, times-append q ts us)

times-erase_at :
    (q : Text) (ts : List Text) (i : ℕ) (t : Text)
    → get_elem? ts i ≡ some t
    → times q (erase_at ts i) + times q (t ∷ []) ≡ times q ts
times-erase_at q [] i t e = cc
times-erase_at q (x ∷ ts) zero t e = rw (some-injective x t e) (omega arith)
times-erase_at q (x ∷ ts) (suc i) t e = omega (arith, times-erase_at q ts i t e)

abbrev greeting : Text
greeting = codes "Hi! I'm Julius, your AI assistant. How can I help?"

-- How often a text was said to the user, or will be.
abbrev pub shown_times : Text → Ai → ℕ
shown_times t s = times t (contents julius s.messages) + times t s.answering

-- What the assistant says to the user is what it said in the history, but for the greeting, which
-- is among the messages if it was said.
abbrev pub IsTold : Ai → Type 0
IsTold s =
    ((t : Text) → shown_times t s ≡ times t (contents assistant s.history))
    ⊎ ((nonempty s.messages ≡ true)
        × ((t : Text)
            → shown_times t s ≡ times t (contents assistant s.history) + times t (greeting ∷ [])))

-- Every text was asked as often as it stands as a question in the history or waits for its thread
-- to run; the history has as many questions as answers and requests under way; and what was
-- answered is told.
abbrev pub IsAccounted : Ai → Type 0
IsAccounted s =
    ((q : Text)
      → times q (contents user s.messages) ≡ times q (contents user s.history) + times q s.started)
    × (length (contents user s.history) ≡ length (contents assistant s.history) + length s.waiting)
    × IsTold s

-- Two states in which as much is said.
IsTold-same :
    (s s' : Ai)
    → (nonempty s.messages ≡ true → nonempty s'.messages ≡ true)
    → ((t : Text)
        → shown_times t s' + times t (contents assistant s.history)
          ≡ shown_times t s + times t (contents assistant s'.history))
    → IsTold s
    → IsTold s'
IsTold-same s s' grows same (inl e) = inl (λ t. omega (arith, same t, e t))
IsTold-same s s' grows same (inr e) = inr (grows e.0, λ t. omega (arith, same t, e.1 t))

nonempty-append : (ms : List Message) (m : Message) → nonempty (ms ++ m ∷ []) ≡ true
nonempty-append [] m = refl
nonempty-append (x ∷ ms) m = refl

IsAccounted-if :
    (b : Bool) (m n : Ai) → IsAccounted m → IsAccounted n → IsAccounted (if b then m else n)
IsAccounted-if true m n yes_case no_case = yes_case
IsAccounted-if false m n yes_case no_case = no_case

ask-IsAccounted : (q : Text) (s : Ai) → IsAccounted s → IsAccounted (ask q s)
unfolding ask
ask-IsAccounted q s h =
    let asked : Message = record { role = user; content = q } in
    (
      λ t. rw (contents-append user s.messages (asked ∷ [])) (
          omega (
            arith,
            h.0 t,
            times-append t (contents user s.messages) (q ∷ []),
            times-append t s.started (q ∷ []),
          )),
      h.1,
      IsTold-same s (ask q s) (λ e. nonempty-append s.messages asked)
          (λ t.
            rw
              (
                contents-append julius s.messages (asked ∷ []),
                append-nil (contents julius s.messages),
              )
              refl)
          h.2,
    )

begun-IsAccounted :
    (i : ℕ) (o : Option Text) (s : Ai)
    → get_elem? s.started i ≡ o
    → IsAccounted s
    → IsAccounted (begun i o s)
unfolding begun
begun-IsAccounted i none s e h = h
begun-IsAccounted i (some q) s e h =
    let asked : List Message = record { role = user; content = q } ∷ [] in
    let users = contents-append user s.history asked in
    let same =
      contents-append assistant s.history asked ∙ append-nil (contents assistant s.history) in
    (
      λ t. rw users (
          omega (
            arith,
            h.0 t,
            times-append t (contents user s.history) (q ∷ []),
            times-erase_at t s.started i q e,
          )),
      rw (users, same)
          (omega (
            arith,
            h.1,
            length-append (contents user s.history) (q ∷ []),
            length-append s.waiting (q ∷ []),
          )),
      IsTold-same s (begun i (some q) s) (λ e. e) (λ t. rw same refl) h.2,
    )

answered-IsAccounted :
    (i : ℕ) (o : Option Text) (answer : Text) (s : Ai)
    → get_elem? s.waiting i ≡ o
    → IsAccounted s
    → IsAccounted (answered i o answer s)
unfolding answered
answered-IsAccounted i none answer s e h = h
answered-IsAccounted i (some q) answer s e h =
    let said : List Message = record { role = assistant; content = answer } ∷ [] in
    let same = contents-append user s.history said ∙ append-nil (contents user s.history) in
    let answers = contents-append assistant s.history said in
    (
      λ t. rw same (h.0 t),
      rw (same, answers)
          (omega (
            arith,
            h.1,
            length-append (contents assistant s.history) (answer ∷ []),
            length-erase_at s.waiting i (get_elem?-length s.waiting i e),
          )),
      IsTold-same s (answered i (some q) answer s) (λ e. e)
          (λ t. rw answers (
            omega (
              arith,
              times-append t (contents assistant s.history) (answer ∷ []),
              times-append t s.answering (answer ∷ []),
            )))
          h.2,
    )

told-IsAccounted :
    (i : ℕ) (o : Option Text) (s : Ai)
    → get_elem? s.answering i ≡ o
    → IsAccounted s
    → IsAccounted (told i o s)
unfolding told
told-IsAccounted i none s e h = h
told-IsAccounted i (some answer) s e h =
    let said : Message = record { role = julius; content = answer } in
    let asked =
      contents-append user s.messages (said ∷ []) ∙ append-nil (contents user s.messages) in
    (
      λ t. rw asked (h.0 t),
      h.1,
      IsTold-same s (told i (some answer) s) (λ e. nonempty-append s.messages said)
          (λ t. rw (contents-append julius s.messages (said ∷ [])) (
            omega (
              arith,
              times-append t (contents julius s.messages) (answer ∷ []),
              times-erase_at t s.answering i answer e,
            )))
          h.2,
    )

-- The greeting is said only where there was no message.
show-IsAccounted : (s : Ai) → IsAccounted s → IsAccounted (show s)
unfolding show
show-IsAccounted s h = on_messages s.messages refl
  where
    greeted : s.messages ≡ [] → IsTold s → IsAccounted (show s)
    greeted e (inl k) = rw e (
      λ q. ap (λ ms. times q (contents user ms)) (sym e) ∙ h.0 q,
      h.1,
      inr (
        refl,
        λ t. let before = ap (λ ms. times t (contents julius ms)) e in omega (arith, k t, before),
      ),
    )
    greeted e (inr k) = absurd (none_there (ap nonempty (sym e) ∙ k.0))
      where
        none_there : false ≡ true → ⊥
        none_there x = cc

    on_messages : (ms : List Message) → s.messages ≡ ms → IsAccounted (show s)
    on_messages [] e = greeted e h.2
    on_messages (m ∷ ms) e = rw e (
      λ q. ap (λ ms. times q (contents user ms)) (sym e) ∙ h.0 q,
      h.1,
      IsTold-same s (record s { messages = m ∷ ms }) (λ k. refl)
          (λ t.
            ap
              (λ ms.
                times t (contents julius ms)
                + times t s.answering
                + times t (contents assistant s.history))
              (sym e))
          h.2,
    )

-- What can happen next: a call of the shell, or a step of one of the threads.
pub data Step : Type 0 where
  shown hidden : Step
  key : Key → Text → Step
  touch : Pos → Step
  begins : ℕ → Step
  ends : ℕ → Text → Step
  tells : ℕ → Step

module _ (strip : Text → Text) (printable : Text → Bool) where
  submit-IsAccounted : (s : Ai) → IsAccounted s → IsAccounted (submit strip printable s)
  unfolding submit
  submit-IsAccounted s h = ask-IsAccounted (strip s.input) s h

  handle_key-IsAccounted :
      (k : Key) (u : Text) (s : Ai) → IsAccounted s → IsAccounted (handle_key strip printable k u s)
  unfolding handle_key hide
  handle_key-IsAccounted k u s h =
      IsAccounted-if s.visible _ s
        (IsAccounted-if (is k_return k && nonempty (strip s.input)) (submit strip printable s) _
          (submit-IsAccounted s h)
          (IsAccounted-if (is k_backspace k) _ _ h (
            IsAccounted-if (is k_escape k) _ _ h
              (IsAccounted-if (nonempty u && printable u) _ s h h))))
        h

  handle_touch-IsAccounted :
      (p : Pos) (s : Ai) → IsAccounted s → IsAccounted (handle_touch strip printable p s)
  unfolding handle_touch
  handle_touch-IsAccounted p s h =
      IsAccounted-if s.visible
        (if on_go strip printable p
          then (if nonempty (strip s.input) then submit strip printable s else s)
          else s)
        s
        (IsAccounted-if (on_go strip printable p)
          (if nonempty (strip s.input) then submit strip printable s else s) s
          (IsAccounted-if (nonempty (strip s.input)) (submit strip printable s) s
            (submit-IsAccounted s h) h)
          h)
        h

  unfoldable pub step : Step → Ai → Ai
  unfolding handle_key handle_touch begin finish tell show hide
  step shown s = show s
  step hidden s = hide s
  step (key k u) s = handle_key strip printable k u s
  step (touch p) s = handle_touch strip printable p s
  step (begins i) s = begin i s
  step (ends i answer) s = finish i answer s
  step (tells i) s = tell i s

  unfoldable pub run : List Step → Ai → Ai
  unfolding step
  run [] s = s
  run (c ∷ cs) s = run cs (step c s)

  step-IsAccounted : (c : Step) (s : Ai) → IsAccounted s → IsAccounted (step c s)
  unfolding step begin finish tell hide
  step-IsAccounted shown s h = show-IsAccounted s h
  step-IsAccounted hidden s h = h
  step-IsAccounted (key k u) s h = handle_key-IsAccounted k u s h
  step-IsAccounted (touch p) s h = handle_touch-IsAccounted p s h
  step-IsAccounted (begins i) s h = begun-IsAccounted i (get_elem? s.started i) s refl h
  step-IsAccounted (ends i answer) s h =
      answered-IsAccounted i (get_elem? s.waiting i) answer s refl h
  step-IsAccounted (tells i) s h = told-IsAccounted i (get_elem? s.answering i) s refl h

  -- If it is so to begin with, then after any interleaving of calls and steps of the threads:
  -- every text was asked by the user as often as it stands as a question in the history or
  -- belongs to a thread that has not run; the history has one answer for each of its questions
  -- but for those that wait for the server; and every text was shown to the user as an answer,
  -- or is about to be shown by its thread, as often as it is an answer in the history, but for
  -- the greeting, which may have been shown once more.
  pub run-IsAccounted : (cs : List Step) (s : Ai) → IsAccounted s → IsAccounted (run cs s)
  unfolding run
  run-IsAccounted [] s h = h
  run-IsAccounted (c ∷ cs) s h = run-IsAccounted cs (step c s) (step-IsAccounted c s h)
