-- ===== src/System/Bridge/Answers.antt =====
-- What src/system/julius_bridge.py makes of the services' answers.
use julius_os.Prelude.{
  ℕ, ◌+◌, ◌≤◌, ◌<◌, ◌≡◌, refl, ap, ◌∙◌, Bool, true, false, Option, none, some, [], ◌∷◌, ◌++◌,
  length, take, drop, leb, ltb, ◌==◌, arith, tests,
}
use julius_os.System.Bytes.{Bytes, word, unword, unword-word, take-append, drop-append, length-word}
use julius_os.System.Bridge.{permission_granted, secret_of, get_answer}

-- A permission is granted only if the service answered, with at least eight bytes, and the word
-- after the first four bytes is 1.
pub permission_granted-answer :
    (answer : Option Bytes)
    → permission_granted answer ≡ true
    → (resp : Bytes) × (answer ≡ some resp) × (8 ≤ length resp) × (unword (drop 4 resp) ≡ some 1)
unfolding permission_granted
permission_granted-answer none h = cc
permission_granted-answer (some resp) h =
    on_answer (leb 8 (length resp)) (unword (take 4 resp)) (unword (drop 4 resp)) refl refl refl
  where
    on_answer :
        (long : Bool) (status granted : Option ℕ)
        → leb 8 (length resp) ≡ long
        → unword (take 4 resp) ≡ status
        → unword (drop 4 resp) ≡ granted
        → (r : Bytes) × (some resp ≡ some r) × (8 ≤ length r) × (unword (drop 4 r) ≡ some 1)
    on_answer false st g e f k = ground arith
    on_answer true none g e f k = ground arith
    on_answer true (some st) none e f k = ground arith
    on_answer true (some st) (some g) e f k =
        let one : g == 1 ≡ true = ground arith in
        (resp, refl, omega (tests, e), k ∙ ap some (ground arith))

length-answer :
    (secret : Bytes) → length (word 0 ++ (word (length secret) ++ secret)) ≡ 8 + length secret
unfolding word
length-answer secret = omega arith

drop-8 : (secret : Bytes) → drop 8 (word 0 ++ (word (length secret) ++ secret)) ≡ secret
unfolding word
drop-8 secret = refl

take_whole : (b : Bytes) → take (length b) b ≡ b
take_whole [] = refl
take_whole (x ∷ b) = ap (λ t. x ∷ t) (take_whole b)

-- The keychain's answer of status 0, a length and data of that length, at least one byte and
-- less than 2^32, is given whole.
pub get_answer-secret :
    (secret : Bytes)
    → 0 < length secret
    → length secret < 4294967296
    → get_answer (some (word 0 ++ (word (length secret) ++ secret))) ≡ some secret
unfolding get_answer secret_of
get_answer-secret secret h k =
    let answer = word 0 ++ (word (length secret) ++ secret) in
    let long : leb 8 (length answer) ≡ true = rw (length-answer secret) (ground arith) in
    let status : unword (take 4 answer) ≡ some 0 =
      ap unword (take-append (word 0) (word (length secret) ++ secret) 4 (length-word 0))
      ∙ unword-word 0 (omega arith) in
    let rest : drop 4 answer ≡ word (length secret) ++ secret =
      drop-append (word 0) (word (length secret) ++ secret) 4 (length-word 0) in
    let dlen : unword (take 4 (drop 4 answer)) ≡ some (length secret) =
      ap (λ b. unword (take 4 b)) rest
      ∙ ap unword (take-append (word (length secret)) secret 4 (length-word (length secret)))
      ∙ unword-word (length secret) k in
    let some_data : ltb 0 (length secret) ≡ true = ground arith in
    rw (long, status, dlen, drop-8 secret) (rw (some_data, take_whole secret) refl)
