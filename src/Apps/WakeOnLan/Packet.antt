-- ===== src/Apps/WakeOnLan/Packet.antt =====
-- The packet of src/apps/wakeonlan/wakeonlan.py, for an address written as the form asks for.
use julius_os.Prelude.{
  ℕ, zero, suc, ◌+◌, ◌*◌, ◌/◌, ◌%◌, ◌<◌, ◌≡◌, refl, ap, ◌∙◌, sym, false, ◌&&◌, ◌||◌, Option, none,
  some, List, [], ◌∷◌, ◌++◌, arith, append_assoc, append-nil, ltb, leb, ◌==◌, if◌then◌else◌,
}
use julius_os.Prelude.Text.{Text}
use julius_os.Apps.WakeOnLan.{hex_value, from_hex, without, times, magic}

-- A digit of an address, in upper case.
abbrev hex_digit : ℕ → ℕ
hex_digit n = if ltb n 10 then 48 + n else 55 + n

-- The digits of the bytes, and the address with a colon before each byte but the first.
abbrev pub digits : List ℕ → Text
digits [] = []
digits (b ∷ bs) = hex_digit (b / 16) ∷ hex_digit (b % 16) ∷ digits bs

abbrev colons : List ℕ → Text
colons [] = []
colons (b ∷ bs) = b':' ∷ hex_digit (b / 16) ∷ hex_digit (b % 16) ∷ colons bs

abbrev pub address : List ℕ → Text
address [] = []
address (b ∷ bs) = hex_digit (b / 16) ∷ hex_digit (b % 16) ∷ colons bs

abbrev pub AllBytes : List ℕ → Type 0
AllBytes [] = Unit
AllBytes (b ∷ bs) = (b < 256) × AllBytes bs

-- The bytes n times over.
unfoldable pub copies : ℕ → List ℕ → List ℕ
copies zero bs = []
copies (suc n) bs = bs ++ copies n bs

value-hex_digit : (n : ℕ) → n < 16 → hex_value (hex_digit n) ≡ some n
unfolding hex_value
value-hex_digit n h = ground arith

no_space :
    (n : ℕ) → n < 16 → (hex_digit n == 32 || leb 9 (hex_digit n) && leb (hex_digit n) 13) ≡ false
no_space n h = ground arith

abbrev after_bytes : List ℕ → Option (List ℕ) → Option (List ℕ)
after_bytes bs none = none
after_bytes bs (some r) = some (bs ++ r)

after_nil : (o : Option (List ℕ)) → after_bytes [] o ≡ o
after_nil none = refl
after_nil (some r) = refl

from_hex-byte :
    (b : ℕ) (t : Text)
    → b < 256
    → from_hex (hex_digit (b / 16) ∷ hex_digit (b % 16) ∷ t) ≡ after_bytes (b ∷ []) (from_hex t)
unfolding from_hex
from_hex-byte b t h =
    rw
      (
        no_space (b / 16) (omega arith),
        value-hex_digit (b / 16) (omega arith),
        value-hex_digit (b % 16) (omega arith),
      )
      (on_rest (from_hex t))
  where
    on_rest :
        (o : Option (List ℕ))
        → (elim o as (λ _. Option (List ℕ)) [
          | none ↦ none
          | some bs ↦ some ((16 * (b / 16) + b % 16) ∷ bs)
        ])
          ≡ after_bytes (b ∷ []) o
    on_rest none = refl
    on_rest (some bs) = ap (λ v. some (v ∷ bs)) (omega arith)

after_bytes-append :
    (bs cs : List ℕ) (o : Option (List ℕ))
    → after_bytes bs (after_bytes cs o) ≡ after_bytes (bs ++ cs) o
after_bytes-append bs cs none = refl
after_bytes-append bs cs (some r) = ap some (sym (append_assoc bs cs r))

from_hex-digits :
    (bs : List ℕ) (t : Text) → AllBytes bs → from_hex (digits bs ++ t) ≡ after_bytes bs (from_hex t)
from_hex-digits [] t h = sym (after_nil (from_hex t))
from_hex-digits (b ∷ bs) t h =
    from_hex-byte b (digits bs ++ t) h.0
    ∙ ap (after_bytes (b ∷ [])) (from_hex-digits bs t h.1)
    ∙ after_bytes-append (b ∷ []) bs (from_hex t)

from_hex-times :
    (n : ℕ) (bs : List ℕ) (t : Text)
    → AllBytes bs
    → from_hex (times n (digits bs) ++ t) ≡ after_bytes (copies n bs) (from_hex t)
unfolding times copies
from_hex-times zero bs t h = sym (after_nil (from_hex t))
from_hex-times (suc n) bs t h =
    ap from_hex (append_assoc (digits bs) (times n (digits bs)) t)
    ∙ from_hex-digits bs (times n (digits bs) ++ t) h
    ∙ ap (after_bytes bs) (from_hex-times n bs t h)
    ∙ after_bytes-append bs (copies n bs) (from_hex t)

not_colon : (n : ℕ) → n < 16 → (hex_digit n == b':') ≡ false
not_colon n h = ground arith

not_dash : (n : ℕ) → n < 16 → (hex_digit n == b'-') ≡ false
not_dash n h = ground arith

without-colons : (bs : List ℕ) → AllBytes bs → without b':' (colons bs) ≡ digits bs
without-colons [] h = refl
without-colons (b ∷ bs) h =
    rw (not_colon (b / 16) (omega arith), not_colon (b % 16) (omega arith))
      (ap (λ t. hex_digit (b / 16) ∷ hex_digit (b % 16) ∷ t) (without-colons bs h.1))

without-address : (bs : List ℕ) → AllBytes bs → without b':' (address bs) ≡ digits bs
without-address [] h = refl
without-address (b ∷ bs) h =
    rw (not_colon (b / 16) (omega arith), not_colon (b % 16) (omega arith))
      (ap (λ t. hex_digit (b / 16) ∷ hex_digit (b % 16) ∷ t) (without-colons bs h.1))

without-digits : (bs : List ℕ) → AllBytes bs → without b'-' (digits bs) ≡ digits bs
without-digits [] h = refl
without-digits (b ∷ bs) h =
    rw (not_dash (b / 16) (omega arith), not_dash (b % 16) (omega arith))
      (ap (λ t. hex_digit (b / 16) ∷ hex_digit (b % 16) ∷ t) (without-digits bs h.1))

-- The packet for an address of bytes, written with colons, is six times 255 and the address
-- sixteen times over, whatever its length.
pub magic-address :
    (bs : List ℕ) → AllBytes bs → magic (address bs) ≡ some (copies 6 (255 ∷ []) ++ copies 16 bs)
unfolding magic
magic-address bs h =
    rw (without-address bs h, without-digits bs h)
      (from_hex-times 6 (255 ∷ []) (times 16 (digits bs)) (omega arith, tt)
        ∙ ap (after_bytes (copies 6 (255 ∷ []))) (
            ap from_hex (sym (append-nil (times 16 (digits bs))))
            ∙ from_hex-times 16 bs [] h
            ∙ ap some (append-nil (copies 16 bs))))
