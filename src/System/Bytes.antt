-- ===== src/System/Bytes.antt =====
-- Byte strings as src/system/julius_bridge.py builds and reads them: `ljust`, `rstrip`, slices and
-- `struct` words, little-endian as on the phone.
use julius_os.Prelude.{
  ℕ, zero, suc, ◌+◌, ◌-◌, ◌*◌, ◌/◌, ◌%◌, ◌≤◌, ◌<◌, ◌≡◌, refl, ap, ◌∙◌, Option, none, some, List, [],
  ◌∷◌, ◌++◌, length, take, drop, ◌==◌, if◌then◌else◌, arith, length-append,
}

abbrev pub Bytes : Type 0
Bytes = List ℕ

unfoldable pub zeros : ℕ → Bytes
zeros zero = []
zeros (suc n) = 0 ∷ zeros n

-- `b.ljust(n, b'\x00')`: never shorter than b.
unfoldable pub ljust : ℕ → Bytes → Bytes
unfolding zeros
ljust n b = b ++ zeros (n - length b)

-- `b.rstrip(b'\x00')`
unfoldable pub rstrip : Bytes → Bytes
rstrip [] = []
rstrip (x ∷ b) =
    let rest = rstrip b in elim rest [ [] ↦ if x == 0 then [] else x ∷ [] | y ∷ ys ↦ x ∷ y ∷ ys ]

-- `struct.pack('I', n)`, of an n below 2^32.
unfoldable pub word : ℕ → Bytes
word n = n % 256 ∷ n / 256 % 256 ∷ n / 65536 % 256 ∷ n / 16777216 % 256 ∷ []

-- `struct.unpack('I', b)[0]`, of four bytes; a wrong length is an error.
unfoldable pub unword : Bytes → Option ℕ
unword (a ∷ b ∷ c ∷ d ∷ []) = some (a + 256 * b + 65536 * c + 16777216 * d)
unword _ = none

-- No trailing zero byte: what `rstrip` leaves as it is.
abbrev pub IsTrimmed : Bytes → Type 0
IsTrimmed b = rstrip b ≡ b

length-zeros : (n : ℕ) → length (zeros n) ≡ n
unfolding zeros
length-zeros zero = refl
length-zeros (suc n) = ap suc (length-zeros n)

pub length-ljust : (n : ℕ) (b : Bytes) → length b ≤ n → length (ljust n b) ≡ n
unfolding ljust
length-ljust n b h =
    omega (arith, length-append b (zeros (n - length b)), length-zeros (n - length b))

rstrip-zeros : (n : ℕ) → rstrip (zeros n) ≡ []
unfolding rstrip zeros
rstrip-zeros zero = refl
rstrip-zeros (suc n) = rw (rstrip-zeros n) refl

rstrip-append_zeros : (b : Bytes) (n : ℕ) → rstrip (b ++ zeros n) ≡ rstrip b
unfolding rstrip
rstrip-append_zeros [] n = rstrip-zeros n
rstrip-append_zeros (x ∷ b) n = rw (rstrip-append_zeros b n) refl

-- The padding does not come back.
pub rstrip-padded : (n : ℕ) (b : Bytes) → rstrip (ljust n b) ≡ rstrip b
unfolding ljust
rstrip-padded n b = rstrip-append_zeros b (n - length b)

pub rstrip-ljust : (n : ℕ) (b : Bytes) → IsTrimmed b → rstrip (ljust n b) ≡ b
rstrip-ljust n b h = rstrip-padded n b ∙ h

pub take-append : (a b : Bytes) (n : ℕ) → length a ≡ n → take n (a ++ b) ≡ a
take-append [] b zero h = refl
take-append [] b (suc n) h = cc
take-append (x ∷ a) b zero h = cc
take-append (x ∷ a) b (suc n) h = ap (λ t. x ∷ t) (take-append a b n (omega (arith, h)))

pub drop-append : (a b : Bytes) (n : ℕ) → length a ≡ n → drop n (a ++ b) ≡ b
drop-append [] b zero h = refl
drop-append [] b (suc n) h = cc
drop-append (x ∷ a) b zero h = cc
drop-append (x ∷ a) b (suc n) h = drop-append a b n (omega (arith, h))

pub unword-word : (n : ℕ) → n < 4294967296 → unword (word n) ≡ some n
unfolding unword word
unword-word n h = ap some (omega arith)

pub length-word : (n : ℕ) → length (word n) ≡ 4
unfolding word
length-word n = refl
