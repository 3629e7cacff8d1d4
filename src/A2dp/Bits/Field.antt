-- ===== src/A2dp/Bits/Field.antt =====
-- Writing one bit of a vector, and what it leaves alone.
use native.Mathlib.Decide.{ℕ_discrete}
use android_device_peter_gsi.Base.{
  ℕ, zero, suc, ◌-◌, ◌/◌, ◌%◌, ◌^◌, ◌<◌, Bool, true, ◌&&◌, List, [], ◌∷◌, ◌≡◌, refl, ◌∙◌, arith,
  ltb, ◌==◌, if◌then◌else◌, get_or, set, length, holds_below, holds_below-below, length-set,
  get_or-set_self, get_or-set_ne,
}
use android_device_peter_gsi.A2dp.Bits.{digit, get_bit, set_byte, set_bit}

-- Every entry of a vector is a byte.
abbrev pub AreBytes : List ℕ → Type 0
AreBytes [] = Unit {0}
AreBytes (x ∷ xs) = (x < 256) × AreBytes xs

pub get_or-lt : (xs : List ℕ) (i : ℕ) → AreBytes xs → get_or xs i 0 < 256
get_or-lt [] i h = omega arith
get_or-lt (x ∷ xs) zero h = h.0
get_or-lt (x ∷ xs) (suc i) h = get_or-lt xs i h.1

set-AreBytes : (xs : List ℕ) (i v : ℕ) → v < 256 → AreBytes xs → AreBytes (set xs i v)
set-AreBytes [] i v p h = tt
set-AreBytes (x ∷ xs) zero v p h = (p, h.1)
set-AreBytes (x ∷ xs) (suc i) v p h = (h.0, set-AreBytes xs i v p h.1)

-- One byte, one bit written, one bit read, packed in a number for the table.
abbrev byte_law : ℕ → ℕ → ℕ → ℕ → Bool
byte_law value i j x =
    let y = set_byte x (2 ^ (7 - i)) value in
    ltb y 256 && (digit y (7 - j) == (if i == j then value else digit x (7 - j)))

byte_table :
    holds_below 2 (λ v. holds_below 8 (λ i. holds_below 8 (λ j. holds_below 256 (byte_law v i j))))
    ≡ true
unfolding holds_below set_byte
byte_table = refl

byte_lem : (v i j x : ℕ) → v < 2 → i < 8 → j < 8 → x < 256 → byte_law v i j x ≡ true
byte_lem v i j x hv hi hj hx =
    holds_below-below 256 (byte_law v i j) x
      (holds_below-below 8 (λ j. holds_below 256 (byte_law v i j)) j
        (holds_below-below 8 (λ i. holds_below 8 (λ j. holds_below 256 (byte_law v i j))) i
          (holds_below-below 2
            (λ v. holds_below 8 (λ i. holds_below 8 (λ j. holds_below 256 (byte_law v i j)))) v
            byte_table hv)
          hi)
        hj)
      hx

set_byte-lt : (v i x : ℕ) → v < 2 → i < 8 → x < 256 → set_byte x (2 ^ (7 - i)) v < 256
set_byte-lt v i x hv hi hx = ground (arith, byte_lem v i 0 x hv hi (omega arith) hx)

digit-set_byte :
    (v i j x : ℕ)
    → v < 2
    → i < 8
    → j < 8
    → x < 256
    → digit (set_byte x (2 ^ (7 - i)) v) (7 - j) ≡ (if i == j then v else digit x (7 - j))
digit-set_byte v i j x hv hi hj hx = ground (arith, byte_lem v i j x hv hi hj hx)

pub set_bit-AreBytes : (c : List ℕ) (b v : ℕ) → v < 2 → AreBytes c → AreBytes (set_bit c b v)
unfolding set_bit
set_bit-AreBytes c b v hv h =
    set-AreBytes c (b / 8) _ (set_byte-lt v (b % 8) _ hv (omega arith) (get_or-lt c (b / 8) h)) h

pub length-set_bit : (c : List ℕ) (b v : ℕ) → length (set_bit c b v) ≡ length c
unfolding set_bit
length-set_bit c b v = length-set c (b / 8) _

-- Within one byte, two bits are the same if they have the same place.
same_bit :
    (b j v d : ℕ) → b / 8 ≡ j / 8 → (if b % 8 == j % 8 then v else d) ≡ (if b == j then v else d)
same_bit b j v d e = ground arith

-- A bit reads back as it was written, and every other bit reads as before.
pub get_bit-set_bit :
    (c : List ℕ) (b j v : ℕ)
    → v < 2
    → AreBytes c
    → b / 8 < length c
    → get_bit (set_bit c b v) j ≡ (if b == j then v else get_bit c j)
unfolding get_bit set_bit
get_bit-set_bit c b j v hv h fits = elim (ℕ_discrete (b / 8) (j / 8)) [
  | yes e ↦
      rw (← e, get_or-set_self c (b / 8) (set_byte (get_or c (b / 8) 0) (2 ^ (7 - b % 8)) v) 0 fits)
        (digit-set_byte v (b % 8) (j % 8) (get_or c (b / 8) 0) hv (omega arith) (omega arith)
            (get_or-lt c (b / 8) h)
          ∙ same_bit b j v (digit (get_or c (b / 8) 0) (7 - j % 8)) e)
  | no e ↦
      rw (get_or-set_ne c (b / 8) (j / 8) (set_byte (get_or c (b / 8) 0) (2 ^ (7 - b % 8)) v) 0 e)
        (ground arith)
]
