-- ===== src/A2dp/Bits/Laws.antt =====
-- Reading and writing a range of bits: the number that a range holds, and what a write leaves alone.
use native.Mathlib.Nat.{div-add-mod, div-div-eq-div-mul, pow-suc, one-le-pow}
use android_device_peter_gsi.Base.{
  ℕ, zero, suc, ◌+◌, ◌-◌, ◌*◌, ◌/◌, ◌%◌, ◌^◌, ◌≤◌, ◌<◌, bit_or, ◌⊎◌, List, ◌≡◌, ◌≢◌, refl, ap, ◌∙◌,
  arith, length,
}
use android_device_peter_gsi.Base.Bits.{bit_or_fields}
use android_device_peter_gsi.A2dp.Bits.{
  Range, digit, get_bit, get_loop, get_range, set_bit, set_loop, set_range,
}
use android_device_peter_gsi.A2dp.Bits.Field.{
  AreBytes, set_bit-AreBytes, length-set_bit, get_bit-set_bit,
}

-- The number whose binary digits are the `n` bits from bit `f` on, the highest first.
unfoldable pub value : List ℕ → ℕ → ℕ → ℕ
value c f zero = 0
value c f (suc n) = get_bit c f * 2 ^ n + value c (f + 1) n

pub get_bit-lt : (c : List ℕ) (b : ℕ) → get_bit c b < 2
unfolding get_bit
get_bit-lt c b = omega arith

pub value-lt : (c : List ℕ) (f n : ℕ) → value c f n < 2 ^ n
unfolding value
value-lt c f zero = omega arith
value-lt c f (suc n) = grind (arith, get_bit-lt c f, value-lt c (f + 1) n, pow-suc 2 n)

digit-shift-lt : (d n : ℕ) → d < 2 → d * 2 ^ n < 2 ^ suc n
digit-shift-lt zero n h = omega (arith, one-le-pow (suc n) 2 (omega arith))
digit-shift-lt (suc zero) n h = omega (arith, pow-suc 2 n, one-le-pow n 2 (omega arith))
digit-shift-lt (suc (suc d)) n h = absurd (omega arith)

shift_in : (q d n : ℕ) → d < 2 → bit_or (q * 2 ^ suc n) (d * 2 ^ n) ≡ (q * 2 + d) * 2 ^ n
shift_in q d n h =
    rw (bit_or_fields (suc n) q (d * 2 ^ n) (digit-shift-lt d n h))
      (omega (arith, pow-suc 2 n, ap (λ (t : ℕ). q * t) (pow-suc 2 n)))

get_loop-value :
    (c : List ℕ) (r : Range) (n i q : ℕ)
    → i + n ≡ r.len
    → get_loop c r n i (q * 2 ^ n) ≡ q * 2 ^ n + value c (r.first + i) n
unfolding get_loop value
get_loop-value c r zero i q h = omega arith
get_loop-value c r (suc n) i q h =
    let place : r.len - 1 - i ≡ n = omega arith in
    let next : r.first + i + 1 ≡ r.first + (i + 1) = omega arith in
    let d = get_bit c (r.first + i) in
    rw (place, shift_in q d n (get_bit-lt c (r.first + i)), next)
      (get_loop-value c r n (i + 1) (q * 2 + d) (omega arith)
        ∙ omega (arith, pow-suc 2 n, ap (λ (t : ℕ). q * t) (pow-suc 2 n)))

-- `get(range)` is the number in the range.
pub get_range-value : (c : List ℕ) (r : Range) → get_range c r ≡ value c r.first r.len
unfolding get_range
get_range-value c r =
    let start : 0 ≡ 0 * 2 ^ r.len = omega arith in
    let here : r.first + 0 ≡ r.first = omega arith in
    ap (get_loop c r r.len 0) start
    ∙ get_loop-value c r r.len 0 0 (omega arith)
    ∙ omega (arith, ap (λ (b : ℕ). value c b r.len) here)

-- A vector of `n` bytes.
pub record IsVector (n : ℕ) (c : List ℕ) : Type 0 where
  pub size : length c ≡ n
  pub bytes : AreBytes c

pub set_bit-IsVector :
    (n : ℕ) (c : List ℕ) (b v : ℕ) → v < 2 → IsVector n c → IsVector n (set_bit c b v)
set_bit-IsVector n c b v hv h = record {
  size = length-set_bit c b v ∙ h.size;
  bytes = set_bit-AreBytes c b v hv h.bytes;
}

pub get_bit-set_self :
    (n : ℕ) (c : List ℕ) (b v : ℕ)
    → v < 2
    → b < 8 * n
    → IsVector n c
    → get_bit (set_bit c b v) b ≡ v
get_bit-set_self n c b v hv hb h =
    ground (arith, get_bit-set_bit c b b v hv h.bytes (omega (arith, h.size)))

pub get_bit-set_ne :
    (n : ℕ) (c : List ℕ) (b j v : ℕ)
    → v < 2
    → b < 8 * n
    → b ≢ j
    → IsVector n c
    → get_bit (set_bit c b v) j ≡ get_bit c j
get_bit-set_ne n c b j v hv hb ne h =
    ground (arith, get_bit-set_bit c b j v hv h.bytes (omega (arith, h.size)))

-- The number in a range does not change when a bit outside of it is written.
pub value-set_bit :
    (k : ℕ) (c : List ℕ) (f n b v : ℕ)
    → v < 2
    → b < 8 * k
    → (b < f) ⊎ (f + n ≤ b)
    → IsVector k c
    → value (set_bit c b v) f n ≡ value c f n
unfolding value
value-set_bit k c f zero b v hv hb out h = refl
value-set_bit k c f (suc n) b v hv hb out h = omega (
  arith,
  get_bit-set_ne k c b f v hv hb (omega arith) h,
  ap (λ (t : ℕ). t * 2 ^ n) (get_bit-set_ne k c b f v hv hb (omega arith) h),
  value-set_bit k c (f + 1) n b v hv hb (omega arith) h,
)

mod-mul_two : (w m : ℕ) → w % (m * 2) ≡ w / m % 2 * m + w % m
mod-mul_two w m = omega (
  arith,
  div-add-mod w m,
  div-add-mod w (m * 2),
  ap (λ (t : ℕ). m * t) (div-div-eq-div-mul w m 2),
  ap (λ (t : ℕ). m * t) (div-add-mod (w / m) 2),
)

mod-pow-suc : (w n : ℕ) → w % 2 ^ suc n ≡ digit w n * 2 ^ n + w % 2 ^ n
mod-pow-suc w n = rw (pow-suc 2 n) (mod-mul_two w (2 ^ n))

set_loop-IsVector :
    (k n i w : ℕ) (r : Range) (c : List ℕ) → IsVector k c → IsVector k (set_loop r w n i c)
unfolding set_loop
set_loop-IsVector k zero i w r c h = h
set_loop-IsVector k (suc n) i w r c h =
    set_loop-IsVector k n (i + 1) w r _ (set_bit-IsVector k c (r.first + i) _ (omega arith) h)

get_bit-set_loop_ne :
    (k n i w : ℕ) (r : Range) (c : List ℕ) (j : ℕ)
    → i + n ≡ r.len
    → r.first + r.len ≤ 8 * k
    → IsVector k c
    → (j < r.first + i) ⊎ (r.first + r.len ≤ j)
    → get_bit (set_loop r w n i c) j ≡ get_bit c j
unfolding set_loop
get_bit-set_loop_ne k zero i w r c j e fits h out = refl
get_bit-set_loop_ne k (suc n) i w r c j e fits h out =
    let d = digit w (r.len - 1 - i) in
    get_bit-set_loop_ne k n (i + 1) w r _ j (omega arith) fits
      (set_bit-IsVector k c (r.first + i) d (omega arith) h) (omega arith)
    ∙ get_bit-set_ne k c (r.first + i) j d (omega arith) (omega arith) (omega arith) h

set_loop_step :
    (n i w : ℕ) (r : Range) (c : List ℕ)
    → i + suc n ≡ r.len
    → set_loop r w (suc n) i c ≡ set_loop r w n (i + 1) (set_bit c (r.first + i) (digit w n))
unfolding set_loop
set_loop_step n i w r c e = let place : r.len - 1 - i ≡ n = omega arith in rw place

-- After the loop the rest of the range holds the low digits of the number.
set_loop-value :
    (k n i w : ℕ) (r : Range) (c : List ℕ)
    → i + n ≡ r.len
    → r.first + r.len ≤ 8 * k
    → IsVector k c
    → value (set_loop r w n i c) (r.first + i) n ≡ w % 2 ^ n
unfolding value
set_loop-value k zero i w r c e fits h = omega arith
set_loop-value k (suc n) i w r c e fits h =
    let next : r.first + i + 1 ≡ r.first + (i + 1) = omega arith in
    let d = digit w n in
    let kept = set_bit-IsVector k c (r.first + i) d (omega arith) h in
    let rest = set_loop r w n (i + 1) (set_bit c (r.first + i) d) in
    let top : get_bit rest (r.first + i) ≡ d =
      get_bit-set_loop_ne k n (i + 1) w r _ (r.first + i) (omega arith) fits kept (omega arith)
      ∙ get_bit-set_self k c (r.first + i) d (omega arith) (omega arith) h in
    ap (λ b. value b (r.first + i) (suc n)) (set_loop_step n i w r c e)
    ∙ omega (
      arith,
      ap (λ (t : ℕ). t * 2 ^ n) top,
      ap (λ (t : ℕ). value rest t n) next,
      set_loop-value k n (i + 1) w r (set_bit c (r.first + i) d) (omega arith) fits kept,
      mod-pow-suc w n,
    )

pub set_range-IsVector :
    (k w : ℕ) (r : Range) (c : List ℕ) → IsVector k c → IsVector k (set_range c r w)
unfolding set_range
set_range-IsVector k w r c h = set_loop-IsVector k r.len 0 w r c h

pub get_bit-set_range_ne :
    (k w : ℕ) (r : Range) (c : List ℕ) (j : ℕ)
    → r.first + r.len ≤ 8 * k
    → IsVector k c
    → (j < r.first) ⊎ (r.first + r.len ≤ j)
    → get_bit (set_range c r w) j ≡ get_bit c j
unfolding set_range
get_bit-set_range_ne k w r c j fits h out =
    get_bit-set_loop_ne k r.len 0 w r c j (omega arith) fits h (omega arith)

-- A range that lies in the vector reads back the number that was written to it, cut to the width of
-- the range.
pub get_range-set_range :
    (k w : ℕ) (r : Range) (c : List ℕ)
    → r.first + r.len ≤ 8 * k
    → IsVector k c
    → get_range (set_range c r w) r ≡ w % 2 ^ r.len
unfolding set_range
get_range-set_range k w r c fits h =
    let here : r.first ≡ r.first + 0 = omega arith in
    get_range-value _ r
    ∙ ap (λ b. value (set_loop r w r.len 0 c) b r.len) here
    ∙ set_loop-value k r.len 0 w r c (omega arith) fits h
