-- ===== src/A2dp/Bits/Active.antt =====
-- What `find_active_bit` finds: the bit of a range that alone is set.
use native.Mathlib.Decide.{ℕ_discrete}
use native.Mathlib.Nat.{one-le-pow, pow-le-pow_right, pow-suc, pow-succ', div-div-eq-div-mul}
use android_device_peter_gsi.Base.{
  ℕ, zero, suc, ◌+◌, ◌-◌, ◌*◌, ◌/◌, ◌^◌, ◌≤◌, ◌<◌, ◌↔◌, List, ◌≡◌, ◌≢◌, refl, sym, ap, ◌∙◌, arith,
  some,
}
use android_device_peter_gsi.Base.Bits.{bit_xor-eq-zero, bit_xor_self}
use android_device_peter_gsi.A2dp.Bits.{
  Range, digit, get_bit, get_range, set_bit, scan, active_index, find_active_bit,
}
use android_device_peter_gsi.A2dp.Bits.Laws.{
  value, value-lt, get_bit-lt, get_range-value, IsVector, get_bit-set_self, get_bit-set_ne,
}

-- Every bit of the range is 0.
abbrev pub IsClear : List ℕ → Range → Type 0
IsClear c r = (j : ℕ) → r.first ≤ j → j < r.first + r.len → get_bit c j ≡ 0

-- The bit `b` lies in the range, is 1, and every other bit of the range is 0.
pub record OnlyBit (c : List ℕ) (r : Range) (b : ℕ) : Type 0 where
  pub above : r.first ≤ b
  pub below : b < r.first + r.len
  pub active : get_bit c b ≡ 1
  pub others : (j : ℕ) → r.first ≤ j → j < r.first + r.len → j ≢ b → get_bit c j ≡ 0

abbrev range_of : ℕ → ℕ → Range
range_of f n = record { first = f; len = n }

value-eq-zero : (c : List ℕ) (f n : ℕ) → IsClear c (range_of f n) → value c f n ≡ 0
unfolding value
value-eq-zero c f zero h = refl
value-eq-zero c f (suc n) h = omega (
  arith,
  ap (λ (t : ℕ). t * 2 ^ n) (h f (omega arith) (omega arith)),
  value-eq-zero c (f + 1) n (λ j lo hi. h j (omega arith) (omega arith)),
)

digit-eq-zero : (d n : ℕ) → d < 2 → d * 2 ^ n ≡ 0 → d ≡ 0
digit-eq-zero zero n h e = refl
digit-eq-zero (suc zero) n h e = absurd (omega (arith, one-le-pow n 2 (omega arith)))
digit-eq-zero (suc (suc d)) n h e = absurd (omega arith)

value-zero-IsClear : (c : List ℕ) (f n : ℕ) → value c f n ≡ 0 → IsClear c (range_of f n)
unfolding value
value-zero-IsClear c f zero e j lo hi = absurd (omega arith)
value-zero-IsClear c f (suc n) e j lo hi = elim (ℕ_discrete j f) [
  | yes same ↦ rw same (digit-eq-zero (get_bit c f) n (get_bit-lt c f) (omega arith))
  | no other ↦ value-zero-IsClear c (f + 1) n (omega arith) j (omega arith) (omega arith)
]

digit-suc : (i j : ℕ) → digit (2 ^ suc i) (suc j) ≡ digit (2 ^ i) j
digit-suc i j =
    let halved : 2 ^ suc i / 2 ≡ 2 ^ i = omega (arith, pow-suc 2 i) in
    rw (pow-succ' 2 j, ← div-div-eq-div-mul (2 ^ suc i) 2 (2 ^ j), halved)

digit-pow-below : (i j : ℕ) → j < i → digit (2 ^ i) j ≡ 0
digit-pow-below zero j h = elim h [ ]
digit-pow-below (suc i) zero h = omega (arith, pow-suc 2 i)
digit-pow-below (suc i) (suc j) h = digit-suc i j ∙ digit-pow-below i j (omega arith)

digit-pow_self : (i : ℕ) → digit (2 ^ i) i ≡ 1
digit-pow_self zero = refl
digit-pow_self (suc i) = digit-suc i i ∙ digit-pow_self i

scan-pow : (i n j : ℕ) → j ≤ i → i < j + n → scan (2 ^ i) n j ≡ i
unfolding scan
scan-pow i zero j lo hi = absurd (omega arith)
scan-pow i (suc n) j lo hi = elim (ℕ_discrete j i) [
  | yes same ↦ ground (arith, digit-pow_self i, ap (λ (t : ℕ). digit (2 ^ i) t) same)
  | no other ↦ ground (arith, digit-pow-below i j (omega arith), scan-pow i n (j + 1) (omega arith))
]

scan-ge : (v n j : ℕ) → j ≤ scan v n j
unfolding scan
scan-ge v zero j = omega arith
scan-ge v (suc n) j = ground (arith, scan-ge v n (j + 1))

-- `active_index` finds the one binary digit of a number that fits the range.
active_index_iff :
    (v b : ℕ) (r : Range)
    → (active_index v r ≡ some b)
      ↔ ((i : ℕ) × (i < r.len) × (v ≡ 2 ^ i) × (b ≡ r.first + (r.len - 1) - i))
unfolding active_index
active_index_iff v b r = (found, finds)
  where
    found :
        active_index v r ≡ some b
        → (i : ℕ) × (i < r.len) × (v ≡ 2 ^ i) × (b ≡ r.first + (r.len - 1) - i)
    found e = (
      scan v r.len 0,
      ground arith,
      bit_xor-eq-zero v (2 ^ scan v r.len 0) (ground arith),
      ground arith,
    )

    finds :
        (i : ℕ) × (i < r.len) × (v ≡ 2 ^ i) × (b ≡ r.first + (r.len - 1) - i)
        → active_index v r ≡ some b
    finds (i, lt, power, e) = rw power (ground (arith, scan-pow i r.len 0, bit_xor_self (2 ^ i)))

top_digit : (d n rest : ℕ) → d < 2 → rest < 2 ^ n → d * 2 ^ n + rest ≡ 2 ^ n → (d ≡ 1) × (rest ≡ 0)
top_digit zero n rest h l e = absurd (omega arith)
top_digit (suc zero) n rest h l e = (refl, omega arith)
top_digit (suc (suc d)) n rest h l e = absurd (omega arith)

low_digits : (d n i rest : ℕ) → d < 2 → i < n → d * 2 ^ n + rest ≡ 2 ^ i → (d ≡ 0) × (rest ≡ 2 ^ i)
low_digits zero n i rest h l e = (refl, omega arith)
low_digits (suc zero) n i rest h l e = absurd (
    omega
      (arith, pow-le-pow_right {n = 2} (omega arith) l, pow-suc 2 i, one-le-pow i 2 (omega arith)))
low_digits (suc (suc d)) n i rest h l e = absurd (omega arith)

below_others :
    (c : List ℕ) (f n b : ℕ)
    → get_bit c f ≡ 0
    → OnlyBit c (range_of (f + 1) n) b
    → (j : ℕ) → f ≤ j
    → j < f + suc n
    → j ≢ b
    → get_bit c j ≡ 0
below_others c f n b first rest j lo hi ne = elim (ℕ_discrete j f) [
  | yes same ↦ rw same first
  | no other ↦ rest.others j (omega arith) (omega arith) ne
]

-- A number that is a power of two holds a single bit.
value-pow-OnlyBit :
    (c : List ℕ) (f n i b : ℕ)
    → b + suc i ≡ f + n
    → i < n
    → value c f n ≡ 2 ^ i
    → OnlyBit c (range_of f n) b
unfolding value
value-pow-OnlyBit c f zero i b place h e = elim h [ ]
value-pow-OnlyBit c f (suc n) i b place h e = elim (ℕ_discrete i n) [
  | yes same ↦
      let digits =
        top_digit (get_bit c f) n (value c (f + 1) n) (get_bit-lt c f) (value-lt c (f + 1) n)
          (e ∙ ap (λ (t : ℕ). 2 ^ t) same) in
      let here : f ≡ b = omega arith in
      record {
        above = omega arith;
        below = omega arith;
        active = rw (← here) digits.0;
        others =
            λ j lo hi ne. value-zero-IsClear c (f + 1) n digits.1 j (omega arith) (omega arith);
      }
  | no other ↦
      let digits =
        low_digits (get_bit c f) n i (value c (f + 1) n) (get_bit-lt c f) (omega arith) e in
      let rest = value-pow-OnlyBit c (f + 1) n i b (omega arith) (omega arith) digits.1 in
      record {
        above = omega (arith, rest.above);
        below = omega (arith, rest.below);
        active = rest.active;
        others = λ j lo hi ne. below_others c f n b digits.0 rest j lo hi ne;
      }
]

OnlyBit-value :
    (c : List ℕ) (f n i b : ℕ)
    → b + suc i ≡ f + n
    → OnlyBit c (range_of f n) b
    → value c f n ≡ 2 ^ i
unfolding value
OnlyBit-value c f zero i b place h = absurd (omega arith)
OnlyBit-value c f (suc n) i b place h = elim (ℕ_discrete b f) [
  | yes same ↦
      let whole : n ≡ i = omega arith in
      omega (
        arith,
        ap (λ (t : ℕ). get_bit c t * 2 ^ n) same,
        ap (λ (t : ℕ). t * 2 ^ n) h.active,
        ap (λ (t : ℕ). 2 ^ t) whole,
        value-eq-zero c (f + 1) n (λ j lo hi. h.others j (omega arith) (omega arith) (omega arith)),
      )
  | no other ↦ omega (
    arith,
    ap (λ (t : ℕ). t * 2 ^ n) (h.others f (omega arith) (omega arith) (omega arith)),
    OnlyBit-value c (f + 1) n i b (omega arith) (record {
      above = omega (arith, h.above);
      below = omega (arith, h.below);
      active = h.active;
      others = λ j lo hi ne. h.others j (omega arith) (omega arith) ne;
    }),
  )
]

-- `find_active_bit` returns a bit exactly when that bit of the range is set and no other is.
pub find_active_bit_iff :
    (c : List ℕ) (r : Range) (b : ℕ) → (find_active_bit c r ≡ some b) ↔ OnlyBit c r b
unfolding find_active_bit
find_active_bit_iff c r b = (found, finds)
  where
    found : find_active_bit c r ≡ some b → OnlyBit c r b
    found e =
        let (i, lt, power, place) = (active_index_iff (get_range c r) b r).0 e in
        value-pow-OnlyBit c r.first r.len i b (omega arith) lt (sym (get_range-value c r) ∙ power)

    finds : OnlyBit c r b → find_active_bit c r ≡ some b
    finds h =
        let i = r.first + r.len - 1 - b in
        (active_index_iff (get_range c r) b r).1 (
          i,
          omega (arith, h.above, h.below),
          get_range-value c r
              ∙ OnlyBit-value c r.first r.len i b (omega (arith, h.above, h.below)) h,
          omega (arith, h.above, h.below),
        )

-- A bit that is set in a clear range is the one that is found there.
pub find_active_bit-set_bit :
    (k : ℕ) (c : List ℕ) (r : Range) (b : ℕ)
    → r.first ≤ b
    → b < r.first + r.len
    → b < 8 * k
    → IsVector k c
    → IsClear c r
    → find_active_bit (set_bit c b 1) r ≡ some b
find_active_bit-set_bit k c r b lo hi fits h clear =
    (find_active_bit_iff (set_bit c b 1) r b).1 (record {
      above = lo;
      below = hi;
      active = get_bit-set_self k c b 1 (omega arith) fits h;
      others = λ j low high ne.
          get_bit-set_ne k c b j 1 (omega arith) fits (λ e. ne (sym e)) h ∙ clear j low high;
    })

-- Two vectors that agree on a range.
abbrev pub Agree : Range → List ℕ → List ℕ → Type 0
Agree r c d = (j : ℕ) → r.first ≤ j → j < r.first + r.len → get_bit c j ≡ get_bit d j

value-Agree : (f n : ℕ) (c d : List ℕ) → Agree (range_of f n) c d → value c f n ≡ value d f n
unfolding value
value-Agree f zero c d h = refl
value-Agree f (suc n) c d h = omega (
  arith,
  ap (λ (t : ℕ). t * 2 ^ n) (h f (omega arith) (omega arith)),
  value-Agree (f + 1) n c d (λ j lo hi. h j (omega arith) (omega arith)),
)

pub get_range-Agree : (r : Range) (c d : List ℕ) → Agree r c d → get_range c r ≡ get_range d r
get_range-Agree r c d h =
    get_range-value c r ∙ value-Agree r.first r.len c d h ∙ sym (get_range-value d r)

pub find_active_bit-Agree :
    (r : Range) (c d : List ℕ) → Agree r c d → find_active_bit c r ≡ find_active_bit d r
unfolding find_active_bit
find_active_bit-Agree r c d h = ap (λ v. active_index v r) (get_range-Agree r c d h)
