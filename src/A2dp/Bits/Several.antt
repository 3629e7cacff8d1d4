-- ===== src/A2dp/Bits/Several.antt =====
-- Several bits set one after the other, as the builders of configurations do, and what a search of a
-- range then finds.
use native.Mathlib.Decide.{ℕ_discrete}
use android_device_peter_gsi.Base.{
  ℕ, zero, suc, ◌+◌, ◌*◌, ◌/◌, ◌≤◌, ◌<◌, ◌⊎◌, inl, inr, List, [], ◌∷◌, ◌≡◌, ◌≢◌, refl, ap, ◌∙◌,
  arith, some, Among, length, replicate, get_or,
}
use android_device_peter_gsi.A2dp.Bits.{Range, get_bit, set_bit, set_range, find_active_bit}
use android_device_peter_gsi.A2dp.Bits.Field.{AreBytes}
use android_device_peter_gsi.A2dp.Bits.Laws.{
  IsVector, set_bit-IsVector, get_bit-set_self, get_bit-set_ne, get_bit-set_range_ne,
}
use android_device_peter_gsi.A2dp.Bits.Active.{IsClear, find_active_bit_iff, Agree}

unfoldable pub set_bits : List ℕ → List ℕ → List ℕ
set_bits c [] = c
set_bits c (b ∷ bs) = set_bits (set_bit c b 1) bs

-- Every bit lies below `n`.
abbrev pub Fit : ℕ → List ℕ → Type 0
Fit n [] = Unit {0}
Fit n (x ∷ xs) = (x < n) × Fit n xs

-- Every bit but `b` lies outside of the range.
abbrev pub Apart : Range → ℕ → List ℕ → Type 0
Apart r b [] = Unit {0}
Apart r b (x ∷ xs) = ((x ≡ b) ⊎ (x < r.first) ⊎ (r.first + r.len ≤ x)) × Apart r b xs

pub set_bits-IsVector : (k : ℕ) (bs c : List ℕ) → IsVector k c → IsVector k (set_bits c bs)
unfolding set_bits
set_bits-IsVector k [] c h = h
set_bits-IsVector k (b ∷ bs) c h =
    set_bits-IsVector k bs (set_bit c b 1) (set_bit-IsVector k c b 1 (omega arith) h)

-- A bit that is set stays set.
set_bits_keep :
    (k : ℕ) (bs c : List ℕ) (j : ℕ)
    → Fit (8 * k) bs
    → IsVector k c
    → get_bit c j ≡ 1
    → get_bit (set_bits c bs) j ≡ 1
unfolding set_bits
set_bits_keep k [] c j fit h e = e
set_bits_keep k (b ∷ bs) c j fit h e =
    set_bits_keep k bs (set_bit c b 1) j fit.1 (set_bit-IsVector k c b 1 (omega arith) h)
      (set_bit_keep k c b j fit.0 h e)
  where
    set_bit_keep :
        (k : ℕ) (c : List ℕ) (b j : ℕ)
        → b < 8 * k
        → IsVector k c
        → get_bit c j ≡ 1
        → get_bit (set_bit c b 1) j ≡ 1
    set_bit_keep k c b j fits h e = elim (ℕ_discrete b j) [
      | yes same ↦ rw (← same) (get_bit-set_self k c b 1 (omega arith) fits h)
      | no other ↦ get_bit-set_ne k c b j 1 (omega arith) fits other h ∙ e
    ]

set_bits_active :
    (k : ℕ) (bs c : List ℕ) (b : ℕ)
    → Fit (8 * k) bs
    → IsVector k c
    → Among b bs
    → get_bit (set_bits c bs) b ≡ 1
unfolding set_bits
set_bits_active k [] c b fit h m = absurd m
set_bits_active k (x ∷ bs) c b fit h (inl e) =
    set_bits_keep k bs (set_bit c x 1) b fit.1 (set_bit-IsVector k c x 1 (omega arith) h)
      (rw e (get_bit-set_self k c x 1 (omega arith) fit.0 h))
set_bits_active k (x ∷ bs) c b fit h (inr m) =
    set_bits_active k bs (set_bit c x 1) b fit.1 (set_bit-IsVector k c x 1 (omega arith) h) m

set_bits_others :
    (k : ℕ) (bs c : List ℕ) (r : Range) (b j : ℕ)
    → Fit (8 * k) bs
    → Apart r b bs
    → IsVector k c
    → r.first ≤ j
    → j < r.first + r.len
    → j ≢ b
    → get_bit (set_bits c bs) j ≡ get_bit c j
unfolding set_bits
set_bits_others k [] c r b j fit apart h lo hi ne = refl
set_bits_others k (x ∷ bs) c r b j fit apart h lo hi ne =
    set_bits_others k bs (set_bit c x 1) r b j fit.1 apart.1
      (set_bit-IsVector k c x 1 (omega arith) h) lo hi ne
    ∙ get_bit-set_ne k c x j 1 (omega arith) fit.0 (omega arith) h

-- Of several bits, one in the range and the others outside of it, the search finds the one.
pub find_active_bit-set_bits :
    (k : ℕ) (bs c : List ℕ) (r : Range) (b : ℕ)
    → r.first ≤ b
    → b < r.first + r.len
    → Among b bs
    → Fit (8 * k) bs
    → Apart r b bs
    → IsVector k c
    → IsClear c r
    → find_active_bit (set_bits c bs) r ≡ some b
find_active_bit-set_bits k bs c r b lo hi m fit apart h clear =
    (find_active_bit_iff (set_bits c bs) r b).1 (record {
      above = lo;
      below = hi;
      active = set_bits_active k bs c b fit h m;
      others =
          λ j low high ne. set_bits_others k bs c r b j fit apart h low high ne ∙ clear j low high;
    })

-- The vector of `n` zero bytes.
pub zeros-IsVector : (n : ℕ) → IsVector n (replicate n 0)
zeros-IsVector n = record { size = size n; bytes = bytes n }
  where
    size : (n : ℕ) → length (replicate {A = ℕ} n 0) ≡ n
    size zero = refl
    size (suc n) = ap suc (size n)

    bytes : (n : ℕ) → AreBytes (replicate n 0)
    bytes zero = tt
    bytes (suc n) = (omega arith, bytes n)

get_or-zeros : (n i : ℕ) → get_or {A = ℕ} (replicate n 0) i 0 ≡ 0
get_or-zeros zero i = refl
get_or-zeros (suc n) zero = refl
get_or-zeros (suc n) (suc i) = get_or-zeros n i

pub zeros-IsClear : (n : ℕ) (r : Range) → IsClear (replicate n 0) r
unfolding get_bit
zeros-IsClear n r j lo hi = rw (get_or-zeros n (j / 8)) (omega arith)

-- A range written beside another leaves the other as it was.
pub set_range-Agree :
    (k w : ℕ) (r s : Range) (c : List ℕ)
    → s.first + s.len ≤ 8 * k
    → IsVector k c
    → (r.first + r.len ≤ s.first) ⊎ (s.first + s.len ≤ r.first)
    → Agree r (set_range c s w) c
set_range-Agree k w r s c fits h out j lo hi = get_bit-set_range_ne k w s c j fits h (omega arith)
