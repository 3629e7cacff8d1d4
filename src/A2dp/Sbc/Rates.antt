-- ===== src/A2dp/Sbc/Rates.antt =====
-- The bit rate of an SBC configuration as a function of its bitpool, and the search that inverts it.
use native.Mathlib.Decide.{dec_lt}
use Prim.Native.Nat.{zero-le}
use native.Mathlib.Nat.{
  pow-suc, mul-le-mul_left, mul-le-mul_right, div-zero, le-div_iff_mul-le, div-mul-le_self,
  le_trans,
}
use android_device_peter_gsi.Base.{
  ℕ, zero, suc, ◌+◌, ◌/◌, ◌^◌, ◌≤◌, ◌<◌, List, ◌≡◌, ◌↔◌, arith, Bool, true, Bool-cases, inl, inr,
}
use android_device_peter_gsi.Base.Int.{ℤ, pos, ltb_ℤ}
use android_device_peter_gsi.A2dp.Bits.{find_active_bit}
use android_device_peter_gsi.A2dp.Sbc.{
  block_length, get_block_length_value, get_frame_size, get_bitrate, get_bitpool_loop, value_of,
}

get_frame_size_mono :
    (config : List ℕ) (p q : ℕ) → p ≤ q → get_frame_size config p ≤ get_frame_size config q
unfolding get_frame_size
get_frame_size_mono config p q h =
    let blocks = value_of get_block_length_value (find_active_bit config block_length) in
    ground (arith, mul-le-mul_left blocks h)

div_mono : {m n : ℕ} (k : ℕ) → m ≤ n → m / k ≤ n / k
div_mono {m} {n} zero h = rw (div-zero m) zero-le
div_mono {m} {n} (suc k) h =
    (le-div_iff_mul-le (omega arith)).1 (le_trans (div-mul-le_self m (suc k)) h)

get_bitrate_mono : (config : List ℕ) (p q : ℕ) → p ≤ q → get_bitrate config p ≤ get_bitrate config q
unfolding get_bitrate
get_bitrate_mono config p q h =
    div_mono _ (mul-le-mul_right _ (mul-le-mul_left 8 (get_frame_size_mono config p q h)))

-- `bitrate > GetBitrate(configuration, bitpool)`.
abbrev pub fits : List ℕ → ℤ → ℕ → Bool
fits config bitrate bitpool = ltb_ℤ (pos (get_bitrate config bitpool)) bitrate

fits_mono :
    (config : List ℕ) (bitrate : ℤ) (p q : ℕ)
    → p ≤ q
    → fits config bitrate q ≡ true
    → fits config bitrate p ≡ true
fits_mono config bitrate p q h e = ground (arith, get_bitrate_mono config p q h)

get_bitpool_loop_bounds :
    (config : List ℕ) (bitrate : ℤ) (n p : ℕ)
    → (p ≤ get_bitpool_loop config bitrate n p) × (get_bitpool_loop config bitrate n p < p + 2 ^ n)
unfolding get_bitpool_loop
get_bitpool_loop_bounds config bitrate zero p = (omega arith, omega arith)
get_bitpool_loop_bounds config bitrate (suc n) p =
    elim (Bool-cases (fits config bitrate (p + 2 ^ n))) [
      | inl up ↦
          rw up (omega (arith, pow-suc 2 n, get_bitpool_loop_bounds config bitrate n (p + 2 ^ n)))
      | inr down ↦ rw down (omega (arith, pow-suc 2 n, get_bitpool_loop_bounds config bitrate n p))
    ]

get_bitpool_loop_iff :
    (config : List ℕ) (bitrate : ℤ) (n p q : ℕ)
    → p < q
    → q < p + 2 ^ n
    → (fits config bitrate q ≡ true) ↔ (q ≤ get_bitpool_loop config bitrate n p)
unfolding get_bitpool_loop
get_bitpool_loop_iff config bitrate zero p q lo hi = absurd (omega arith)
get_bitpool_loop_iff config bitrate (suc n) p q lo hi =
    let m = p + 2 ^ n in
    elim (Bool-cases (fits config bitrate m)) [
      | inl up ↦ rw up (elim (dec_lt m q) [
        | yes above ↦ get_bitpool_loop_iff config bitrate n m q above (omega (arith, pow-suc 2 n))
        | no below ↦ (
          λ _. omega (arith, get_bitpool_loop_bounds config bitrate n m),
          λ _. fits_mono config bitrate q m (omega arith) up,
        )
      ])
      | inr down ↦ rw down (elim (dec_lt q m) [
        | yes below ↦ get_bitpool_loop_iff config bitrate n p q lo below
        | no above ↦ (
          λ e. ground (arith, fits_mono config bitrate m q (omega arith) e),
          λ e. absurd (omega (arith, get_bitpool_loop_bounds config bitrate n p)),
        )
      ])
    ]

-- The search of `GetBitpool`, before it is clamped, returns the largest bitpool below 256 whose bit
-- rate is less than the one asked for, or 0: a positive bitpool fits exactly when it is not above it.
pub get_bitpool_loop_largest :
    (config : List ℕ) (bitrate : ℤ) (q : ℕ)
    → 0 < q
    → q < 256
    → (ltb_ℤ (pos (get_bitrate config q)) bitrate ≡ true)
      ↔ (q ≤ get_bitpool_loop config bitrate 8 0)
get_bitpool_loop_largest config bitrate q lo hi =
    get_bitpool_loop_iff config bitrate 8 0 q lo (omega arith)
