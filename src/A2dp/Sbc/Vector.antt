-- ===== src/A2dp/Sbc/Vector.antt =====
-- The vector of the SBC builder before the bitpools: each field has its one bit.

use android_device_peter_gsi.Base.{
  ℕ, ◌+◌, ◌≤◌, ◌<◌, some, List, [], ◌∷◌, ◌≡◌, refl, arith, replicate, Among,
}
use android_device_peter_gsi.A2dp.Bits.{Range, find_active_bit}
use android_device_peter_gsi.A2dp.Bits.Laws.{IsVector}
use android_device_peter_gsi.A2dp.Bits.Several.{
  Fit, Apart, set_bits, set_bits-IsVector, find_active_bit-set_bits, zeros-IsVector, zeros-IsClear,
}
use android_device_peter_gsi.A2dp.Sbc.{
  sampling_frequency, channel_mode, block_length, subbands, allocation_method, capabilities,
}
use android_device_peter_gsi.A2dp.Sbc.Build.{Choices, chosen}
use android_device_peter_gsi.A2dp.Sbc.Common.{AreCommon}

ranges : Choices → List ℕ
ranges c = c.sf ∷ c.cm ∷ c.bl ∷ c.sb ∷ c.am ∷ []

chosen-set_bits : (c : Choices) → chosen c ≡ set_bits (replicate 4 0) (ranges c)
unfolding chosen set_bits ranges capabilities
chosen-set_bits c = refl

pub chosen-IsVector : (c : Choices) → IsVector 4 (chosen c)
chosen-IsVector c =
    rw (chosen-set_bits c) (set_bits-IsVector 4 (ranges c) (replicate 4 0) (zeros-IsVector 4))

-- Each field of the chosen vector has its one bit.
pub record Fields (v : List ℕ) (c : Choices) : Type 0 where
  pub sf : find_active_bit v sampling_frequency ≡ some c.sf
  pub cm : find_active_bit v channel_mode ≡ some c.cm
  pub bl : find_active_bit v block_length ≡ some c.bl
  pub sb : find_active_bit v subbands ≡ some c.sb
  pub am : find_active_bit v allocation_method ≡ some c.am

module _ (rcaps : List ℕ) (c : Choices) (h : AreCommon rcaps c) where
  chosen-field :
      (r : Range) (b : ℕ)
      → (r.first ≤ b)
        × (b < r.first + r.len)
        × Among b (ranges c)
        × Fit 32 (ranges c)
        × Apart r b (ranges c)
      → find_active_bit (chosen c) r ≡ some b
  chosen-field r b place = rw (chosen-set_bits c) (
      find_active_bit-set_bits 4 (ranges c) (replicate 4 0) r b place.0 place.1 place.2 place.3
        place.4 (zeros-IsVector 4) (zeros-IsClear 4 r))

  pub chosen-Fields : Fields (chosen c) c
  unfolding ranges
  chosen-Fields = record {
    sf = chosen-field sampling_frequency c.sf (omega arith);
    cm = chosen-field channel_mode c.cm (omega arith);
    bl = chosen-field block_length c.bl (omega arith);
    sb = chosen-field subbands c.sb (omega arith);
    am = chosen-field allocation_method c.am (omega arith);
  }
