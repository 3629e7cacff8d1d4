-- ===== src/A2dp/Sbc/Bitpools.antt =====
-- The bitpools of the SBC builder: their bounds, and that writing them leaves the fields alone.

use android_device_peter_gsi.Base.{ℕ, ◌+◌, ◌≤◌, Option, none, some, List, ◌≡◌, ◌∙◌, arith}
use android_device_peter_gsi.A2dp.Bits.{Range, get_range, set_range}
use android_device_peter_gsi.A2dp.Bits.Laws.{IsVector, set_range-IsVector, get_range-set_range}
use android_device_peter_gsi.A2dp.Bits.Active.{Agree, get_range-Agree}
use android_device_peter_gsi.A2dp.Bits.Several.{set_range-Agree}
use android_device_peter_gsi.A2dp.Codec.{CodecParameters}
use android_device_peter_gsi.A2dp.Sbc.{minimum_bitpool, maximum_bitpool, get_bitpool}
use android_device_peter_gsi.A2dp.Sbc.Parsing.{capabilities_limits}
use android_device_peter_gsi.Base.Int.{ℤ}
use android_device_peter_gsi.A2dp.Sbc.Build.{
  remote_bitpools, hint_bitpools, bitpools, select_bitpool,
}

get_bitpool_bounds :
    (config : List ℕ) (bitrate : ℤ)
    → (2 ≤ get_bitpool config bitrate) × (get_bitpool config bitrate ≤ 250)
unfolding get_bitpool
get_bitpool_bounds config bitrate = omega arith

pub remote_bitpools_bounds :
    (rcaps : List ℕ)
    → let (low, high) = remote_bitpools rcaps in (2 ≤ low) × (low ≤ high) × (high ≤ 250)
unfolding remote_bitpools
remote_bitpools_bounds rcaps = ground arith

-- The bitpools stay from 2 to 250 on every path.
pub bitpools_bounds :
    (rcaps : List ℕ) (hint : Option CodecParameters) (config : List ℕ)
    → let (low, high) = bitpools rcaps hint config in
      ((2 ≤ low) × (low ≤ 250)) × ((2 ≤ high) × (high ≤ 250))
unfolding bitpools hint_bitpools
bitpools_bounds rcaps none config =
    let (four, least, most) = capabilities_limits in ground (arith, remote_bitpools_bounds rcaps)
bitpools_bounds rcaps (some hint) config =
    let (four, least, most) = capabilities_limits in
    ground (
      arith,
      remote_bitpools_bounds rcaps,
      get_bitpool_bounds config hint.min_bitrate,
      get_bitpool_bounds config hint.max_bitrate,
    )

-- Writing the bitpools leaves the fields before them alone, and the bitpools read back.
module _ (rcaps : List ℕ) (hint : Option CodecParameters) (v : List ℕ) (h : IsVector 4 v) where
  low_written : List ℕ
  low_written = set_range v minimum_bitpool (bitpools rcaps hint v).0

  low_written-IsVector : IsVector 4 low_written
  unfolding low_written
  low_written-IsVector = set_range-IsVector 4 _ minimum_bitpool v h

  pub select_bitpool-IsVector : IsVector 4 (select_bitpool rcaps hint v)
  unfolding select_bitpool low_written
  select_bitpool-IsVector = set_range-IsVector 4 _ maximum_bitpool low_written low_written-IsVector

  pub select_bitpool-Agree :
      (r : Range) → r.first + r.len ≤ 16 → Agree r (select_bitpool rcaps hint v) v
  unfolding select_bitpool low_written
  select_bitpool-Agree r before j lo hi =
      set_range-Agree 4 _ r maximum_bitpool low_written (omega arith) low_written-IsVector
        (omega arith) j lo hi
      ∙ set_range-Agree 4 _ r minimum_bitpool v (omega arith) h (omega arith) j lo hi

  pub select_bitpool-low :
      get_range (select_bitpool rcaps hint v) minimum_bitpool ≡ (bitpools rcaps hint v).0
  unfolding select_bitpool low_written
  select_bitpool-low =
      get_range-Agree minimum_bitpool _ low_written (
        set_range-Agree 4 _ minimum_bitpool maximum_bitpool low_written (omega arith)
          low_written-IsVector (omega arith))
      ∙ get_range-set_range 4 _ minimum_bitpool v (omega arith) h
      ∙ omega (arith, bitpools_bounds rcaps hint v)

  pub select_bitpool-high :
      get_range (select_bitpool rcaps hint v) maximum_bitpool ≡ (bitpools rcaps hint v).1
  unfolding select_bitpool low_written
  select_bitpool-high =
      get_range-set_range 4 _ maximum_bitpool low_written (omega arith) low_written-IsVector
      ∙ omega (arith, bitpools_bounds rcaps hint v)
