-- ===== src/A2dp/Sbc/Overflow.antt =====
-- bluetooth/audio/hal/A2dpOffloadCodecSbc.cpp: `GetFrameSize` and `GetBitrate` in the arithmetic of a 32-bit
-- `int`, where a value that is too large has no result, as in the source it has no defined one.
use android_device_peter_gsi.Base.{
  ℕ, ◌+◌, ◌*◌, ◌/◌, ◌^◌, List, Option, none, some, ltb, if◌then◌else◌,
}
use android_device_peter_gsi.Base.Maybe.{◌>>=◌}
use android_device_peter_gsi.A2dp.Bits.{get, find_active_bit}
use android_device_peter_gsi.A2dp.Sbc.{
  sampling_frequency, block_length, subbands, get_sampling_frequency_value, get_block_length_value,
  get_subbands_value, value_of,
}

-- The result of an operation, if a 32-bit `int` holds it.
unfoldable pub int32 : ℕ → Option ℕ
int32 n = if ltb n (2 ^ 31) then some n else none

unfoldable pub get_frame_size_int32 : List ℕ → ℕ → Option ℕ
unfolding int32
get_frame_size_int32 configuration bitpool = do
  let subbands_value = value_of get_subbands_value (find_active_bit configuration subbands)
  let blocks = value_of get_block_length_value (find_active_bit configuration block_length)
  factors ← int32 (4 * subbands_value)
  all_factors ← int32 (if get configuration 4 then factors else factors * 2)
  samples ← int32 (blocks * bitpool)
  all_samples ← int32 (if get configuration 5 then samples * 2 else samples)
  both ← int32 (all_factors + all_samples)
  bits ← int32 (both + (if get configuration 7 then subbands_value else 0))
  padded ← int32 (bits + 7)
  int32 (4 + padded / 2 ^ 3)

unfoldable pub get_bitrate_int32 : List ℕ → ℕ → Option ℕ
unfolding int32 get_frame_size_int32
get_bitrate_int32 configuration bitpool = do
  let frequency =
      value_of get_sampling_frequency_value (find_active_bit configuration sampling_frequency)
  let subbands_value = value_of get_subbands_value (find_active_bit configuration subbands)
  let blocks = value_of get_block_length_value (find_active_bit configuration block_length)
  frame ← get_frame_size_int32 configuration bitpool
  bits ← int32 (8 * frame)
  product ← int32 (bits * frequency)
  divisor ← int32 (blocks * subbands_value)
  some (product / divisor)
