-- ===== src/A2dp/Sbc.antt =====
-- bluetooth/audio/hal/A2dpOffloadCodecSbc.cpp: the capabilities of the SBC codec, the bit rate of a
-- configuration, its parser and its builder. The products of `GetBitrate` are those of a 32-bit `int`;
-- Sbc/Overflow.antt shows that they do not overflow. A division by 0, undefined in the
-- source, is 0 here; both callers have a block length and a number of subbands by then.
pub mod Configuration
pub mod Build
pub mod Parsing
pub mod Rates
pub mod Overflow
pub mod Common
pub mod Vector
pub mod Bitpools
pub mod Negotiation
use android_device_peter_gsi.Base.{
  ℕ, zero, suc, ◌+◌, ◌*◌, ◌/◌, ◌^◌, min, max, bit_or, Bool, true, false, not, ◌&&◌, ◌||◌, Option,
  none, some, List, [], ◌∷◌, ltb, leb, ◌==◌, if◌then◌else◌, length, replicate, ◌≡◌, refl,
}
use android_device_peter_gsi.Base.Int.{ℤ, pos, negsuc, ltb_ℤ, leb_ℤ}
use android_device_peter_gsi.A2dp.Bits.{
  Range, span, get, get_bit, get_range, set_bit, set_range, find_active_bit,
}
use android_device_peter_gsi.A2dp.Codec.{
  kept_values, A2dpStatus, ChannelMode, mono, stereo, dualmono, CodecParameters, CodecInfo, Parsed,
  accepted, ◌>>=◌, ◌>>◌, guard, found_or, hinted, first_common,
}
use android_device_peter_gsi.A2dp.Codec.ChannelMode.{unknown}

abbrev pub bitdepth_bits : ℕ
bitdepth_bits = 16

abbrev pub sampling_frequency : Range
sampling_frequency = span 0 3

abbrev pub channel_mode : Range
channel_mode = span 4 7

abbrev pub block_length : Range
block_length = span 8 11

abbrev pub subbands : Range
subbands = span 12 13

abbrev pub allocation_method : Range
allocation_method = span 14 15

abbrev pub minimum_bitpool : Range
minimum_bitpool = span 16 23

abbrev pub maximum_bitpool : Range
maximum_bitpool = span 24 31

abbrev pub capabilities_size : ℕ
capabilities_size = 4

-- `GetSamplingFrequencyBit`.
unfoldable pub get_sampling_frequency_bit : ℤ → Option ℕ
get_sampling_frequency_bit (pos n) =
    if n == 16000
    then some 0
    else if n == 32000
    then some 1
    else if n == 44100
    then some 2
    else if n == 48000
    then some 3
    else none
get_sampling_frequency_bit (negsuc n) = none

-- `GetSamplingFrequencyValue`.
unfoldable pub get_sampling_frequency_value : ℕ → ℕ
get_sampling_frequency_value b =
    if b == 0
    then 16000
    else if b == 1
    then 32000
    else if b == 2
    then 44100
    else if b == 3
    then 48000
    else 0

-- Joint stereo is bit 7 and stereo bit 6.
unfoldable pub get_channel_mode_bit : ChannelMode → Option ℕ
get_channel_mode_bit stereo = some (bit_or 7 6)
get_channel_mode_bit dualmono = some 5
get_channel_mode_bit mono = some 4
get_channel_mode_bit unknown = none

unfoldable pub get_channel_mode_enum : ℕ → ChannelMode
get_channel_mode_enum b =
    if b == 4
    then mono
    else if b == 5
    then dualmono
    else if b == 6 || b == 7
    then stereo
    else unknown

unfoldable pub get_block_length_value : ℕ → ℕ
get_block_length_value b =
    if b == 8 then 4 else if b == 9 then 8 else if b == 10 then 12 else if b == 11 then 16 else 0

-- 8 subbands are bit 12 and 4 subbands bit 13.
unfoldable pub get_subbands_value : ℕ → ℕ
get_subbands_value b = if b == 13 then 4 else if b == 12 then 8 else 0

pub data AllocationMethod : Type 0 where
  snr loudness : AllocationMethod

unfoldable pub get_allocation_method_enum : ℕ → AllocationMethod
get_allocation_method_enum b = if b == 14 then snr else loudness

-- The conversions applied to what `find_active_bit` returns; -1 is in no case of theirs.
abbrev pub value_of : (ℕ → ℕ) → Option ℕ → ℕ
value_of f none = 0
value_of f (some b) = f b

unfoldable pub get_frame_size : List ℕ → ℕ → ℕ
get_frame_size configuration bitpool =
    let subbands_value = value_of get_subbands_value (find_active_bit configuration subbands) in
    let blocks = value_of get_block_length_value (find_active_bit configuration block_length) in
    let bits =
      (if get configuration 4 then 4 * subbands_value else 4 * subbands_value * 2)
      + (if get configuration 5 then blocks * bitpool * 2 else blocks * bitpool)
      + (if get configuration 7 then subbands_value else 0) in
    4 + (bits + 7) / 2 ^ 3

unfoldable pub get_bitrate : List ℕ → ℕ → ℕ
get_bitrate configuration bitpool =
    let frequency =
      value_of get_sampling_frequency_value (find_active_bit configuration sampling_frequency) in
    let subbands_value = value_of get_subbands_value (find_active_bit configuration subbands) in
    let blocks = value_of get_block_length_value (find_active_bit configuration block_length) in
    8 * get_frame_size configuration bitpool * frequency / (blocks * subbands_value)

-- The loop of `GetBitpool`, at `i = 2 ^ (rounds - 1)`.
unfoldable pub get_bitpool_loop : List ℕ → ℤ → ℕ → ℕ → ℕ
get_bitpool_loop configuration bitrate zero bitpool = bitpool
get_bitpool_loop configuration bitrate (suc n) bitpool = get_bitpool_loop configuration bitrate n (
    if ltb_ℤ (pos (get_bitrate configuration (bitpool + 2 ^ n))) bitrate
    then bitpool + 2 ^ n
    else bitpool)

-- `std::clamp(bitpool, 2, 250)`.
unfoldable pub get_bitpool : List ℕ → ℤ → ℕ
unfolding get_bitpool_loop
get_bitpool configuration bitrate = max 2 (min (get_bitpool_loop configuration bitrate 8 0) 250)

-- The constructor: every sampling frequency that is enabled is 44100 or 48000, all else is enabled,
-- and the bitpool goes from 2 to 250.
unfoldable pub capabilities : List ℕ
unfolding set_bit set_range
capabilities =
    let frequencies = set_bit (set_bit (replicate capabilities_size 0) 2 1) 3 1 in
    let modes = set_bit (set_bit (set_bit (set_bit frequencies 4 1) 5 1) 6 1) 7 1 in
    let blocks = set_bit (set_bit (set_bit (set_bit modes 8 1) 9 1) 10 1) 11 1 in
    let bands = set_bit (set_bit (set_bit (set_bit blocks 13 1) 12 1) 13 1) 12 1 in
    let methods = set_bit (set_bit bands 14 1) 15 1 in
    set_range (set_range methods minimum_bitpool 2) maximum_bitpool 250

-- `a2dp_info`, as the constructor fills it.
unfoldable pub info : CodecInfo
info = record {
  capabilities = capabilities;
  sampling_frequency_hz =
      kept_values capabilities (λ v. get_sampling_frequency_bit (pos v))
        (16000 ∷ 32000 ∷ 44100 ∷ 48000 ∷ []);
  channel_mode = kept_values capabilities get_channel_mode_bit (mono ∷ dualmono ∷ stereo ∷ []);
  bitdepth = bitdepth_bits ∷ [];
}
