-- ===== src/A2dp/Aac.antt =====
-- bluetooth/audio/hal/A2dpOffloadCodecAac.cpp: the capabilities of the AAC codec.
pub mod Configuration
pub mod Build
pub mod Parsing
pub mod Common
pub mod Negotiation
use android_device_peter_gsi.Base.{
  ℕ, zero, Bool, true, false, Option, none, some, List, [], ◌∷◌, ◌==◌, if◌then◌else◌, replicate,
}
use android_device_peter_gsi.Base.Int.{ℤ, pos, negsuc}
use android_device_peter_gsi.A2dp.Bits.{Range, span, single, get, set_bit}
use android_device_peter_gsi.A2dp.Codec.{
  ChannelMode, mono, stereo, dualmono, CodecInfo, kept_values,
}
use android_device_peter_gsi.A2dp.Codec.ChannelMode.{unknown}

abbrev pub bitdepth_bits : ℕ
bitdepth_bits = 24

abbrev pub object_type : Range
object_type = span 0 6

abbrev pub sampling_frequency : Range
sampling_frequency = span 8 19

abbrev pub channels : Range
channels = span 20 23

abbrev pub vbr_supported : ℕ
vbr_supported = 24

abbrev pub bitrate_range : Range
bitrate_range = span 25 47

abbrev pub capabilities_size : ℕ
capabilities_size = 6

-- `ObjectType` of `AacParameters`.
pub data ObjectType : Type 0 where
  mpeg2_aac_lc mpeg4_aac_lc : ObjectType

unfoldable pub get_object_type_enum : ℕ → ObjectType
get_object_type_enum b = if b == 0 then mpeg2_aac_lc else mpeg4_aac_lc

-- The sampling frequencies, in the order of their bits from bit 8 on.
abbrev pub frequencies : List ℕ
frequencies =
    8000 ∷ 11025 ∷ 12000 ∷ 16000 ∷ 22050 ∷ 24000 ∷ 32000 ∷ 44100 ∷ 48000 ∷ 64000 ∷ 88200 ∷ 96000
    ∷ []

-- `GetSamplingFrequencyBit`.
unfoldable pub get_sampling_frequency_bit : ℤ → Option ℕ
get_sampling_frequency_bit (pos n) =
    if n == 8000
    then some 8
    else if n == 11025
    then some 9
    else if n == 12000
    then some 10
    else if n == 16000
    then some 11
    else if n == 22050
    then some 12
    else if n == 24000
    then some 13
    else if n == 32000
    then some 14
    else if n == 44100
    then some 15
    else if n == 48000
    then some 16
    else if n == 64000
    then some 17
    else if n == 88200
    then some 18
    else if n == 96000
    then some 19
    else none
get_sampling_frequency_bit (negsuc n) = none

-- `GetSamplingFrequencyValue`.
unfoldable pub get_sampling_frequency_value : ℕ → ℕ
get_sampling_frequency_value b =
    if b == 8
    then 8000
    else if b == 9
    then 11025
    else if b == 10
    then 12000
    else if b == 11
    then 16000
    else if b == 12
    then 22050
    else if b == 13
    then 24000
    else if b == 14
    then 32000
    else if b == 15
    then 44100
    else if b == 16
    then 48000
    else if b == 17
    then 64000
    else if b == 18
    then 88200
    else if b == 19
    then 96000
    else 0

unfoldable pub get_channels_bit : ChannelMode → Option ℕ
get_channels_bit mono = some 20
get_channels_bit stereo = some 21
get_channels_bit dualmono = none
get_channels_bit unknown = none

unfoldable pub get_channel_mode_enum : ℕ → ChannelMode
get_channel_mode_enum b = if b == 20 then mono else if b == 21 then stereo else unknown

-- The constructor: both object types, 44100 and 48000, one and two channels, and a variable bit rate;
-- 88200 and 96000 are not enabled, and there is no limit on the bit rate.
unfoldable pub capabilities : List ℕ
unfolding set_bit
capabilities =
    let types = set_bit (set_bit (replicate capabilities_size 0) 0 1) 1 1 in
    let low_rates = set_bit (set_bit types 15 1) 16 1 in
    let rates = set_bit (set_bit low_rates 18 0) 19 0 in
    let modes = set_bit (set_bit rates 20 1) 21 1 in set_bit modes vbr_supported 1

unfoldable pub info : CodecInfo
info = record {
  capabilities = capabilities;
  sampling_frequency_hz =
      kept_values capabilities (λ v. get_sampling_frequency_bit (pos v)) frequencies;
  channel_mode = kept_values capabilities get_channels_bit (mono ∷ stereo ∷ []);
  bitdepth = bitdepth_bits ∷ [];
}
