-- ===== src/A2dp/Aac/Configuration.antt =====
-- bluetooth/audio/hal/A2dpOffloadCodecAac.cpp: `ParseConfiguration`, whose result holds what it writes to
-- the `AacParameters`.
use android_device_peter_gsi.Base.{ℕ, not, ◌&&◌, List, ltb, ◌==◌, if◌then◌else◌, length}
use android_device_peter_gsi.Base.Int.{pos}
use android_device_peter_gsi.A2dp.Bits.{get, get_range, find_active_bit}
use android_device_peter_gsi.A2dp.Codec
use android_device_peter_gsi.A2dp.Codec.{
  CodecParameters, Parsed, accepted, ◌>>=◌, ◌>>◌, guard, found_or,
}
use android_device_peter_gsi.A2dp.Aac.{
  ObjectType, bitdepth_bits, object_type, sampling_frequency, channels, vbr_supported,
  bitrate_range, get_object_type_enum, get_sampling_frequency_value, get_channel_mode_enum,
  capabilities,
}

pub record AacParameters : Type 0 where
  pub codec : CodecParameters
  pub object_type : ObjectType

pub aac_parameters : List ℕ → ℕ → ℕ → ℕ → AacParameters
aac_parameters config ot sf ch = record {
  codec = record {
    channel_mode = get_channel_mode_enum ch;
    sampling_frequency_hz = pos (get_sampling_frequency_value sf);
    bitdepth = bitdepth_bits;
    min_bitrate = pos (if get config vbr_supported then 0 else get_range config bitrate_range);
    max_bitrate = pos (get_range config bitrate_range);
  };
  object_type = get_object_type_enum ot;
}

-- "Check Bitrate". The local limit counts as a truth value too: 0 is no limit.
unfoldable pub check_bitrate : List ℕ → Parsed (Unit {0})
check_bitrate configuration = do
  let vbr = get configuration vbr_supported
  guard (not (vbr && not (get capabilities vbr_supported))) Codec.not_supported_vbr
  let bitrate = get_range configuration bitrate_range
  let limit = get_range capabilities bitrate_range
  guard (not (vbr && not (limit == 0) && ltb limit bitrate)) Codec.not_supported_bit_rate

unfoldable pub parse_configuration : List ℕ → Parsed AacParameters
unfolding aac_parameters
parse_configuration configuration = do
  guard (length configuration == length capabilities) Codec.bad_length
  ot ← found_or (find_active_bit configuration object_type) Codec.invalid_object_type
  guard (get capabilities ot) Codec.not_supported_object_type
  sf ← found_or (find_active_bit configuration sampling_frequency) Codec.invalid_sampling_frequency
  guard (get capabilities sf) Codec.not_supported_sampling_frequency
  ch ← found_or (find_active_bit configuration channels) Codec.invalid_channels
  guard (get capabilities ch) Codec.not_supported_channels
  check_bitrate configuration
  accepted (aac_parameters configuration ot sf ch)
