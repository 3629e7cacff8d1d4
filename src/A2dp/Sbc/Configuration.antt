-- ===== src/A2dp/Sbc/Configuration.antt =====
-- bluetooth/audio/hal/A2dpOffloadCodecSbc.cpp: `ParseConfiguration`, whose result holds what it writes
-- to the `SbcParameters`.
use android_device_peter_gsi.Base.{ℕ, Bool, not, ◌||◌, List, ltb, ◌==◌, length}
use android_device_peter_gsi.Base.Int.{pos}
use android_device_peter_gsi.A2dp.Bits.{get, get_range, find_active_bit}
use android_device_peter_gsi.A2dp.Codec
use android_device_peter_gsi.A2dp.Codec.{
  ChannelMode, CodecParameters, Parsed, accepted, ◌>>=◌, ◌>>◌, guard, found_or, hinted,
  first_common,
}
use android_device_peter_gsi.A2dp.Sbc.{
  AllocationMethod, bitdepth_bits, sampling_frequency, channel_mode, block_length, subbands,
  allocation_method, minimum_bitpool, maximum_bitpool, get_sampling_frequency_value,
  get_channel_mode_enum, get_block_length_value, get_subbands_value, get_allocation_method_enum,
  get_bitrate, capabilities,
}

pub record SbcParameters : Type 0 where
  pub codec : CodecParameters
  pub allocation : AllocationMethod
  pub block_length : ℕ
  pub subbands : ℕ
  pub min_bitpool : ℕ
  pub max_bitpool : ℕ

-- A bitpool outside of 2 to 250 is invalid.
abbrev pub out_of_range : ℕ → Bool
out_of_range bitpool = ltb bitpool 2 || ltb 250 bitpool

pub sbc_parameters : List ℕ → ℕ → ℕ → ℕ → ℕ → ℕ → ℕ → ℕ → SbcParameters
sbc_parameters config sf cm bl sb am low high = record {
  codec = record {
    channel_mode = get_channel_mode_enum cm;
    sampling_frequency_hz = pos (get_sampling_frequency_value sf);
    bitdepth = bitdepth_bits;
    min_bitrate = pos (get_bitrate config low);
    max_bitrate = pos (get_bitrate config high);
  };
  allocation = get_allocation_method_enum am;
  block_length = get_block_length_value bl;
  subbands = get_subbands_value sb;
  min_bitpool = low;
  max_bitpool = high;
}

-- "Check Bitpool".
unfoldable pub check_bitpools : ℕ → ℕ → Parsed (Unit {0})
check_bitpools low high = do
  guard (not (out_of_range low)) Codec.invalid_minimum_bitpool_value
  guard (not (ltb low (get_range capabilities minimum_bitpool)))
      Codec.not_supported_minimum_bitpool_value
  guard (not (out_of_range high)) Codec.invalid_maximum_bitpool_value
  guard (not (ltb (get_range capabilities maximum_bitpool) high))
      Codec.not_supported_maximum_bitpool_value

unfoldable pub parse_configuration : List ℕ → Parsed SbcParameters
unfolding sbc_parameters
parse_configuration configuration = do
  guard (length configuration == length capabilities) Codec.bad_length
  sf ← found_or (find_active_bit configuration sampling_frequency) Codec.invalid_sampling_frequency
  guard (get capabilities sf) Codec.not_supported_sampling_frequency
  cm ← found_or (find_active_bit configuration channel_mode) Codec.invalid_channel_mode
  guard (get capabilities cm) Codec.not_supported_channel_mode
  bl ← found_or (find_active_bit configuration block_length) Codec.invalid_block_length
  sb ← found_or (find_active_bit configuration subbands) Codec.invalid_subbands
  guard (get capabilities sb) Codec.not_supported_subbands
  am ← found_or (find_active_bit configuration allocation_method) Codec.invalid_allocation_method
  guard (get capabilities am) Codec.not_supported_allocation_method
  let low = get_range configuration minimum_bitpool
  let high = get_range configuration maximum_bitpool
  check_bitpools low high
  accepted (sbc_parameters configuration sf cm bl sb am low high)
