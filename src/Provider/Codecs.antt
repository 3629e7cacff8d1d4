-- ===== src/Provider/Codecs.antt =====
-- bluetooth/audio/utils/aidl_session/BluetoothAudioCodecs.cpp: the capabilities of A2DP offload, and the check
-- of a configuration against them. The values of the enums that the build generates are numbers, those
-- that the code names a parameter, `Enums`. The check of PCM configurations is in Provider/Hfp.antt.
mod Validity
mod Examples
use android_device_peter_gsi.Base.{
  ℕ, Bool, true, false, not, ◌&&◌, ◌||◌, Option, none, some, List, [], ◌∷◌, map, leb, if◌then◌else◌,
}
use android_device_peter_gsi.A2dp.Codec.{ChannelMode, mono, stereo, dualmono}
use android_device_peter_gsi.Session.Types.{
  SessionType, a2dp_hardware_offload_encoding, a2dp_hardware_offload_decoding,
  le_audio_hardware_offload_encoding, le_audio_hardware_offload_decoding,
  le_audio_broadcast_hardware_offload_encoding,
}
use android_device_peter_gsi.Provider.Hfp.{contained}

pub record Enums : Type 0 where
  pub sbc_mono : ℕ
  pub sbc_joint_stereo : ℕ
  pub alloc_md_l : ℕ
  pub mpeg2_lc : ℕ
  pub ldac_dual : ℕ
  pub ldac_stereo : ℕ
  pub ldac_high : ℕ

pub record SbcConfiguration : Type 0 where
  pub sample_rate_hz : ℕ
  pub channel_mode : ℕ
  pub block_length : ℕ
  pub num_subbands : ℕ
  pub alloc_method : ℕ
  pub bits_per_sample : ℕ
  pub min_bitpool : ℕ
  pub max_bitpool : ℕ

pub record AacConfiguration : Type 0 where
  pub object_type : ℕ
  pub sample_rate_hz : ℕ
  pub bits_per_sample : ℕ
  pub channel_mode : ChannelMode
  pub variable_bit_rate_enabled : Bool

pub record LdacConfiguration : Type 0 where
  pub sample_rate_hz : ℕ
  pub channel_mode : ℕ
  pub quality_index : ℕ
  pub bits_per_sample : ℕ

pub record AptxConfiguration : Type 0 where
  pub sample_rate_hz : ℕ
  pub bits_per_sample : ℕ
  pub channel_mode : ChannelMode

pub record OpusConfiguration : Type 0 where
  pub sampling_frequency_hz : ℕ
  pub frame_duration_us : ℕ
  pub channel_mode : ChannelMode

pub record SbcCapabilities : Type 0 where
  pub sample_rate_hz : List ℕ
  pub channel_mode : List ℕ
  pub block_length : List ℕ
  pub num_subbands : List ℕ
  pub alloc_method : List ℕ
  pub bits_per_sample : List ℕ
  pub min_bitpool : ℕ
  pub max_bitpool : ℕ

pub record AacCapabilities : Type 0 where
  pub object_type : List ℕ
  pub sample_rate_hz : List ℕ
  pub bits_per_sample : List ℕ
  pub channel_mode : List ChannelMode
  pub variable_bit_rate_supported : Bool

pub record LdacCapabilities : Type 0 where
  pub sample_rate_hz : List ℕ
  pub channel_mode : List ℕ
  pub quality_index : List ℕ
  pub bits_per_sample : List ℕ

pub record AptxCapabilities : Type 0 where
  pub sample_rate_hz : List ℕ
  pub bits_per_sample : List ℕ
  pub channel_mode : List ChannelMode

pub record OpusCapabilities : Type 0 where
  pub sampling_frequency_hz : List ℕ
  pub frame_duration_us : List ℕ
  pub channel_mode : List ChannelMode

-- `CodecConfiguration::CodecSpecific` and `CodecCapabilities::Capabilities`, by their tags; the number stands
-- for a tag that no function here reads.
pub data CodecSpecific : Type 0 where
  sbc_config : SbcConfiguration → CodecSpecific
  aac_config : AacConfiguration → CodecSpecific
  ldac_config : LdacConfiguration → CodecSpecific
  aptx_config : AptxConfiguration → CodecSpecific
  opus_config : Option OpusConfiguration → CodecSpecific
  other_config : ℕ → CodecSpecific

pub data Capabilities : Type 0 where
  empty_capabilities : Capabilities
  sbc_capabilities : SbcCapabilities → Capabilities
  aac_capabilities : AacCapabilities → Capabilities
  ldac_capabilities : LdacCapabilities → Capabilities
  aptx_capabilities : AptxCapabilities → Capabilities
  opus_capabilities : OpusCapabilities → Capabilities

pub data CodecType : Type 0 where
  unknown sbc aac aptx aptx_hd ldac lc3 vendor aptx_adaptive opus : CodecType
  aptx_adaptive_le aptx_adaptive_lex : CodecType

pub record CodecConfiguration : Type 0 where
  pub codec_type : CodecType
  pub config : CodecSpecific

abbrev pub same_mode : ChannelMode → ChannelMode → Bool
same_mode ChannelMode.unknown ChannelMode.unknown = true
same_mode mono mono = true
same_mode stereo stereo = true
same_mode dualmono dualmono = true
same_mode _ _ = false

-- `ContainedInVector` on channel modes.
abbrev pub contained_mode : List ChannelMode → ChannelMode → Bool
contained_mode [] target = false
contained_mode (x ∷ xs) target = same_mode x target || contained_mode xs target

abbrev pub default_aac : ℕ → AacCapabilities
default_aac mpeg2_lc = record {
  object_type = mpeg2_lc ∷ [];
  sample_rate_hz = 44100 ∷ [];
  channel_mode = stereo ∷ [];
  variable_bit_rate_supported = true;
  bits_per_sample = 16 ∷ [];
}

abbrev pub default_aptx : AptxCapabilities
default_aptx = record {
  sample_rate_hz = 44100 ∷ 48000 ∷ [];
  channel_mode = stereo ∷ [];
  bits_per_sample = 16 ∷ [];
}

abbrev pub default_aptx_hd : AptxCapabilities
default_aptx_hd = record {
  sample_rate_hz = 44100 ∷ 48000 ∷ [];
  channel_mode = stereo ∷ [];
  bits_per_sample = 24 ∷ [];
}

abbrev pub default_opus : OpusCapabilities
default_opus = record {
  sampling_frequency_hz = 48000 ∷ [];
  frame_duration_us = 10000 ∷ 20000 ∷ [];
  channel_mode = mono ∷ stereo ∷ [];
}

abbrev pub is_a2dp_offload : SessionType → Bool
is_a2dp_offload a2dp_hardware_offload_encoding = true
is_a2dp_offload a2dp_hardware_offload_decoding = true
is_a2dp_offload _ = false

module _ (enums : Enums) where
  abbrev pub default_sbc : SbcCapabilities
  default_sbc = record {
    sample_rate_hz = 44100 ∷ [];
    channel_mode = enums.sbc_mono ∷ enums.sbc_joint_stereo ∷ [];
    block_length = 4 ∷ 8 ∷ 12 ∷ 16 ∷ [];
    num_subbands = 8 ∷ [];
    alloc_method = enums.alloc_md_l ∷ [];
    bits_per_sample = 16 ∷ [];
    min_bitpool = 2;
    max_bitpool = 53;
  }

  abbrev pub default_ldac : LdacCapabilities
  default_ldac = record {
    sample_rate_hz = 44100 ∷ 48000 ∷ 88200 ∷ 96000 ∷ [];
    channel_mode = enums.ldac_dual ∷ enums.ldac_stereo ∷ [];
    quality_index = enums.ldac_high ∷ [];
    bits_per_sample = 16 ∷ 24 ∷ 32 ∷ [];
  }

  unfoldable pub is_offload_sbc_configuration_valid : CodecSpecific → Bool
  is_offload_sbc_configuration_valid (sbc_config c) =
      contained default_sbc.sample_rate_hz c.sample_rate_hz
      && contained default_sbc.block_length c.block_length
      && contained default_sbc.num_subbands c.num_subbands
      && contained default_sbc.bits_per_sample c.bits_per_sample
      && contained default_sbc.channel_mode c.channel_mode
      && contained default_sbc.alloc_method c.alloc_method
      && leb c.min_bitpool c.max_bitpool
      && leb default_sbc.min_bitpool c.min_bitpool
      && leb c.max_bitpool default_sbc.max_bitpool
  is_offload_sbc_configuration_valid _ = false

  unfoldable pub is_offload_aac_configuration_valid : CodecSpecific → Bool
  is_offload_aac_configuration_valid (aac_config c) =
      let default = default_aac enums.mpeg2_lc in
      contained default.sample_rate_hz c.sample_rate_hz
      && contained default.bits_per_sample c.bits_per_sample
      && contained_mode default.channel_mode c.channel_mode
      && contained default.object_type c.object_type
      && (not c.variable_bit_rate_enabled || default.variable_bit_rate_supported)
  is_offload_aac_configuration_valid _ = false

  unfoldable pub is_offload_ldac_configuration_valid : CodecSpecific → Bool
  is_offload_ldac_configuration_valid (ldac_config c) =
      contained default_ldac.sample_rate_hz c.sample_rate_hz
      && contained default_ldac.bits_per_sample c.bits_per_sample
      && contained default_ldac.channel_mode c.channel_mode
      && contained default_ldac.quality_index c.quality_index
  is_offload_ldac_configuration_valid _ = false

  unfoldable pub is_offload_aptx_configuration_valid : CodecSpecific → Bool
  is_offload_aptx_configuration_valid (aptx_config c) =
      contained default_aptx.sample_rate_hz c.sample_rate_hz
      && contained default_aptx.bits_per_sample c.bits_per_sample
      && contained_mode default_aptx.channel_mode c.channel_mode
  is_offload_aptx_configuration_valid _ = false

  unfoldable pub is_offload_aptx_hd_configuration_valid : CodecSpecific → Bool
  is_offload_aptx_hd_configuration_valid (aptx_config c) =
      contained default_aptx_hd.sample_rate_hz c.sample_rate_hz
      && contained default_aptx_hd.bits_per_sample c.bits_per_sample
      && contained_mode default_aptx_hd.channel_mode c.channel_mode
  is_offload_aptx_hd_configuration_valid _ = false

  unfoldable pub is_offload_opus_configuration_valid : CodecSpecific → Bool
  is_offload_opus_configuration_valid (opus_config (some c)) =
      contained default_opus.sampling_frequency_hz c.sampling_frequency_hz
      && contained default_opus.frame_duration_us c.frame_duration_us
      && contained_mode default_opus.channel_mode c.channel_mode
  is_offload_opus_configuration_valid _ = false

  -- The switch of `IsOffloadCodecConfigurationValid`.
  abbrev pub is_valid_for : CodecType → CodecSpecific → Bool
  is_valid_for sbc specific = is_offload_sbc_configuration_valid specific
  is_valid_for aac specific = is_offload_aac_configuration_valid specific
  is_valid_for ldac specific = is_offload_ldac_configuration_valid specific
  is_valid_for aptx specific = is_offload_aptx_configuration_valid specific
  is_valid_for aptx_hd specific = is_offload_aptx_hd_configuration_valid specific
  is_valid_for opus specific = is_offload_opus_configuration_valid specific
  is_valid_for _ specific = false

  unfoldable pub is_offload_codec_configuration_valid : SessionType → CodecConfiguration → Bool
  unfolding is_offload_sbc_configuration_valid is_offload_aac_configuration_valid
      is_offload_ldac_configuration_valid is_offload_aptx_configuration_valid
      is_offload_aptx_hd_configuration_valid is_offload_opus_configuration_valid
  is_offload_codec_configuration_valid t c = is_a2dp_offload t && is_valid_for c.codec_type c.config

  -- The switch of the loop of `GetA2dpOffloadCodecCapabilities`.
  abbrev pub capabilities_of : CodecType → Capabilities
  capabilities_of sbc = sbc_capabilities default_sbc
  capabilities_of aac = aac_capabilities (default_aac enums.mpeg2_lc)
  capabilities_of ldac = ldac_capabilities default_ldac
  capabilities_of aptx = aptx_capabilities default_aptx
  capabilities_of aptx_hd = aptx_capabilities default_aptx_hd
  capabilities_of opus = opus_capabilities default_opus
  capabilities_of _ = empty_capabilities

  abbrev pub default_codecs : List CodecType
  default_codecs = sbc ∷ aac ∷ ldac ∷ aptx ∷ aptx_hd ∷ opus ∷ []

  unfoldable pub get_a2dp_offload_codec_capabilities : SessionType → List (CodecType × Capabilities)
  get_a2dp_offload_codec_capabilities t =
      if is_a2dp_offload t then map (λ codec. (codec, capabilities_of codec)) default_codecs else []
