-- ===== src/Provider/Codecs/Examples.antt =====
-- The check of an offload configuration on a concrete input.
use android_device_peter_gsi.Base.{◌≡◌, refl, true, false}
use android_device_peter_gsi.A2dp.Codec.{stereo}
use android_device_peter_gsi.Session.Types.{a2dp_hardware_offload_encoding, a2dp_software_encoding}
use android_device_peter_gsi.Provider.Codecs.{
  Enums, CodecConfiguration, sbc_config, aptx_config, sbc, aptx_hd,
  is_offload_codec_configuration_valid, get_a2dp_offload_codec_capabilities,
  is_offload_sbc_configuration_valid, is_offload_aptx_hd_configuration_valid,
}
use android_device_peter_gsi.Provider.Codecs.Validity.{
  is_within, is_offload_codec_configuration_valid-is_within,
}

abbrev enums : Enums
enums = record {
  sbc_mono = 4;
  sbc_joint_stereo = 1;
  alloc_md_l = 1;
  mpeg2_lc = 0;
  ldac_dual = 1;
  ldac_stereo = 0;
  ldac_high = 0;
}

abbrev high_quality : CodecConfiguration
high_quality = record {
  codec_type = sbc;
  config = sbc_config (record {
    sample_rate_hz = 44100;
    channel_mode = 1;
    block_length = 16;
    num_subbands = 8;
    alloc_method = 1;
    bits_per_sample = 16;
    min_bitpool = 2;
    max_bitpool = 53;
  });
}

abbrev aptx_hd_16 : CodecConfiguration
aptx_hd_16 = record {
  codec_type = aptx_hd;
  config =
      aptx_config (record { sample_rate_hz = 48000; bits_per_sample = 16; channel_mode = stereo });
}

-- aptX HD takes 24 bits only.
high_quality-valid :
    is_offload_codec_configuration_valid enums a2dp_hardware_offload_encoding high_quality ≡ true
unfolding is_offload_codec_configuration_valid is_offload_sbc_configuration_valid
high_quality-valid = refl

aptx_hd_16-invalid :
    is_offload_codec_configuration_valid enums a2dp_hardware_offload_encoding aptx_hd_16 ≡ false
unfolding is_offload_codec_configuration_valid is_offload_aptx_hd_configuration_valid
aptx_hd_16-invalid = refl

software-invalid :
    is_offload_codec_configuration_valid enums a2dp_software_encoding high_quality ≡ false
unfolding is_offload_codec_configuration_valid
software-invalid = refl

is_offload_codec_configuration_valid-is_within_example :
    is_offload_codec_configuration_valid enums a2dp_hardware_offload_encoding high_quality
    ≡ is_within sbc high_quality.config
        (get_a2dp_offload_codec_capabilities enums a2dp_hardware_offload_encoding)
is_offload_codec_configuration_valid-is_within_example =
    is_offload_codec_configuration_valid-is_within enums a2dp_hardware_offload_encoding high_quality
