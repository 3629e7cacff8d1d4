-- ===== src/Provider/Codecs/Validity.antt =====
-- A configuration of A2DP offload is valid if the capabilities that are reported for its codec admit it.
use android_device_peter_gsi.Base.{
  ◌≡◌, refl, inl, inr, Bool, true, false, not, ◌&&◌, ◌||◌, none, some, List, [], ◌∷◌, leb,
  if◌then◌else◌, Bool-cases,
}
use android_device_peter_gsi.Session.Types.{SessionType}
use android_device_peter_gsi.Provider.Hfp.{contained}
use android_device_peter_gsi.Provider.Codecs.{
  Enums, CodecSpecific, sbc_config, aac_config, ldac_config, aptx_config, opus_config, Capabilities,
  sbc_capabilities, aac_capabilities, ldac_capabilities, aptx_capabilities, opus_capabilities,
  CodecType, sbc, aac, aptx, aptx_hd, ldac, opus, CodecConfiguration, contained_mode, default_sbc,
  default_aac, default_ldac, default_aptx, default_aptx_hd, default_opus, is_a2dp_offload,
  is_valid_for, is_offload_codec_configuration_valid, is_offload_sbc_configuration_valid,
  is_offload_aac_configuration_valid, is_offload_ldac_configuration_valid,
  is_offload_aptx_configuration_valid, is_offload_aptx_hd_configuration_valid,
  is_offload_opus_configuration_valid, get_a2dp_offload_codec_capabilities,
}

-- A configuration is within capabilities: the same codec, every field among the values listed, and the
-- bitpools within the limits.
unfoldable pub admits : Capabilities → CodecSpecific → Bool
admits (sbc_capabilities k) (sbc_config c) =
    contained k.sample_rate_hz c.sample_rate_hz
    && contained k.block_length c.block_length
    && contained k.num_subbands c.num_subbands
    && contained k.bits_per_sample c.bits_per_sample
    && contained k.channel_mode c.channel_mode
    && contained k.alloc_method c.alloc_method
    && leb c.min_bitpool c.max_bitpool
    && leb k.min_bitpool c.min_bitpool
    && leb c.max_bitpool k.max_bitpool
admits (aac_capabilities k) (aac_config c) =
    contained k.sample_rate_hz c.sample_rate_hz
    && contained k.bits_per_sample c.bits_per_sample
    && contained_mode k.channel_mode c.channel_mode
    && contained k.object_type c.object_type
    && (not c.variable_bit_rate_enabled || k.variable_bit_rate_supported)
admits (ldac_capabilities k) (ldac_config c) =
    contained k.sample_rate_hz c.sample_rate_hz
    && contained k.bits_per_sample c.bits_per_sample
    && contained k.channel_mode c.channel_mode
    && contained k.quality_index c.quality_index
admits (aptx_capabilities k) (aptx_config c) =
    contained k.sample_rate_hz c.sample_rate_hz
    && contained k.bits_per_sample c.bits_per_sample
    && contained_mode k.channel_mode c.channel_mode
admits (opus_capabilities k) (opus_config (some c)) =
    contained k.sampling_frequency_hz c.sampling_frequency_hz
    && contained k.frame_duration_us c.frame_duration_us
    && contained_mode k.channel_mode c.channel_mode
admits _ _ = false

abbrev pub same_codec : CodecType → CodecType → Bool
same_codec sbc sbc = true
same_codec aac aac = true
same_codec ldac ldac = true
same_codec aptx aptx = true
same_codec aptx_hd aptx_hd = true
same_codec opus opus = true
same_codec _ _ = false

-- The first entry for a codec admits the configuration.
unfoldable pub is_within : CodecType → CodecSpecific → List (CodecType × Capabilities) → Bool
unfolding admits
is_within codec specific [] = false
is_within codec specific ((k, capabilities) ∷ rest) =
    if same_codec k codec then admits capabilities specific else is_within codec specific rest

module _ (enums : Enums) where
  sbc-admits :
      (specific : CodecSpecific)
      → is_offload_sbc_configuration_valid enums specific
        ≡ admits (sbc_capabilities (default_sbc enums)) specific
  unfolding is_offload_sbc_configuration_valid admits
  sbc-admits (sbc_config c) = refl
  sbc-admits _ = refl

  aac-admits :
      (specific : CodecSpecific)
      → is_offload_aac_configuration_valid enums specific
        ≡ admits (aac_capabilities (default_aac enums.mpeg2_lc)) specific
  unfolding is_offload_aac_configuration_valid admits
  aac-admits (aac_config c) = refl
  aac-admits _ = refl

  ldac-admits :
      (specific : CodecSpecific)
      → is_offload_ldac_configuration_valid enums specific
        ≡ admits (ldac_capabilities (default_ldac enums)) specific
  unfolding is_offload_ldac_configuration_valid admits
  ldac-admits (ldac_config c) = refl
  ldac-admits _ = refl

  aptx-admits :
      (specific : CodecSpecific)
      → is_offload_aptx_configuration_valid enums specific
        ≡ admits (aptx_capabilities default_aptx) specific
  unfolding is_offload_aptx_configuration_valid admits
  aptx-admits (aptx_config c) = refl
  aptx-admits _ = refl

  aptx_hd-admits :
      (specific : CodecSpecific)
      → is_offload_aptx_hd_configuration_valid enums specific
        ≡ admits (aptx_capabilities default_aptx_hd) specific
  unfolding is_offload_aptx_hd_configuration_valid admits
  aptx_hd-admits (aptx_config c) = refl
  aptx_hd-admits _ = refl

  opus-admits :
      (specific : CodecSpecific)
      → is_offload_opus_configuration_valid enums specific
        ≡ admits (opus_capabilities default_opus) specific
  unfolding is_offload_opus_configuration_valid admits
  opus-admits (opus_config none) = refl
  opus-admits (opus_config (some c)) = refl
  opus-admits _ = refl

  is_valid_for-is_within :
      (t : SessionType) (codec : CodecType) (specific : CodecSpecific)
      → is_a2dp_offload t ≡ true
      → is_valid_for enums codec specific
        ≡ is_within codec specific (get_a2dp_offload_codec_capabilities enums t)
  unfolding is_within get_a2dp_offload_codec_capabilities
  is_valid_for-is_within t sbc specific h = rw h (sbc-admits specific)
  is_valid_for-is_within t aac specific h = rw h (aac-admits specific)
  is_valid_for-is_within t ldac specific h = rw h (ldac-admits specific)
  is_valid_for-is_within t aptx specific h = rw h (aptx-admits specific)
  is_valid_for-is_within t aptx_hd specific h = rw h (aptx_hd-admits specific)
  is_valid_for-is_within t opus specific h = rw h (opus-admits specific)
  is_valid_for-is_within t _ specific h = rw h refl

  unsupported :
      (t : SessionType) (c : CodecConfiguration)
      → is_a2dp_offload t ≡ false
      → is_offload_codec_configuration_valid enums t c
        ≡ is_within c.codec_type c.config (get_a2dp_offload_codec_capabilities enums t)
  unfolding is_offload_codec_configuration_valid is_within get_a2dp_offload_codec_capabilities
  unsupported t c other = rw other refl

  -- The check of a configuration of A2DP offload agrees with the capabilities that are reported to the
  -- stack: it accepts exactly what the reported entry for the codec admits, for each session type.
  pub is_offload_codec_configuration_valid-is_within :
      (t : SessionType) (c : CodecConfiguration)
      → is_offload_codec_configuration_valid enums t c
        ≡ is_within c.codec_type c.config (get_a2dp_offload_codec_capabilities enums t)
  unfolding is_offload_codec_configuration_valid
  is_offload_codec_configuration_valid-is_within t c = elim (Bool-cases (is_a2dp_offload t)) [
    | inl offload ↦ rw offload (is_valid_for-is_within t c.codec_type c.config offload)
    | inr other ↦ unsupported t c other
  ]
