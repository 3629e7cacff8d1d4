-- ===== src/A2dp/Examples.antt =====
-- Runs of the A2DP codecs on concrete vectors, and the theorems about them at these vectors.
use android_device_peter_gsi.Base.{
  ℕ, ◌%◌, ◌^◌, ◌≤◌, ◌≡◌, refl, ◌↔◌, ◌⊎◌, inl, arith, true, none, some, List, [], ◌∷◌,
}
use android_device_peter_gsi.Base.Int.{pos, ltb_ℤ}
use android_device_peter_gsi.A2dp.Bits.{
  get, get_bit, get_range, set_range, set_bit, find_active_bit,
}
use android_device_peter_gsi.A2dp.Bits.Laws.{IsVector, get_range-set_range}
use android_device_peter_gsi.A2dp.Bits.Several.{zeros-IsVector}
use android_device_peter_gsi.A2dp.Codec.{first_common, accepted, stereo, mono, dualmono}
use android_device_peter_gsi.A2dp.Sbc.{
  maximum_bitpool, get_block_length_value, get_subbands_value, get_sampling_frequency_bit,
  get_channel_mode_bit, get_frame_size, get_bitrate, get_bitpool_loop, get_sampling_frequency_value,
  capabilities, info,
}
use android_device_peter_gsi.A2dp.Sbc.Configuration.{check_bitpools, parse_configuration}
use android_device_peter_gsi.A2dp.Sbc.Build.{
  Choices, choices, chosen, select_bitpool, bitpools, build_configuration,
}
use android_device_peter_gsi.A2dp.Sbc.Parsing.{
  IsAcceptable, parameters, parse_configuration-IsAcceptable,
}
use android_device_peter_gsi.A2dp.Sbc.Rates.{get_bitpool_loop_largest}
use android_device_peter_gsi.A2dp.Sbc.Common.{HasDefaults, build_configuration-some}
use android_device_peter_gsi.A2dp.Sbc.Negotiation.{
  build_configuration-parse, build_configuration-maximum_bitpool,
}
use android_device_peter_gsi.A2dp.Aac
use android_device_peter_gsi.A2dp.Aac.Configuration as AacConfiguration
use android_device_peter_gsi.A2dp.Aac.Build as AacBuild
use android_device_peter_gsi.A2dp.Aac.Parsing as AacParsing
use android_device_peter_gsi.A2dp.Aac.Negotiation.{build_configuration-parse_configuration}
use android_device_peter_gsi.A2dp.Factory.{
  CodecId, aac_codec, sbc_codec, A2dpRemoteCapabilities, A2dpConfigurationHint, A2dpConfiguration,
  configured, failed, attempt, get_codec, get_configuration,
}
use android_device_peter_gsi.A2dp.Factory.Outcomes.{IsFor, get_configuration-outcome}

-- Capabilities that state a maximum bitpool of 53, and what SBC builds from them: 44.1 kHz, joint stereo,
-- 16 blocks, 8 subbands, loudness.
abbrev remote : List ℕ
remote = 0x3f ∷ 0xff ∷ 2 ∷ 53 ∷ []

abbrev built : List ℕ
built = 0x21 ∷ 0x19 ∷ 2 ∷ 250 ∷ []

abbrev built_choices : Choices
built_choices = record { sf = 2; cm = 7; bl = 11; sb = 12; am = 15 }

sbc_capabilities : capabilities ≡ 0x3f ∷ 0xff ∷ 2 ∷ 250 ∷ []
unfolding capabilities
sbc_capabilities = refl

sbc_frequencies : info.sampling_frequency_hz ≡ 44100 ∷ 48000 ∷ []
unfolding info capabilities get_sampling_frequency_bit get_bit
sbc_frequencies = refl

sbc_modes : info.channel_mode ≡ mono ∷ dualmono ∷ stereo ∷ []
unfolding info capabilities get_channel_mode_bit get_bit
sbc_modes = refl

remote-built : build_configuration remote none ≡ some built
unfolding build_configuration choices first_common chosen select_bitpool bitpools capabilities
    get_range get_bit set_range set_bit
remote-built = refl

build_configuration-parse_example :
    (c : Choices) × (parse_configuration built ≡ accepted (parameters built c))
    × (get remote c.sf ≡ true)
    × (get remote c.cm ≡ true)
    × (get remote c.bl ≡ true)
    × (get remote c.sb ≡ true)
    × (get remote c.am ≡ true)
build_configuration-parse_example = build_configuration-parse remote none built remote-built

build_configuration-maximum_bitpool_example : get_range built maximum_bitpool ≡ 250
build_configuration-maximum_bitpool_example =
    build_configuration-maximum_bitpool remote built remote-built

remote-HasDefaults : HasDefaults remote built_choices
unfolding get_bit
remote-HasDefaults = record {
  size = refl;
  sf = (inl refl, refl);
  cm = (inl refl, refl);
  bl = (inl refl, refl);
  sb = (inl refl, refl);
  am = (inl refl, refl);
}

build_configuration-some_example :
    (config : List ℕ) × (build_configuration remote none ≡ some config)
build_configuration-some_example =
    build_configuration-some remote none built_choices remote-HasDefaults

built-accepted : parse_configuration built ≡ accepted (parameters built built_choices)
unfolding parse_configuration find_active_bit get_range get_bit capabilities check_bitpools
built-accepted = refl

parse_configuration-IsAcceptable_example :
    (parse_configuration built ≡ accepted (parameters built built_choices))
    ↔ ((c : Choices) × IsAcceptable built c × (parameters built built_choices ≡ parameters built c))
parse_configuration-IsAcceptable_example =
    parse_configuration-IsAcceptable built (parameters built built_choices)

zeros-IsVector_4 : IsVector 4 (0 ∷ 0 ∷ 0 ∷ 0 ∷ [])
zeros-IsVector_4 = zeros-IsVector 4

get_range-set_range_example :
    get_range (set_range (0 ∷ 0 ∷ 0 ∷ 0 ∷ []) maximum_bitpool 250) maximum_bitpool ≡ 250 % 2 ^ 8
get_range-set_range_example =
    get_range-set_range 4 250 maximum_bitpool (0 ∷ 0 ∷ 0 ∷ 0 ∷ []) (omega arith) zeros-IsVector_4

-- 53 is the largest bitpool of high quality joint stereo at 44.1 kHz: 328 kbit/s.
built_bitrate : get_bitrate built 53 ≡ 327993
unfolding get_bitrate get_frame_size find_active_bit get_bit get_sampling_frequency_value
    get_block_length_value get_subbands_value
built_bitrate = refl

get_bitpool_loop_largest_example :
    (ltb_ℤ (pos (get_bitrate built 53)) (pos 330000) ≡ true)
    ↔ (53 ≤ get_bitpool_loop built (pos 330000) 8 0)
get_bitpool_loop_largest_example =
    get_bitpool_loop_largest built (pos 330000) 53 (omega arith) (omega arith)

abbrev aac_vector : List ℕ
aac_vector = 0x80 ∷ 0 ∷ 0x84 ∷ 0x80 ∷ 0 ∷ 0 ∷ []

abbrev aac_remote : List ℕ
aac_remote = 0x80 ∷ 0x01 ∷ 0x84 ∷ 0x80 ∷ 0 ∷ 0 ∷ []

-- The factory, for a device that offers both codecs, with a hint of SBC.
abbrev offers : List A2dpRemoteCapabilities
offers =
    record { id = CodecId.sbc; seid = 3; capabilities = remote }
    ∷ record { id = CodecId.aac; seid = 5; capabilities = aac_remote }
    ∷ []

abbrev sbc_hint : A2dpConfigurationHint
sbc_hint = record { codec_id = CodecId.sbc; codec_parameters = none }

aac_built : AacBuild.build_configuration aac_remote none ≡ some aac_vector
unfolding AacBuild.build_configuration AacBuild.choices first_common AacBuild.chosen
    AacBuild.select_bitrate Aac.capabilities get_range get_bit set_range set_bit
aac_built = refl

hint-known : get_codec sbc_hint.codec_id ≡ some sbc_codec
unfolding get_codec
hint-known = refl

get_configuration-outcome_example :
    ((a : A2dpConfiguration) × (get_configuration offers sbc_hint ≡ configured a)
      × IsFor offers none sbc_codec a)
    ⊎ ((attempt offers none sbc_codec ≡ none)
        × (a : A2dpConfiguration) × (get_configuration offers sbc_hint ≡ configured a)
        × IsFor offers none aac_codec a)
    ⊎ ((attempt offers none sbc_codec ≡ none)
        × (attempt offers none aac_codec ≡ none)
        × (get_configuration offers sbc_hint ≡ failed))
get_configuration-outcome_example = get_configuration-outcome offers sbc_hint sbc_codec hint-known

build_configuration-parse_configuration_example :
    (c : AacBuild.Choices) × (AacConfiguration.parse_configuration aac_vector
      ≡ accepted (AacConfiguration.aac_parameters aac_vector c.ot c.sf c.ch))
    × (get aac_remote c.ot ≡ true)
    × (get aac_remote c.sf ≡ true)
    × (get aac_remote c.ch ≡ true)
    × (get_range aac_vector Aac.bitrate_range ≡ AacBuild.bitrate none % 2 ^ 23)
build_configuration-parse_configuration_example =
    build_configuration-parse_configuration aac_remote none aac_vector aac_built

parse_configuration_iff_example :
    (AacConfiguration.parse_configuration aac_vector
      ≡ accepted (AacConfiguration.aac_parameters aac_vector 0 16 21))
    ↔ ((c : AacBuild.Choices) × AacParsing.IsAcceptable aac_vector c
        × (AacConfiguration.aac_parameters aac_vector 0 16 21
            ≡ AacConfiguration.aac_parameters aac_vector c.ot c.sf c.ch))
parse_configuration_iff_example =
    AacParsing.parse_configuration_iff aac_vector
      (AacConfiguration.aac_parameters aac_vector 0 16 21)
