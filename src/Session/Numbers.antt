-- ===== src/Session/Numbers.antt =====
-- Data of the examples: the numbers of the session types are those of one enumeration in the order of the
-- constructors.
use android_device_peter_gsi.Base.{
  ℕ, zero, suc, ◌<◌, ◌≡◌, refl, sym, ap, ◌∙◌, arith, true, List, [], ◌∷◌,
}
use android_device_peter_gsi.A2dp.Codec.{stereo}
use android_device_peter_gsi.Session.Types.{
  SessionType, SessionCodes, PcmConfiguration, DataMq, hearing_aid_software_encoding,
  a2dp_software_encoding, a2dp_hardware_offload_encoding, a2dp_software_decoding,
  a2dp_hardware_offload_decoding, hfp_software_encoding, hfp_software_decoding,
  hfp_hardware_offload, le_audio_software_encoding, le_audio_software_decoding,
  le_audio_hardware_offload_encoding, le_audio_hardware_offload_decoding,
  le_audio_broadcast_software_encoding, le_audio_broadcast_hardware_offload_encoding,
}

abbrev pub number : SessionType → ℕ
number SessionType.unknown = 0
number hearing_aid_software_encoding = 1
number a2dp_software_encoding = 2
number a2dp_hardware_offload_encoding = 3
number a2dp_software_decoding = 4
number a2dp_hardware_offload_decoding = 5
number hfp_software_encoding = 6
number hfp_software_decoding = 7
number hfp_hardware_offload = 8
number le_audio_software_encoding = 9
number le_audio_software_decoding = 10
number le_audio_hardware_offload_encoding = 11
number le_audio_hardware_offload_decoding = 12
number le_audio_broadcast_software_encoding = 13
number le_audio_broadcast_hardware_offload_encoding = 14

abbrev pub nth : List SessionType → ℕ → SessionType
nth [] n = SessionType.unknown
nth (t ∷ ts) zero = t
nth (t ∷ ts) (suc n) = nth ts n

abbrev pub of_number : ℕ → SessionType
of_number = nth (
    SessionType.unknown ∷ hearing_aid_software_encoding ∷ a2dp_software_encoding
    ∷ a2dp_hardware_offload_encoding ∷ a2dp_software_decoding ∷ a2dp_hardware_offload_decoding
    ∷ hfp_software_encoding ∷ hfp_software_decoding ∷ hfp_hardware_offload
    ∷ le_audio_software_encoding ∷ le_audio_software_decoding ∷ le_audio_hardware_offload_encoding
    ∷ le_audio_hardware_offload_decoding ∷ le_audio_broadcast_software_encoding
    ∷ le_audio_broadcast_hardware_offload_encoding ∷ [])

pub of_number-number : (t : SessionType) → of_number (number t) ≡ t
of_number-number SessionType.unknown = refl
of_number-number hearing_aid_software_encoding = refl
of_number-number a2dp_software_encoding = refl
of_number-number a2dp_hardware_offload_encoding = refl
of_number-number a2dp_software_decoding = refl
of_number-number a2dp_hardware_offload_decoding = refl
of_number-number hfp_software_encoding = refl
of_number-number hfp_software_decoding = refl
of_number-number hfp_hardware_offload = refl
of_number-number le_audio_software_encoding = refl
of_number-number le_audio_software_decoding = refl
of_number-number le_audio_hardware_offload_encoding = refl
of_number-number le_audio_hardware_offload_decoding = refl
of_number-number le_audio_broadcast_software_encoding = refl
of_number-number le_audio_broadcast_hardware_offload_encoding = refl

pub number-lt : (t : SessionType) → number t < 256
number-lt t = grind arith

abbrev pub numbers : SessionCodes
numbers = record {
  code = number;
  code-lt = number-lt;
  code-injective = λ t u e. sym (of_number-number t) ∙ ap of_number e ∙ of_number-number u;
}

abbrev pub queue : DataMq
queue = record { handle = 7; is_valid = true }

abbrev pub cd_quality : PcmConfiguration
cd_quality = record {
  sample_rate_hz = 44100;
  channel_mode = stereo;
  bits_per_sample = 16;
  data_interval_us = 20000;
}
