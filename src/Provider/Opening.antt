-- ===== src/Provider/Opening.antt =====
-- bluetooth/audio/hal/BluetoothAudioProviderFactory.cpp: the provider that is made for a type of session, and
-- what is reported of it, with the constructors and `isValid` of the providers. `make_queue` is what the
-- message queue library makes of a size in bytes; `unset` is the session type of a hearing aid provider
-- that has no queue, where the code leaves the field unset.
mod Outcome
mod Examples
use android_device_peter_gsi.Base.{
  ℕ, ◌*◌, Bool, true, false, ◌&&◌, ◌==◌, Option, none, some, List, [], ◌∷◌, map, if◌then◌else◌,
}
use android_device_peter_gsi.A2dp.Codec.{ChannelMode, mono, stereo}
use android_device_peter_gsi.Session.Types.{
  SessionType, SessionCodes, unknown, hearing_aid_software_encoding, a2dp_software_encoding,
  a2dp_hardware_offload_encoding, a2dp_software_decoding, a2dp_hardware_offload_decoding,
  hfp_software_encoding, hfp_software_decoding, hfp_hardware_offload, le_audio_software_encoding,
  le_audio_software_decoding, le_audio_hardware_offload_encoding,
  le_audio_hardware_offload_decoding, le_audio_broadcast_software_encoding,
  le_audio_broadcast_hardware_offload_encoding, DataMq,
}
use android_device_peter_gsi.Session.State.{mq_valid}
use android_device_peter_gsi.Session.Instances.{same_type}
use android_device_peter_gsi.Provider.{Provider}
use android_device_peter_gsi.Provider.A2dp.{new_provider}
use android_device_peter_gsi.Provider.Codecs.{
  Enums, CodecType, Capabilities, is_a2dp_offload, get_a2dp_offload_codec_capabilities,
}

pub data ProviderClass : Type 0 where
  a2dp_software a2dp_offload hearing_aid le_audio_software : ProviderClass
  le_audio_offload hfp_software hfp_offload : ProviderClass

pub record Opened : Type 0 where
  pub provider_class : ProviderClass
  pub provider : Provider

-- `kDataMqSize` of A2dpSoftwareAudioProvider.cpp, in bytes: bytes of a frame, frames, packets, buffers.
abbrev pub a2dp_data_mq_size : ℕ
a2dp_data_mq_size = 4 * 96 * 10 * 2

-- `kDataMqSize` of HearingAidAudioProvider.cpp.
abbrev pub hearing_aid_data_mq_size : ℕ
hearing_aid_data_mq_size = 4 * 128 * 7 * 1

-- `isValid` of the software providers of A2DP and of hearing aids looks at the queue too.
abbrev pub has_queue : ProviderClass → Option DataMq → Bool
has_queue a2dp_software mq = mq_valid mq
has_queue hearing_aid mq = mq_valid mq
has_queue _ mq = true

-- A provider that its constructor makes without a queue.
abbrev pub plain : ProviderClass → SessionType → Option Opened
plain c t = some (record { provider_class = c; provider = new_provider t none })

module _ (make_queue : ℕ → Option DataMq) (unset : SessionType) where
  abbrev pub a2dp_software_provider : SessionType → Opened
  a2dp_software_provider t = record {
    provider_class = a2dp_software;
    provider = new_provider t (make_queue a2dp_data_mq_size);
  }

  abbrev pub hearing_aid_provider : Opened
  hearing_aid_provider =
      let mq = make_queue hearing_aid_data_mq_size in
      record {
        provider_class = hearing_aid;
        provider = new_provider (if mq_valid mq then hearing_aid_software_encoding else unset) mq;
      }

  -- The switch of `openProvider`.
  unfoldable pub make_provider : SessionType → Option Opened
  unfolding new_provider
  make_provider a2dp_software_encoding = some (a2dp_software_provider a2dp_software_encoding)
  make_provider a2dp_hardware_offload_encoding = plain a2dp_offload a2dp_hardware_offload_encoding
  make_provider hearing_aid_software_encoding = some hearing_aid_provider
  make_provider le_audio_software_encoding = plain le_audio_software le_audio_software_encoding
  make_provider le_audio_hardware_offload_encoding =
      plain le_audio_offload le_audio_hardware_offload_encoding
  make_provider le_audio_software_decoding = plain le_audio_software le_audio_software_decoding
  make_provider le_audio_hardware_offload_decoding =
      plain le_audio_offload le_audio_hardware_offload_decoding
  make_provider le_audio_broadcast_software_encoding =
      plain le_audio_software le_audio_broadcast_software_encoding
  make_provider le_audio_broadcast_hardware_offload_encoding =
      plain le_audio_offload le_audio_broadcast_hardware_offload_encoding
  make_provider a2dp_software_decoding = some (a2dp_software_provider a2dp_software_decoding)
  make_provider a2dp_hardware_offload_decoding = plain a2dp_offload a2dp_hardware_offload_decoding
  make_provider hfp_software_encoding = plain hfp_software hfp_software_encoding
  make_provider hfp_software_decoding = plain hfp_software hfp_software_decoding
  make_provider hfp_hardware_offload = plain hfp_offload hfp_hardware_offload
  make_provider unknown = none

  module _ (codes : SessionCodes) where
    -- `isValid` of the classes.
    unfoldable pub is_valid : Opened → SessionType → Bool
    is_valid opened t =
        same_type codes t opened.provider.session_type
        && has_queue opened.provider_class opened.provider.data_mq

    abbrev pub checked : SessionType → Option Opened → Option Opened
    checked t none = none
    checked t (some opened) = if is_valid opened t then some opened else none

    -- `none` is the answer EX_ILLEGAL_ARGUMENT.
    unfoldable pub open_provider : SessionType → Option Opened
    unfolding is_valid make_provider
    open_provider t = checked t (make_provider t)

abbrev pub is_le_audio_offload : SessionType → Bool
is_le_audio_offload le_audio_hardware_offload_encoding = true
is_le_audio_offload le_audio_hardware_offload_decoding = true
is_le_audio_offload le_audio_broadcast_hardware_offload_encoding = true
is_le_audio_offload _ = false

pub data AudioCapabilities : Type 0 where
  of_a2dp : CodecType × Capabilities → AudioCapabilities
  of_le_audio : ℕ → AudioCapabilities
  of_pcm : List ℕ → List ChannelMode → List ℕ → AudioCapabilities

-- `GetSoftwarePcmCapabilities`: the sample rates, the channel modes and the bits of a sample.
abbrev pub get_software_pcm_capabilities : List AudioCapabilities
get_software_pcm_capabilities =
    of_pcm (8000 ∷ 16000 ∷ 24000 ∷ 32000 ∷ 44100 ∷ 48000 ∷ 88200 ∷ 96000 ∷ []) (mono ∷ stereo ∷ [])
      (16 ∷ 24 ∷ 32 ∷ [])
    ∷ []

-- The settings of LE audio are what is read from their file, one number for each.
abbrev pub get_le_audio_offload_codec_capabilities : List ℕ → SessionType → List ℕ
get_le_audio_offload_codec_capabilities settings t = if is_le_audio_offload t then settings else []

abbrev pub is_unknown : SessionType → Bool
is_unknown unknown = true
is_unknown _ = false

unfoldable pub get_provider_capabilities : Enums → List ℕ → SessionType → List AudioCapabilities
get_provider_capabilities enums settings t =
    if is_a2dp_offload t
    then map of_a2dp (get_a2dp_offload_codec_capabilities enums t)
    else (if is_le_audio_offload t
        then map of_le_audio (get_le_audio_offload_codec_capabilities settings t)
        else (if is_unknown t then [] else get_software_pcm_capabilities))

-- `kDefaultOffloadLeAudioCodecInfoMap`.
abbrev pub InfoMap : Type 0
InfoMap = List (SessionType × List ℕ)

-- The status STATUS_UNKNOWN_TRANSACTION is `unknown_transaction`.
pub data InfoReply : Type 0 where
  unknown_transaction : InfoReply
  info_ok : Option (List ℕ) → InfoReply

abbrev pub non_empty : List ℕ → Option (List ℕ)
non_empty [] = none
non_empty (x ∷ xs) = some (x ∷ xs)

module _ (codes : SessionCodes) where
  abbrev pub find_info : SessionType → InfoMap → List ℕ
  find_info t [] = []
  find_info t ((u, infos) ∷ rest) = if same_type codes u t then infos else find_info t rest

  -- `info_map` is the global map and `parsed` what is read from the file: the code keeps that in a local
  -- variable of the same name, so that the lookup is in the global map.
  abbrev pub get_le_audio_offload_codec_info : InfoMap → InfoMap → SessionType → List ℕ
  get_le_audio_offload_codec_info info_map parsed t =
      if is_le_audio_offload t then find_info t info_map else []

  -- `kEnableA2dpCodecExtensibility` is false.
  unfoldable pub get_provider_info : InfoMap → InfoMap → SessionType → InfoReply
  get_provider_info info_map parsed t =
      if is_a2dp_offload t
      then unknown_transaction
      else (if is_le_audio_offload t
          then info_ok (non_empty (get_le_audio_offload_codec_info info_map parsed t))
          else info_ok none)
