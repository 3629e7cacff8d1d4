-- ===== src/Session/Types.antt =====
-- bluetooth/audio/utils/aidl_session/BluetoothAudioSession.h: the data of a session, and the cookies of
-- its observers. `SessionType`, `AudioConfiguration` and the statuses are generated from the AIDL
-- interface: the constructors are those that the code names, and a configuration keeps its tag, the
-- PCM fields that the code reads, and a number for all else. The numbers that the generated enum gives
-- to the session types are a parameter, `SessionCodes`.
use android_device_peter_gsi.Base.{ℕ, ◌+◌, ◌*◌, ◌/◌, ◌%◌, ◌^◌, ◌<◌, bit_and, ◌≡◌, Bool}
use android_device_peter_gsi.A2dp.Codec.{ChannelMode}

pub data SessionType : Type 0 where
  unknown : SessionType
  hearing_aid_software_encoding : SessionType
  a2dp_software_encoding a2dp_hardware_offload_encoding : SessionType
  a2dp_software_decoding a2dp_hardware_offload_decoding : SessionType
  hfp_software_encoding hfp_software_decoding hfp_hardware_offload : SessionType
  le_audio_software_encoding le_audio_software_decoding : SessionType
  le_audio_hardware_offload_encoding le_audio_hardware_offload_decoding : SessionType
  le_audio_broadcast_software_encoding le_audio_broadcast_hardware_offload_encoding : SessionType

-- The numbers of the enum, which is backed by a byte.
pub record SessionCodes : Type 0 where
  pub code : SessionType → ℕ
  pub code-lt : (t : SessionType) → code t < 256
  pub code-injective : (t u : SessionType) → code t ≡ code u → t ≡ u

pub record PcmConfiguration : Type 0 where
  pub sample_rate_hz : ℕ
  pub channel_mode : ChannelMode
  pub bits_per_sample : ℕ
  pub data_interval_us : ℕ

-- A configuration by its tag. The number stands for the fields that no function here reads; 0 is the
-- value with its defaults.
pub data AudioConfiguration : Type 0 where
  pcm_config : PcmConfiguration → AudioConfiguration
  a2dp a2dp_config hfp_config : ℕ → AudioConfiguration
  le_audio_config le_audio_broadcast_config : ℕ → AudioConfiguration

pub data BluetoothAudioStatus : Type 0 where
  unknown success unsupported_codec_configuration failure reconfiguration : BluetoothAudioStatus

pub data LatencyMode : Type 0 where
  unknown low_latency free : LatencyMode
  dynamic_spatial_audio_software dynamic_spatial_audio_hardware : LatencyMode

-- What the message queue library has made of a descriptor.
pub record DataMq : Type 0 where
  pub handle : ℕ
  pub is_valid : Bool

-- The callbacks of one observer: who registered them, and whether the two that may be null are there.
pub record PortStatusCallbacks : Type 0 where
  pub owner : ℕ
  pub has_audio_configuration_changed_cb : Bool
  pub has_low_latency_mode_allowed_cb : Bool

-- The calls of callbacks, with the cookie that each is given.
pub data Notice : Type 0 where
  session_changed : ℕ → ℕ → Notice
  control_result : ℕ → ℕ → Bool → BluetoothAudioStatus → Notice
  audio_configuration_changed : ℕ → ℕ → Notice
  low_latency_mode_allowed : ℕ → ℕ → Bool → Notice

abbrev pub observers_cookie_size : ℕ
observers_cookie_size = 16

module _ (codes : SessionCodes) where
  -- `ObserversCookieGetInitValue`, on `uint16_t`.
  unfoldable pub cookie_init_value : SessionType → ℕ
  cookie_init_value t = bit_and (codes.code t * 2 ^ 8) 0xff00

  -- `ObserversCookieGetUpperBound`.
  unfoldable pub cookie_upper_bound : SessionType → ℕ
  unfolding cookie_init_value
  cookie_upper_bound t = (cookie_init_value t + observers_cookie_size) % 65536

  -- `kObserversCookieUndefined`.
  unfoldable pub cookie_undefined : ℕ
  unfolding cookie_init_value
  cookie_undefined = cookie_init_value SessionType.unknown

-- `ObserversCookieGetSessionType`, as the number of the type.
unfoldable pub cookie_session_code : ℕ → ℕ
cookie_session_code cookie = bit_and (cookie / 2 ^ 8) 0x00ff
