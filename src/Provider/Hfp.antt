-- ===== src/Provider/Hfp.antt =====
-- bluetooth/audio/hal/HfpSoftwareAudioProvider.cpp and bluetooth/audio/hal/HfpOffloadAudioProvider.cpp, and the
-- check of PCM configurations of bluetooth/audio/utils/aidl_session/BluetoothAudioCodecs.cpp. The software
-- provider makes its queue when a session starts: `make_queue` is what the message queue library
-- makes of a size in bytes.
use android_device_peter_gsi.Base.{
  ℕ, ◌*◌, ◌/◌, ◌≡◌, ◌⊎◌, arith, Bool, true, false, ◌&&◌, ◌||◌, Option, List, [], ◌∷◌, ◌==◌,
  if◌then◌else◌,
}
use android_device_peter_gsi.A2dp.Codec.{ChannelMode, mono, stereo}
use android_device_peter_gsi.Session.Types.{
  AudioConfiguration, pcm_config, hfp_config, PcmConfiguration, LatencyMode, DataMq,
}
use android_device_peter_gsi.Session.State.{Session, mq_valid}
use android_device_peter_gsi.Provider.{Provider, Reply, start_session, refuse}
use android_device_peter_gsi.Provider.A2dp.{on_session_ready_offload, on_session_ready_software}

-- `ContainedInVector`.
abbrev pub contained : List ℕ → ℕ → Bool
contained [] target = false
contained (x ∷ xs) target = (x == target) || contained xs target

abbrev pub is_mono : ChannelMode → Bool
is_mono mono = true
is_mono _ = false

abbrev pub is_stereo : ChannelMode → Bool
is_stereo stereo = true
is_stereo _ = false

unfoldable pub is_software_pcm_configuration_valid : PcmConfiguration → Bool
is_software_pcm_configuration_valid pcm =
    contained (8000 ∷ 16000 ∷ 24000 ∷ 32000 ∷ 44100 ∷ 48000 ∷ 88200 ∷ 96000 ∷ []) pcm.sample_rate_hz
    && contained (16 ∷ 24 ∷ 32 ∷ []) pcm.bits_per_sample
    && (is_mono pcm.channel_mode || is_stereo pcm.channel_mode)

-- `isValidConfig` of `HfpSoftwareAudioProvider::startSession`.
unfoldable pub is_valid_hfp_pcm : PcmConfiguration → Bool
is_valid_hfp_pcm pcm =
    pcm.bits_per_sample == 16
    && contained (8000 ∷ 16000 ∷ 32000 ∷ []) pcm.sample_rate_hz
    && is_mono pcm.channel_mode
    && pcm.data_interval_us == 7500

abbrev pub buffer_count : ℕ
buffer_count = 2

unfoldable pub data_mq_size : PcmConfiguration → ℕ
data_mq_size pcm =
    buffer_count
    * (pcm.bits_per_sample / 8)
    * (pcm.sample_rate_hz / 1000)
    * pcm.data_interval_us
    / 1000

module _ (make_queue : ℕ → Option DataMq) where
  -- The part of `startSession` behind the checks.
  unfoldable pub start_with_queue :
      Provider → Session → Option ℕ → PcmConfiguration → List LatencyMode → Reply
  start_with_queue p s host_if pcm modes =
      let mq = make_queue (data_mq_size pcm) in
      if mq_valid mq
      then start_session on_session_ready_software (record p { data_mq = mq }) s host_if
          (pcm_config pcm) modes
      else refuse p s

  unfoldable pub start_session_hfp_software :
      Provider → Session → Option ℕ → AudioConfiguration → List LatencyMode → Reply
  unfolding start_with_queue
  start_session_hfp_software p s host_if (pcm_config pcm) modes =
      if is_software_pcm_configuration_valid pcm && is_valid_hfp_pcm pcm
      then start_with_queue p s host_if pcm modes
      else refuse p s
  start_session_hfp_software p s host_if _ modes = refuse p s

unfoldable pub start_session_hfp_offload :
    Provider → Session → Option ℕ → AudioConfiguration → List LatencyMode → Reply
start_session_hfp_offload p s host_if (hfp_config n) modes =
    start_session on_session_ready_offload p s host_if (hfp_config n) modes
start_session_hfp_offload p s host_if _ modes = refuse p s

-- What passes the check of HFP passes the general check too, and its queue holds exactly two packets of
-- 7.5 ms of 16-bit samples: 240, 480 or 960 bytes.
pub is_valid_hfp_pcm-data_mq_size :
    (pcm : PcmConfiguration)
    → is_valid_hfp_pcm pcm ≡ true
    → (is_software_pcm_configuration_valid pcm ≡ true)
      × (((pcm.sample_rate_hz ≡ 8000) × (data_mq_size pcm ≡ 240))
          ⊎ ((pcm.sample_rate_hz ≡ 16000) × (data_mq_size pcm ≡ 480))
          ⊎ ((pcm.sample_rate_hz ≡ 32000) × (data_mq_size pcm ≡ 960)))
unfolding is_valid_hfp_pcm is_software_pcm_configuration_valid data_mq_size
is_valid_hfp_pcm-data_mq_size pcm h = ground arith
