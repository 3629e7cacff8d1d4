-- ===== src/Provider/LeAudio.antt =====
-- bluetooth/audio/hal/LeAudioSoftwareAudioProvider.cpp and bluetooth/audio/hal/HearingAidAudioProvider.cpp: the
-- software providers of LE audio and of hearing aids. The size of the queue of LE audio is a product of
-- doubles, cut to an integer: `product` is that product, of the sample rate by 1000, the channels, the
-- bytes of a sample, the milliseconds and the number of buffers. `make_queue` is as in Provider/Hfp.antt.
mod Outcome
mod Examples
use android_device_peter_gsi.Base.{ℕ, ◌/◌, Option, List, ◌==◌, if◌then◌else◌}
use android_device_peter_gsi.A2dp.Codec.{ChannelMode, mono, stereo}
use android_device_peter_gsi.Session.Types.{
  SessionType, le_audio_software_encoding, le_audio_software_decoding,
  le_audio_broadcast_software_encoding, AudioConfiguration, pcm_config, PcmConfiguration,
  LatencyMode, DataMq,
}
use android_device_peter_gsi.Session.State.{Session, mq_valid}
use android_device_peter_gsi.Provider.{Provider, Reply, start_session, refuse}
use android_device_peter_gsi.Provider.A2dp.{on_session_ready_software}
use android_device_peter_gsi.Provider.Hfp.{is_software_pcm_configuration_valid}

abbrev pub channel_mode_to_channel_count : ChannelMode → ℕ
channel_mode_to_channel_count mono = 1
channel_mode_to_channel_count stereo = 2
channel_mode_to_channel_count _ = 0

abbrev pub buffer_modifier : SessionType → ℕ
buffer_modifier le_audio_software_encoding = 2
buffer_modifier le_audio_broadcast_software_encoding = 2
buffer_modifier le_audio_software_decoding = 2
buffer_modifier _ = 0

abbrev pub bytes_per_sample : ℕ → ℕ
bytes_per_sample bits = if bits == 24 then 4 else bits / 8

unfoldable pub start_session_hearing_aid :
    Provider → Session → Option ℕ → AudioConfiguration → List LatencyMode → Reply
start_session_hearing_aid p s host_if (pcm_config pcm) modes =
    if is_software_pcm_configuration_valid pcm
    then start_session on_session_ready_software p s host_if (pcm_config pcm) modes
    else refuse p s
start_session_hearing_aid p s host_if _ modes = refuse p s

module _ (product : ℕ → ℕ → ℕ → ℕ → ℕ → ℕ) where
  unfoldable pub le_data_mq_size : SessionType → PcmConfiguration → ℕ
  le_data_mq_size t pcm =
      product pcm.sample_rate_hz (channel_mode_to_channel_count pcm.channel_mode)
        (bytes_per_sample pcm.bits_per_sample) (pcm.data_interval_us / 1000) (buffer_modifier t)

module _ (product : ℕ → ℕ → ℕ → ℕ → ℕ → ℕ) (make_queue : ℕ → Option DataMq) where
  -- The part of `startSession` behind the checks of the configuration.
  unfoldable pub start_with_le_queue :
      Provider → Session → Option ℕ → PcmConfiguration → List LatencyMode → Reply
  unfolding le_data_mq_size
  start_with_le_queue p s host_if pcm modes =
      let size = le_data_mq_size product p.session_type pcm in
      let mq = make_queue size in
      if size == 0
      then refuse p s
      else (if mq_valid mq
          then start_session on_session_ready_software (record p { data_mq = mq }) s host_if
              (pcm_config pcm) modes
          else refuse p s)

  unfoldable pub start_session_le_software :
      Provider → Session → Option ℕ → AudioConfiguration → List LatencyMode → Reply
  unfolding start_with_le_queue
  start_session_le_software p s host_if (pcm_config pcm) modes =
      if is_software_pcm_configuration_valid pcm
      then start_with_le_queue p s host_if pcm modes
      else refuse p s
  start_session_le_software p s host_if _ modes = refuse p s
