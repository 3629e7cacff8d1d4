-- ===== src/Provider/Examples.antt =====
-- A provider and its session on concrete inputs.
use android_device_peter_gsi.Base.{
  ℕ, ◌≡◌, refl, ◌⊎◌, inl, Bool, true, false, Option, none, some, is_some, List, [], ◌∷◌,
}
use android_device_peter_gsi.A2dp.Codec.{stereo, mono}
use android_device_peter_gsi.A2dp.Factory.{CodecId}
use android_device_peter_gsi.Session.Types.{
  SessionType, pcm_config, a2dp, PcmConfiguration, DataMq, a2dp_hardware_offload_encoding,
  a2dp_software_encoding, BluetoothAudioStatus,
}
use android_device_peter_gsi.Session.State.{Session, new_session, is_session_ready, mq_valid}
use android_device_peter_gsi.Provider.{Provider, end_session, status_ok}
use android_device_peter_gsi.Provider.A2dp.{
  new_provider, is_valid_offload, start_session_offload, is_valid_software, start_session_software,
}
use android_device_peter_gsi.Provider.Hfp.{
  is_software_pcm_configuration_valid, is_valid_hfp_pcm, data_mq_size,
  is_valid_hfp_pcm-data_mq_size,
}
use android_device_peter_gsi.Provider.Lifecycle.{
  Call, run, IsStarted, IsRefused, start_session_offload-outcome, start_session_software-outcome,
  run-end_session,
}

-- Configuration 0 is an SBC configuration that the parser accepts; the older checks take everything.
abbrev fields : ℕ → CodecId × List ℕ
fields n = (CodecId.sbc, 0x21 ∷ 0x19 ∷ 2 ∷ 53 ∷ [])

abbrev any : SessionType → ℕ → Bool
any t n = true

abbrev stack : Option ℕ
stack = some 1

abbrev offload : Provider
offload = new_provider a2dp_hardware_offload_encoding none

abbrev offload_session : Session
offload_session = new_session a2dp_hardware_offload_encoding

start_session_offload-outcome_example :
    ((is_valid_offload fields any offload.session_type (a2dp 0) ≡ true)
      × IsStarted offload offload_session stack
          (start_session_offload fields any offload offload_session stack (a2dp 0) []))
    ⊎ (((is_valid_offload fields any offload.session_type (a2dp 0) ≡ false) ⊎ (stack ≡ none))
        × IsRefused offload offload_session
            (start_session_offload fields any offload offload_session stack (a2dp 0) []))
unfolding new_provider new_session
start_session_offload-outcome_example =
    start_session_offload-outcome fields any offload offload_session stack (a2dp 0) [] (inl refl)
      refl

abbrev queue : DataMq
queue = record { handle = 7; is_valid = true }

abbrev software : Provider
software = new_provider a2dp_software_encoding (some queue)

abbrev software_session : Session
software_session = new_session a2dp_software_encoding

abbrev cd_quality : PcmConfiguration
cd_quality = record {
  sample_rate_hz = 44100;
  channel_mode = stereo;
  bits_per_sample = 16;
  data_interval_us = 20000;
}

abbrev every : PcmConfiguration → Bool
every pcm = true

start_session_software-outcome_example :
    ((mq_valid software.data_mq ≡ true)
      × (is_valid_software every (pcm_config cd_quality) ≡ true)
      × IsStarted software software_session stack
          (start_session_software every software software_session stack (pcm_config cd_quality) []))
    ⊎ ((mq_valid software.data_mq ≡ false)
        × (is_valid_software every (pcm_config cd_quality) ≡ true)
        × (is_some stack ≡ true)
        × ((start_session_software every software software_session stack
              (pcm_config cd_quality)
              []).status
            ≡ status_ok)
        × ((start_session_software every software software_session stack
              (pcm_config cd_quality)
              []).provider.stack_iface
            ≡ stack)
        × ((start_session_software every software software_session stack
              (pcm_config cd_quality)
              []).session
            ≡ software_session)
        × ((start_session_software every software software_session stack
              (pcm_config cd_quality)
              []).notices
            ≡ [])
        × ((start_session_software every software software_session stack
              (pcm_config cd_quality)
              []).desc
            ≡ none))
    ⊎ (((is_valid_software every (pcm_config cd_quality) ≡ false) ⊎ (stack ≡ none))
        × IsRefused software software_session (
            start_session_software every software software_session stack
              (pcm_config cd_quality)
              []))
unfolding new_provider new_session
start_session_software-outcome_example =
    start_session_software-outcome every software software_session stack (pcm_config cd_quality) []
      (inl refl) refl

abbrev calls : List Call
calls =
    Call.start_software stack (pcm_config cd_quality) []
    ∷ Call.started BluetoothAudioStatus.success
    ∷ Call.died
    ∷ []

software-idle : is_session_ready software_session ≡ false
unfolding is_session_ready new_session
software-idle = refl

run-end_session_example :
    (is_session_ready
        (end_session
          (run software software_session calls).0
          (run software software_session calls).1).session
      ≡ false)
    × ((end_session
          (run software software_session calls).0
          (run software software_session calls).1).provider.stack_iface
        ≡ none)
run-end_session_example = run-end_session software software_session calls software-idle

abbrev wide_band : PcmConfiguration
wide_band = record {
  sample_rate_hz = 16000;
  channel_mode = mono;
  bits_per_sample = 16;
  data_interval_us = 7500;
}

wide_band-valid : is_valid_hfp_pcm wide_band ≡ true
unfolding is_valid_hfp_pcm
wide_band-valid = refl

is_valid_hfp_pcm-data_mq_size_example :
    (is_software_pcm_configuration_valid wide_band ≡ true)
    × (((wide_band.sample_rate_hz ≡ 8000) × (data_mq_size wide_band ≡ 240))
        ⊎ ((wide_band.sample_rate_hz ≡ 16000) × (data_mq_size wide_band ≡ 480))
        ⊎ ((wide_band.sample_rate_hz ≡ 32000) × (data_mq_size wide_band ≡ 960)))
is_valid_hfp_pcm-data_mq_size_example = is_valid_hfp_pcm-data_mq_size wide_band wide_band-valid
