-- ===== src/Provider/LeAudio/Examples.antt =====
-- The start of a session of LE audio software on a concrete input. The product of doubles is exact for the
-- sample rates that 1000 divides.
use android_device_peter_gsi.Base.{
  ℕ, ◌*◌, ◌/◌, ◌≡◌, refl, ◌⊎◌, inl, true, false, Option, none, some, [],
}
use android_device_peter_gsi.A2dp.Codec.{stereo}
use android_device_peter_gsi.Session.Types.{
  le_audio_software_encoding, pcm_config, PcmConfiguration, DataMq,
}
use android_device_peter_gsi.Session.State.{Session, new_session}
use android_device_peter_gsi.Provider.{Provider, illegal_argument}
use android_device_peter_gsi.Provider.A2dp.{new_provider}
use android_device_peter_gsi.Provider.Lifecycle.{IsStarted}
use android_device_peter_gsi.Provider.LeAudio.{le_data_mq_size, start_session_le_software}
use android_device_peter_gsi.Provider.LeAudio.Outcome.{
  is_startable, start_session_le_software-outcome,
}

abbrev exact : ℕ → ℕ → ℕ → ℕ → ℕ → ℕ
exact rate channels bytes ms buffers = rate / 1000 * channels * bytes * ms * buffers

abbrev queues : ℕ → Option DataMq
queues n = some (record { handle = n; is_valid = true })

abbrev speaker : Provider
speaker = new_provider le_audio_software_encoding none

abbrev idle : Session
idle = new_session le_audio_software_encoding

abbrev wide : PcmConfiguration
wide = record {
  sample_rate_hz = 48000;
  channel_mode = stereo;
  bits_per_sample = 24;
  data_interval_us = 7500;
}

-- Two times 7 ms of 48 frames of 8 bytes, where 7.5 ms have 360 frames.
wide-size : le_data_mq_size exact le_audio_software_encoding wide ≡ 2 * 7 * 48 * 8
unfolding le_data_mq_size
wide-size = refl

start_session_le_software-outcome_example :
    let r = start_session_le_software exact queues speaker idle (some 1) (pcm_config wide) [] in
    ((is_startable exact queues le_audio_software_encoding (pcm_config wide) ≡ true)
      × IsStarted speaker idle (some 1) r)
    ⊎ (((is_startable exact queues le_audio_software_encoding (pcm_config wide) ≡ false)
          ⊎ (Path (Option ℕ) (some 1) none))
        × (r.status ≡ illegal_argument)
        × (r.session ≡ idle)
        × (r.notices ≡ [])
        × (r.desc ≡ none)
        × (r.provider.stack_iface ≡ none))
unfolding new_provider new_session
start_session_le_software-outcome_example =
    start_session_le_software-outcome exact queues speaker idle (some 1) (pcm_config wide) []
      (inl refl) refl
