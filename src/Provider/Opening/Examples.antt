-- ===== src/Provider/Opening/Examples.antt =====
-- The factory on concrete inputs.
use android_device_peter_gsi.Base.{
  ℕ, ◌≡◌, refl, ◌⊎◌, inl, true, false, Option, none, some, [], ◌∷◌, leb,
}
use android_device_peter_gsi.A2dp.Codec.{stereo}
use android_device_peter_gsi.Session.Types.{
  unknown, hearing_aid_software_encoding, a2dp_software_encoding,
  le_audio_hardware_offload_encoding, pcm_config, PcmConfiguration, DataMq,
}
use android_device_peter_gsi.Session.Numbers.{numbers}
use android_device_peter_gsi.Session.State.{Session, new_session, mq_valid}
use android_device_peter_gsi.Provider.A2dp.{new_provider, is_valid_software, start_session_software}
use android_device_peter_gsi.Provider.Hfp.{is_software_pcm_configuration_valid}
use android_device_peter_gsi.Provider.Lifecycle.{IsStarted, IsRefused}
use android_device_peter_gsi.Provider.Opening.{
  Opened, ProviderClass, hearing_aid, InfoMap, a2dp_software_provider, hearing_aid_data_mq_size,
  is_valid, make_provider, open_provider, info_ok, get_provider_info,
}
use android_device_peter_gsi.Provider.Opening.Outcome.{
  has_own_queue, open_provider-outcome, open_provider-start_session_software,
}

-- A library that makes queues of up to 4096 bytes.
abbrev small_queues : ℕ → Option DataMq
small_queues n = some (record { handle = 1; is_valid = leb n 4096 })

abbrev queues : ℕ → Option DataMq
queues n = some (record { handle = n; is_valid = true })

hearing_aid-opens :
    open_provider small_queues unknown numbers hearing_aid_software_encoding
    ≡ make_provider small_queues unknown hearing_aid_software_encoding
unfolding open_provider is_valid make_provider new_provider
hearing_aid-opens = refl

a2dp-refused : open_provider small_queues unknown numbers a2dp_software_encoding ≡ none
unfolding open_provider is_valid make_provider new_provider
a2dp-refused = refl

open_provider-outcome_example :
    ((open_provider small_queues unknown numbers hearing_aid_software_encoding ≡ none)
      × ((hearing_aid_software_encoding ≡ unknown)
          ⊎ ((has_own_queue hearing_aid_software_encoding ≡ true)
              × (mq_valid (small_queues hearing_aid_data_mq_size) ≡ false))))
    ⊎ ((opened : Opened) × (open_provider small_queues unknown numbers hearing_aid_software_encoding
          ≡ some opened)
        × (Path (Option ProviderClass) (some hearing_aid) (some opened.provider_class))
        × (opened.provider
            ≡ new_provider hearing_aid_software_encoding (small_queues hearing_aid_data_mq_size))
        × ((has_own_queue hearing_aid_software_encoding ≡ false)
            ⊎ (mq_valid (small_queues hearing_aid_data_mq_size) ≡ true)))
open_provider-outcome_example =
    open_provider-outcome small_queues unknown numbers hearing_aid_software_encoding

abbrev opened_a2dp : Opened
opened_a2dp = a2dp_software_provider queues unknown a2dp_software_encoding

a2dp-opens : open_provider queues unknown numbers a2dp_software_encoding ≡ some opened_a2dp
unfolding open_provider is_valid make_provider new_provider
a2dp-opens = refl

abbrev idle : Session
idle = new_session a2dp_software_encoding

idle-session_type : idle.session_type ≡ a2dp_software_encoding
unfolding new_session
idle-session_type = refl

abbrev cd : PcmConfiguration
cd = record {
  sample_rate_hz = 44100;
  channel_mode = stereo;
  bits_per_sample = 16;
  data_interval_us = 0;
}

open_provider-start_session_software_example :
    let r =
      start_session_software is_software_pcm_configuration_valid opened_a2dp.provider idle
        (some 1)
        (pcm_config cd)
        [] in
    ((is_valid_software is_software_pcm_configuration_valid (pcm_config cd) ≡ true)
      × IsStarted opened_a2dp.provider idle (some 1) r)
    ⊎ (((is_valid_software is_software_pcm_configuration_valid (pcm_config cd) ≡ false)
          ⊎ (Path (Option ℕ) (some 1) none))
        × IsRefused opened_a2dp.provider idle r)
open_provider-start_session_software_example =
    open_provider-start_session_software queues unknown numbers is_software_pcm_configuration_valid
      a2dp_software_encoding opened_a2dp idle (some 1) (pcm_config cd) [] (inl refl) a2dp-opens
      idle-session_type

-- What is read from the file of LE audio never reaches the answer.
abbrev parsed : InfoMap
parsed = (le_audio_hardware_offload_encoding, 7 ∷ []) ∷ []

le_audio-uninformed :
    get_provider_info numbers [] parsed le_audio_hardware_offload_encoding ≡ info_ok none
unfolding get_provider_info
le_audio-uninformed = refl
