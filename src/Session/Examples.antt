-- ===== src/Session/Examples.antt =====
-- Runs of a session on concrete inputs, and the theorems about it at these inputs.
use android_device_peter_gsi.Base.{
  ℕ, ◌+◌, ◌≤◌, ◌<◌, ◌≡◌, refl, ◌↔◌, ◌⊎◌, true, false, none, some, List, [], ◌∷◌, ◌==◌,
  if◌then◌else◌, is_some,
}
use android_device_peter_gsi.Session.Types.{
  PortStatusCallbacks, pcm_config, a2dp_config, free, cookie_init_value, cookie_upper_bound,
  cookie_undefined, a2dp_software_encoding, a2dp_hardware_offload_encoding,
}
use android_device_peter_gsi.Session.Observers.{find, first_free, insert, erase}
use android_device_peter_gsi.Session.State.{
  Session, new_session, is_session_ready, takes, update_audio_config, update_data_path,
  report_session_status, start_data_path, on_session_started, on_session_ended,
}
use android_device_peter_gsi.Session.Control.{
  register_status_cback, unregister_status_cback, get_audio_config, get_supported_latency_modes,
  has_low_latency, report_low_latency_mode_allowed_changed, is_le_audio_encoding_offload,
  is_low_latency, is_dynamic_spatial,
}
use android_device_peter_gsi.Session.Registration.{register_status_cback-outcome}
use android_device_peter_gsi.Session.Invariant.{
  Event, step, run, IsWellFormed, run-IsWellFormed, run-get_audio_config,
}
use android_device_peter_gsi.Session.Readiness.{
  CanStart, on_session_started_iff, on_session_ended-is_session_ready,
}
use android_device_peter_gsi.Session.Latency.{
  Lists, get_supported_latency_modes_iff, report_low_latency_mode_allowed_changed-has_low_latency,
}
use android_device_peter_gsi.Session.Transfer.{
  Poll, IsSound, transfer_pcm_data, transfer_pcm_data-IsSound,
}
use android_device_peter_gsi.Session.Numbers.{numbers, queue, cd_quality}

abbrev music : Session
music = new_session a2dp_software_encoding

abbrev port : PortStatusCallbacks
port = record {
  owner = 1;
  has_audio_configuration_changed_cb = true;
  has_low_latency_mode_allowed_cb = true;
}

abbrev day : List Event
day =
    Event.registered port
    ∷ Event.started (some 1) (some queue) (pcm_config cd_quality) []
    ∷ Event.registered port
    ∷ Event.unregistered 512
    ∷ []

run-IsWellFormed_example :
    IsWellFormed numbers (run numbers (new_session a2dp_software_encoding) day)
run-IsWellFormed_example = run-IsWellFormed numbers a2dp_software_encoding day

run-get_audio_config_example :
    takes
      (run numbers (new_session a2dp_software_encoding) day).session_type
      (get_audio_config cd_quality (run numbers (new_session a2dp_software_encoding) day))
    ≡ true
run-get_audio_config_example =
    run-get_audio_config numbers cd_quality a2dp_software_encoding day (λ e. cc)

day-cookies : (run numbers music day).observers ≡ (513, port) ∷ []
unfolding run step new_session register_status_cback first_free find insert cookie_init_value
    cookie_upper_bound on_session_started update_audio_config start_data_path update_data_path
    report_session_status unregister_status_cback erase
day-cookies = refl

music-idle : is_session_ready music ≡ false
unfolding is_session_ready new_session
music-idle = refl

on_session_started_iff_example :
    (is_session_ready (on_session_started music (some 1) (some queue) (pcm_config cd_quality) []).0
      ≡ true)
    ↔ CanStart music (some 1) (some queue) (pcm_config cd_quality)
on_session_started_iff_example =
    on_session_started_iff music (some 1) (some queue) (pcm_config cd_quality) [] music-idle

on_session_ended-is_session_ready_example :
    (is_session_ready (on_session_ended music).0 ≡ false)
    × ((on_session_ended music).0.observers ≡ music.observers)
    × ((on_session_ended music).1
        ≡ (if is_session_ready music then report_session_status music else []))
    × ((on_session_ended (on_session_ended music).0).1 ≡ [])
on_session_ended-is_session_ready_example = on_session_ended-is_session_ready music

register_status_cback-outcome_example :
    ((512 ≤ (register_status_cback numbers music port).1)
      × ((register_status_cback numbers music port).1 < 512 + 16)
      × (find (register_status_cback numbers music port).1 music.observers ≡ none)
      × ((j : ℕ)
          → 512 ≤ j
          → j < (register_status_cback numbers music port).1
          → is_some (find j music.observers) ≡ true)
      × ((j : ℕ)
          → find j (register_status_cback numbers music port).0.observers ≡ (
              if (register_status_cback numbers music port).1 == j
              then some port
              else find j music.observers)))
    ⊎ (((j : ℕ) → 512 ≤ j → j < 512 + 16 → is_some (find j music.observers) ≡ true)
        × ((register_status_cback numbers music port).1 ≡ cookie_undefined numbers)
        × ((register_status_cback numbers music port).0 ≡ music))
unfolding new_session
register_status_cback-outcome_example = register_status_cback-outcome numbers music port

-- An offload session that is ready.
abbrev offload : Session
offload = record {
  session_type = a2dp_hardware_offload_encoding;
  stack_iface = some 1;
  data_mq = none;
  audio_config = some (a2dp_config 5);
  latency_modes = free ∷ [];
  low_latency_allowed = false;
  observers = (768, port) ∷ [];
}

offload-ready : is_session_ready offload ≡ true
unfolding is_session_ready
offload-ready = refl

get_supported_latency_modes_iff_example : Lists free (get_supported_latency_modes offload) ↔ (
    (is_session_ready offload ≡ true)
    × Lists free offload.latency_modes
    × (((is_le_audio_encoding_offload offload.session_type ≡ true) × (is_low_latency free ≡ false))
        ⊎ ((is_le_audio_encoding_offload offload.session_type ≡ false)
            × (is_dynamic_spatial free ≡ false)
            × ((is_low_latency free ≡ false) ⊎ (offload.low_latency_allowed ≡ true)))))
get_supported_latency_modes_iff_example = get_supported_latency_modes_iff offload free

report_low_latency_mode_allowed_changed-has_low_latency_example :
    has_low_latency
      (get_supported_latency_modes (report_low_latency_mode_allowed_changed offload true).0)
    ≡ true
report_low_latency_mode_allowed_changed-has_low_latency_example =
    report_low_latency_mode_allowed_changed-has_low_latency offload true refl offload-ready

-- A queue that has room for 100 bytes, then none for a round, then room again.
abbrev polls : ℕ → Poll
polls n = record { is_ready = true; available = if n == 1 then 0 else 100; succeeds = true }

transfer_pcm_data-IsSound_example : IsSound 0 250 (transfer_pcm_data polls 250)
transfer_pcm_data-IsSound_example = transfer_pcm_data-IsSound polls 250
