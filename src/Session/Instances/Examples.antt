-- ===== src/Session/Instances/Examples.antt =====
-- Calls of the static functions on a concrete map, and the theorems at these inputs.
use android_device_peter_gsi.Base.{true, false, ◌≡◌, some, List, [], ◌∷◌}
use android_device_peter_gsi.Session.Types.{
  SessionType, PortStatusCallbacks, pcm_config, a2dp_software_encoding, le_audio_software_encoding,
}
use android_device_peter_gsi.Session.State.{new_session}
use android_device_peter_gsi.Session.Numbers.{numbers, queue, cd_quality}
use android_device_peter_gsi.Session.Instances.Refinement.{session_of}
use android_device_peter_gsi.Session.Instances.Calls.{
  Call, register, started, start_stream, ended, run_calls, spec_calls,
}
use android_device_peter_gsi.Session.Instances.Outcomes.{
  run_calls-refinement, IsInstance, run_calls-IsInstance,
}

abbrev port : PortStatusCallbacks
port = record {
  owner = 1;
  has_audio_configuration_changed_cb = false;
  has_low_latency_mode_allowed_cb = false;
}

-- Two session types, in turn.
abbrev day : List (SessionType × Call)
day =
    (a2dp_software_encoding, started (some 1) (some queue) (pcm_config cd_quality) [])
    ∷ (le_audio_software_encoding, register port)
    ∷ (a2dp_software_encoding, register port)
    ∷ (a2dp_software_encoding, start_stream false true)
    ∷ (le_audio_software_encoding, start_stream false true)
    ∷ (a2dp_software_encoding, ended)
    ∷ []

run_calls-refinement_example :
    ((t : SessionType)
      → session_of numbers (run_calls numbers cd_quality [] day).0 t
        ≡ (spec_calls numbers cd_quality new_session day).0 t)
    × ((run_calls numbers cd_quality [] day).1 ≡ (spec_calls numbers cd_quality new_session day).1)
run_calls-refinement_example = run_calls-refinement numbers cd_quality day

run_calls-IsInstance_example :
    IsInstance numbers cd_quality a2dp_software_encoding
      (session_of numbers (run_calls numbers cd_quality [] day).0 a2dp_software_encoding)
run_calls-IsInstance_example = run_calls-IsInstance numbers cd_quality day a2dp_software_encoding
