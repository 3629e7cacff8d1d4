-- ===== src/Hal/StreamExamples.antt =====
-- Streams on concrete inputs, and the theorems about them at these inputs.

use android_device_peter_gsi.Base.{
  ℕ, ◌+◌, ◌-◌, ◌*◌, ◌/◌, ◌%◌, ◌^◌, ◌≤◌, ◌<◌, ◌≡◌, refl, ◌⊎◌, arith, true, false, some, List, [],
  ◌∷◌,
}
use android_device_peter_gsi.Session.Types.{
  a2dp_software_encoding, cookie_init_value, cookie_upper_bound, cookie_undefined,
}
use android_device_peter_gsi.Session.Registration.{AreDistinct}
use android_device_peter_gsi.Session.Transfer.{Poll}
use android_device_peter_gsi.Session.Numbers.{numbers, cd_quality}
use android_device_peter_gsi.Session.Instances.{
  with_session, find_session, write_session, get_session_instance,
}
use android_device_peter_gsi.Session.Instances.Control as Sessions
use android_device_peter_gsi.Session.State.{is_session_ready}
use android_device_peter_gsi.Session.Control.{register_status_cback, get_audio_config}
use android_device_peter_gsi.Session.Observers.{find, first_free}
use android_device_peter_gsi.Session.Instances.Refinement.{session_of}
use android_device_peter_gsi.Hal.Port.{
  StreamState, same_state, Device, new_port, set_up, is_a2dp_port, in_use, init_session_type,
  register_port, device_session_type,
}
use android_device_peter_gsi.Hal.Port.Data.{
  ChannelMask, Format, AudioConfig, load_audio_config_out, get_preferred_data_interval_us,
  output_channel_mask, format_of_bits,
}
use android_device_peter_gsi.Hal.Params.{Params, find_param, frame_count}
use android_device_peter_gsi.Hal.Output.{StreamOut, PortEnv, is_state}
use android_device_peter_gsi.Hal.Output.Position.{
  Position, legacy_delay_ms, out_get_latency_ms, out_get_presentation_position,
  out_get_render_position, out_get_latency_ms-legacy,
}
use android_device_peter_gsi.Hal.Output.Settings.{
  Keys, is_value, out_set_parameters, out_set_parameters-IsOff,
}
use android_device_peter_gsi.Hal.Output.Opening.{
  Flags, build_stream, configure_stream, force_stereo, buffer_interval, adev_open_output_stream,
  adev_close_output_stream,
}
use android_device_peter_gsi.Hal.Output.Frames.{
  Call, write, pause, set_parameters, offered, run_stream, run_stream-frames,
}
use android_device_peter_gsi.Hal.Output.Closing.{IsClosed, adev_open_output_stream-close}
use android_device_peter_gsi.Hal.Input.{in_state_transition_timeout}
use android_device_peter_gsi.Hal.Input.Reading.{in_state_transition_timeout-outcome}
use android_device_peter_gsi.Hal.Input.Opening.{adev_open_input_stream}
use android_device_peter_gsi.Hal.Input.Outcome.{IsInput, adev_open_input_stream-outcome}
use android_device_peter_gsi.Hal.Examples.{
  sessions, port, wakes, port-in_use, set_up-result, set_up-distinct,
}

abbrev stream : StreamOut
stream = record {
  port = port;
  last_write_time_us = 0;
  sample_rate = 44100;
  channel_mask = ChannelMask.out_stereo;
  format = Format.pcm_16_bit;
  preferred_data_interval_us = 20000;
  frames_count = 882;
  frames_rendered = 441;
  frames_presented = 882;
}

abbrev env : PortEnv
env = record { answer = true; during = []; wakes = wakes }

-- A queue that has room for 100 bytes at a time.
abbrev polls : ℕ → Poll
polls n = record { is_ready = true; available = 100; succeeds = true }

abbrev keys : Keys
keys = record {
  sup_sampling_rates = "sup_sampling_rates";
  sup_channels = "sup_channels";
  sup_formats = "sup_formats";
  closing = "closing";
  exiting = "exiting";
}

abbrev suspending_params : Params
suspending_params = ("A2dpSuspended", "true") ∷ ("routing", "128") ∷ []

abbrev track : List Call
track =
    write env polls 1764 5000
    ∷ pause env
    ∷ write env polls 1764 25000
    ∷ set_parameters env suspending_params
    ∷ []

track-offered : offered 4 track ≡ 882
unfolding offered
track-offered = refl

track-fits : 882 + offered 4 track < 2 ^ 64
track-fits = omega (arith, track-offered)

run_stream-frames_example :
    ((run_stream numbers cd_quality 4 keys track (stream, sessions)).0.frames_rendered
      ≤ (run_stream numbers cd_quality 4 keys track (stream, sessions)).0.frames_presented)
    × ((run_stream numbers cd_quality 4 keys track (stream, sessions)).0.frames_presented
        ≤ 882 + offered 4 track)
run_stream-frames_example =
    run_stream-frames numbers cd_quality 4 keys track stream sessions (omega arith) track-fits

abbrev position : Position
position = record { delay_ns = 150000000; octets = 400; time = 12 }

out_get_latency_ms-legacy_example :
    (out_get_latency_ms numbers 4 99 true position (stream, sessions)
      ≡ legacy_delay_ms stream % 2 ^ 32)
    × ((out_get_presentation_position numbers 4 99 true position (stream, sessions)).1 ≡ 99)
    × ((out_get_presentation_position numbers 4 99 true position (stream, sessions)).0
        ≤ 882 - legacy_delay_ms stream * 44100 % 2 ^ 64 / 1000)
    × (out_get_render_position numbers 4 99 true position (stream, sessions) ≤ 441)
out_get_latency_ms-legacy_example =
    out_get_latency_ms-legacy numbers 4 99 true position stream sessions

stream-is_a2dp_port : is_a2dp_port port ≡ true
unfolding is_a2dp_port
stream-is_a2dp_port = refl

params-suspend : is_value (find_param "A2dpSuspended" suspending_params) "true" ≡ true
unfolding find_param
params-suspend = refl

out_set_parameters-IsOff_example :
    (is_state
        (out_set_parameters numbers cd_quality keys env suspending_params (stream, sessions)).0
        StreamState.disabled
      ≡ true)
    × ((out_set_parameters numbers cd_quality keys env suspending_params
          (stream, sessions)).0.frames_rendered
        ≡ 0)
out_set_parameters-IsOff_example =
    out_set_parameters-IsOff numbers cd_quality keys env suspending_params stream sessions
      port-in_use stream-is_a2dp_port params-suspend

in_state_transition_timeout-outcome_example :
    (((in_state_transition_timeout numbers StreamState.standby (λ n. []) 0 20 port).left ≡ true)
      × (same_state
            (in_state_transition_timeout numbers StreamState.standby (λ n. []) 0 20 port).port.state
            StreamState.standby
          ≡ false)
      × ((in_state_transition_timeout numbers StreamState.standby (λ n. []) 0 20 port).slept_ms
          < 0 + 20))
    ⊎ (((in_state_transition_timeout numbers StreamState.standby (λ n. []) 0 20 port).left ≡ false)
        × ((in_state_transition_timeout numbers StreamState.standby (λ n. []) 0 20 port).slept_ms
            ≡ 0 + 20))
in_state_transition_timeout-outcome_example =
    in_state_transition_timeout-outcome numbers StreamState.standby (λ n. []) 0 20 port
      (omega arith)

abbrev given : AudioConfig
given = record { sample_rate = 48000; channel_mask = ChannelMask.none; format = Format.pcm_32_bit }

adev_open_input_stream-outcome_example :
    IsInput numbers cd_quality sessions
      (set_up numbers 1 Device.out_bluetooth_a2dp (new_port numbers) sessions).0.0
      (set_up numbers 1 Device.out_bluetooth_a2dp (new_port numbers) sessions).0.1
      (adev_open_input_stream numbers cd_quality 1 Device.out_bluetooth_a2dp given sessions)
adev_open_input_stream-outcome_example =
    adev_open_input_stream-outcome numbers cd_quality 1 Device.out_bluetooth_a2dp given sessions
      set_up-result set_up-distinct

abbrev opened_stream : StreamOut
opened_stream = record stream { frames_rendered = 0; frames_presented = 0 }

open-stream :
    (adev_open_output_stream numbers cd_quality 1 Device.out_bluetooth_a2dp Flags.other given
      (7 ∷ [])
      sessions).stream
    ≡ some opened_stream
unfolding adev_open_output_stream build_stream configure_stream force_stereo load_audio_config_out
    get_preferred_data_interval_us buffer_interval frame_count output_channel_mask format_of_bits
    Sessions.get_session_config get_audio_config set_up init_session_type register_port
    device_session_type Sessions.is_ready new_port in_use Sessions.register_control_result_cback
    with_session get_session_instance find_session write_session is_session_ready
    register_status_cback first_free find cookie_init_value cookie_upper_bound cookie_undefined
open-stream = refl

sessions-AreDistinct : AreDistinct (session_of numbers sessions a2dp_software_encoding).observers
unfolding session_of find_session
sessions-AreDistinct = tt

adev_open_output_stream-close_example : IsClosed numbers 1 (7 ∷ []) sessions (
    adev_close_output_stream numbers true 1 opened_stream
      (adev_open_output_stream numbers cd_quality 1 Device.out_bluetooth_a2dp Flags.other given
        (7 ∷ [])
        sessions).opened
      (adev_open_output_stream numbers cd_quality 1 Device.out_bluetooth_a2dp Flags.other given
        (7 ∷ [])
        sessions).sessions)
adev_open_output_stream-close_example =
    adev_open_output_stream-close numbers cd_quality true 1 Device.out_bluetooth_a2dp Flags.other
      given (7 ∷ []) sessions opened_stream open-stream sessions-AreDistinct
