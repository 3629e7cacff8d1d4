-- ===== src/Hal/Input/Opening.antt =====
-- bluetooth/audio/hw/stream_apis.cc: `adev_open_input_stream` and `adev_close_input_stream`, where the AIDL
-- session is available. A stream that is not opened is deleted with its port, whose destructor tears it
-- down.
use android_device_peter_gsi.Base.{ℕ, ◌*◌, Bool, not, ◌&&◌, Option, none, some, ◌==◌, if◌then◌else◌}
use android_device_peter_gsi.Session.Types.{SessionCodes, PcmConfiguration}
use android_device_peter_gsi.Session.Instances.{Instances}
use android_device_peter_gsi.Hal.Port.{
  StreamState, same_state, Device, Port, new_port, set_up, tear_down,
}
use android_device_peter_gsi.Hal.Port.Control.{stop}
use android_device_peter_gsi.Hal.Port.Data.{
  AudioConfig, load_audio_config_in, get_preferred_data_interval_us,
}
use android_device_peter_gsi.Hal.Params.{frame_count}
use android_device_peter_gsi.Hal.Output.{Errno}
use android_device_peter_gsi.Hal.Input.{StreamIn, InState}

-- `kBluetoothDefaultInputBufferMs` is 20 ms.
abbrev pub input_interval_us : ℕ
input_interval_us = 20 * 1000

abbrev pub input_interval : ℕ × Bool → ℕ
input_interval (preferred, present) =
    if present && not (preferred == 0) then preferred else input_interval_us

-- What opening leaves: the stream, if it is opened, the sessions, the caller's configuration and the result.
pub record InputOpening : Type 0 where
  pub stream : Option StreamIn
  pub sessions : Instances
  pub config : AudioConfig
  pub result : Errno

module _ (codes : SessionCodes) (default_pcm : PcmConfiguration) where
  -- The part behind `LoadAudioConfig`.
  unfoldable pub configure_input : Port → AudioConfig → Instances → StreamIn × Instances
  unfolding get_preferred_data_interval_us frame_count
  configure_input p config m =
      let (m', preferred) =
        get_preferred_data_interval_us codes default_pcm p m input_interval_us in
      let interval = input_interval preferred in
      (
        record {
          port = p;
          last_read_time_us = 0;
          sample_rate = config.sample_rate;
          channel_mask = config.channel_mask;
          format = config.format;
          preferred_data_interval_us = interval;
          frames_count = frame_count interval config.sample_rate;
          frames_presented = 0;
        },
        m',
      )

  -- The part behind `SetUp`.
  unfoldable pub build_input : Port → AudioConfig → Instances → InputOpening
  unfolding load_audio_config_in configure_input tear_down
  build_input p given m =
      let (m1, (config, loaded)) = load_audio_config_in codes default_pcm p m given in
      let (s, m2) = configure_input p config m1 in
      if loaded
      then record { stream = some s; sessions = m2; config = config; result = Errno.success }
      else record {
        stream = none;
        sessions = (tear_down codes p m1).1;
        config = config;
        result = Errno.einval;
      }

  unfoldable pub adev_open_input_stream : ℕ → Device → AudioConfig → Instances → InputOpening
  unfolding set_up new_port build_input tear_down
  adev_open_input_stream owner device given m =
      let ((p, m1), ready) = set_up codes owner device (new_port codes) m in
      if ready then build_input p given m1 else record {
        stream = none;
        sessions = (tear_down codes p m1).1;
        config = given;
        result = Errno.einval;
      }

module _ (codes : SessionCodes) where
  unfoldable pub adev_close_input_stream : Bool → InState → Port × Instances
  unfolding stop tear_down
  adev_close_input_stream answer (s, m) =
      let r = stop codes answer s.port m in
      if same_state s.port.state StreamState.disabled
      then tear_down codes s.port m
      else tear_down codes r.port r.sessions
