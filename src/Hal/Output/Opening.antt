-- ===== src/Hal/Output/Opening.antt =====
-- bluetooth/audio/hw/stream_apis.cc: `adev_open_output_stream` and `adev_close_output_stream`, where the AIDL
-- session is available. `stream` names the stream among those that the device has open; the table of
-- functions of a stream is that of the definitions here.
use android_device_peter_gsi.Base.{
  ℕ, ◌*◌, Bool, true, false, not, ◌&&◌, Option, none, some, List, [], ◌∷◌, ◌++◌, ◌==◌, ltb,
  if◌then◌else◌,
}
use android_device_peter_gsi.Session.Types.{SessionCodes, PcmConfiguration}
use android_device_peter_gsi.Session.Instances.{Instances}
use android_device_peter_gsi.Hal.Port.{
  Device, Port, new_port, set_up, tear_down, force_pcm_stereo_to_mono,
}
use android_device_peter_gsi.Hal.Port.Data.{
  ChannelMask, Format, AudioConfig, load_audio_config_out, get_preferred_data_interval_us,
}
use android_device_peter_gsi.Hal.Params.{frame_count}
use android_device_peter_gsi.Hal.Output.{StreamOut, Errno, shut_down}

-- The flags that the code names: fast and deep buffer at once, the spatializer, or anything else.
pub data Flags : Type 0 where
  fast_deep_buffer spatializer other : Flags

abbrev pub is_spatial : Flags → Bool
is_spatial other = false
is_spatial _ = true

-- `opened_stream_outs_`.
abbrev pub Opened : Type 0
Opened = List ℕ

-- `list::remove`.
unfoldable pub remove_stream : ℕ → Opened → Opened
remove_stream stream [] = []
remove_stream stream (x ∷ xs) =
    let rest = remove_stream stream xs in if x == stream then rest else x ∷ rest

-- What opening leaves: the stream, if it is opened, the caller's configuration and the result.
pub record Opening : Type 0 where
  pub stream : Option StreamOut
  pub sessions : Instances
  pub opened : Opened
  pub config : AudioConfig
  pub result : Errno

abbrev pub is_mono : ChannelMask → Bool
is_mono ChannelMask.out_mono = true
is_mono _ = false

abbrev pub is_16_bit : Format → Bool
is_16_bit Format.pcm_16_bit = true
is_16_bit _ = false

-- `kBluetoothDefaultOutputBufferMs` and `kBluetoothSpatializerOutputBufferMs` are both 10 ms.
abbrev pub default_interval_us : ℕ
default_interval_us = 10 * 1000

abbrev pub spatializer_interval_us : ℕ
spatializer_interval_us = 10 * 1000

-- The interval: the preferred one if there is one that is not 0, and the least for spatial output.
unfoldable pub buffer_interval : Flags → ℕ × Bool → ℕ
buffer_interval flags (preferred, present) =
    let interval = if present && not (preferred == 0) then preferred else default_interval_us in
    if is_spatial flags && ltb interval spatializer_interval_us
    then spatializer_interval_us
    else interval

-- The workaround for mono at 16 bits: the port mixes, and the stream is stereo.
unfoldable pub force_stereo : Port → AudioConfig → Port × AudioConfig
unfolding force_pcm_stereo_to_mono
force_stereo p config =
    if is_mono config.channel_mask && is_16_bit config.format
    then (force_pcm_stereo_to_mono true p, record config { channel_mask = ChannelMask.out_stereo })
    else (p, config)

module _ (codes : SessionCodes) (default_pcm : PcmConfiguration) where
  -- The part behind the workaround.
  unfoldable pub configure_stream : Flags → Port → AudioConfig → Instances → StreamOut × Instances
  unfolding get_preferred_data_interval_us buffer_interval frame_count
  configure_stream flags p config m =
      let (m', preferred) =
        get_preferred_data_interval_us codes default_pcm p m default_interval_us in
      let interval = buffer_interval flags preferred in
      (
        record {
          port = p;
          last_write_time_us = 0;
          sample_rate = config.sample_rate;
          channel_mask = config.channel_mask;
          format = config.format;
          preferred_data_interval_us = interval;
          frames_count = frame_count interval config.sample_rate;
          frames_rendered = 0;
          frames_presented = 0;
        },
        m',
      )

  -- The part behind `SetUp`: the stream, and the configuration that the caller sees.
  unfoldable pub build_stream :
      Flags → Port → Instances → AudioConfig → StreamOut × AudioConfig × Instances
  unfolding load_audio_config_out force_stereo configure_stream
  build_stream flags p m given =
      let (m1, (loaded, done)) = load_audio_config_out codes default_pcm p m given in
      let (port, config) = force_stereo p loaded in
      let (s, m2) = configure_stream flags port config m1 in (s, config, m2)

  -- A port that is not set up is deleted, and its destructor tears it down. `owner` is the stream's port, `stream` the name under which the device keeps it.
  unfoldable pub adev_open_output_stream :
      ℕ → Device → Flags → AudioConfig → Opened → Instances → Opening
  unfolding set_up new_port build_stream tear_down
  adev_open_output_stream stream device flags given opened m =
      let ((p, m1), ready) = set_up codes stream device (new_port codes) m in
      let (s, config, m2) = build_stream flags p m1 given in
      if ready
      then record {
        stream = some s;
        sessions = m2;
        opened = opened ++ stream ∷ [];
        config = config;
        result = Errno.success;
      }
      else record {
        stream = none;
        sessions = (tear_down codes p m1).1;
        opened = opened;
        config = given;
        result = Errno.einval;
      }

module _ (codes : SessionCodes) where
  -- Closing deletes the stream; what is left is its port, the sessions and the streams still open.
  unfoldable pub adev_close_output_stream :
      Bool → ℕ → StreamOut → Opened → Instances → (Port × Instances) × Opened
  unfolding shut_down tear_down remove_stream
  adev_close_output_stream answer stream s opened m =
      let (s', m') = shut_down codes answer (s, m) in
      (tear_down codes s'.port m', remove_stream stream opened)
