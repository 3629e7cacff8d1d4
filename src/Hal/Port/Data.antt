-- ===== src/Hal/Port/Data.antt =====
-- bluetooth/audio/hw/device_port_proxy.cc: what a port tells of the configuration of its session, and the PCM
-- data path. Channel masks and formats are those of the system's audio header that the code names, or
-- any other number. The loops of the data path are those of Session/Transfer.antt.
use android_device_peter_gsi.Base.{
  ℕ, ◌*◌, ◌/◌, ◌≤◌, ◌%◌, ◌≡◌, refl, inl, inr, arith, Bool, true, false, List, [], ◌==◌,
  if◌then◌else◌, Bool-cases,
}
use android_device_peter_gsi.A2dp.Codec.{ChannelMode}
use android_device_peter_gsi.Session.Types.{
  SessionType, SessionCodes, a2dp_hardware_offload_encoding, a2dp_software_encoding,
  AudioConfiguration, pcm_config, PcmConfiguration,
}
use android_device_peter_gsi.Session.Control.{StackCall}
use android_device_peter_gsi.Session.Transfer.{
  Poll, Outcome, transfer_pcm_data, IsSound, transfer_pcm_data-IsSound,
}
use android_device_peter_gsi.Session.Instances.{Instances}
use android_device_peter_gsi.Session.Instances.Control as Sessions
use android_device_peter_gsi.Hal.Port.{Port, in_use}

pub data ChannelMask : Type 0 where
  none out_mono out_stereo in_mono in_stereo : ChannelMask
  other : ℕ → ChannelMask

pub data Format : Type 0 where
  pcm_16_bit pcm_24_bit_packed pcm_8_24_bit pcm_32_bit : Format
  other : ℕ → Format

-- `audio_config_t`.
pub record AudioConfig : Type 0 where
  pub sample_rate : ℕ
  pub channel_mask : ChannelMask
  pub format : Format

-- The defaults of stream_apis.h.
abbrev pub default_output : AudioConfig
default_output = record {
  sample_rate = 44100;
  channel_mask = ChannelMask.out_stereo;
  format = Format.pcm_16_bit;
}

abbrev pub default_input : AudioConfig
default_input = record {
  sample_rate = 44100;
  channel_mask = ChannelMask.in_mono;
  format = Format.pcm_16_bit;
}

-- `output_channel_mask` is `OutputChannelModeToAudioFormat`, `input_channel_mask` its fellow.
unfoldable pub output_channel_mask : ChannelMode → ChannelMask
output_channel_mask ChannelMode.mono = ChannelMask.out_mono
output_channel_mask ChannelMode.stereo = ChannelMask.out_stereo
output_channel_mask _ = ChannelMask.out_stereo

unfoldable pub input_channel_mask : ChannelMode → ChannelMask
input_channel_mask ChannelMode.mono = ChannelMask.in_mono
input_channel_mask ChannelMode.stereo = ChannelMask.in_stereo
input_channel_mask _ = ChannelMask.in_mono

-- The classic sessions use packed samples of 24 bits.
abbrev pub is_a2dp_encoding : SessionType → Bool
is_a2dp_encoding a2dp_hardware_offload_encoding = true
is_a2dp_encoding a2dp_software_encoding = true
is_a2dp_encoding _ = false

-- `BitsPerSampleToAudioFormat`.
unfoldable pub format_of_bits : ℕ → SessionType → Format
format_of_bits bits t =
    if bits == 16
    then Format.pcm_16_bit
    else if bits == 24
    then (if is_a2dp_encoding t then Format.pcm_24_bit_packed else Format.pcm_8_24_bit)
    else if bits == 32
    then Format.pcm_32_bit
    else Format.pcm_16_bit

abbrev pub is_unknown_mode : ChannelMode → Bool
is_unknown_mode ChannelMode.unknown = true
is_unknown_mode _ = false

-- The part of `LoadAudioConfig` behind the test that the port is in use. The number of fields that are
-- written depends on the branch: an unknown channel mode leaves what was there.
abbrev pub load_output : Port → AudioConfig → AudioConfiguration → AudioConfig × Bool
load_output p given (pcm_config pcm) =
    if is_unknown_mode pcm.channel_mode then (given, false) else (
      record {
        sample_rate = pcm.sample_rate_hz;
        channel_mask =
            if p.is_stereo_to_mono
            then ChannelMask.out_stereo
            else output_channel_mask pcm.channel_mode;
        format = format_of_bits pcm.bits_per_sample p.session_type;
      },
      true,
    )
load_output p given _ = (default_output, false)

abbrev pub load_input : Port → AudioConfig → AudioConfiguration → AudioConfig × Bool
load_input p given (pcm_config pcm) = if is_unknown_mode pcm.channel_mode then (given, false) else (
  record {
    sample_rate = pcm.sample_rate_hz;
    channel_mask = input_channel_mask pcm.channel_mode;
    format = format_of_bits pcm.bits_per_sample p.session_type;
  },
  true,
)
load_input p given _ = (default_input, false)

-- `GetPreferredDataIntervalUs`, on what the caller's variable holds.
abbrev pub interval_of : ℕ → AudioConfiguration → ℕ × Bool
interval_of given (pcm_config pcm) = (pcm.data_interval_us, true)
interval_of given _ = (given, false)

module _ (codes : SessionCodes) (default_pcm : PcmConfiguration) where
  -- `LoadAudioConfig` of the output port, which writes to the caller's configuration.
  unfoldable pub load_audio_config_out :
      Port → Instances → AudioConfig → Instances × (AudioConfig × Bool)
  unfolding Sessions.get_session_config in_use output_channel_mask format_of_bits
  load_audio_config_out p sessions given =
      let (sessions', config) =
        Sessions.get_session_config codes default_pcm p.session_type sessions in
      if in_use codes p
      then (sessions', load_output p given config)
      else (sessions, (default_output, false))

  unfoldable pub load_audio_config_in :
      Port → Instances → AudioConfig → Instances × (AudioConfig × Bool)
  unfolding Sessions.get_session_config in_use input_channel_mask format_of_bits
  load_audio_config_in p sessions given =
      let (sessions', config) =
        Sessions.get_session_config codes default_pcm p.session_type sessions in
      if in_use codes p
      then (sessions', load_input p given config)
      else (sessions, (default_input, false))

  unfoldable pub get_preferred_data_interval_us : Port → Instances → ℕ → Instances × (ℕ × Bool)
  unfolding Sessions.get_session_config in_use
  get_preferred_data_interval_us p sessions given =
      let (sessions', config) =
        Sessions.get_session_config codes default_pcm p.session_type sessions in
      if in_use codes p then (sessions', interval_of given config) else (sessions, (given, false))

-- The bytes of a transfer; `transfer_pcm_data-IsSound` says that it always returns.
abbrev pub total_of : Outcome → ℕ
total_of (Outcome.returned t) = t.total
total_of Outcome.running = 0

module _ (codes : SessionCodes) where
  -- `WriteData` of the output port. In mono, two frames of four bytes become two of two bytes; what the
  -- system's `downmix_to_mono_i16_from_stereo_i16` puts there is not modelled, only how much it is.
  unfoldable pub write_data : (ℕ → Poll) → ℕ → Port → ℕ
  unfolding in_use transfer_pcm_data
  write_data polls bytes p =
      let write_frames = bytes / 4 in
      if in_use codes p
      then (if p.is_stereo_to_mono
          then (if write_frames == 0
              then 0
              else total_of (transfer_pcm_data polls (write_frames * 2)) * 2)
          else total_of (transfer_pcm_data polls bytes))
      else 0

  -- `ReadData` of the input port.
  unfoldable pub read_data : (ℕ → Poll) → ℕ → Port → ℕ
  unfolding in_use transfer_pcm_data
  read_data polls bytes p = if in_use codes p then total_of (transfer_pcm_data polls bytes) else 0

  -- `GetPresentationPosition`, less the position itself, which the stack fills in.
  unfoldable pub get_presentation_position :
      Bool → Port → Instances → Instances × (List StackCall × Bool)
  unfolding in_use Sessions.get_presentation_position
  get_presentation_position answer p sessions =
      if in_use codes p
      then Sessions.get_presentation_position codes p.session_type answer sessions
      else (sessions, ([], false))

IsSound-total : (bytes : ℕ) (o : Outcome) → IsSound 0 bytes o → total_of o ≤ bytes
IsSound-total bytes (Outcome.returned t) h = h.1
IsSound-total bytes Outcome.running h = omega arith

pub transfer-total :
    (polls : ℕ → Poll) (bytes : ℕ) → total_of (transfer_pcm_data polls bytes) ≤ bytes
transfer-total polls bytes = IsSound-total bytes _ (transfer_pcm_data-IsSound polls bytes)

-- Neither a write nor a read of a port moves more bytes than the buffer has; a write of a port that mixes
-- stereo into mono moves an even number of them, and none if the buffer is below one stereo frame.
pub write_data-bounds :
    (codes : SessionCodes) (polls : ℕ → Poll) (bytes : ℕ) (p : Port)
    → (write_data codes polls bytes p ≤ bytes)
      × (read_data codes polls bytes p ≤ bytes)
      × ((if p.is_stereo_to_mono then write_data codes polls bytes p % 2 else 0) ≡ 0)
      × (write_data codes polls bytes p ≤ (if p.is_stereo_to_mono then bytes / 4 * 4 else bytes))
unfolding write_data read_data
write_data-bounds codes polls bytes p =
    let half = transfer-total polls (bytes / 4 * 2) in
    let whole = transfer-total polls bytes in
    elim (Bool-cases (in_use codes p)) [
      | inr unused ↦ elim (Bool-cases p.is_stereo_to_mono) [
        | inr plain ↦ rw (unused, plain) (omega arith, omega arith, refl, omega arith)
        | inl mono ↦ rw (unused, mono) (omega arith, omega arith, refl, omega arith)
      ]
      | inl used ↦ elim (Bool-cases p.is_stereo_to_mono) [
        | inr plain ↦ rw (used, plain) (whole, whole, refl, whole)
        | inl mono ↦ elim (Bool-cases (bytes / 4 == 0)) [
          | inl short ↦ rw (used, mono, short) (omega arith, whole, refl, omega arith)
          | inr long ↦
              rw (used, mono, long) (omega (arith, half), whole, omega arith, omega (arith, half))
        ]
      ]
    ]
