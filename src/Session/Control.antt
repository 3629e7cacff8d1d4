-- ===== src/Session/Control.antt =====
-- bluetooth/audio/utils/aidl_session/BluetoothAudioSession.cpp: the observers, the reports of the stack,
-- and the control functions of the audio HAL. A control function returns the calls that it makes of
-- the stack's binder object beside its result; `answer` is whether that call succeeds.
use android_device_peter_gsi.Base.{
  ℕ, Bool, true, false, not, ◌&&◌, ◌||◌, Option, none, some, List, [], ◌∷◌, ◌++◌, leb,
  if◌then◌else◌,
}
use android_device_peter_gsi.Session.Types.{
  SessionType, SessionCodes, a2dp_software_encoding, a2dp_hardware_offload_encoding,
  a2dp_software_decoding, a2dp_hardware_offload_decoding, hfp_hardware_offload,
  le_audio_hardware_offload_encoding, le_audio_hardware_offload_decoding,
  le_audio_broadcast_hardware_offload_encoding, PcmConfiguration, AudioConfiguration, pcm_config,
  a2dp_config, hfp_config, le_audio_config, le_audio_broadcast_config, BluetoothAudioStatus,
  LatencyMode, low_latency, dynamic_spatial_audio_software, dynamic_spatial_audio_hardware,
  PortStatusCallbacks, Notice, cookie_init_value, cookie_upper_bound, cookie_undefined,
  observers_cookie_size,
}
use android_device_peter_gsi.Session.Observers.{Observers, erase, insert, first_free}
use android_device_peter_gsi.Session.State.{Session, is_session_ready}

module _ (codes : SessionCodes) where
  -- `RegisterStatusCback` returns the cookie, or the undefined one if all are taken.
  unfoldable pub register_status_cback : Session → PortStatusCallbacks → Session × ℕ
  register_status_cback s cb =
      let init = cookie_init_value codes s.session_type in
      let cookie = first_free s.observers init observers_cookie_size in
      if leb (cookie_upper_bound codes s.session_type) cookie
      then (s, cookie_undefined codes)
      else (record s { observers = insert cookie cb s.observers }, cookie)

unfoldable pub unregister_status_cback : Session → ℕ → Session
unregister_status_cback s cookie = record s { observers = erase cookie s.observers }

-- `GetAudioConfig`; `default_pcm` is the generated default of `PcmConfiguration`.
abbrev pub default_config : PcmConfiguration → SessionType → AudioConfiguration
default_config default_pcm a2dp_hardware_offload_encoding = a2dp_config 0
default_config default_pcm a2dp_hardware_offload_decoding = a2dp_config 0
default_config default_pcm hfp_hardware_offload = hfp_config 0
default_config default_pcm le_audio_hardware_offload_encoding = le_audio_config 0
default_config default_pcm le_audio_hardware_offload_decoding = le_audio_config 0
default_config default_pcm le_audio_broadcast_hardware_offload_encoding =
    le_audio_broadcast_config 0
default_config default_pcm _ = pcm_config default_pcm

abbrev pub or_default : Option AudioConfiguration → AudioConfiguration → AudioConfiguration
or_default none d = d
or_default (some config) d = config

unfoldable pub get_audio_config : PcmConfiguration → Session → AudioConfiguration
get_audio_config default_pcm s =
    let default = default_config default_pcm s.session_type in
    if is_session_ready s then or_default s.audio_config default else default

abbrev pub is_le_audio_unicast_offload : SessionType → Bool
is_le_audio_unicast_offload le_audio_hardware_offload_encoding = true
is_le_audio_unicast_offload le_audio_hardware_offload_decoding = true
is_le_audio_unicast_offload _ = false

abbrev pub is_le_audio_config : AudioConfiguration → Bool
is_le_audio_config (le_audio_config n) = true
is_le_audio_config _ = false

-- The observers whose callback is not null are called, each with its own cookie.
unfoldable pub call_each : (PortStatusCallbacks → Bool) → (ℕ → ℕ → Notice) → Observers → List Notice
call_each present notice [] = []
call_each present notice ((cookie, cb) ∷ rest) =
    if present cb
    then notice cb.owner cookie ∷ call_each present notice rest
    else call_each present notice rest

unfoldable pub report_audio_config_changed : Session → AudioConfiguration → Session × List Notice
report_audio_config_changed s config =
    if is_le_audio_unicast_offload s.session_type && is_le_audio_config config
    then (
      record s { audio_config = some config },
      call_each (λ cb. cb.has_audio_configuration_changed_cb) Notice.audio_configuration_changed
          s.observers,
    )
    else (s, [])

unfoldable pub report_control_status : Session → Bool → BluetoothAudioStatus → List Notice
report_control_status s start_resp status =
    call_each (λ cb. true) (λ owner cookie. Notice.control_result owner cookie start_resp status)
      s.observers

abbrev pub is_low_latency : LatencyMode → Bool
is_low_latency low_latency = true
is_low_latency _ = false

unfoldable pub has_low_latency : List LatencyMode → Bool
has_low_latency [] = false
has_low_latency (mode ∷ modes) = is_low_latency mode || has_low_latency modes

abbrev pub is_a2dp_encoding_offload : SessionType → Bool
is_a2dp_encoding_offload a2dp_hardware_offload_encoding = true
is_a2dp_encoding_offload _ = false

unfoldable pub report_low_latency_mode_allowed_changed : Session → Bool → Session × List Notice
report_low_latency_mode_allowed_changed s allowed =
    if is_a2dp_encoding_offload s.session_type
    then (
      record s {
        low_latency_allowed = allowed;
        latency_modes =
            if allowed && not (has_low_latency s.latency_modes)
            then s.latency_modes ++ low_latency ∷ []
            else s.latency_modes;
      },
      call_each (λ cb. cb.has_low_latency_mode_allowed_cb)
          (λ owner cookie. Notice.low_latency_mode_allowed owner cookie allowed) s.observers,
    )
    else (s, [])

-- The calls of the stack's binder object. The number stands for the metadata.
pub data StackCall : Type 0 where
  start_stream : Bool → StackCall
  suspend_stream stop_stream get_presentation_position : StackCall
  update_source_metadata update_sink_metadata : ℕ → StackCall
  set_latency_mode : LatencyMode → StackCall

-- A control function that needs a session, makes one call and returns whether it succeeds.
abbrev control : Session → StackCall → Bool → List StackCall × Bool
control s call answer = if is_session_ready s then (call ∷ [], answer) else ([], false)

module _ (s : Session) where
  unfoldable pub start_stream_control : Bool → Bool → List StackCall × Bool
  start_stream_control is_low_latency_stream answer =
      control s (StackCall.start_stream is_low_latency_stream) answer

  unfoldable pub suspend_stream_control : Bool → List StackCall × Bool
  suspend_stream_control answer = control s StackCall.suspend_stream answer

  -- `StopStream` and `SetLatencyMode` return nothing.
  unfoldable pub stop_stream_control : Bool → List StackCall
  stop_stream_control answer = (control s StackCall.stop_stream answer).0

  unfoldable pub set_latency_mode_control : LatencyMode → Bool → List StackCall
  set_latency_mode_control mode answer = (control s (StackCall.set_latency_mode mode) answer).0

  -- `retval` is initialised to false and never assigned. The position is an out-parameter, filled by
  -- the stack.
  unfoldable pub get_presentation_position_control : Bool → List StackCall × Bool
  get_presentation_position_control answer =
      let retval = false in
      if is_session_ready s
      then (StackCall.get_presentation_position ∷ [], if answer then retval else false)
      else ([], false)

abbrev pub is_a2dp : SessionType → Bool
is_a2dp a2dp_software_encoding = true
is_a2dp a2dp_hardware_offload_encoding = true
is_a2dp a2dp_software_decoding = true
is_a2dp a2dp_hardware_offload_decoding = true
is_a2dp _ = false

-- The versions of `UpdateSourceMetadata` and `UpdateSinkMetadata` for AIDL metadata.
unfoldable pub update_source_metadata_control : Session → ℕ → Bool → List StackCall × Bool
update_source_metadata_control s metadata answer =
    if is_session_ready s && not (is_a2dp s.session_type)
    then (StackCall.update_source_metadata metadata ∷ [], answer)
    else ([], false)

unfoldable pub update_sink_metadata_control : Session → ℕ → Bool → List StackCall × Bool
update_sink_metadata_control s metadata answer =
    if is_session_ready s && not (is_a2dp s.session_type)
    then (StackCall.update_sink_metadata metadata ∷ [], answer)
    else ([], false)

abbrev pub is_le_audio_encoding_offload : SessionType → Bool
is_le_audio_encoding_offload le_audio_hardware_offload_encoding = true
is_le_audio_encoding_offload _ = false

abbrev pub is_dynamic_spatial : LatencyMode → Bool
is_dynamic_spatial dynamic_spatial_audio_software = true
is_dynamic_spatial dynamic_spatial_audio_hardware = true
is_dynamic_spatial _ = false

-- Whether a mode of `latency_modes_` is reported, by the branch of the session type.
abbrev pub reported : Session → LatencyMode → Bool
reported s mode =
    if is_le_audio_encoding_offload s.session_type
    then not (is_low_latency mode)
    else not (not s.low_latency_allowed && is_low_latency mode) && not (is_dynamic_spatial mode)

unfoldable pub supported_modes : Session → List LatencyMode → List LatencyMode
supported_modes s [] = []
supported_modes s (mode ∷ modes) =
    if reported s mode then mode ∷ supported_modes s modes else supported_modes s modes

unfoldable pub get_supported_latency_modes : Session → List LatencyMode
unfolding supported_modes
get_supported_latency_modes s = if is_session_ready s then supported_modes s s.latency_modes else []
