-- ===== src/Session/State.antt =====
-- bluetooth/audio/utils/aidl_session/BluetoothAudioSession.cpp: the state of a session and its
-- handlers, but the PCM loops (Session/Transfer.antt). Each handler holds the lock of the session from
-- its first line to its last, so it is one function of the state; it returns the calls of callbacks
-- that it makes. A null pointer is `none`. What the stack's binder object answers is an argument.
use android_device_peter_gsi.Base.{
  ℕ, Bool, true, false, ◌&&◌, ◌||◌, Option, none, some, List, [], map, if◌then◌else◌, is_some,
}
use android_device_peter_gsi.Session.Types.{
  SessionType, hearing_aid_software_encoding, a2dp_software_encoding,
  a2dp_hardware_offload_encoding, a2dp_software_decoding, a2dp_hardware_offload_decoding,
  hfp_software_encoding, hfp_software_decoding, hfp_hardware_offload, le_audio_software_encoding,
  le_audio_software_decoding, le_audio_hardware_offload_encoding,
  le_audio_hardware_offload_decoding, le_audio_broadcast_software_encoding,
  le_audio_broadcast_hardware_offload_encoding, AudioConfiguration, pcm_config, a2dp, a2dp_config,
  hfp_config, le_audio_config, le_audio_broadcast_config, LatencyMode, DataMq, Notice,
}
use android_device_peter_gsi.Session.Observers.{Observers}

pub record Session : Type 0 where
  pub session_type : SessionType
  pub stack_iface : Option ℕ
  pub data_mq : Option DataMq
  pub audio_config : Option AudioConfiguration
  pub latency_modes : List LatencyMode
  pub low_latency_allowed : Bool
  pub observers : Observers

-- The constructor.
unfoldable pub new_session : SessionType → Session
new_session t = record {
  session_type = t;
  stack_iface = none;
  data_mq = none;
  audio_config = none;
  latency_modes = [];
  low_latency_allowed = true;
  observers = [];
}

-- The offload sessions have no message queue.
abbrev pub is_offload : SessionType → Bool
is_offload a2dp_hardware_offload_encoding = true
is_offload le_audio_hardware_offload_encoding = true
is_offload le_audio_hardware_offload_decoding = true
is_offload le_audio_broadcast_hardware_offload_encoding = true
is_offload a2dp_hardware_offload_decoding = true
is_offload hfp_hardware_offload = true
is_offload _ = false

abbrev pub mq_valid : Option DataMq → Bool
mq_valid none = false
mq_valid (some mq) = mq.is_valid

unfoldable pub is_session_ready : Session → Bool
is_session_ready s =
    is_some s.stack_iface
    && (is_offload s.session_type || mq_valid s.data_mq)
    && is_some s.audio_config

-- The test of `UpdateAudioConfig`: the tag is one that the type of session takes.
abbrev pub takes : SessionType → AudioConfiguration → Bool
takes a2dp_software_encoding (pcm_config p) = true
takes hearing_aid_software_encoding (pcm_config p) = true
takes hfp_software_encoding (pcm_config p) = true
takes hfp_software_decoding (pcm_config p) = true
takes le_audio_software_decoding (pcm_config p) = true
takes le_audio_software_encoding (pcm_config p) = true
takes le_audio_broadcast_software_encoding (pcm_config p) = true
takes a2dp_software_decoding (pcm_config p) = true
takes a2dp_hardware_offload_encoding (a2dp n) = true
takes a2dp_hardware_offload_encoding (a2dp_config n) = true
takes a2dp_hardware_offload_decoding (a2dp n) = true
takes a2dp_hardware_offload_decoding (a2dp_config n) = true
takes hfp_hardware_offload (hfp_config n) = true
takes le_audio_hardware_offload_encoding (le_audio_config n) = true
takes le_audio_hardware_offload_decoding (le_audio_config n) = true
takes le_audio_broadcast_hardware_offload_encoding (le_audio_broadcast_config n) = true
takes _ _ = false

-- `UpdateAudioConfig` returns the state and whether the configuration was taken.
unfoldable pub update_audio_config : Session → AudioConfiguration → Session × Bool
update_audio_config s config =
    if takes s.session_type config
    then (record s { audio_config = some config }, true)
    else (s, false)

-- `UpdateDataPath`, on a null descriptor or on the queue that is made of one.
unfoldable pub update_data_path : Session → Option DataMq → Session × Bool
update_data_path s none = (record s { data_mq = none }, true)
update_data_path s (some mq) =
    if mq.is_valid
    then (record s { data_mq = some mq }, true)
    else (record s { data_mq = none }, false)

unfoldable pub report_session_status : Session → List Notice
report_session_status s = map (λ o. Notice.session_changed (o.1).owner o.0) s.observers

-- The part of `OnSessionStarted` behind the check of the configuration.
unfoldable pub start_data_path :
    Session → ℕ → Option DataMq → List LatencyMode → Session × List Notice
start_data_path s iface mq modes =
    let (s', opened) = update_data_path s mq in
    if opened
    then (let started : Session = record s' { stack_iface = some iface; latency_modes = modes } in
        (started, report_session_status started))
    else (record s' { audio_config = none }, [])

unfoldable pub on_session_started :
    Session
    → Option ℕ
    → Option DataMq
    → AudioConfiguration
    → List LatencyMode
    → Session × List Notice
unfolding start_data_path
on_session_started s none mq config modes = (s, [])
on_session_started s (some iface) mq config modes =
    let (s', taken) = update_audio_config s config in
    if taken then start_data_path s' iface mq modes else (s', [])

unfoldable pub on_session_ended : Session → Session × List Notice
on_session_ended s =
    let toggled = is_session_ready s in
    let cleared : Session = record s { audio_config = none; stack_iface = none } in
    let s' = (update_data_path cleared none).0 in
    (s', if toggled then report_session_status s' else [])
