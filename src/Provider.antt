-- ===== src/Provider.antt =====
-- bluetooth/audio/hal/BluetoothAudioProvider.cpp: what the stack calls to start, end and steer a session. A
-- provider acts on the session instance of its type through BluetoothAudioSessionReport, so the state is
-- the provider and that session. `onSessionReady` is virtual: an argument of `start_session`.
pub mod A2dp
pub mod Hfp
pub mod Codecs
pub mod LeAudio
pub mod Opening
pub mod Lifecycle
mod Examples
use android_device_peter_gsi.Base.{
  ℕ, Bool, true, false, not, ◌||◌, Option, none, some, List, [], if◌then◌else◌, is_some,
}
use android_device_peter_gsi.Session.Types.{
  SessionType, AudioConfiguration, pcm_config, a2dp, a2dp_config, hfp_config, le_audio_config,
  le_audio_broadcast_config, BluetoothAudioStatus, LatencyMode, DataMq, Notice,
}
use android_device_peter_gsi.Session.State.{Session, on_session_started, on_session_ended}
use android_device_peter_gsi.Session.Control.{
  report_control_status, report_audio_config_changed, report_low_latency_mode_allowed_changed,
}

pub record Provider : Type 0 where
  pub session_type : SessionType
  pub stack_iface : Option ℕ
  pub audio_config : Option AudioConfiguration
  pub latency_modes : List LatencyMode
  pub data_mq : Option DataMq

pub data ScopedStatus : Type 0 where
  status_ok illegal_argument : ScopedStatus

-- What a call leaves: the provider, its session, the callbacks called, the status, and the handle of the
-- returned descriptor of a queue, where there is one.
pub record Reply : Type 0 where
  pub provider : Provider
  pub session : Session
  pub notices : List Notice
  pub status : ScopedStatus
  pub desc : Option ℕ

abbrev pub refuse : Provider → Session → Reply
refuse p s = record {
  provider = p;
  session = s;
  notices = [];
  status = illegal_argument;
  desc = none;
}

abbrev pub answer : Provider → Session × List Notice → Option ℕ → Reply
answer p (s, notices) desc = record {
  provider = p;
  session = s;
  notices = notices;
  status = status_ok;
  desc = desc;
}

-- What `onSessionReady` does to the session, and the handle of the descriptor that it returns.
abbrev pub OnSessionReady : Type 0
OnSessionReady = Provider → AudioConfiguration → Session → (Session × List Notice) × Option ℕ

-- The status of `onSessionReady` is not looked at.
unfoldable pub start_session :
    OnSessionReady → Provider → Session → Option ℕ → AudioConfiguration → List LatencyMode → Reply
start_session on_session_ready p s none config modes = refuse p s
start_session on_session_ready p s (some host_if) config modes =
    let p' : Provider = record p {
      latency_modes = modes;
      audio_config = some config;
      stack_iface = some host_if;
    } in
    let (done, desc) = on_session_ready p' config s in answer p' done desc

unfoldable pub end_session : Provider → Session → Reply
end_session p s =
    answer (record p { stack_iface = none; audio_config = none })
      (if is_some p.stack_iface then on_session_ended s else (s, [])) none

-- `binderDiedCallbackAidl`, when the stack's binder object dies: the provider is not told.
unfoldable pub binder_died : Provider → Session → Reply
binder_died p s = answer p (on_session_ended s) none

unfoldable pub stream_started : Provider → Session → BluetoothAudioStatus → Reply
stream_started p s status =
    answer p (s, if is_some p.stack_iface then report_control_status s true status else []) none

unfoldable pub stream_suspended : Provider → Session → BluetoothAudioStatus → Reply
stream_suspended p s status =
    answer p (s, if is_some p.stack_iface then report_control_status s false status else []) none

-- `getTag() == getTag()`.
abbrev pub same_tag : AudioConfiguration → AudioConfiguration → Bool
same_tag (pcm_config p) (pcm_config q) = true
same_tag (a2dp m) (a2dp n) = true
same_tag (a2dp_config m) (a2dp_config n) = true
same_tag (hfp_config m) (hfp_config n) = true
same_tag (le_audio_config m) (le_audio_config n) = true
same_tag (le_audio_broadcast_config m) (le_audio_broadcast_config n) = true
same_tag _ _ = false

abbrev pub matches : Option AudioConfiguration → AudioConfiguration → Bool
matches none config = false
matches (some old) config = same_tag config old

unfoldable pub update_audio_configuration : Provider → Session → AudioConfiguration → Reply
update_audio_configuration p s config =
    if is_some p.stack_iface
    then (if matches p.audio_config config
        then answer (record p { audio_config = some config }) (report_audio_config_changed s config)
            none
        else refuse p s)
    else refuse p s

unfoldable pub set_low_latency_mode_allowed : Provider → Session → Bool → Reply
set_low_latency_mode_allowed p s allowed =
    if is_some p.stack_iface
    then answer p (report_low_latency_mode_allowed_changed s allowed) none
    else refuse p s
