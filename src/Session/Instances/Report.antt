-- ===== src/Session/Instances/Report.antt =====
-- bluetooth/audio/utils/aidl_session/BluetoothAudioSessionReport.h: the static functions of the providers.
use android_device_peter_gsi.Base.{ℕ, Bool, Option, List}
use android_device_peter_gsi.Session.Types.{
  SessionType, SessionCodes, AudioConfiguration, DataMq, LatencyMode, BluetoothAudioStatus, Notice,
}
use android_device_peter_gsi.Session.State.{on_session_started, on_session_ended}
use android_device_peter_gsi.Session.Control.{
  report_control_status, report_audio_config_changed, report_low_latency_mode_allowed_changed,
}
use android_device_peter_gsi.Session.Instances.{Instances, with_session, reading}

module _ (codes : SessionCodes) where
  unfoldable pub session_started :
      SessionType
      → Option ℕ
      → Option DataMq
      → AudioConfiguration
      → List LatencyMode
      → Instances
      → Instances × List Notice
  unfolding with_session
  session_started t iface mq config modes sessions =
      with_session codes t (λ s. on_session_started s iface mq config modes) sessions

  unfoldable pub session_ended : SessionType → Instances → Instances × List Notice
  unfolding with_session
  session_ended t sessions = with_session codes t on_session_ended sessions

  unfoldable pub control_status :
      SessionType → Bool → BluetoothAudioStatus → Instances → Instances × List Notice
  unfolding with_session
  control_status t start_resp status sessions =
      with_session codes t (reading (λ s. report_control_status s start_resp status)) sessions

  unfoldable pub audio_config_changed :
      SessionType → AudioConfiguration → Instances → Instances × List Notice
  unfolding with_session
  audio_config_changed t config sessions =
      with_session codes t (λ s. report_audio_config_changed s config) sessions

  unfoldable pub low_latency_mode_allowed_changed :
      SessionType → Bool → Instances → Instances × List Notice
  unfolding with_session
  low_latency_mode_allowed_changed t allowed sessions =
      with_session codes t (λ s. report_low_latency_mode_allowed_changed s allowed) sessions
