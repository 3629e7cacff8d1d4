-- ===== src/Session/Instances/Control.antt =====
-- bluetooth/audio/utils/aidl_session/BluetoothAudioSessionControl.h: the static functions of the audio HAL.
-- The pointer of `get_session_instance` is never null, so they have no other branch. `answer` is whether
-- the call of the stack's binder object succeeds.
use android_device_peter_gsi.Base.{ℕ, Bool, List}
use android_device_peter_gsi.Session.Types.{
  SessionType, SessionCodes, AudioConfiguration, PcmConfiguration, LatencyMode, PortStatusCallbacks,
}
use android_device_peter_gsi.Session.State.{is_session_ready}
use android_device_peter_gsi.Session.Control.{
  StackCall, register_status_cback, unregister_status_cback, get_audio_config, start_stream_control,
  suspend_stream_control, stop_stream_control, get_presentation_position_control,
  update_source_metadata_control, update_sink_metadata_control, get_supported_latency_modes,
  set_latency_mode_control,
}
use android_device_peter_gsi.Session.Instances.{Instances, with_session, reading}

module _ (codes : SessionCodes) where
  unfoldable pub is_ready : SessionType → Instances → Instances × Bool
  unfolding with_session
  is_ready t sessions = with_session codes t (reading is_session_ready) sessions

  unfoldable pub register_control_result_cback :
      SessionType → PortStatusCallbacks → Instances → Instances × ℕ
  unfolding with_session
  register_control_result_cback t cbacks sessions =
      with_session codes t (λ s. register_status_cback codes s cbacks) sessions

  unfoldable pub unregister_control_result_cback :
      SessionType → ℕ → Instances → Instances × Unit {0}
  unfolding with_session
  unregister_control_result_cback t cookie sessions =
      with_session codes t (λ s. (unregister_status_cback s cookie, tt)) sessions

  -- `get_session_config` is `GetAudioConfig`.
  unfoldable pub get_session_config :
      PcmConfiguration → SessionType → Instances → Instances × AudioConfiguration
  unfolding with_session
  get_session_config default_pcm t sessions =
      with_session codes t (reading (get_audio_config default_pcm)) sessions

  unfoldable pub start_stream :
      SessionType → Bool → Bool → Instances → Instances × (List StackCall × Bool)
  unfolding with_session
  start_stream t low_latency answer sessions =
      with_session codes t (reading (λ s. start_stream_control s low_latency answer)) sessions

  unfoldable pub suspend_stream :
      SessionType → Bool → Instances → Instances × (List StackCall × Bool)
  unfolding with_session
  suspend_stream t answer sessions =
      with_session codes t (reading (λ s. suspend_stream_control s answer)) sessions

  unfoldable pub stop_stream : SessionType → Bool → Instances → Instances × List StackCall
  unfolding with_session
  stop_stream t answer sessions =
      with_session codes t (reading (λ s. stop_stream_control s answer)) sessions

  unfoldable pub get_presentation_position :
      SessionType → Bool → Instances → Instances × (List StackCall × Bool)
  unfolding with_session
  get_presentation_position t answer sessions =
      with_session codes t (reading (λ s. get_presentation_position_control s answer)) sessions

  unfoldable pub update_source_metadata :
      SessionType → ℕ → Bool → Instances → Instances × (List StackCall × Bool)
  unfolding with_session
  update_source_metadata t metadata answer sessions =
      with_session codes t (reading (λ s. update_source_metadata_control s metadata answer))
        sessions

  unfoldable pub update_sink_metadata :
      SessionType → ℕ → Bool → Instances → Instances × (List StackCall × Bool)
  unfolding with_session
  update_sink_metadata t metadata answer sessions =
      with_session codes t (reading (λ s. update_sink_metadata_control s metadata answer)) sessions

  unfoldable pub get_latency_modes : SessionType → Instances → Instances × List LatencyMode
  unfolding with_session
  get_latency_modes t sessions = with_session codes t (reading get_supported_latency_modes) sessions

  unfoldable pub set_latency_mode :
      SessionType → LatencyMode → Bool → Instances → Instances × List StackCall
  unfolding with_session
  set_latency_mode t mode answer sessions =
      with_session codes t (reading (λ s. set_latency_mode_control s mode answer)) sessions
