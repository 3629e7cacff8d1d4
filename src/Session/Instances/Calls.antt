-- ===== src/Session/Instances/Calls.antt =====
-- Sequences of calls of the static functions, by the audio HAL and by the providers, for any session types.
use android_device_peter_gsi.Base.{ℕ, Bool, ◌≡◌, refl, Option, List, [], ◌∷◌}
use android_device_peter_gsi.Session.Types.{
  SessionType, SessionCodes, AudioConfiguration, PcmConfiguration, DataMq, LatencyMode,
  BluetoothAudioStatus, PortStatusCallbacks, Notice,
}
use android_device_peter_gsi.Session.State.{
  Session, is_session_ready, on_session_started, on_session_ended,
}
use android_device_peter_gsi.Session.Control.{
  StackCall, register_status_cback, unregister_status_cback, get_audio_config, start_stream_control,
  suspend_stream_control, stop_stream_control, get_presentation_position_control,
  update_source_metadata_control, update_sink_metadata_control, get_supported_latency_modes,
  set_latency_mode_control, report_control_status, report_audio_config_changed,
  report_low_latency_mode_allowed_changed,
}
use android_device_peter_gsi.Session.Instances.{Instances, with_session}
use android_device_peter_gsi.Session.Instances.Control
use android_device_peter_gsi.Session.Instances.Report
use android_device_peter_gsi.Session.Instances.Refinement.{spec_with_session}

pub data Call : Type 0 where
  is_ready : Call
  register : PortStatusCallbacks → Call
  unregister : ℕ → Call
  get_config : Call
  start_stream : Bool → Bool → Call
  suspend_stream stop_stream get_position : Bool → Call
  update_source update_sink : ℕ → Bool → Call
  get_modes : Call
  set_mode : LatencyMode → Bool → Call
  started : Option ℕ → Option DataMq → AudioConfiguration → List LatencyMode → Call
  ended : Call
  control_status : Bool → BluetoothAudioStatus → Call
  config_changed : AudioConfiguration → Call
  latency_mode_allowed : Bool → Call

-- What a call answers, and the calls of the stack or of callbacks that it makes.
pub data Reply : Type 0 where
  ready : Bool → Reply
  cookie : ℕ → Reply
  config : AudioConfiguration → Reply
  answered : List StackCall × Bool → Reply
  called : List StackCall → Reply
  modes : List LatencyMode → Reply
  notified : List Notice → Reply
  done : Reply

abbrev reply {ℓ κ} : {A : Type ℓ} {R : Type κ} → (R → Reply) → A × R → A × Reply
reply f (a, r) = (a, f r)

module _ (codes : SessionCodes) (d : PcmConfiguration) where
  -- The static function that a call is of.
  unfoldable pub perform : SessionType → Call → Instances → Instances × Reply
  perform t is_ready m = reply ready (Control.is_ready codes t m)
  perform t (register cb) m = reply cookie (Control.register_control_result_cback codes t cb m)
  perform t (unregister c) m =
      reply (λ u. done) (Control.unregister_control_result_cback codes t c m)
  perform t get_config m = reply config (Control.get_session_config codes d t m)
  perform t (start_stream low answer) m = reply answered (Control.start_stream codes t low answer m)
  perform t (suspend_stream answer) m = reply answered (Control.suspend_stream codes t answer m)
  perform t (stop_stream answer) m = reply called (Control.stop_stream codes t answer m)
  perform t (get_position answer) m =
      reply answered (Control.get_presentation_position codes t answer m)
  perform t (update_source n answer) m =
      reply answered (Control.update_source_metadata codes t n answer m)
  perform t (update_sink n answer) m =
      reply answered (Control.update_sink_metadata codes t n answer m)
  perform t get_modes m = reply modes (Control.get_latency_modes codes t m)
  perform t (set_mode mode answer) m = reply called (Control.set_latency_mode codes t mode answer m)
  perform t (started iface mq c ms) m =
      reply notified (Report.session_started codes t iface mq c ms m)
  perform t ended m = reply notified (Report.session_ended codes t m)
  perform t (control_status resp status) m =
      reply notified (Report.control_status codes t resp status m)
  perform t (config_changed c) m = reply notified (Report.audio_config_changed codes t c m)
  perform t (latency_mode_allowed b) m =
      reply notified (Report.low_latency_mode_allowed_changed codes t b m)

  -- The operation of the one session that a call is about.
  unfoldable pub operation : Call → Session → Session × Reply
  operation is_ready s = (s, ready (is_session_ready s))
  operation (register cb) s = reply cookie (register_status_cback codes s cb)
  operation (unregister c) s = (unregister_status_cback s c, done)
  operation get_config s = (s, config (get_audio_config d s))
  operation (start_stream low answer) s = (s, answered (start_stream_control s low answer))
  operation (suspend_stream answer) s = (s, answered (suspend_stream_control s answer))
  operation (stop_stream answer) s = (s, called (stop_stream_control s answer))
  operation (get_position answer) s = (s, answered (get_presentation_position_control s answer))
  operation (update_source n answer) s = (s, answered (update_source_metadata_control s n answer))
  operation (update_sink n answer) s = (s, answered (update_sink_metadata_control s n answer))
  operation get_modes s = (s, modes (get_supported_latency_modes s))
  operation (set_mode mode answer) s = (s, called (set_latency_mode_control s mode answer))
  operation (started iface mq c ms) s = reply notified (on_session_started s iface mq c ms)
  operation ended s = reply notified (on_session_ended s)
  operation (control_status resp status) s = (s, notified (report_control_status s resp status))
  operation (config_changed c) s = reply notified (report_audio_config_changed s c)
  operation (latency_mode_allowed b) s =
      reply notified (report_low_latency_mode_allowed_changed s b)

  pub perform-with_session :
      (t : SessionType) (c : Call) (m : Instances)
      → perform t c m ≡ with_session codes t (operation c) m
  unfolding perform operation with_session Control.is_ready Control.register_control_result_cback
      Control.unregister_control_result_cback Control.get_session_config Control.start_stream
      Control.suspend_stream Control.stop_stream Control.get_presentation_position
      Control.update_source_metadata Control.update_sink_metadata Control.get_latency_modes
      Control.set_latency_mode Report.session_started Report.session_ended Report.control_status
      Report.audio_config_changed Report.low_latency_mode_allowed_changed
  perform-with_session t is_ready m = refl
  perform-with_session t (register cb) m = refl
  perform-with_session t (unregister c) m = refl
  perform-with_session t get_config m = refl
  perform-with_session t (start_stream low answer) m = refl
  perform-with_session t (suspend_stream answer) m = refl
  perform-with_session t (stop_stream answer) m = refl
  perform-with_session t (get_position answer) m = refl
  perform-with_session t (update_source n answer) m = refl
  perform-with_session t (update_sink n answer) m = refl
  perform-with_session t get_modes m = refl
  perform-with_session t (set_mode mode answer) m = refl
  perform-with_session t (started iface mq c ms) m = refl
  perform-with_session t ended m = refl
  perform-with_session t (control_status resp status) m = refl
  perform-with_session t (config_changed c) m = refl
  perform-with_session t (latency_mode_allowed b) m = refl

  -- A sequence of calls leaves the map and answers in order.
  unfoldable pub run_calls : Instances → List (SessionType × Call) → Instances × List Reply
  run_calls m [] = (m, [])
  run_calls m ((t, c) ∷ calls) =
      let (m', r) = perform t c m in let (end, replies) = run_calls m' calls in (end, r ∷ replies)

  -- The same calls on one session for each type.
  unfoldable pub spec_calls :
      (SessionType → Session) → List (SessionType × Call) → (SessionType → Session) × List Reply
  spec_calls v [] = (v, [])
  spec_calls v ((t, c) ∷ calls) =
      let (v', r) = spec_with_session codes t (operation c) v in
      let (end, replies) = spec_calls v' calls in (end, r ∷ replies)
