-- ===== src/Session/Readiness.antt =====
-- When a session is ready, and whom it tells. The stack starts a session with its callback interface, a
-- configuration and a data path, and ends it.
use android_device_peter_gsi.Base.{
  ℕ, ◌≡◌, ◌↔◌, ◌⊎◌, arith, true, false, Option, none, some, List, [], is_some, if◌then◌else◌,
}
use android_device_peter_gsi.Session.Types.{AudioConfiguration, DataMq, LatencyMode}
use android_device_peter_gsi.Session.State.{
  Session, is_offload, mq_valid, is_session_ready, takes, update_audio_config, update_data_path,
  report_session_status, on_session_started, on_session_ended,
}

-- What a start needs to make a session ready.
abbrev pub CanStart : Session → Option ℕ → Option DataMq → AudioConfiguration → Type 0
CanStart s iface mq config =
    (is_some iface ≡ true)
    × (takes s.session_type config ≡ true)
    × (((is_offload s.session_type ≡ true) × (mq ≡ none)) ⊎ (mq_valid mq ≡ true))

-- A session that is not ready is ready after `on_session_started` exactly if the stack gave its
-- interface, the configuration has a tag that the session type takes, and the message queue is valid, or
-- absent on an offload session.
pub on_session_started_iff :
    (s : Session) (iface : Option ℕ) (mq : Option DataMq) (config : AudioConfiguration)
    (modes : List LatencyMode)
    → is_session_ready s ≡ false
    → (is_session_ready (on_session_started s iface mq config modes).0 ≡ true)
      ↔ CanStart s iface mq config
unfolding is_session_ready on_session_started update_audio_config update_data_path
on_session_started_iff s none mq config modes h = ground arith
on_session_started_iff s (some i) none config modes h = ground arith
on_session_started_iff s (some i) (some mq) config modes h = ground arith

-- `on_session_ended` leaves no session ready, keeps every observer, tells each of them if the session was
-- ready before, and nobody otherwise; a second end tells nobody.
pub on_session_ended-is_session_ready :
    (s : Session)
    → (is_session_ready (on_session_ended s).0 ≡ false)
      × ((on_session_ended s).0.observers ≡ s.observers)
      × ((on_session_ended s).1 ≡ (if is_session_ready s then report_session_status s else []))
      × ((on_session_ended (on_session_ended s).0).1 ≡ [])
unfolding is_session_ready on_session_ended update_data_path report_session_status
on_session_ended-is_session_ready s = ground arith
