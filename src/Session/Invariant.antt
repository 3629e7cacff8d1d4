-- ===== src/Session/Invariant.antt =====
-- What every reachable session keeps. An event is a call of one of the operations that change a session,
-- from the stack or from the audio HAL; a run is a sequence of them.
use android_device_peter_gsi.Base.{
  ℕ, ◌+◌, ◌*◌, ◌≡◌, ◌≢◌, refl, sym, ◌∙◌, subst, inl, inr, arith, Bool, true, ◌&&◌, Option, none,
  some, List, [], ◌∷◌, Bool-cases, Option-cases,
}
use android_device_peter_gsi.Session.Types.{
  SessionType, SessionCodes, AudioConfiguration, DataMq, LatencyMode, PcmConfiguration,
  PortStatusCallbacks, le_audio_hardware_offload_encoding, le_audio_hardware_offload_decoding,
}
use android_device_peter_gsi.Session.State.{
  Session, new_session, is_session_ready, takes, update_audio_config, update_data_path,
  on_session_started, on_session_ended,
}
use android_device_peter_gsi.Session.Control.{
  register_status_cback, unregister_status_cback, report_audio_config_changed,
  report_low_latency_mode_allowed_changed, get_audio_config, default_config, or_default,
  is_le_audio_unicast_offload, is_le_audio_config,
}
use android_device_peter_gsi.Session.Registration.{
  AreDistinct, AreWithin, erase-AreDistinct, erase-AreWithin, register_status_cback-insert,
}

pub data Event : Type 0 where
  started : Option ℕ → Option DataMq → AudioConfiguration → List LatencyMode → Event
  ended : Event
  registered : PortStatusCallbacks → Event
  unregistered : ℕ → Event
  config_changed : AudioConfiguration → Event
  latency_mode_allowed : Bool → Event

unfoldable pub step : SessionCodes → Session → Event → Session
step codes s (Event.started iface mq config modes) = (on_session_started s iface mq config modes).0
step codes s Event.ended = (on_session_ended s).0
step codes s (Event.registered cb) = (register_status_cback codes s cb).0
step codes s (Event.unregistered cookie) = unregister_status_cback s cookie
step codes s (Event.config_changed config) = (report_audio_config_changed s config).0
step codes s (Event.latency_mode_allowed allowed) =
    (report_low_latency_mode_allowed_changed s allowed).0

unfoldable pub run : SessionCodes → Session → List Event → Session
run codes s [] = s
run codes s (e ∷ es) = run codes (step codes s e) es

abbrev pub ConfigFits : SessionType → Option AudioConfiguration → Type 0
ConfigFits t none = Unit {0}
ConfigFits t (some config) = takes t config ≡ true

abbrev pub QueueOpens : Option DataMq → Type 0
QueueOpens none = Unit {0}
QueueOpens (some mq) = mq.is_valid ≡ true

-- The cookies of a session are distinct and its type's own, its configuration has a tag that its type
-- takes, and a message queue that it keeps is valid.
pub record IsWellFormed (codes : SessionCodes) (s : Session) : Type 0 where
  pub distinct : AreDistinct s.observers
  pub within :
      AreWithin (codes.code s.session_type * 256) (codes.code s.session_type * 256 + 16) s.observers
  pub config_tag : ConfigFits s.session_type s.audio_config
  pub queue : QueueOpens s.data_mq

pub new_session-IsWellFormed :
    (codes : SessionCodes) (t : SessionType) → IsWellFormed codes (new_session t)
unfolding new_session
new_session-IsWellFormed codes t = record {
  distinct = tt;
  within = tt;
  config_tag = tt;
  queue = tt;
}

-- What a step may change beside the observers.
started-fits :
    (s : Session) (iface : Option ℕ) (mq : Option DataMq) (config : AudioConfiguration)
    (modes : List LatencyMode)
    → ConfigFits s.session_type s.audio_config
    → QueueOpens s.data_mq
    → let s' = (on_session_started s iface mq config modes).0 in
      (s'.observers ≡ s.observers)
      × (s'.session_type ≡ s.session_type)
      × ConfigFits s'.session_type s'.audio_config
      × QueueOpens s'.data_mq
unfolding on_session_started update_audio_config update_data_path
started-fits s none mq config modes h q = (refl, refl, h, q)
started-fits s (some i) none config modes h q = ground arith
started-fits s (some i) (some mq) config modes h q = ground arith

le_audio_config-fits :
    (t : SessionType) (config : AudioConfiguration)
    → (is_le_audio_unicast_offload t && is_le_audio_config config) ≡ true
    → takes t config ≡ true
le_audio_config-fits le_audio_hardware_offload_encoding config h = ground arith
le_audio_config-fits le_audio_hardware_offload_decoding config h = ground arith
le_audio_config-fits _ config h = cc

report_audio_config_changed-fits :
    (s : Session) (config : AudioConfiguration)
    → ConfigFits s.session_type s.audio_config
    → let s' = (report_audio_config_changed s config).0 in
      ConfigFits s'.session_type s'.audio_config
unfolding report_audio_config_changed
report_audio_config_changed-fits s config h =
    ground (arith, le_audio_config-fits s.session_type config)

-- A session of the same type is well-formed by its parts.
rebuild-IsWellFormed :
    (codes : SessionCodes) (s s' : Session)
    → s'.session_type ≡ s.session_type
    → AreDistinct s'.observers
    → AreWithin
        (codes.code s.session_type * 256)
        (codes.code s.session_type * 256 + 16)
        s'.observers
    → ConfigFits s'.session_type s'.audio_config
    → QueueOpens s'.data_mq
    → IsWellFormed codes s'
rebuild-IsWellFormed codes s s' t d w c q = record {
  distinct = d;
  within =
      subst (λ t. AreWithin (codes.code t * 256) (codes.code t * 256 + 16) s'.observers) (sym t) w;
  config_tag = c;
  queue = q;
}

pub step-IsWellFormed :
    (codes : SessionCodes) (s : Session) (e : Event)
    → IsWellFormed codes s
    → IsWellFormed codes (step codes s e)
unfolding step on_session_ended unregister_status_cback report_audio_config_changed
    report_low_latency_mode_allowed_changed update_data_path
step-IsWellFormed codes s (Event.started iface mq config modes) w =
    let s' = (on_session_started s iface mq config modes).0 in
    let (o, t, c, q) = started-fits s iface mq config modes w.config_tag w.queue in
    rebuild-IsWellFormed codes s s' t (subst AreDistinct (sym o) w.distinct)
      (subst (AreWithin (codes.code s.session_type * 256) (codes.code s.session_type * 256 + 16))
        (sym o) w.within)
      c q
step-IsWellFormed codes s Event.ended w = record {
  distinct = w.distinct;
  within = w.within;
  config_tag = tt;
  queue = tt;
}
step-IsWellFormed codes s (Event.registered cb) w =
    let (d, r, t, c, q) = register_status_cback-insert codes s cb w.distinct w.within in
    let s' = (register_status_cback codes s cb).0 in
    rebuild-IsWellFormed codes s s' t d r
      (subst (λ t. ConfigFits t s'.audio_config) (sym t)
        (subst (ConfigFits s.session_type) (sym c) w.config_tag))
      (subst QueueOpens (sym q) w.queue)
step-IsWellFormed codes s (Event.unregistered cookie) w = record {
  distinct = erase-AreDistinct s.observers cookie w.distinct;
  within = erase-AreWithin s.observers cookie _ _ w.within;
  config_tag = w.config_tag;
  queue = w.queue;
}
step-IsWellFormed codes s (Event.config_changed config) w =
    let s' = (report_audio_config_changed s config).0 in
    let kept : (s'.session_type ≡ s.session_type)
        × (s'.observers ≡ s.observers)
        × (s'.data_mq ≡ s.data_mq) =
      ground arith in
    rebuild-IsWellFormed codes s s' kept.0 (subst AreDistinct (sym kept.1) w.distinct)
      (subst (AreWithin (codes.code s.session_type * 256) (codes.code s.session_type * 256 + 16))
        (sym kept.1) w.within)
      (report_audio_config_changed-fits s config w.config_tag)
      (subst QueueOpens (sym kept.2) w.queue)
step-IsWellFormed codes s (Event.latency_mode_allowed allowed) w = ground (arith, w)

keeps-IsWellFormed :
    (codes : SessionCodes) (s : Session) (es : List Event)
    → IsWellFormed codes s
    → IsWellFormed codes (run codes s es)
unfolding run
keeps-IsWellFormed codes s [] w = w
keeps-IsWellFormed codes s (e ∷ es) w =
    keeps-IsWellFormed codes (step codes s e) es (step-IsWellFormed codes s e w)

-- In every session that its type's constructor and any sequence of operations can lead to, the cookies of
-- the observers are distinct and lie in the range of the session type, the configuration has a tag that
-- the type takes, and a message queue that is kept is valid.
pub run-IsWellFormed :
    (codes : SessionCodes) (t : SessionType) (es : List Event)
    → IsWellFormed codes (run codes (new_session t) es)
run-IsWellFormed codes t es =
    keeps-IsWellFormed codes (new_session t) es (new_session-IsWellFormed codes t)

default_config-fits :
    (d : PcmConfiguration) (t : SessionType)
    → t ≢ SessionType.unknown
    → takes t (default_config d t) ≡ true
default_config-fits d SessionType.unknown h = absurd (h refl)
default_config-fits d _ h = refl

pub step-session_type :
    (codes : SessionCodes) (s : Session) (e : Event)
    → (step codes s e).session_type ≡ s.session_type
unfolding step on_session_started update_audio_config update_data_path on_session_ended
    register_status_cback unregister_status_cback report_audio_config_changed
    report_low_latency_mode_allowed_changed
step-session_type codes s (Event.started none mq config modes) = refl
step-session_type codes s (Event.started (some i) none config modes) = ground arith
step-session_type codes s (Event.started (some i) (some mq) config modes) = ground arith
step-session_type codes s Event.ended = refl
step-session_type codes s (Event.registered cb) = ground arith
step-session_type codes s (Event.unregistered cookie) = refl
step-session_type codes s (Event.config_changed config) = ground arith
step-session_type codes s (Event.latency_mode_allowed allowed) = ground arith

run-session_type :
    (codes : SessionCodes) (s : Session) (es : List Event)
    → (run codes s es).session_type ≡ s.session_type
unfolding run
run-session_type codes s [] = refl
run-session_type codes s (e ∷ es) =
    run-session_type codes (step codes s e) es ∙ step-session_type codes s e

or_default-fits :
    (s : Session) (d : PcmConfiguration)
    → s.session_type ≢ SessionType.unknown
    → ConfigFits s.session_type s.audio_config
    → takes s.session_type (or_default s.audio_config (default_config d s.session_type)) ≡ true
or_default-fits s d h c = elim (Option-cases s.audio_config) [
  | inl e ↦ rw e (default_config-fits d s.session_type h)
  | inr (config, e) ↦ rw e (subst (ConfigFits s.session_type) e c)
]

answer-fits :
    (s : Session) (d : PcmConfiguration)
    → s.session_type ≢ SessionType.unknown
    → ConfigFits s.session_type s.audio_config
    → takes s.session_type (get_audio_config d s) ≡ true
unfolding get_audio_config
answer-fits s d h c = elim (Bool-cases (is_session_ready s)) [
  | inr idle ↦ rw idle (default_config-fits d s.session_type h)
  | inl ready ↦ rw ready (or_default-fits s d h c)
]

-- In every reachable session of a known type, `get_audio_config` answers with a configuration whose tag
-- the session type takes, whether the session is ready or not.
pub run-get_audio_config :
    (codes : SessionCodes) (d : PcmConfiguration) (t : SessionType) (es : List Event)
    → t ≢ SessionType.unknown
    → takes
        (run codes (new_session t) es).session_type
        (get_audio_config d (run codes (new_session t) es))
      ≡ true
unfolding new_session
run-get_audio_config codes d t es h =
    let s = run codes (new_session t) es in
    let known : s.session_type ≢ SessionType.unknown =
      λ e. h (sym (run-session_type codes (new_session t) es) ∙ e) in
    answer-fits s d known (run-IsWellFormed codes t es).config_tag
