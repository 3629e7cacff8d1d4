-- ===== src/Provider/Lifecycle.antt =====
-- A provider and its session: when a start makes the session ready, and that a ready session has a
-- provider that can end it.
use android_device_peter_gsi.Base.{
  ℕ, ◌≡◌, refl, ap, ◌∙◌, ◌⊎◌, inl, inr, subst, arith, Bool, true, false, Option, none, some, List,
  [], ◌∷◌, is_some, Bool-cases, Option-cases,
}
use android_device_peter_gsi.A2dp.Factory.{CodecId}
use android_device_peter_gsi.Session.Types.{
  SessionType, AudioConfiguration, pcm_config, a2dp, a2dp_config, hfp_config, le_audio_config,
  le_audio_broadcast_config, LatencyMode, PcmConfiguration, BluetoothAudioStatus,
  a2dp_hardware_offload_encoding, a2dp_hardware_offload_decoding, a2dp_software_encoding,
  a2dp_software_decoding,
}
use android_device_peter_gsi.Session.State.{
  Session, is_offload, mq_valid, is_session_ready, takes, update_audio_config, update_data_path,
  report_session_status, on_session_started, on_session_ended,
}
use android_device_peter_gsi.Session.Control.{
  report_audio_config_changed, report_low_latency_mode_allowed_changed,
}
use android_device_peter_gsi.Provider.{
  Provider, Reply, status_ok, illegal_argument, start_session, end_session, binder_died,
  stream_started, stream_suspended, update_audio_configuration, set_low_latency_mode_allowed,
}
use android_device_peter_gsi.Provider.A2dp.{
  on_session_ready_offload, on_session_ready_software, is_valid_offload, start_session_offload,
  is_valid_software, start_session_software,
}

-- A call that changed nothing and refused.
abbrev pub IsRefused : Provider → Session → Reply → Type 0
IsRefused p s r =
    (r.status ≡ illegal_argument) × (r.provider ≡ p) × (r.session ≡ s) × (r.notices ≡ [])

abbrev pub IsA2dpOffload : SessionType → Type 0
IsA2dpOffload t = (t ≡ a2dp_hardware_offload_encoding) ⊎ (t ≡ a2dp_hardware_offload_decoding)

abbrev pub IsA2dpSoftware : SessionType → Type 0
IsA2dpSoftware t = (t ≡ a2dp_software_encoding) ⊎ (t ≡ a2dp_software_decoding)

-- What a started session is.
abbrev pub IsStarted : Provider → Session → Option ℕ → Reply → Type 0
IsStarted p s host_if r =
    (is_some host_if ≡ true)
    × (r.status ≡ status_ok)
    × (r.provider.stack_iface ≡ host_if)
    × (is_session_ready r.session ≡ true)
    × (r.notices ≡ report_session_status s)

offload-takes :
    (fields : ℕ → CodecId × List ℕ) (valid : SessionType → ℕ → Bool) (t : SessionType)
    (config : AudioConfiguration)
    → IsA2dpOffload t
    → is_valid_offload fields valid t config ≡ true
    → (is_offload t ≡ true) × (takes t config ≡ true)
unfolding is_valid_offload
offload-takes fields valid t (a2dp n) (inl e) v = rw e (refl, refl)
offload-takes fields valid t (a2dp n) (inr e) v = rw e (refl, refl)
offload-takes fields valid t (a2dp_config n) (inl e) v = rw e (refl, refl)
offload-takes fields valid t (a2dp_config n) (inr e) v = rw e (refl, refl)
offload-takes fields valid t (pcm_config pcm) o v = cc
offload-takes fields valid t (hfp_config n) o v = cc
offload-takes fields valid t (le_audio_config n) o v = cc
offload-takes fields valid t (le_audio_broadcast_config n) o v = cc

-- The stack starts an A2DP offload session, or is refused: a start with an interface and a configuration
-- that passes the checks makes the session ready and tells each of its observers; any other is refused,
-- and changes neither the provider nor the session.
pub start_session_offload-outcome :
    (fields : ℕ → CodecId × List ℕ) (valid : SessionType → ℕ → Bool) (p : Provider) (s : Session)
    (host_if : Option ℕ) (config : AudioConfiguration) (modes : List LatencyMode)
    → IsA2dpOffload p.session_type
    → s.session_type ≡ p.session_type
    → let r = start_session_offload fields valid p s host_if config modes in
      ((is_valid_offload fields valid p.session_type config ≡ true) × IsStarted p s host_if r)
      ⊎ (((is_valid_offload fields valid p.session_type config ≡ false) ⊎ (host_if ≡ none))
          × IsRefused p s r)
unfolding start_session_offload start_session on_session_ready_offload on_session_started
    update_audio_config update_data_path is_session_ready report_session_status
start_session_offload-outcome fields valid p s none config modes o t = ground arith
start_session_offload-outcome fields valid p s (some i) config modes o t =
    elim (Bool-cases (is_valid_offload fields valid p.session_type config)) [
      | inr bad ↦ rw bad (inr (inl refl, (refl, refl, refl, refl)))
      | inl good ↦
          let (off, taken) = offload-takes fields valid p.session_type config o good in
          let off' : is_offload s.session_type ≡ true = ap is_offload t ∙ off in
          let taken' : takes s.session_type config ≡ true = ap (λ t. takes t config) t ∙ taken in
          rw good (rw taken' (rw off' (inl (refl, (refl, refl, refl, refl, refl)))))
    ]

software-takes :
    (valid : PcmConfiguration → Bool) (t : SessionType) (config : AudioConfiguration)
    → IsA2dpSoftware t
    → is_valid_software valid config ≡ true
    → takes t config ≡ true
unfolding is_valid_software
software-takes valid t (pcm_config pcm) (inl e) v = rw e refl
software-takes valid t (pcm_config pcm) (inr e) v = rw e refl
software-takes valid t (a2dp n) o v = cc
software-takes valid t (a2dp_config n) o v = cc
software-takes valid t (hfp_config n) o v = cc
software-takes valid t (le_audio_config n) o v = cc
software-takes valid t (le_audio_broadcast_config n) o v = cc

-- With a queue, `onSessionReady` of the software provider starts the session.
pub ready_software :
    (p : Provider) (config : AudioConfiguration) (s : Session) (i : ℕ)
    → p.stack_iface ≡ some i
    → mq_valid p.data_mq ≡ true
    → takes s.session_type config ≡ true
    → let (s', notices) = (on_session_ready_software p config s).0 in
      (is_session_ready s' ≡ true) × (notices ≡ report_session_status s)
unfolding on_session_ready_software on_session_started update_audio_config update_data_path
    is_session_ready report_session_status
ready_software p config s i e q t = elim (Option-cases p.data_mq) [
  | inl e' ↦ let q' : mq_valid none ≡ true = subst (λ o. mq_valid o ≡ true) e' q in absurd (cc)
  | inr (mq, e') ↦
      let q' : mq.is_valid ≡ true = subst (λ o. mq_valid o ≡ true) e' q in
      rw e (rw e' (rw q' (rw t (ground arith, refl))))
]

-- The stack starts an A2DP software session. Without an interface, or with a configuration that fails the
-- checks, it is refused and nothing changes. Otherwise the status is OK and the provider has the
-- interface: if it has a valid queue, the session becomes ready and each of its observers is told; if it
-- has none, the session stays as it was, nobody is told and no descriptor is returned.
pub start_session_software-outcome :
    (valid : PcmConfiguration → Bool) (p : Provider) (s : Session) (host_if : Option ℕ)
    (config : AudioConfiguration) (modes : List LatencyMode)
    → IsA2dpSoftware p.session_type
    → s.session_type ≡ p.session_type
    → let r = start_session_software valid p s host_if config modes in
      ((mq_valid p.data_mq ≡ true)
        × (is_valid_software valid config ≡ true)
        × IsStarted p s host_if r)
      ⊎ ((mq_valid p.data_mq ≡ false)
          × (is_valid_software valid config ≡ true)
          × (is_some host_if ≡ true)
          × (r.status ≡ status_ok)
          × (r.provider.stack_iface ≡ host_if)
          × (r.session ≡ s)
          × (r.notices ≡ [])
          × (r.desc ≡ none))
      ⊎ (((is_valid_software valid config ≡ false) ⊎ (host_if ≡ none)) × IsRefused p s r)
unfolding start_session_software start_session on_session_ready_software
start_session_software-outcome valid p s none config modes o t = ground arith
start_session_software-outcome valid p s (some i) config modes o t =
    elim (Bool-cases (is_valid_software valid config)) [
      | inr bad ↦ rw bad (inr (inr (inl refl, (refl, refl, refl, refl))))
      | inl good ↦ elim (Bool-cases (mq_valid p.data_mq)) [
        | inl opened ↦
            let p' : Provider = record p {
              latency_modes = modes;
              audio_config = some config;
              stack_iface = some i;
            } in
            let taken : takes s.session_type config ≡ true =
              ap (λ t. takes t config) t ∙ software-takes valid p.session_type config o good in
            let (r, n) = ready_software p' config s i refl opened taken in
            rw good (inl (opened, refl, (refl, refl, refl, r, n)))
        | inr closed ↦ rw good (
            inr (
              inl (closed, refl, refl, refl, refl, rw closed refl, rw closed refl, rw closed refl)))
      ]
    ]

-- The calls of the stack, and the death of its binder object. A start goes through some `onSessionReady`
-- and some check.
pub data Call : Type 0 where
  start_offload start_software : Option ℕ → AudioConfiguration → List LatencyMode → Call
  end died : Call
  started suspended : BluetoothAudioStatus → Call
  updated : AudioConfiguration → Call
  low_latency_allowed : Bool → Call

abbrev pub reply : Provider → Session → Call → Reply
reply p s (Call.start_offload i config modes) =
    start_session on_session_ready_offload p s i config modes
reply p s (Call.start_software i config modes) =
    start_session on_session_ready_software p s i config modes
reply p s Call.end = end_session p s
reply p s Call.died = binder_died p s
reply p s (Call.started status) = stream_started p s status
reply p s (Call.suspended status) = stream_suspended p s status
reply p s (Call.updated config) = update_audio_configuration p s config
reply p s (Call.low_latency_allowed allowed) = set_low_latency_mode_allowed p s allowed

unfoldable pub run : Provider → Session → List Call → Provider × Session
run p s [] = (p, s)
run p s (c ∷ cs) = let r = reply p s c in run r.provider r.session cs

-- A ready session is one that the provider has an interface for.
abbrev pub IsHeld : Provider → Session → Type 0
IsHeld p s = is_session_ready s ≡ true → is_some p.stack_iface ≡ true

reply-IsHeld :
    (p : Provider) (s : Session) (c : Call)
    → IsHeld p s
    → IsHeld (reply p s c).provider (reply p s c).session
unfolding start_session end_session binder_died stream_started stream_suspended
    update_audio_configuration set_low_latency_mode_allowed on_session_ended update_data_path
    is_session_ready report_audio_config_changed report_low_latency_mode_allowed_changed
reply-IsHeld p s (Call.start_offload none config modes) h = h
reply-IsHeld p s (Call.start_offload (some i) config modes) h = λ r. refl
reply-IsHeld p s (Call.start_software none config modes) h = h
reply-IsHeld p s (Call.start_software (some i) config modes) h = λ r. refl
reply-IsHeld p s Call.end h = ground arith
reply-IsHeld p s Call.died h = ground arith
reply-IsHeld p s (Call.started status) h = h
reply-IsHeld p s (Call.suspended status) h = h
reply-IsHeld p s (Call.updated config) h = ground arith
reply-IsHeld p s (Call.low_latency_allowed allowed) h = ground arith

run-IsHeld :
    (p : Provider) (s : Session) (cs : List Call)
    → IsHeld p s
    → IsHeld (run p s cs).0 (run p s cs).1
unfolding run
run-IsHeld p s [] h = h
run-IsHeld p s (c ∷ cs) h =
    run-IsHeld (reply p s c).provider (reply p s c).session cs (reply-IsHeld p s c h)

end_session-idle :
    (p : Provider) (s : Session) → IsHeld p s → is_session_ready (end_session p s).session ≡ false
unfolding end_session on_session_ended update_data_path is_session_ready
end_session-idle p s h = ground (arith, h)

-- From a session that is not ready, and after any calls of the stack, `end_session` leaves the session
-- not ready and the provider without an interface of the stack.
pub run-end_session :
    (p : Provider) (s : Session) (cs : List Call)
    → is_session_ready s ≡ false
    → let (p', s') = run p s cs in
      (is_session_ready (end_session p' s').session ≡ false)
      × ((end_session p' s').provider.stack_iface ≡ none)
unfolding end_session
run-end_session p s cs idle =
    let (p', s') = run p s cs in (end_session-idle p' s' (run-IsHeld p s cs (λ r. cc)), refl)
