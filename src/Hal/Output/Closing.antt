-- ===== src/Hal/Output/Closing.antt =====
-- Closing the stream that was opened.
use android_device_peter_gsi.Base.{
  ℕ, ◌≡◌, refl, sym, ap, ◌∙◌, subst, inl, inr, arith, Bool, true, false, not, ◌&&◌, none, some, [],
  ◌∷◌, ◌++◌, ◌==◌, if◌then◌else◌, Bool-cases,
}
use android_device_peter_gsi.Session.Types.{
  SessionType, SessionCodes, PcmConfiguration, cookie_undefined,
}
use android_device_peter_gsi.Session.State.{Session}
use android_device_peter_gsi.Session.Control.{get_audio_config, stop_stream_control}
use android_device_peter_gsi.Session.Observers.{find}
use android_device_peter_gsi.Session.Registration.{AreDistinct}
use android_device_peter_gsi.Session.Instances.{Instances, same_type, with_session, reading}
use android_device_peter_gsi.Session.Instances.Control as Sessions
use android_device_peter_gsi.Session.Instances.Refinement.{
  session_of, spec_with_session, with_session-refines,
}
use android_device_peter_gsi.Hal.Port.{
  StreamState, Device, Port, new_port, set_up, tear_down, in_use, set_state,
}
use android_device_peter_gsi.Hal.Port.Control.{stop}
use android_device_peter_gsi.Hal.Port.Registration.{observer, update-same}
use android_device_peter_gsi.Hal.Port.Lifetime.{
  set_up-IsFresh, IsFresh, tear_down-outcome, restored,
}
use android_device_peter_gsi.Hal.Port.Data.{
  AudioConfig, load_audio_config_out, get_preferred_data_interval_us,
}
use android_device_peter_gsi.Hal.Output.{StreamOut, is_state, shut_down}
use android_device_peter_gsi.Hal.Output.Opening.{
  Flags, Opened, remove_stream, build_stream, adev_open_output_stream, adev_close_output_stream,
  force_stereo, configure_stream,
}
use android_device_peter_gsi.Hal.Output.Lifetime.{build_stream-IsOpened}

remove_stream-append :
    (stream : ℕ) (opened : Opened)
    → remove_stream stream (opened ++ stream ∷ []) ≡ remove_stream stream opened
unfolding remove_stream
remove_stream-append stream [] = ground arith
remove_stream-append stream (x ∷ xs) = ground (arith, remove_stream-append stream xs)

module _ (codes : SessionCodes) where
  -- Two maps that stand for the same sessions.
  abbrev pub SameSessions : Instances → Instances → Type 0
  SameSessions m m' = (u : SessionType) → session_of codes m' u ≡ session_of codes m u

  pub reading-SameSessions {ℓ} :
      {R : Type ℓ} (t : SessionType) (f : Session → R) (m : Instances)
      → SameSessions m (with_session codes t (reading f) m).0
  unfolding spec_with_session
  reading-SameSessions t f m u =
      ap (λ v. v u) (with_session-refines codes t (reading f) m).0
      ∙ update-same codes t (session_of codes m) u

  shut_down-same :
      (answer : Bool) (s : StreamOut) (m : Instances)
      → let (s', m') = shut_down codes answer (s, m) in
        (s'.port.cookie ≡ s.port.cookie)
        × (s'.port.session_type ≡ s.port.session_type)
        × SameSessions m m'
  unfolding shut_down stop Sessions.stop_stream set_state
  shut_down-same answer s m = elim (Bool-cases (is_state s StreamState.disabled)) [
    | inl off ↦ rw off (refl, refl, λ u. refl)
    | inr on ↦ elim (Bool-cases (in_use codes s.port)) [
      | inr unused ↦ rw (on, unused) (refl, refl, λ u. refl)
      | inl used ↦
          rw (on, used)
            (
              refl,
              refl,
              reading-SameSessions s.port.session_type (λ x. stop_stream_control x answer) m,
            )
    ]
  ]

  -- What closing leaves of a stream that was opened over the sessions `m`.
  abbrev pub IsClosed : ℕ → Opened → Instances → (Port × Instances) × Opened → Type 0
  IsClosed stream opened m ((p, m'), opened') =
      (in_use codes p ≡ false)
      × (opened' ≡ remove_stream stream opened)
      × ((u : SessionType) (j : ℕ) → observer codes m' u j ≡ observer codes m u j)

  pub torn_down :
      (owner : ℕ) (m m1 m3 : Instances) (p q : Port)
      → IsFresh codes owner m (p, m1)
      → SameSessions m1 m3
      → q.cookie ≡ p.cookie
      → q.session_type ≡ p.session_type
      → AreDistinct (session_of codes m p.session_type).observers
      → (in_use codes (tear_down codes q m3).0 ≡ false)
        × ((u : SessionType) (j : ℕ)
            → observer codes (tear_down codes q m3).1 u j ≡ observer codes m u j)
  unfolding in_use
  torn_down owner m m1 m3 p q ((used, standby, free, found), distinct) same cookie kind d =
      let used' : in_use codes q ≡ true =
        ap (λ c. not (c == cookie_undefined codes)) cookie ∙ used in
      let d3 : AreDistinct (session_of codes m3 q.session_type).observers =
        subst (λ t. AreDistinct (session_of codes m3 t).observers) (sym kind)
          (subst (λ s. AreDistinct s.observers) (sym (same p.session_type)) (distinct d)) in
      let (gone, silent, removed) = tear_down-outcome codes q m3 used' d3 in
      (
        gone,
        λ u j.
            removed u j
            ∙ ap
                (λ t.
                  if same_type codes t u && (q.cookie == j) then none else observer codes m3 u j)
                kind
            ∙ ap
                (λ c.
                  if same_type codes p.session_type u && (c == j)
                  then none
                  else observer codes m3 u j)
                cookie
            ∙ ap
                (λ s.
                  if same_type codes p.session_type u && (p.cookie == j)
                  then none
                  else find j s.observers)
                (same u)
            ∙ ap (λ o. if same_type codes p.session_type u && (p.cookie == j) then none else o)
                (found u j)
            ∙ restored codes owner p.session_type u p.cookie j m free,
      )

module _ (codes : SessionCodes) (default_pcm : PcmConfiguration) where
  load-SameSessions :
      (p : Port) (m : Instances) (given : AudioConfig)
      → SameSessions codes m (load_audio_config_out codes default_pcm p m given).0
  unfolding load_audio_config_out Sessions.get_session_config
  load-SameSessions p m given u = elim (Bool-cases (in_use codes p)) [
    | inr unused ↦ rw unused refl
    | inl used ↦
        rw used (reading-SameSessions codes p.session_type (get_audio_config default_pcm) m u)
  ]

  interval-SameSessions :
      (p : Port) (m : Instances) (given : ℕ)
      → SameSessions codes m (get_preferred_data_interval_us codes default_pcm p m given).0
  unfolding get_preferred_data_interval_us Sessions.get_session_config
  interval-SameSessions p m given u = elim (Bool-cases (in_use codes p)) [
    | inr unused ↦ rw unused refl
    | inl used ↦
        rw used (reading-SameSessions codes p.session_type (get_audio_config default_pcm) m u)
  ]

  build-SameSessions :
      (flags : Flags) (p : Port) (m : Instances) (given : AudioConfig)
      → SameSessions codes m (build_stream codes default_pcm flags p m given).2
  unfolding build_stream configure_stream
  build-SameSessions flags p m given u =
      let (m1, (loaded, done)) = load_audio_config_out codes default_pcm p m given in
      let (port, config) = force_stereo p loaded in
      interval-SameSessions port m1 10000 u ∙ load-SameSessions p m given u

  closed :
      (answer : Bool) (stream : ℕ) (device : Device) (flags : Flags) (given : AudioConfig)
      (opened : Opened) (m : Instances)
      → let ((p, m1), ready) = set_up codes stream device (new_port codes) m in
        let (s, config, m2) = build_stream codes default_pcm flags p m1 given in
        ready ≡ true
        → AreDistinct (session_of codes m s.port.session_type).observers
        → IsClosed codes stream opened m
            (adev_close_output_stream codes answer stream s (opened ++ stream ∷ []) m2)
  unfolding adev_close_output_stream
  closed answer stream device flags given opened m taken d =
      let ((p, m1), ready) = set_up codes stream device (new_port codes) m in
      let (s, config, m2) = build_stream codes default_pcm flags p m1 given in
      let (right, state, cookie, kind) = build_stream-IsOpened codes default_pcm flags p m1 given in
      let (known, started, up) = set_up-IsFresh codes stream device (new_port codes) m taken in
      let (s', m3) = shut_down codes answer (s, m2) in
      let (cookie', kind', same) = shut_down-same codes answer s m2 in
      let built = build-SameSessions flags p m1 given in
      let (gone, back) =
        torn_down codes stream m m1 m3 p s'.port up (λ u. same u ∙ built u) (cookie' ∙ cookie)
          (kind' ∙ kind) (subst (λ t. AreDistinct (session_of codes m t).observers) kind d) in
      (gone, remove_stream-append stream opened, back)

  some-injective : (s s' : StreamOut) → some s ≡ some s' → s ≡ s'
  some-injective s s' e = cc

  -- Closing a stream right after it was opened, whatever the stack answers: its port is not in use, the
  -- device has the streams that it had, less any of that name, and every session finds the observers
  -- that it had before, if the cookies of the stream's session were distinct.
  pub adev_open_output_stream-close :
      (answer : Bool) (stream : ℕ) (device : Device) (flags : Flags) (given : AudioConfig)
      (opened : Opened) (m : Instances) (s : StreamOut)
      → (adev_open_output_stream codes default_pcm stream device flags given opened m).stream
        ≡ some s
      → AreDistinct (session_of codes m s.port.session_type).observers
      → let o = adev_open_output_stream codes default_pcm stream device flags given opened m in
        IsClosed codes stream opened m
          (adev_close_output_stream codes answer stream s o.opened o.sessions)
  unfolding adev_open_output_stream
  adev_open_output_stream-close answer stream device flags given opened m s e d =
      let ((p, m1), ready) = set_up codes stream device (new_port codes) m in
      let (s0, config, m2) = build_stream codes default_pcm flags p m1 given in
      elim (Bool-cases ready) [
        | inr refused ↦ absurd (ground (arith, refused, e))
        | inl taken ↦
            let same : s0 ≡ s = some-injective s0 s (ground (arith, taken, e)) in
            rw taken (
              subst
                (λ x.
                  IsClosed codes stream opened m
                    (adev_close_output_stream codes answer stream x (opened ++ stream ∷ []) m2))
                same
                (closed answer stream device flags given opened m taken (
                  subst (λ x. AreDistinct (session_of codes m x.port.session_type).observers)
                    (sym same) d)))
      ]
