-- ===== src/Hal/Input/Outcome.antt =====
-- What opening an input stream leaves, by the configuration of its session.
use android_device_peter_gsi.Base.{
  ℕ, ◌≡◌, ◌≢◌, refl, sym, subst, ap, ◌∙◌, false, ◌⊎◌, inl, inr, arith, true, none, some, ◌==◌,
  if◌then◌else◌, Bool-cases,
}
use android_device_peter_gsi.Session.Types.{
  SessionType, SessionCodes, AudioConfiguration, pcm_config, PcmConfiguration,
}
use android_device_peter_gsi.Session.Registration.{AreDistinct}
use android_device_peter_gsi.Session.Instances.{Instances}
use android_device_peter_gsi.Session.Instances.Control as Sessions
use android_device_peter_gsi.Session.Control.{get_audio_config}
use android_device_peter_gsi.Session.Instances.Refinement.{
  session_of, spec_with_session, with_session-refines,
}
use android_device_peter_gsi.Session.Instances.{reading}
use android_device_peter_gsi.A2dp.Codec.{ChannelMode}
use android_device_peter_gsi.Hal.Port.{StreamState, Device, Port, new_port, set_up, in_use}
use android_device_peter_gsi.Hal.Port.Registration.{observer}
use android_device_peter_gsi.Hal.Port.Lifetime.{set_up-IsFresh, IsFresh}
use android_device_peter_gsi.Hal.Port.Data.{
  AudioConfig, load_input, is_unknown_mode, interval_of, input_channel_mask, format_of_bits,
  load_audio_config_in, get_preferred_data_interval_us,
}
use android_device_peter_gsi.Hal.Params.{frame_count}
use android_device_peter_gsi.Hal.Output.{Errno}
use android_device_peter_gsi.Hal.Output.Closing.{SameSessions, torn_down, reading-SameSessions}
use android_device_peter_gsi.Hal.Input.{StreamIn}
use android_device_peter_gsi.Hal.Input.Opening.{
  InputOpening, input_interval_us, input_interval, configure_input, build_input,
  adev_open_input_stream,
}

module _ (codes : SessionCodes) (default_pcm : PcmConfiguration) where
  load-SameSessions :
      (p : Port) (m : Instances) (given : AudioConfig)
      → SameSessions codes m (load_audio_config_in codes default_pcm p m given).0
  unfolding load_audio_config_in Sessions.get_session_config
  load-SameSessions p m given u = elim (Bool-cases (in_use codes p)) [
    | inr unused ↦ rw unused refl
    | inl used ↦
        rw used (reading-SameSessions codes p.session_type (get_audio_config default_pcm) m u)
  ]

  -- The configuration that the map gives for a type of session.
  abbrev pub config_of : Instances → SessionType → AudioConfiguration
  config_of m t = get_audio_config default_pcm (session_of codes m t)

  get_session_config-config_of :
      (t : SessionType) (m : Instances)
      → (Sessions.get_session_config codes default_pcm t m).1 ≡ config_of m t
  unfolding Sessions.get_session_config spec_with_session
  get_session_config-config_of t m =
      (with_session-refines codes t (reading (get_audio_config default_pcm)) m).1

  load-config_of :
      (p : Port) (m : Instances) (given : AudioConfig)
      → in_use codes p ≡ true
      → (load_audio_config_in codes default_pcm p m given).1
        ≡ load_input p given (config_of m p.session_type)
  unfolding load_audio_config_in
  load-config_of p m given used =
      rw used (ap (load_input p given) (get_session_config-config_of p.session_type m))

  interval-config_of :
      (p : Port) (m : Instances) (given : ℕ)
      → in_use codes p ≡ true
      → (get_preferred_data_interval_us codes default_pcm p m given).1
        ≡ interval_of given (config_of m p.session_type)
  unfolding get_preferred_data_interval_us
  interval-config_of p m given used =
      rw used (ap (interval_of given) (get_session_config-config_of p.session_type m))

  -- A configuration that an input port can load: PCM, with a channel mode that is known.
  abbrev pub IsLoadable : AudioConfiguration → PcmConfiguration → Type 0
  IsLoadable config pcm = (config ≡ pcm_config pcm) × (pcm.channel_mode ≢ ChannelMode.unknown)

  -- A stream with the values of a PCM configuration, over the port `p`.
  abbrev pub IsStreamOf : Port → PcmConfiguration → StreamIn → Type 0
  IsStreamOf p pcm s =
      (s.port ≡ p)
      × (in_use codes s.port ≡ true)
      × (s.port.state ≡ StreamState.standby)
      × (s.sample_rate ≡ pcm.sample_rate_hz)
      × (s.channel_mask ≡ input_channel_mask pcm.channel_mode)
      × (s.format ≡ format_of_bits pcm.bits_per_sample p.session_type)
      × (s.preferred_data_interval_us
          ≡ (if pcm.data_interval_us == 0 then 20000 else pcm.data_interval_us))
      × (s.frames_count ≡ frame_count s.preferred_data_interval_us pcm.sample_rate_hz)
      × (s.frames_presented ≡ 0)

  -- The two outcomes of opening an input stream over the sessions `m`, of which the set-up of its port `p`
  -- made `m1`.
  abbrev pub IsInput : Instances → Port → Instances → InputOpening → Type 0
  IsInput m p m1 o =
      ((pcm : PcmConfiguration) × IsLoadable (config_of m1 p.session_type) pcm
        × (o.result ≡ Errno.success)
        × ((s : StreamIn) × (o.stream ≡ some s) × IsStreamOf p pcm s))
      ⊎ (((pcm : PcmConfiguration) → ¬ IsLoadable (config_of m1 p.session_type) pcm)
          × (o.result ≡ Errno.einval)
          × (o.stream ≡ none)
          × ((u : SessionType) (j : ℕ) → observer codes o.sessions u j ≡ observer codes m u j))

  known-mode : (c : ChannelMode) → is_unknown_mode c ≡ false → c ≢ ChannelMode.unknown
  known-mode c h e = cc

  unknown-mode : (c : ChannelMode) → is_unknown_mode c ≡ true → c ≡ ChannelMode.unknown
  unknown-mode ChannelMode.unknown h = refl
  unknown-mode _ h = cc

  -- What loading gives, by the configuration.
  load_input-IsLoadable :
      (p : Port) (given : AudioConfig) (config : AudioConfiguration)
      → ((pcm : PcmConfiguration) × IsLoadable config pcm
          × (load_input p given config ≡ (
            record {
              sample_rate = pcm.sample_rate_hz;
              channel_mask = input_channel_mask pcm.channel_mode;
              format = format_of_bits pcm.bits_per_sample p.session_type;
            },
            true,
          )))
        ⊎ (((pcm : PcmConfiguration) → ¬ IsLoadable config pcm)
            × ((load_input p given config).1 ≡ false))
  load_input-IsLoadable p given (pcm_config pcm) =
      elim (Bool-cases (is_unknown_mode pcm.channel_mode)) [
        | inl unknown ↦
            let mode = unknown-mode pcm.channel_mode unknown in
            inr (
              λ other (e, known).
                  let same : other ≡ pcm = cc in known (ap (λ x. x.channel_mode) same ∙ mode),
              rw unknown refl,
            )
        | inr known ↦ inl (pcm, (refl, known-mode pcm.channel_mode known), rw known refl)
      ]
  load_input-IsLoadable p given _ = inr (λ pcm (e, known). cc, refl)

  -- The configuration that is loaded from a PCM configuration.
  abbrev loaded_from : Port → PcmConfiguration → AudioConfig
  loaded_from p pcm = record {
    sample_rate = pcm.sample_rate_hz;
    channel_mask = input_channel_mask pcm.channel_mode;
    format = format_of_bits pcm.bits_per_sample p.session_type;
  }

  configure_input-IsStreamOf :
      (p : Port) (m : Instances) (pcm : PcmConfiguration)
      → in_use codes p ≡ true
      → p.state ≡ StreamState.standby
      → config_of m p.session_type ≡ pcm_config pcm
      → IsStreamOf p pcm (configure_input codes default_pcm p (loaded_from p pcm) m).0
  unfolding configure_input
  configure_input-IsStreamOf p m pcm used standby e =
      let interval : (get_preferred_data_interval_us codes default_pcm p m input_interval_us).1
          ≡ (pcm.data_interval_us, true) =
        interval-config_of p m input_interval_us used ∙ ap (interval_of input_interval_us) e in
      let value : input_interval
            (get_preferred_data_interval_us codes default_pcm p m input_interval_us).1
          ≡ (if pcm.data_interval_us == 0 then 20000 else pcm.data_interval_us) =
        ap input_interval interval ∙ ground arith in
      (refl, used, standby, refl, refl, refl, value, refl, refl)

  build_input-outcome :
      (owner : ℕ) (given : AudioConfig) (m m1 : Instances) (p : Port)
      → IsFresh codes owner m (p, m1)
      → AreDistinct (session_of codes m p.session_type).observers
      → IsInput m p m1 (build_input codes default_pcm p given m1)
  unfolding build_input
  build_input-outcome owner given m m1 p up d =
      let (m2, (config, loaded)) = load_audio_config_in codes default_pcm p m1 given in
      let ((used, standby, free, found), distinct) = up in
      let load = load-config_of p m1 given used in
      elim (load_input-IsLoadable p given (config_of m1 p.session_type)) [
        | inl (pcm, loadable, e) ↦
            let flag : loaded ≡ true = ap (λ x. x.1) (load ∙ e) in
            let from : config ≡ loaded_from p pcm = ap (λ x. x.0) (load ∙ e) in
            let same : config_of m2 p.session_type ≡ pcm_config pcm =
              ap (get_audio_config default_pcm) (load-SameSessions p m1 given p.session_type)
              ∙ loadable.0 in
            let stream = configure_input-IsStreamOf p m2 pcm used standby same in
            rw flag (
              inl (
                pcm,
                loadable,
                refl,
                (
                  (configure_input codes default_pcm p config m2).0,
                  refl,
                  subst (λ c. IsStreamOf p pcm (configure_input codes default_pcm p c m2).0)
                      (sym from) stream,
                ),
              ))
        | inr (unloadable, e) ↦
            let flag : loaded ≡ false = ap (λ x. x.1) load ∙ e in
            let (gone, back) =
              torn_down codes owner m m1 m2 p p up (load-SameSessions p m1 given) refl refl d in
            rw flag (inr (unloadable, refl, refl, back))
      ]

  -- Once its port is set up, opening an input stream has two outcomes, by the configuration of the port's
  -- session. If that is a PCM one with a known channel mode, the stream is there, on that port, in use
  -- and in standby: it has the rate, the channels and the format of the configuration, its interval, or 20 ms
  -- if that is 0, a buffer of the frames of that interval, and no frames counted. For any other
  -- configuration the result is EINVAL, there is no stream, and every session has the observers that it
  -- had before, if the cookies of the port's session were distinct.
  pub adev_open_input_stream-outcome :
      (owner : ℕ) (device : Device) (given : AudioConfig) (m : Instances)
      → (set_up codes owner device (new_port codes) m).1 ≡ true
      → AreDistinct
          (session_of codes m
            (set_up codes owner device (new_port codes) m).0.0.session_type).observers
      → IsInput m
          (set_up codes owner device (new_port codes) m).0.0
          (set_up codes owner device (new_port codes) m).0.1
          (adev_open_input_stream codes default_pcm owner device given m)
  unfolding adev_open_input_stream
  adev_open_input_stream-outcome owner device given m taken d =
      let ((p, m1), ready) = set_up codes owner device (new_port codes) m in
      let (known, started, up) = set_up-IsFresh codes owner device (new_port codes) m taken in
      rw taken (build_input-outcome owner given m m1 p up d)
