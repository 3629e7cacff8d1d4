-- ===== src/Hal/Output/Lifetime.antt =====
-- Opening an output stream and closing it.
use android_device_peter_gsi.Base.{
  ℕ, ◌≤◌, ◌≡◌, refl, ap, ◌∙◌, ◌⊎◌, inl, inr, arith, Bool, true, false, not, ◌&&◌, none, some, [],
  ◌∷◌, ◌++◌, ◌==◌, if◌then◌else◌, Bool-cases,
}
use android_device_peter_gsi.Session.Types.{SessionCodes, PcmConfiguration, cookie_undefined}
use android_device_peter_gsi.Session.Instances.{Instances}
use android_device_peter_gsi.Hal.Port.{
  StreamState, Device, Port, new_port, set_up, force_pcm_stereo_to_mono, in_use,
}
use android_device_peter_gsi.Hal.Port.Lifetime.{set_up-outcome}
use android_device_peter_gsi.Hal.Port.Data.{
  AudioConfig, load_audio_config_out, get_preferred_data_interval_us,
}
use android_device_peter_gsi.Hal.Params.{frame_count}
use android_device_peter_gsi.Hal.Output.{StreamOut, Errno}
use android_device_peter_gsi.Hal.Output.Opening.{
  Flags, is_spatial, Opened, is_mono, is_16_bit, buffer_interval, build_stream,
  adev_open_output_stream, force_stereo, configure_stream,
}

buffer_interval-bounds :
    (flags : Flags) (preferred : ℕ × Bool)
    → (if is_spatial flags then 10000 else 1) ≤ buffer_interval flags preferred
unfolding buffer_interval
buffer_interval-bounds flags (preferred, present) = ground arith

module _ (codes : SessionCodes) (default_pcm : PcmConfiguration) where
  -- A stream as it is opened, with its configuration as the caller gets it.
  abbrev pub IsOpened : Flags → StreamOut → AudioConfig → Type 0
  IsOpened flags s config =
      (s.frames_rendered ≡ 0)
      × (s.frames_presented ≡ 0)
      × ((if is_spatial flags then 10000 else 1) ≤ s.preferred_data_interval_us)
      × (s.frames_count ≡ frame_count s.preferred_data_interval_us s.sample_rate)
      × ((is_mono s.channel_mask && is_16_bit s.format) ≡ false)
      × (s.sample_rate ≡ config.sample_rate)
      × (s.channel_mask ≡ config.channel_mask)
      × (s.format ≡ config.format)

  force_stereo-outcome :
      (p : Port) (config : AudioConfig)
      → let (p', config') = force_stereo p config in
        ((is_mono config'.channel_mask && is_16_bit config'.format) ≡ false)
        × (p'.state ≡ p.state)
        × (p'.cookie ≡ p.cookie)
        × (p'.session_type ≡ p.session_type)
  unfolding force_stereo force_pcm_stereo_to_mono
  force_stereo-outcome p config =
      elim (Bool-cases (is_mono config.channel_mask && is_16_bit config.format)) [
        | inl mono ↦ rw mono (refl, refl, refl, refl)
        | inr plain ↦ rw plain (plain, refl, refl, refl)
      ]

  configure_stream-IsOpened :
      (flags : Flags) (p : Port) (config : AudioConfig) (m : Instances)
      → (is_mono config.channel_mask && is_16_bit config.format) ≡ false
      → let (s, m') = configure_stream codes default_pcm flags p config m in
        IsOpened flags s config × (s.port ≡ p)
  unfolding configure_stream
  configure_stream-IsOpened flags p config m plain =
      let preferred = (get_preferred_data_interval_us codes default_pcm p m 10000).1 in
      let least = buffer_interval-bounds flags preferred in
      ((refl, refl, least, refl, plain, refl, refl, refl), refl)

  pub build_stream-IsOpened :
      (flags : Flags) (p : Port) (m : Instances) (given : AudioConfig)
      → let (s, config, m') = build_stream codes default_pcm flags p m given in
        IsOpened flags s config
        × (s.port.state ≡ p.state)
        × (s.port.cookie ≡ p.cookie)
        × (s.port.session_type ≡ p.session_type)
  unfolding build_stream
  build_stream-IsOpened flags p m given =
      let (m1, (loaded, done)) = load_audio_config_out codes default_pcm p m given in
      let (port, config) = force_stereo p loaded in
      let (plain, state, cookie, kind) = force_stereo-outcome p loaded in
      let (opened, same) = configure_stream-IsOpened flags port config m1 plain in
      (
        opened,
        ap (λ q. q.state) same ∙ state,
        ap (λ q. q.cookie) same ∙ cookie,
        ap (λ q. q.session_type) same ∙ kind,
      )

  -- Opening either succeeds, with the port in use and in standby, no frames counted, an interval that is not
  -- 0, and at least 10 ms for spatial output, a buffer of the frames of that interval, a format that is
  -- not mono at 16 bits, and the configuration of the stream given to the caller; or it is refused with
  -- EINVAL, no stream is there, and the device's streams and the caller's configuration are as before.
  pub adev_open_output_stream-outcome :
      (stream : ℕ) (device : Device) (flags : Flags) (given : AudioConfig) (opened : Opened)
      (m : Instances)
      → let o = adev_open_output_stream codes default_pcm stream device flags given opened m in
        ((o.result ≡ Errno.success)
          × (o.opened ≡ opened ++ stream ∷ [])
          × ((s : StreamOut) × (o.stream ≡ some s)
              × IsOpened flags s o.config
              × (in_use codes s.port ≡ true)
              × (s.port.state ≡ StreamState.standby)))
        ⊎ ((o.result ≡ Errno.einval) × (o.opened ≡ opened) × (o.stream ≡ none) × (o.config ≡ given))
  unfolding adev_open_output_stream in_use
  adev_open_output_stream-outcome stream device flags given opened m =
      let ((p, m1), ready) = set_up codes stream device (new_port codes) m in
      let (s, config, m2) = build_stream codes default_pcm flags p m1 given in
      let (right, state, cookie, kind) = build_stream-IsOpened flags p m1 given in
      elim (Bool-cases ready) [
        | inr refused ↦ rw refused (inr (refl, refl, refl, refl))
        | inl taken ↦
            let (known, started, (used, standby, free, found)) =
              set_up-outcome codes stream device (new_port codes) m taken in
            rw taken (
              inl (
                refl,
                refl,
                (
                  s,
                  refl,
                  right,
                  ap (λ c. not (c == cookie_undefined codes)) cookie ∙ used,
                  state ∙ standby,
                ),
              ))
      ]
