-- ===== src/Provider/LeAudio/Outcome.antt =====
-- The start of a session of LE audio software.
use android_device_peter_gsi.Base.{
  ℕ, ◌≡◌, refl, ap, ◌∙◌, ◌⊎◌, inl, inr, arith, Bool, true, false, not, ◌&&◌, Option, none, some,
  List, [], ◌==◌, Bool-cases,
}
use android_device_peter_gsi.Session.Types.{
  SessionType, le_audio_software_encoding, le_audio_software_decoding,
  le_audio_broadcast_software_encoding, AudioConfiguration, pcm_config, PcmConfiguration,
  LatencyMode, DataMq,
}
use android_device_peter_gsi.Session.State.{Session, mq_valid, takes}
use android_device_peter_gsi.Provider.{Provider, Reply, illegal_argument, start_session}
use android_device_peter_gsi.Provider.A2dp.{on_session_ready_software}
use android_device_peter_gsi.Provider.Hfp.{is_software_pcm_configuration_valid}
use android_device_peter_gsi.Provider.Lifecycle.{IsStarted, ready_software}
use android_device_peter_gsi.Provider.LeAudio.{
  le_data_mq_size, start_with_le_queue, start_session_le_software,
}

abbrev pub IsLeSoftware : SessionType → Type 0
IsLeSoftware t =
    (t ≡ le_audio_software_encoding)
    ⊎ (t ≡ le_audio_software_decoding)
    ⊎ (t ≡ le_audio_broadcast_software_encoding)

module _ (product : ℕ → ℕ → ℕ → ℕ → ℕ → ℕ) (make_queue : ℕ → Option DataMq) where
  -- A queue that is not empty and valid can be made for the configuration.
  unfoldable pub has_room : SessionType → PcmConfiguration → Bool
  has_room t pcm =
      let size = le_data_mq_size product t pcm in not (size == 0) && mq_valid (make_queue size)

  unfoldable pub is_startable : SessionType → AudioConfiguration → Bool
  unfolding has_room
  is_startable t (pcm_config pcm) = is_software_pcm_configuration_valid pcm && has_room t pcm
  is_startable t _ = false

  abbrev pub IsStartOutcome : Provider → Session → Option ℕ → Bool → Reply → Type 0
  IsStartOutcome p s host_if startable r =
      ((startable ≡ true) × IsStarted p s host_if r)
      ⊎ (((startable ≡ false) ⊎ (host_if ≡ none))
          × (r.status ≡ illegal_argument)
          × (r.session ≡ s)
          × (r.notices ≡ [])
          × (r.desc ≡ none)
          × (r.provider.stack_iface ≡ p.stack_iface))

  le-takes :
      (t : SessionType) (pcm : PcmConfiguration) → IsLeSoftware t → takes t (pcm_config pcm) ≡ true
  le-takes t pcm o = ground arith

  -- With a valid queue the session starts.
  queue-IsStarted :
      (p : Provider) (s : Session) (i : ℕ) (pcm : PcmConfiguration) (modes : List LatencyMode)
      (mq : Option DataMq)
      → mq_valid mq ≡ true
      → takes s.session_type (pcm_config pcm) ≡ true
      → IsStarted p s (some i) (
          start_session on_session_ready_software
            (record p { data_mq = mq })
            s
            (some i)
            (pcm_config pcm)
            modes)
  unfolding start_session
  queue-IsStarted p s i pcm modes mq good taken =
      let p' : Provider = record p {
        data_mq = mq;
        latency_modes = modes;
        audio_config = some (pcm_config pcm);
        stack_iface = some i;
      } in
      let (r, n) = ready_software p' (pcm_config pcm) s i refl good taken in
      (refl, refl, refl, r, n)

  queue-outcome :
      (p : Provider) (s : Session) (host_if : Option ℕ) (pcm : PcmConfiguration)
      (modes : List LatencyMode)
      → takes s.session_type (pcm_config pcm) ≡ true
      → IsStartOutcome p s host_if
          (has_room p.session_type pcm)
          (start_with_le_queue product make_queue p s host_if pcm modes)
  unfolding start_with_le_queue has_room start_session
  queue-outcome p s none pcm modes t =
      let size = le_data_mq_size product p.session_type pcm in
      elim (Bool-cases (size == 0)) [
        | inl empty ↦ rw empty (inr (inl refl, refl, refl, refl, refl, refl))
        | inr full ↦ elim (Bool-cases (mq_valid (make_queue size))) [
          | inl good ↦ rw full (rw good (inr (inr refl, refl, refl, refl, refl, refl)))
          | inr bad ↦ rw full (rw bad (inr (inl refl, refl, refl, refl, refl, refl)))
        ]
      ]
  queue-outcome p s (some i) pcm modes t =
      let size = le_data_mq_size product p.session_type pcm in
      elim (Bool-cases (size == 0)) [
        | inl empty ↦ rw empty (inr (inl refl, refl, refl, refl, refl, refl))
        | inr full ↦ elim (Bool-cases (mq_valid (make_queue size))) [
          | inl good ↦
              let started = queue-IsStarted p s i pcm modes (make_queue size) good t in
              rw full (rw good (inl (refl, started)))
          | inr bad ↦ rw full (rw bad (inr (inl refl, refl, refl, refl, refl, refl)))
        ]
      ]

  -- The stack starts a session of LE audio software. If the configuration is a PCM one that passes the
  -- check, a queue of a size that is not 0 can be made for it, and the stack gives its interface, the
  -- session becomes ready and each of its observers is told. Any other start is refused: it tells
  -- nobody, and neither the session nor the interface that the provider has changes.
  pub start_session_le_software-outcome :
      (p : Provider) (s : Session) (host_if : Option ℕ) (config : AudioConfiguration)
      (modes : List LatencyMode)
      → IsLeSoftware p.session_type
      → s.session_type ≡ p.session_type
      → let r = start_session_le_software product make_queue p s host_if config modes in
        ((is_startable p.session_type config ≡ true) × IsStarted p s host_if r)
        ⊎ (((is_startable p.session_type config ≡ false) ⊎ (host_if ≡ none))
            × (r.status ≡ illegal_argument)
            × (r.session ≡ s)
            × (r.notices ≡ [])
            × (r.desc ≡ none)
            × (r.provider.stack_iface ≡ p.stack_iface))
  unfolding start_session_le_software is_startable
  start_session_le_software-outcome p s host_if (pcm_config pcm) modes o same =
      let taken : takes s.session_type (pcm_config pcm) ≡ true =
        ap (λ t. takes t (pcm_config pcm)) same ∙ le-takes p.session_type pcm o in
      elim (Bool-cases (is_software_pcm_configuration_valid pcm)) [
        | inl good ↦ rw good (queue-outcome p s host_if pcm modes taken)
        | inr bad ↦ rw bad (inr (inl refl, refl, refl, refl, refl, refl))
      ]
  start_session_le_software-outcome p s host_if _ modes o same =
      inr (inl refl, refl, refl, refl, refl, refl)
