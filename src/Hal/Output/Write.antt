-- ===== src/Hal/Output/Write.antt =====
-- bluetooth/audio/hw/stream_apis.cc: `out_write`. The lock is not held during the data transfer; what
-- callbacks do to the port in that time does not change what is written. `now` is the clock behind the
-- transfer, in microseconds; `frame_size` is the system's `audio_stream_out_frame_size`.
use android_device_peter_gsi.Base.{
  ℕ, ◌+◌, ◌-◌, ◌*◌, ◌/◌, ◌%◌, ◌^◌, ◌≤◌, ◌<◌, ◌≡◌, refl, ap, ◌∙◌, ◌⊎◌, inl, inr, arith, true, false,
  ◌||◌, ◌==◌, if◌then◌else◌, Bool-cases,
}
use android_device_peter_gsi.Session.Types.{SessionCodes, PcmConfiguration}
use android_device_peter_gsi.Session.Transfer.{Poll}
use android_device_peter_gsi.Session.Instances.{Instances}
use android_device_peter_gsi.Hal.Port.{StreamState}
use android_device_peter_gsi.Hal.Port.Data.{
  default_output, load_audio_config_out, write_data, write_data-bounds,
}
use android_device_peter_gsi.Hal.Output.{StreamOut, State, PortEnv, is_ok, is_state, out_resume}

-- What a write leaves: the stream, the sessions, the bytes that it says are written, and the time slept.
pub record Written : Type 0 where
  pub stream : StreamOut
  pub sessions : Instances
  pub result : ℕ
  pub slept_us : ℕ

module _ (codes : SessionCodes) (default_pcm : PcmConfiguration) (frame_size : ℕ) where
  -- `out_get_sample_rate`. The caller's configuration is read only if the port has filled it in.
  unfoldable pub out_get_sample_rate : State → Instances × ℕ
  unfolding load_audio_config_out
  out_get_sample_rate (s, m) =
      let (m', (config, loaded)) =
        load_audio_config_out codes default_pcm s.port m default_output in
      (m', if loaded then config.sample_rate else s.sample_rate)

  -- The branch of a transfer that moved something. All the frames of the buffer count.
  unfoldable pub count_frames : ℕ → ℕ → StreamOut → StreamOut
  count_frames bytes now s =
      let frames = bytes / frame_size in
      record s {
        frames_rendered = (s.frames_rendered + frames) % 2 ^ 64;
        frames_presented = (s.frames_presented + frames) % 2 ^ 64;
        last_write_time_us = now;
      }

  -- The time that is left of the buffer's playing time since the last write: the source's signed
  -- difference, or 0 if that is not positive.
  unfoldable pub sleep_time : ℕ → ℕ → ℕ → StreamOut → ℕ
  sleep_time bytes now rate s =
      (bytes * 1000000 % 2 ^ 64 / frame_size / rate + s.last_write_time_us) - now

  -- The part of `out_write` behind the start, on a port that is started.
  unfoldable pub write_started : (ℕ → Poll) → ℕ → ℕ → State → Written
  unfolding count_frames sleep_time out_get_sample_rate
  write_started polls bytes now (s, m) =
      let total = write_data codes polls bytes s.port in
      let (m', rate) = out_get_sample_rate (s, m) in
      let slept = sleep_time bytes now rate s in
      if total == 0
      then record {
        stream = record s { last_write_time_us = now + slept };
        sessions = m';
        result = 0;
        slept_us = slept;
      }
      else record { stream = count_frames bytes now s; sessions = m; result = total; slept_us = 0 }

  unfoldable pub out_write : PortEnv → (ℕ → Poll) → ℕ → ℕ → State → Written
  unfolding write_started out_resume
  out_write env polls bytes now (s, m) =
      let ((s', m'), resumed) = out_resume codes env (s, m) in
      if is_state s StreamState.started
      then write_started polls bytes now (s, m)
      else if is_ok resumed
      then write_started polls bytes now (s', m')
      else record {
        stream = s';
        sessions = m';
        result = if is_state s' StreamState.disabled then bytes else 0;
        slept_us = s'.preferred_data_interval_us;
      }

  -- The counters of two streams agree.
  abbrev pub SameFrames : StreamOut → StreamOut → Type 0
  SameFrames s s' =
      (s'.frames_rendered ≡ s.frames_rendered) × (s'.frames_presented ≡ s.frames_presented)

  -- The counters of the second stream are those of the first and the frames of the bytes.
  abbrev pub Counts : ℕ → StreamOut → StreamOut → Type 0
  Counts bytes s s' =
      (s'.frames_rendered ≡ (s.frames_rendered + bytes / frame_size) % 2 ^ 64)
      × (s'.frames_presented ≡ (s.frames_presented + bytes / frame_size) % 2 ^ 64)

  out_resume-SameFrames :
      (env : PortEnv) (s : StreamOut) (m : Instances)
      → SameFrames s (out_resume codes env (s, m)).0.0
  unfolding out_resume
  out_resume-SameFrames env s m = ground arith

  write_started-outcome :
      (polls : ℕ → Poll) (bytes now : ℕ) (s : StreamOut) (m : Instances)
      → let w = write_started polls bytes now (s, m) in
        (w.result ≤ bytes)
        × (((w.result ≡ 0) × SameFrames s w.stream) ⊎ ((0 < w.result) × Counts bytes s w.stream))
        × (w.stream.port ≡ s.port)
  unfolding write_started count_frames
  write_started-outcome polls bytes now s m =
      let (bound, read, even, mono) = write_data-bounds codes polls bytes s.port in
      elim (Bool-cases (write_data codes polls bytes s.port == 0)) [
        | inl nothing ↦ rw nothing (omega arith, inl (refl, (refl, refl)), refl)
        | inr something ↦ rw something (bound, inr (ground arith, (refl, refl)), refl)
      ]

  Counts-then :
      (bytes : ℕ) (s s1 s2 : StreamOut) → SameFrames s s1 → Counts bytes s1 s2 → Counts bytes s s2
  Counts-then bytes s s1 s2 (r, p) (c, d) = (
    c ∙ ap (λ x. (x + bytes / frame_size) % 2 ^ 64) r,
    d ∙ ap (λ x. (x + bytes / frame_size) % 2 ^ 64) p,
  )

  -- What a write did, after the transfer was tried.
  abbrev pub IsCounted : ℕ → StreamOut → Written → Type 0
  IsCounted bytes s w =
      ((w.result ≡ 0) × SameFrames s w.stream) ⊎ ((0 < w.result) × Counts bytes s w.stream)

  IsCounted-then :
      (bytes : ℕ) (s s1 : StreamOut) (w : Written)
      → SameFrames s s1
      → IsCounted bytes s1 w
      → IsCounted bytes s w
  IsCounted-then bytes s s1 w same (inl (z, (r, p))) = inl (z, (r ∙ same.0, p ∙ same.1))
  IsCounted-then bytes s s1 w same (inr (n, c)) = inr (n, Counts-then bytes s s1 w.stream same c)

  pub out_write-outcome :
      (env : PortEnv) (polls : ℕ → Poll) (bytes now : ℕ) (s : StreamOut) (m : Instances)
      → let w = out_write env polls bytes now (s, m) in
        let ready = is_state s StreamState.started || is_ok (out_resume codes env (s, m)).1 in
        (w.result ≤ bytes)
        × (((ready ≡ true) × IsCounted bytes s w)
            ⊎ ((ready ≡ false)
                × SameFrames s w.stream
                × (w.slept_us ≡ w.stream.preferred_data_interval_us)
                × (w.result ≡ (if is_state w.stream StreamState.disabled then bytes else 0))))
  unfolding out_write
  out_write-outcome env polls bytes now s m =
      let ((s', m'), resumed) = out_resume codes env (s, m) in
      let same = out_resume-SameFrames env s m in
      let (below, counted, port) = write_started-outcome polls bytes now s m in
      let (below', counted', port') = write_started-outcome polls bytes now s' m' in
      elim (Bool-cases (is_state s StreamState.started)) [
        | inl started ↦ rw started (below, inl (refl, counted))
        | inr waiting ↦ elim (Bool-cases (is_ok resumed)) [
          | inl up ↦
              rw (waiting, up)
                (
                  below',
                  inl (
                    refl,
                    IsCounted-then bytes s s' (write_started polls bytes now (s', m')) same
                        counted',
                  ),
                )
          | inr down ↦ elim (Bool-cases (is_state s' StreamState.disabled)) [
            | inl off ↦ rw (waiting, down, off) (omega arith, inr (refl, same, refl, refl))
            | inr on ↦ rw (waiting, down, on) (omega arith, inr (refl, same, refl, refl))
          ]
        ]
      ]
