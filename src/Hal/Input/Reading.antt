-- ===== src/Hal/Input/Reading.antt =====
-- Reads of an input stream, its standby, and the position that it reports.
use android_device_peter_gsi.Base.{
  ℕ, zero, suc, ◌+◌, ◌-◌, ◌*◌, ◌/◌, ◌%◌, ◌^◌, ◌≤◌, ◌<◌, ◌≡◌, refl, ap, ◌⊎◌, inl, inr, arith, Bool,
  true, false, List, ◌==◌, Bool-cases,
}
use android_device_peter_gsi.Session.Types.{SessionCodes}
use android_device_peter_gsi.Session.Transfer.{Poll}
use android_device_peter_gsi.Session.Instances.{Instances}
use android_device_peter_gsi.Hal.Port.{StreamState, same_state, Port, PortEvent, handle_all}
use android_device_peter_gsi.Hal.Port.Data.{read_data, write_data-bounds, get_presentation_position}
use android_device_peter_gsi.Hal.Output.{PortEnv, is_ok}
use android_device_peter_gsi.Hal.Output.Position.{Position, filled}
use android_device_peter_gsi.Hal.Input.{
  StreamIn, in_state_transition_timeout, wait_state, start_for_read, ReadResult, bytes_read,
  refused, read_started, in_read, in_calculate_starving_delay_ms,
}

module _ (codes : SessionCodes) where
  -- A wait for a port to leave a state, with a timeout that is not 0, ends with one of two results: the port
  -- is in another state, after at most the timeout less 1 ms; or the wait has slept for the whole timeout.
  pub in_state_transition_timeout-outcome :
      (state : StreamState) (naps : ℕ → List PortEvent) (round timeout_ms : ℕ) (p : Port)
      → 0 < timeout_ms
      → let w = in_state_transition_timeout codes state naps round timeout_ms p in
        ((w.left ≡ true)
          × (same_state w.port.state state ≡ false)
          × (w.slept_ms < round + timeout_ms))
        ⊎ ((w.left ≡ false) × (w.slept_ms ≡ round + timeout_ms))
  unfolding in_state_transition_timeout
  in_state_transition_timeout-outcome state naps round zero p h = absurd (omega arith)
  in_state_transition_timeout-outcome state naps round (suc timeout_ms) p h =
      elim (Bool-cases (same_state p.state state)) [
        | inr left ↦ rw left (inl (refl, left, omega arith))
        | inl stays ↦ elim (Bool-cases (timeout_ms == 0)) [
          | inl last ↦ rw (stays, last) (inr (refl, ground (arith, last)))
          | inr more ↦
              rw (stays, more)
                (elim (in_state_transition_timeout-outcome state naps (round + 1) timeout_ms
                  (handle_all codes (naps round) p) (ground (arith, more))) [
                    | inl (l, other, bound) ↦ inl (l, other, omega arith)
                    | inr (l, whole) ↦ inr (l, omega (arith, whole))
                  ])
        ]
      ]

  start_for_read-same :
      (env : PortEnv) (s : StreamIn) (m : Instances)
      → (start_for_read codes env (s, m)).0.0.frames_presented ≡ s.frames_presented
  unfolding start_for_read
  start_for_read-same env s m = ground arith

module _ (codes : SessionCodes) (frame_size : ℕ) where
  -- What a read returns, and the frames that it counts.
  abbrev pub IsRead : ℕ → ℕ → ℕ → ReadResult → Type 0
  IsRead bytes before after (bytes_read n) =
      (n ≤ bytes) × (after ≡ (before + n / frame_size) % 2 ^ 64)
  IsRead bytes before after (refused errno) = (is_ok errno ≡ false) × (after ≡ before)

  -- A read of an input stream returns at most the bytes asked for and counts the frames of the bytes that
  -- were read, or it returns an error and counts none.
  pub in_read-IsRead :
      (env : PortEnv) (naps : ℕ → List PortEvent) (polls : ℕ → Poll) (bytes now : ℕ) (s : StreamIn)
      (m : Instances)
      → let ((s', m'), r) = in_read codes frame_size env naps polls bytes now (s, m) in
        IsRead bytes s.frames_presented s'.frames_presented r
  unfolding in_read read_started
  in_read-IsRead env naps polls bytes now s m =
      let w = wait_state codes StreamState.starting naps s.port in
      let waited : StreamIn = record s { port = w.port } in
      let ((s1, m1), retval) = start_for_read codes env (waited, m) in
      let same = start_for_read-same codes env waited m in
      let (written, below, even, mono) = write_data-bounds codes polls bytes s1.port in
      elim (Bool-cases w.left) [
        | inr stuck ↦ rw stuck (refl, refl)
        | inl left ↦ elim (Bool-cases (is_ok retval)) [
          | inr down ↦ rw (left, down) (down, same)
          | inl up ↦
              rw (left, up)
                (
                  below,
                  ap (λ x. (x + read_data codes polls bytes s1.port / frame_size) % 2 ^ 64) same,
                )
        ]
      ]

  -- The capture position is never beyond the frames that were read, and less the frames of the delay that
  -- the stack reports.
  pub in_calculate_starving_delay_ms-bound :
      (answer : Bool) (position : Position) (s : StreamIn) (m : Instances)
      → (in_calculate_starving_delay_ms codes frame_size answer position (s, m)).0
        ≤ s.frames_presented
          - (filled (get_presentation_position codes answer s.port m).1.0 answer position).delay_ns
            / 1000000
            * s.sample_rate
            % 2 ^ 64
            / 1000
  unfolding in_calculate_starving_delay_ms
  in_calculate_starving_delay_ms-bound answer position s m = ground arith
