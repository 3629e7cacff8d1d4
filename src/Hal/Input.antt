-- ===== src/Hal/Input.antt =====
-- bluetooth/audio/hw/stream_apis.h and stream_apis.cc: an input stream over the AIDL port. Functions that
-- only log or return a constant are left out.
pub mod Reading
pub mod Opening
pub mod Outcome
use android_device_peter_gsi.Base.{
  ℕ, zero, suc, ◌+◌, ◌-◌, ◌*◌, ◌/◌, ◌%◌, ◌^◌, ◌≤◌, ◌<◌, ◌≡◌, refl, ◌⊎◌, inl, inr, arith, Bool, true,
  false, not, ◌&&◌, ◌||◌, Option, none, some, List, [], ◌∷◌, ◌==◌, if◌then◌else◌, Bool-cases,
}
use android_device_peter_gsi.Session.Types.{SessionCodes}
use android_device_peter_gsi.Session.Transfer.{Poll}
use android_device_peter_gsi.Session.Instances.{Instances}
use android_device_peter_gsi.Hal.Port.{StreamState, same_state, Port, PortEvent, handle_all}
use android_device_peter_gsi.Hal.Port.Control.{Controlled, start, suspend}
use android_device_peter_gsi.Hal.Port.Data.{
  ChannelMask, Format, read_data, get_presentation_position,
}
use android_device_peter_gsi.Hal.Output.{PortEnv, Errno, io_result, is_ok}
use android_device_peter_gsi.Hal.Output.Position.{Position, frames_of, filled}

pub record StreamIn : Type 0 where
  pub port : Port
  pub last_read_time_us : ℕ
  pub sample_rate : ℕ
  pub channel_mask : ChannelMask
  pub format : Format
  pub preferred_data_interval_us : ℕ
  pub frames_count : ℕ
  pub frames_presented : ℕ

abbrev pub InState : Type 0
InState = StreamIn × Instances

-- `kBluetoothDefaultInputStateTimeoutMs`.
abbrev pub state_timeout_ms : ℕ
state_timeout_ms = 20

-- What a wait leaves: the port, whether it has left the state, and the time slept.
pub record Waited : Type 0 where
  pub port : Port
  pub left : Bool
  pub slept_ms : ℕ

module _ (codes : SessionCodes) where
  -- The loop of `in_state_transition_timeout`: `naps` holds the callbacks of each millisecond of sleep, from
  -- `round` on. The source calls it with a timeout that is not 0.
  unfoldable pub in_state_transition_timeout :
      StreamState → (ℕ → List PortEvent) → ℕ → ℕ → Port → Waited
  unfolding handle_all
  in_state_transition_timeout state naps round zero p = record {
    port = p;
    left = false;
    slept_ms = round;
  }
  in_state_transition_timeout state naps round (suc timeout_ms) p =
      let woken = handle_all codes (naps round) p in
      let later = in_state_transition_timeout state naps (round + 1) timeout_ms woken in
      if same_state p.state state
      then (if timeout_ms == 0
          then record { port = woken; left = false; slept_ms = round + 1 }
          else later)
      else record { port = p; left = true; slept_ms = round }

  abbrev pub wait_state : StreamState → (ℕ → List PortEvent) → Port → Waited
  wait_state state naps p = in_state_transition_timeout state naps 0 state_timeout_ms p

  -- The part of `in_standby` behind the suspension.
  abbrev pub settle : (ℕ → List PortEvent) → InState → Errno → InState × Errno
  settle naps (s, m) retval =
      let w = wait_state StreamState.suspending naps s.port in
      ((record s { port = w.port }, m), if w.left then retval else Errno.success)

  unfoldable pub in_standby :
      PortEnv → (ℕ → List PortEvent) → (ℕ → List PortEvent) → InState → InState × Errno
  unfolding in_state_transition_timeout
  in_standby env naps more (s, m) =
      let w = wait_state StreamState.starting naps s.port in
      let waited : StreamIn = record s { port = w.port } in
      let r = suspend codes env.answer env.during env.wakes w.port m in
      if not w.left
      then ((waited, m), Errno.success)
      else if same_state w.port.state StreamState.started
      then settle more (record s { port = r.port }, r.sessions) (io_result r.result)
      else if not (same_state w.port.state StreamState.suspending)
      then ((waited, m), Errno.success)
      else settle more (waited, m) Errno.success

  -- The start that a read makes.
  unfoldable pub start_for_read : PortEnv → InState → InState × Errno
  start_for_read env (s, m) =
      let r = start codes env.answer env.during env.wakes s.port m in
      if same_state s.port.state StreamState.started
      then ((s, m), Errno.success)
      else if same_state s.port.state StreamState.standby
      then ((record s { port = r.port }, r.sessions), io_result r.result)
      else if same_state s.port.state StreamState.suspending
      then ((s, m), Errno.ebusy)
      else if same_state s.port.state StreamState.disabled
      then ((s, m), Errno.einval)
      else ((s, m), Errno.success)

-- What a read returns: bytes, or a negated error number.
pub data ReadResult : Type 0 where
  bytes_read : ℕ → ReadResult
  refused : Errno → ReadResult

module _ (codes : SessionCodes) (frame_size : ℕ) where
  -- The part of `in_read` behind the start.
  unfoldable pub read_started : (ℕ → Poll) → ℕ → ℕ → InState → InState × ReadResult
  unfolding read_data
  read_started polls bytes now (s, m) =
      let total = read_data codes polls bytes s.port in
      (
        (
          record s {
            last_read_time_us = now;
            frames_presented = (s.frames_presented + total / frame_size) % 2 ^ 64;
          },
          m,
        ),
        bytes_read total,
      )

  unfoldable pub in_read :
      PortEnv → (ℕ → List PortEvent) → (ℕ → Poll) → ℕ → ℕ → InState → InState × ReadResult
  unfolding read_started start_for_read in_state_transition_timeout
  in_read env naps polls bytes now (s, m) =
      let w = wait_state codes StreamState.starting naps s.port in
      let waited : StreamIn = record s { port = w.port } in
      let (started, retval) = start_for_read codes env (waited, m) in
      if not w.left
      then ((waited, m), refused Errno.ebusy)
      else if is_ok retval
      then read_started polls bytes now started
      else (started, refused retval)

  -- `in_calculate_starving_delay_ms`, which does not look at what the port answers: (frames, time).
  unfoldable pub in_calculate_starving_delay_ms : Bool → Position → InState → ℕ × ℕ
  unfolding get_presentation_position
  in_calculate_starving_delay_ms answer position (s, m) =
      let (m', (calls, retval)) = get_presentation_position codes answer s.port m in
      let p = filled calls answer position in
      let latency_frames = p.delay_ns / 1000000 * s.sample_rate % 2 ^ 64 / 1000 in
      (frames_of (p.octets / frame_size) s.frames_presented latency_frames - latency_frames, p.time)

  unfoldable pub in_get_capture_position : Bool → Position → InState → Errno × Option (ℕ × ℕ)
  unfolding in_calculate_starving_delay_ms
  in_get_capture_position answer position (s, m) =
      if same_state s.port.state StreamState.standby
      then (Errno.enosys, none)
      else (Errno.success, some (in_calculate_starving_delay_ms answer position (s, m)))
