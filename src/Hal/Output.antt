-- ===== src/Hal/Output.antt =====
-- bluetooth/audio/hw/stream_apis.h and stream_apis.cc: an output stream over the AIDL port. The lock of the
-- stream is not modelled: each function is one step, and what other threads do to the port meanwhile is
-- in `PortEnv`. Functions that only log or return a constant are left out.
pub mod Position
pub mod Write
pub mod Settings
pub mod Opening
pub mod Frames
pub mod Lifetime
pub mod Closing
use Prim.Native.String.{String}
use text.Mathlib.Text.{◌==◌ as str_eq}
use android_device_peter_gsi.Base.{
  ℕ, ◌+◌, ◌-◌, ◌*◌, ◌/◌, ◌%◌, ◌^◌, Bool, true, false, not, ◌&&◌, ◌||◌, Option, none, some, List, [],
  ◌∷◌, ◌==◌, ltb, if◌then◌else◌, is_some,
}
use android_device_peter_gsi.Session.Types.{SessionCodes, PcmConfiguration}
use android_device_peter_gsi.Session.Instances.{Instances}
use android_device_peter_gsi.Session.Transfer.{Poll}
use android_device_peter_gsi.Hal.Port.{
  StreamState, same_state, Port, PortEvent, set_state, is_a2dp_port,
}
use android_device_peter_gsi.Hal.Port.Control.{Controlled, start, suspend, stop}
use android_device_peter_gsi.Hal.Port.Data.{
  ChannelMask, Format, AudioConfig, default_output, load_audio_config_out, write_data,
}
use android_device_peter_gsi.Hal.Params.{Params, find_param}

pub record StreamOut : Type 0 where
  pub port : Port
  pub last_write_time_us : ℕ
  pub sample_rate : ℕ
  pub channel_mask : ChannelMask
  pub format : Format
  pub preferred_data_interval_us : ℕ
  pub frames_count : ℕ
  pub frames_rendered : ℕ
  pub frames_presented : ℕ

-- What the other side does while a port waits: see Hal/Port/Control.antt.
pub record PortEnv : Type 0 where
  pub answer : Bool
  pub during : List PortEvent
  pub wakes : List (List PortEvent)

-- The results: 0, and the negated error numbers.
pub data Errno : Type 0 where
  success eio ebusy einval enosys : Errno

abbrev pub io_result : Bool → Errno
io_result true = Errno.success
io_result false = Errno.eio

abbrev pub is_ok : Errno → Bool
is_ok Errno.success = true
is_ok _ = false

abbrev pub is_state : StreamOut → StreamState → Bool
is_state s state = same_state s.port.state state

-- A stream with the sessions that it shares.
abbrev pub State : Type 0
State = StreamOut × Instances

module _ (codes : SessionCodes) where
  abbrev suspended : PortEnv → State → Controlled
  suspended env (s, m) = suspend codes env.answer env.during env.wakes s.port m

  unfoldable pub out_standby : PortEnv → State → State × Errno
  out_standby env (s, m) =
      let r = suspended env (s, m) in
      if is_state s StreamState.started
      then ((record s { frames_rendered = 0; port = r.port }, r.sessions), io_result r.result)
      else if is_state s StreamState.starting || is_state s StreamState.suspending
      then ((s, m), Errno.ebusy)
      else ((s, m), Errno.success)

  unfoldable pub out_pause : PortEnv → State → State × Errno
  out_pause env (s, m) =
      let r = suspended env (s, m) in
      if is_state s StreamState.started
      then ((record s { frames_rendered = 0; port = r.port }, r.sessions), io_result r.result)
      else if is_state s StreamState.starting || is_state s StreamState.suspending
      then ((s, m), Errno.ebusy)
      else ((s, m), Errno.success)

  unfoldable pub out_resume : PortEnv → State → State × Errno
  out_resume env (s, m) =
      let r = start codes env.answer env.during env.wakes s.port m in
      if is_state s StreamState.standby
      then ((record s { port = r.port }, r.sessions), io_result r.result)
      else if is_state s StreamState.starting || is_state s StreamState.suspending
      then ((s, m), Errno.ebusy)
      else if is_state s StreamState.disabled
      then ((s, m), Errno.einval)
      else ((s, m), Errno.success)

  -- The calls of `Stop` of `out_set_parameters` and of closing.
  abbrev pub halt : Bool → State → State
  halt answer (s, m) =
      let r = stop codes answer s.port m in (record s { port = r.port }, r.sessions)

  -- Closing and exiting: all counters are reset.
  unfoldable pub shut_down : Bool → State → State
  shut_down answer (s, m) =
      if is_state s StreamState.disabled
      then (s, m)
      else halt answer (record s { frames_rendered = 0; frames_presented = 0 }, m)

  -- `A2dpSuspended=true`.
  unfoldable pub suspend_a2dp : PortEnv → State → State
  suspend_a2dp env (s, m) =
      let r = suspended env (s, m) in
      let reset : StreamOut = record s { frames_rendered = 0 } in
      if is_state s StreamState.started
      then (record reset { port = set_state StreamState.disabled r.port }, r.sessions)
      else if is_state s StreamState.disabled
      then (reset, m)
      else halt env.answer (reset, m)

  -- `A2dpSuspended` with any other value.
  unfoldable pub resume_a2dp : State → State
  resume_a2dp (s, m) =
      if is_state s StreamState.disabled
      then (record s { port = set_state StreamState.standby s.port }, m)
      else (s, m)
