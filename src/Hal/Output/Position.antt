-- ===== src/Hal/Output/Position.antt =====
-- bluetooth/audio/hw/stream_apis.cc: `out_calculate_feeding_delay_ms` and the functions that report its
-- results. `frame_size` is the system's `audio_stream_out_frame_size`; times are numbers.
use android_device_peter_gsi.Base.{
  ℕ, ◌+◌, ◌-◌, ◌*◌, ◌/◌, ◌%◌, ◌^◌, ◌≤◌, ◌≡◌, refl, inl, inr, arith, Bool, false, ◌&&◌, List, [],
  ◌∷◌, ltb, leb, if◌then◌else◌, Bool-cases,
}
use android_device_peter_gsi.Session.Types.{SessionCodes}
use android_device_peter_gsi.Session.Control.{StackCall}
use android_device_peter_gsi.Session.Latency.{get_presentation_position_control_lem}
use android_device_peter_gsi.Session.Instances.{Instances, with_session}
use android_device_peter_gsi.Session.Instances.Control as Sessions
use android_device_peter_gsi.Hal.Port.{Port, in_use}
use android_device_peter_gsi.Hal.Port.Data.{get_presentation_position}
use android_device_peter_gsi.Hal.Output.{StreamOut, State}

-- What the stack reports; the zero value is what the port's caller starts from.
pub record Position : Type 0 where
  pub delay_ns : ℕ
  pub octets : ℕ
  pub time : ℕ

abbrev pub no_position : Position
no_position = record { delay_ns = 0; octets = 0; time = 0 }

-- The delay, the frames and the time.
pub record Delay : Type 0 where
  pub ms : ℕ
  pub frames : ℕ
  pub time : ℕ

-- The branch on how the frames of the stack compare with the stream's own count.
abbrev pub frames_of : ℕ → ℕ → ℕ → ℕ
frames_of absorbed presented latency_frames =
    if ltb presented absorbed
    then presented
    else if ltb latency_frames (presented - absorbed)
    then presented
    else absorbed

-- The delay that the stream assumes: its buffer and 200 ms.
unfoldable pub legacy_delay_ms : StreamOut → ℕ
legacy_delay_ms s = s.frames_count * 1000 % 2 ^ 64 / s.sample_rate + 200

-- From the answer of the port on. The frames, an unsigned difference, stop at 0 in the source.
unfoldable pub feeding_delay : ℕ → ℕ → Bool → Position → StreamOut → Delay
unfolding legacy_delay_ms
feeding_delay frame_size now retval p s =
    let reported_ms = p.delay_ns / 1000000 in
    let fetched = retval && ltb 50 reported_ms && ltb reported_ms 1000 in
    let ms = if fetched then reported_ms else legacy_delay_ms s in
    let latency_frames = ms * s.sample_rate % 2 ^ 64 / 1000 in
    record {
      ms = ms;
      frames = frames_of (p.octets / frame_size) s.frames_presented latency_frames - latency_frames;
      time = if fetched then p.time else now;
    }

-- The stack's answer fills in the position if it is asked, which the calls of the port tell.
abbrev pub filled : List StackCall → Bool → Position → Position
filled [] answer position = no_position
filled (call ∷ calls) answer position = if answer then position else no_position

module _ (codes : SessionCodes) (frame_size now : ℕ) where
  unfoldable pub out_calculate_feeding_delay_ms : Bool → Position → State → Delay
  unfolding get_presentation_position feeding_delay
  out_calculate_feeding_delay_ms answer position (s, m) =
      let (m', (calls, retval)) = get_presentation_position codes answer s.port m in
      feeding_delay frame_size now retval (filled calls answer position) s

  -- `latency_ms` is an `uint32_t`.
  unfoldable pub out_get_latency_ms : Bool → Position → State → ℕ
  unfolding out_calculate_feeding_delay_ms
  out_get_latency_ms answer position (s, m) =
      (out_calculate_feeding_delay_ms answer position (s, m)).ms % 2 ^ 32

  unfoldable pub out_get_render_position : Bool → Position → State → ℕ
  unfolding out_get_latency_ms
  out_get_render_position answer position (s, m) =
      let latency_frames =
        out_get_latency_ms answer position (s, m) * s.sample_rate % 2 ^ 64 / 1000 in
      if leb latency_frames s.frames_rendered
      then (s.frames_rendered - latency_frames) % 2 ^ 32
      else 0

  unfoldable pub out_get_presentation_position : Bool → Position → State → ℕ × ℕ
  unfolding out_calculate_feeding_delay_ms
  out_get_presentation_position answer position (s, m) =
      let delay = out_calculate_feeding_delay_ms answer position (s, m) in
      (delay.frames, delay.time)

  -- No port answers that it has a position: the session never says so.
  get_presentation_position_lem :
      (answer : Bool) (p : Port) (m : Instances)
      → (get_presentation_position codes answer p m).1.1 ≡ false
  unfolding get_presentation_position Sessions.get_presentation_position with_session
  get_presentation_position_lem answer p m = elim (Bool-cases (in_use codes p)) [
    | inr unused ↦ rw unused refl
    | inl used ↦ rw used (get_presentation_position_control_lem _ answer)
  ]

  -- Whatever the stack answers, the latency that an output stream reports is its own buffer's and 200 ms, the
  -- time of a presentation position is the caller's clock, the frames presented are at most those
  -- written, less the frames of that latency, and the frames rendered at most those counted.
  pub out_get_latency_ms-legacy :
      (answer : Bool) (position : Position) (s : StreamOut) (m : Instances)
      → let latency_frames = legacy_delay_ms s * s.sample_rate % 2 ^ 64 / 1000 in
        let (frames, time) = out_get_presentation_position answer position (s, m) in
        (out_get_latency_ms answer position (s, m) ≡ legacy_delay_ms s % 2 ^ 32)
        × (time ≡ now)
        × (frames ≤ s.frames_presented - latency_frames)
        × (out_get_render_position answer position (s, m) ≤ s.frames_rendered)
  unfolding out_get_latency_ms out_get_presentation_position feeding_delay out_get_render_position
  out_get_latency_ms-legacy answer position s m =
      let refused = get_presentation_position_lem answer s.port m in
      rw refused (refl, refl, ground arith, ground arith)
