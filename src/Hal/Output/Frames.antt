-- ===== src/Hal/Output/Frames.antt =====
-- The counters of frames of an output stream, over any sequence of calls and callbacks.
use android_device_peter_gsi.Base.{
  ℕ, ◌+◌, ◌/◌, ◌^◌, ◌≤◌, ◌<◌, ◌≡◌, inl, inr, arith, Bool, true, false, List, [], ◌∷◌, if◌then◌else◌,
  Bool-cases,
}
use android_device_peter_gsi.Session.Types.{SessionCodes, PcmConfiguration}
use android_device_peter_gsi.Session.Transfer.{Poll}
use android_device_peter_gsi.Session.Instances.{Instances}
use android_device_peter_gsi.Hal.Port.{StreamState, PortEvent, handle}
use android_device_peter_gsi.Hal.Params.{Params, find_param}
use android_device_peter_gsi.Hal.Output.{
  StreamOut, State, PortEnv, is_state, out_standby, out_pause, out_resume, shut_down, suspend_a2dp,
  resume_a2dp,
}
use android_device_peter_gsi.Hal.Output.Write.{out_write, out_write-outcome}
use android_device_peter_gsi.Hal.Output.Settings.{
  Keys, wants_config, is_value, reload_config, set_a2dp_suspended, out_set_parameters,
}

pub data Call : Type 0 where
  standby pause resume : PortEnv → Call
  write : PortEnv → (ℕ → Poll) → ℕ → ℕ → Call
  set_parameters : PortEnv → Params → Call
  callback : PortEvent → Call

-- The frames of the buffers of a sequence of calls.
unfoldable pub offered : ℕ → List Call → ℕ
offered frame_size [] = 0
offered frame_size (write env polls bytes now ∷ calls) =
    bytes / frame_size + offered frame_size calls
offered frame_size (_ ∷ calls) = offered frame_size calls

-- Counters that were in order stay so, and at most `n` frames are added, if that is no overflow.
abbrev Grows : ℕ → StreamOut → StreamOut → Type 0
Grows n s s' =
    s.frames_rendered ≤ s.frames_presented
    → s.frames_presented + n < 2 ^ 64
    → (s'.frames_rendered ≤ s'.frames_presented) × (s'.frames_presented ≤ s.frames_presented + n)

Grows-then : (a b : ℕ) (s s1 s2 : StreamOut) → Grows a s s1 → Grows b s1 s2 → Grows (a + b) s s2
Grows-then a b s s1 s2 g h ordered small =
    let (o, l) = g ordered (omega arith) in let (o', l') = h o (omega arith) in (o', omega arith)

module _ (codes : SessionCodes) (default_pcm : PcmConfiguration) (frame_size : ℕ)
    (keys : Keys) where
  unfoldable pub call : Call → State → State
  call (standby env) state = (out_standby codes env state).0
  call (pause env) state = (out_pause codes env state).0
  call (resume env) state = (out_resume codes env state).0
  call (write env polls bytes now) state =
      let w = out_write codes default_pcm frame_size env polls bytes now state in
      (w.stream, w.sessions)
  call (set_parameters env params) state =
      out_set_parameters codes default_pcm keys env params state
  call (callback e) (s, m) = (record s { port = handle codes e s.port }, m)

  unfoldable pub run_stream : List Call → State → State
  run_stream [] state = state
  run_stream (c ∷ cs) state = run_stream cs (call c state)

  shut_down-Grows :
      (answer : Bool) (state : State) → Grows 0 state.0 (shut_down codes answer state).0
  unfolding shut_down
  shut_down-Grows answer (s, m) ordered small =
      elim (Bool-cases (is_state s StreamState.disabled)) [
        | inl off ↦ rw off (ordered, omega arith)
        | inr on ↦ rw on (omega arith, omega arith)
      ]

  closed-Grows :
      (b : Bool) (answer : Bool) (state : State)
      → Grows 0 state.0 (if b then shut_down codes answer state else state).0
  closed-Grows true answer state = shut_down-Grows answer state
  closed-Grows false answer state = λ ordered small. (ordered, omega arith)

  reload_config-Grows :
      (b : Bool) (state : State)
      → Grows 0 state.0 (if b then reload_config codes default_pcm keys state else state).0
  unfolding reload_config
  reload_config-Grows true (s, m) = λ ordered small. ground arith
  reload_config-Grows false state = λ ordered small. (ordered, omega arith)

  set_a2dp_suspended-Grows :
      (env : PortEnv) (params : Params) (state : State)
      → Grows 0 state.0 (set_a2dp_suspended codes default_pcm keys env params state).0
  unfolding set_a2dp_suspended suspend_a2dp resume_a2dp
  set_a2dp_suspended-Grows env params (s, m) ordered small = ground arith

  out_set_parameters-Grows :
      (env : PortEnv) (params : Params) (state : State)
      → Grows 0 state.0 (out_set_parameters codes default_pcm keys env params state).0
  unfolding out_set_parameters
  out_set_parameters-Grows env params state =
      let configured : State =
        if wants_config keys params then reload_config codes default_pcm keys state else state in
      let a2dp = set_a2dp_suspended codes default_pcm keys env params configured in
      let closing = is_value (find_param keys.closing params) "true" in
      let closed : State = if closing then shut_down codes env.answer a2dp else a2dp in
      let exiting = is_value (find_param keys.exiting params) "1" in
      let exited : State = if exiting then shut_down codes env.answer closed else closed in
      Grows-then 0 0 state.0 closed.0 exited.0
        (Grows-then 0 0 state.0 a2dp.0 closed.0
          (Grows-then 0 0 state.0 configured.0 a2dp.0
            (reload_config-Grows (wants_config keys params) state)
            (set_a2dp_suspended-Grows env params configured))
          (closed-Grows closing env.answer a2dp))
        (closed-Grows exiting env.answer closed)

  out_write-Grows :
      (env : PortEnv) (polls : ℕ → Poll) (bytes now : ℕ) (state : State)
      → Grows (bytes / frame_size) state.0 (call (write env polls bytes now) state).0
  unfolding call
  out_write-Grows env polls bytes now (s, m) ordered small =
      let w = out_write codes default_pcm frame_size env polls bytes now (s, m) in
      let (below, outcome) =
        out_write-outcome codes default_pcm frame_size env polls bytes now s m in
      elim outcome [
        | inl (tried, inl (nothing, (r, p))) ↦ (omega arith, omega arith)
        | inl (tried, inr (something, (r, p))) ↦ (omega arith, omega arith)
        | inr (refused, (r, p), slept, result) ↦ (omega arith, omega arith)
      ]

  call-Grows :
      (c : Call) (state : State) → Grows (offered frame_size (c ∷ [])) state.0 (call c state).0
  unfolding call offered out_standby out_pause out_resume
  call-Grows (standby env) (s, m) ordered small = ground arith
  call-Grows (pause env) (s, m) ordered small = ground arith
  call-Grows (resume env) (s, m) ordered small = ground arith
  call-Grows (write env polls bytes now) state ordered small =
      let (o, l) = out_write-Grows env polls bytes now state ordered (omega arith) in
      (o, omega arith)
  call-Grows (set_parameters env params) state ordered small =
      out_set_parameters-Grows env params state ordered small
  call-Grows (callback e) (s, m) ordered small = (ordered, omega arith)

  offered-then :
      (c : Call) (cs : List Call)
      → offered frame_size (c ∷ cs) ≡ offered frame_size (c ∷ []) + offered frame_size cs
  unfolding offered
  offered-then (write env polls bytes now) cs = omega arith
  offered-then _ cs = omega arith

  -- Over any sequence of standbys, pauses, resumes, writes, parameters and callbacks, a stream that has
  -- rendered at most what it has presented stays so, and presents at most the frames of the buffers that
  -- are written to it beyond what it had, as long as that count fits 64 bits.
  pub run_stream-frames :
      (calls : List Call) (s : StreamOut) (m : Instances)
      → s.frames_rendered ≤ s.frames_presented
      → s.frames_presented + offered frame_size calls < 2 ^ 64
      → let s' = (run_stream calls (s, m)).0 in
        (s'.frames_rendered ≤ s'.frames_presented)
        × (s'.frames_presented ≤ s.frames_presented + offered frame_size calls)
  unfolding run_stream offered
  run_stream-frames [] s m ordered small = (ordered, omega arith)
  run_stream-frames (c ∷ cs) s m ordered small =
      let sum = offered-then c cs in
      let (s1, m1) = call c (s, m) in
      let (o, l) = call-Grows c (s, m) ordered (omega arith) in
      let (o', l') = run_stream-frames cs s1 m1 o (omega arith) in (o', omega arith)
