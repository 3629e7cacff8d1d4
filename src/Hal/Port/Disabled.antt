-- ===== src/Hal/Port/Disabled.antt =====
-- A disabled port stays disabled.
use android_device_peter_gsi.Base.{ℕ, ◌≡◌, refl, List, [], ◌∷◌}
use android_device_peter_gsi.Session.Types.{SessionCodes}
use android_device_peter_gsi.Session.Instances.{Instances}
use android_device_peter_gsi.Hal.Port.{StreamState, Port, PortEvent}
use android_device_peter_gsi.Hal.Port.Diagram.{
  Cause, Edge, stopped, disconnected, unexpected, Trail, here, next, Waits, timed_out, left, looks,
}
use android_device_peter_gsi.Hal.Port.Runs.{
  PortCall, Moves, start_answered, start_unanswered, start_refused, suspend_answered,
  suspend_unanswered, suspend_refused, stop_taken, callback_taken, not_in_use, port_call, run_port,
  port_call-Moves,
}

module _ (codes : SessionCodes) where
  Edge-disabled :
      {cause : Cause} (x y : StreamState)
      → Edge cause x y
      → x ≡ StreamState.disabled
      → y ≡ StreamState.disabled
  Edge-disabled x _ (unexpected w) e = e
  Edge-disabled x _ disconnected e = refl
  Edge-disabled x _ stopped e = refl
  Edge-disabled x y _ e = cc

  Trail-disabled :
      {causes : List Cause} (x y : StreamState)
      → Trail causes x y
      → x ≡ StreamState.disabled
      → y ≡ StreamState.disabled
  Trail-disabled x _ here e = e
  Trail-disabled x y (next edge rest) e = Trail-disabled _ y rest (Edge-disabled x _ edge e)

  Waits-disabled :
      {cookie : ℕ} {state : StreamState} {wakes : List (List PortEvent)} (x y : StreamState)
      → Waits cookie state wakes x y
      → x ≡ StreamState.disabled
      → y ≡ StreamState.disabled
  Waits-disabled x _ timed_out e = e
  Waits-disabled x _ (left gone) e = e
  Waits-disabled x y (looks stays trail rest) e =
      Waits-disabled _ y rest (Trail-disabled x _ trail e)

  Moves-disabled :
      {c : PortCall} (p : Port) (m : Instances) (y : StreamState)
      → Moves codes p m c y
      → p.state ≡ StreamState.disabled
      → y ≡ StreamState.disabled
  Moves-disabled p m y (start_answered used taken trail waits) e =
      Waits-disabled _ y waits (Trail-disabled p.state _ trail e)
  Moves-disabled p m y (start_unanswered used untaken trail) e = Trail-disabled p.state y trail e
  Moves-disabled p m y (suspend_answered used taken trail waits) e =
      Waits-disabled _ y waits (Trail-disabled p.state _ trail e)
  Moves-disabled p m y (suspend_unanswered used untaken trail) e = Trail-disabled p.state y trail e
  Moves-disabled p m y (stop_taken used edge) e = Edge-disabled p.state y edge e
  Moves-disabled p m y (callback_taken used trail) e = Trail-disabled p.state y trail e
  Moves-disabled p m _ (start_refused other) e = e
  Moves-disabled p m _ (suspend_refused other) e = e
  Moves-disabled p m _ (not_in_use idle) e = e

  -- A port that is disabled stays disabled over any sequence of starts, suspensions, stops and callbacks.
  pub run_port-disabled :
      (calls : List PortCall) (p : Port) (sessions : Instances)
      → p.state ≡ StreamState.disabled
      → (run_port codes calls (p, sessions)).0.state ≡ StreamState.disabled
  unfolding run_port
  run_port-disabled [] p sessions e = e
  run_port-disabled (c ∷ cs) p sessions e =
      let (q, sessions') = port_call codes c (p, sessions) in
      run_port-disabled cs q sessions'
        (Moves-disabled p sessions q.state (port_call-Moves codes c p sessions) e)
