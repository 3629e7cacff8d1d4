-- ===== src/Hal/Port/Runs.antt =====
-- Sequences of operations of a port and of calls of its callbacks.
use android_device_peter_gsi.Base.{
  ◌≡◌, ◌≢◌, refl, sym, subst, arith, inl, inr, ◌⊎◌, Bool, true, false, List, [], ◌∷◌, Bool-cases,
}
use android_device_peter_gsi.Session.Types.{SessionCodes}
use android_device_peter_gsi.Session.Instances.{Instances}
use android_device_peter_gsi.Session.Instances.Control as Sessions
use android_device_peter_gsi.Hal.Port.{
  StreamState, same_state, Port, PortEvent, set_state, in_use, handle, handle_all,
}
use android_device_peter_gsi.Hal.Port.Control.{condwait_state, start, suspend, stop}
use android_device_peter_gsi.Hal.Port.Sameness.{
  SamePort, handle-SamePort, handle_all-SamePort, requested-SamePort,
}
use android_device_peter_gsi.Hal.Port.Diagram.{
  Cause, start_request, suspend_request, stop_request, Edge, start_requested, suspend_requested,
  stopped, Trail, next, heard, Waits, same_state-eq, same_state-ne, used-same, handle-unused,
  handle_all-Trail, wait_while-Waits,
}

pub data PortCall : Type 0 where
  start_call suspend_call : Bool → List PortEvent → List (List PortEvent) → PortCall
  stop_call : Bool → PortCall
  callback : PortEvent → PortCall

-- Where a call moves a port. A request has an edge from one state only, and is refused in any other; the
-- callbacks while the stack is called come behind it, and then those of the wait, if the stack has taken
-- the call.
pub data Moves (codes : SessionCodes) (p : Port) (m : Instances)
    : PortCall → StreamState → Type 0 where
  start_answered :
      {answer : Bool} {during : List PortEvent} {wakes : List (List PortEvent)} {x y : StreamState}
      → in_use codes p ≡ true
      → (Sessions.start_stream codes p.session_type false answer m).1.1 ≡ true
      → Trail (start_request ∷ heard p.cookie during) p.state x
      → Waits p.cookie StreamState.starting wakes x y
      → Moves codes p m (start_call answer during wakes) y
  start_unanswered :
      {answer : Bool} {during : List PortEvent} {wakes : List (List PortEvent)} {x : StreamState}
      → in_use codes p ≡ true
      → (Sessions.start_stream codes p.session_type false answer m).1.1 ≡ false
      → Trail (start_request ∷ heard p.cookie during) p.state x
      → Moves codes p m (start_call answer during wakes) x
  start_refused :
      {answer : Bool} {during : List PortEvent} {wakes : List (List PortEvent)}
      → p.state ≢ StreamState.standby
      → Moves codes p m (start_call answer during wakes) p.state
  suspend_answered :
      {answer : Bool} {during : List PortEvent} {wakes : List (List PortEvent)} {x y : StreamState}
      → in_use codes p ≡ true
      → (Sessions.suspend_stream codes p.session_type answer m).1.1 ≡ true
      → Trail (suspend_request ∷ heard p.cookie during) p.state x
      → Waits p.cookie StreamState.suspending wakes x y
      → Moves codes p m (suspend_call answer during wakes) y
  suspend_unanswered :
      {answer : Bool} {during : List PortEvent} {wakes : List (List PortEvent)} {x : StreamState}
      → in_use codes p ≡ true
      → (Sessions.suspend_stream codes p.session_type answer m).1.1 ≡ false
      → Trail (suspend_request ∷ heard p.cookie during) p.state x
      → Moves codes p m (suspend_call answer during wakes) x
  suspend_refused :
      {answer : Bool} {during : List PortEvent} {wakes : List (List PortEvent)}
      → p.state ≢ StreamState.started
      → Moves codes p m (suspend_call answer during wakes) p.state
  stop_taken :
      {answer : Bool} {x : StreamState}
      → in_use codes p ≡ true
      → Edge stop_request p.state x
      → Moves codes p m (stop_call answer) x
  callback_taken :
      {e : PortEvent} {x : StreamState}
      → in_use codes p ≡ true
      → Trail (heard p.cookie (e ∷ [])) p.state x
      → Moves codes p m (callback e) x
  not_in_use : {c : PortCall} → in_use codes p ≡ false → Moves codes p m c p.state

module _ (codes : SessionCodes) where
  unfoldable pub port_call : PortCall → Port × Instances → Port × Instances
  port_call (start_call answer during wakes) (p, sessions) =
      let r = start codes answer during wakes p sessions in (r.port, r.sessions)
  port_call (suspend_call answer during wakes) (p, sessions) =
      let r = suspend codes answer during wakes p sessions in (r.port, r.sessions)
  port_call (stop_call answer) (p, sessions) =
      let r = stop codes answer p sessions in (r.port, r.sessions)
  port_call (callback e) (p, sessions) = (handle codes e p, sessions)

  unfoldable pub run_port : List PortCall → Port × Instances → Port × Instances
  run_port [] s = s
  run_port (c ∷ cs) s = run_port cs (port_call c s)

-- A run of calls that leads from a port to another; each call leaves the sessions for the next.
pub data IsRun (codes : SessionCodes) : List PortCall → Port → Instances → Port → Type 0 where
  done : {p : Port} {m : Instances} → IsRun codes [] p m p
  more :
      {c : PortCall} {cs : List PortCall} {p q r : Port} {m : Instances}
      → Moves codes p m c q.state
      → SamePort codes p q
      → IsRun codes cs q (port_call codes c (p, m)).1 r
      → IsRun codes (c ∷ cs) p m r

module _ (codes : SessionCodes) where
  port_call-SamePort :
      (c : PortCall) (p : Port) (sessions : Instances)
      → SamePort codes p (port_call codes c (p, sessions)).0
  unfolding port_call start suspend stop set_state
  port_call-SamePort (start_call answer during wakes) p sessions =
      ground (arith, requested-SamePort codes StreamState.starting during wakes p)
  port_call-SamePort (suspend_call answer during wakes) p sessions =
      ground (arith, requested-SamePort codes StreamState.suspending during wakes p)
  port_call-SamePort (stop_call answer) p sessions = ground arith
  port_call-SamePort (callback e) p sessions = handle-SamePort codes e p

  condwait-Waits :
      (state : StreamState) (wakes : List (List PortEvent)) (p : Port)
      → (state ≡ StreamState.starting) ⊎ (state ≡ StreamState.suspending)
      → in_use codes p ≡ true
      → Waits p.cookie state wakes p.state (condwait_state codes state wakes p).0.state
  unfolding condwait_state
  condwait-Waits StreamState.starting wakes p waited used =
      wait_while-Waits codes StreamState.starting wakes p used
  condwait-Waits StreamState.suspending wakes p waited used =
      wait_while-Waits codes StreamState.suspending wakes p used
  condwait-Waits _ wakes p waited used = ground arith

  -- From a request on: what is called back while the stack is called, and the wait.
  requested-Trail :
      (cause : Cause) (state : StreamState) (during : List PortEvent)
      (wakes : List (List PortEvent)) (p : Port)
      → (state ≡ StreamState.starting) ⊎ (state ≡ StreamState.suspending)
      → in_use codes p ≡ true
      → Edge cause p.state state
      → let called_port = handle_all codes during (set_state state p) in
        Trail (cause ∷ heard p.cookie during) p.state called_port.state
        × Waits p.cookie state wakes called_port.state
            (condwait_state codes state wakes called_port).0.state
  unfolding set_state in_use
  requested-Trail cause state during wakes p waited used edge =
      let q = handle_all codes during (set_state state p) in
      let same = (handle_all-SamePort codes during (set_state state p)).0 in
      (
        next edge (handle_all-Trail codes during (set_state state p) used),
        subst (λ c. Waits c state wakes q.state (condwait_state codes state wakes q).0.state) same
            (condwait-Waits state wakes q waited (used-same codes p q same used)),
      )

  pub port_call-Moves :
      (c : PortCall) (p : Port) (sessions : Instances)
      → Moves codes p sessions c (port_call codes c (p, sessions)).0.state
  unfolding port_call start suspend stop set_state
  port_call-Moves (start_call answer during wakes) p sessions = elim (Bool-cases (in_use codes p)) [
    | inr idle ↦ rw idle (not_in_use idle)
    | inl used ↦ elim (Bool-cases (same_state p.state StreamState.standby)) [
      | inr other ↦
          rw (used, other) (start_refused (same_state-ne p.state StreamState.standby other))
      | inl ready ↦
          let standby = same_state-eq p.state StreamState.standby ready in
          let edge =
            subst (λ x. Edge start_request x StreamState.starting) (sym standby) start_requested in
          let (trail, waits) =
            requested-Trail start_request StreamState.starting during wakes p (inl refl) used
              edge in
          elim (Bool-cases (Sessions.start_stream codes p.session_type false answer sessions).1.1) [
            | inl taken ↦ rw (used, ready, taken) (start_answered used taken trail waits)
            | inr untaken ↦ rw (used, ready, untaken) (start_unanswered used untaken trail)
          ]
    ]
  ]
  port_call-Moves (suspend_call answer during wakes) p sessions =
      elim (Bool-cases (in_use codes p)) [
        | inr idle ↦ rw idle (not_in_use idle)
        | inl used ↦ elim (Bool-cases (same_state p.state StreamState.started)) [
          | inr other ↦
              rw (used, other) (suspend_refused (same_state-ne p.state StreamState.started other))
          | inl ready ↦
              let started = same_state-eq p.state StreamState.started ready in
              let edge =
                subst (λ x. Edge suspend_request x StreamState.suspending) (sym started)
                  suspend_requested in
              let (trail, waits) =
                requested-Trail suspend_request StreamState.suspending during wakes p (inr refl)
                  used edge in
              elim (Bool-cases (Sessions.suspend_stream codes p.session_type answer sessions).1.1) [
                | inl taken ↦ rw (used, ready, taken) (suspend_answered used taken trail waits)
                | inr untaken ↦ rw (used, ready, untaken) (suspend_unanswered used untaken trail)
              ]
        ]
      ]
  port_call-Moves (stop_call answer) p sessions = elim (Bool-cases (in_use codes p)) [
    | inr idle ↦ rw idle (not_in_use idle)
    | inl used ↦ rw used (stop_taken used stopped)
  ]
  port_call-Moves (callback e) p sessions = elim (Bool-cases (in_use codes p)) [
    | inr idle ↦
        subst (λ q. Moves codes p sessions (callback e) q.state)
          (sym (handle-unused codes e p idle)) (not_in_use idle)
    | inl used ↦ callback_taken used (handle_all-Trail codes (e ∷ []) p used)
  ]

  -- Over any sequence of starts, suspensions, stops and callbacks, with any answers of the stack and any
  -- callbacks in between, a port runs along the transition diagram. Each call moves it over one edge for
  -- each of its causes, in their order: the request, if the port is in use and in the state for it, then
  -- the results and the changes of the session that are called back for its own cookie, while the stack
  -- is called, and, if the stack has taken the call, while the thread waits for the port to leave the
  -- state that the request put it in. A port that is not in use is not moved. A run keeps the port's
  -- cookie, session type and mono setting.
  pub run_port-IsRun :
      (calls : List PortCall) (p : Port) (sessions : Instances)
      → IsRun codes calls p sessions (run_port codes calls (p, sessions)).0
  unfolding run_port
  run_port-IsRun [] p sessions = done
  run_port-IsRun (c ∷ cs) p sessions =
      let (q, sessions') = port_call codes c (p, sessions) in
      more (port_call-Moves c p sessions) (port_call-SamePort c p sessions)
        (run_port-IsRun cs q sessions')
