-- ===== src/Hal/Port/Diagram.antt =====
-- The states of a port, as a transition diagram whose edges bear what causes them.
use android_device_peter_gsi.Base.{
  ℕ, ◌≡◌, ◌≢◌, refl, sym, ap, ◌∙◌, subst, not, inl, inr, arith, true, false, List, [], ◌∷◌, ◌++◌,
  ◌==◌, Bool-cases, if◌then◌else◌,
}
use android_device_peter_gsi.Session.Types.{
  SessionCodes, BluetoothAudioStatus, success, reconfiguration, cookie_undefined,
}
use android_device_peter_gsi.Hal.Port.{
  StreamState, same_state, Port, PortEvent, next_state, in_use, control_result_handler,
  session_changed_handler, handle, handle_all,
}
use android_device_peter_gsi.Hal.Port.Control.{wait_while}
use android_device_peter_gsi.Hal.Port.Sameness.{handle-SamePort, handle_all-SamePort}

-- What may move a port: its own requests, the results that the stack reports, and a changed session.
pub data Cause : Type 0 where
  start_request suspend_request stop_request change : Cause
  report : BluetoothAudioStatus → Cause

-- The states in which a port expects no result.
pub data ExpectsNothing : StreamState → Type 0 where
  when_disabled : ExpectsNothing StreamState.disabled
  when_standby : ExpectsNothing StreamState.standby
  when_unknown : ExpectsNothing StreamState.unknown

-- The steps of a port.
pub data Edge : Cause → StreamState → StreamState → Type 0 where
  start_requested : Edge start_request StreamState.standby StreamState.starting
  start_confirmed : Edge (report success) StreamState.starting StreamState.started
  start_failed :
      {status : BluetoothAudioStatus}
      → status ≢ success
      → Edge (report status) StreamState.starting StreamState.standby
  suspend_requested : Edge suspend_request StreamState.started StreamState.suspending
  suspend_confirmed : Edge (report success) StreamState.suspending StreamState.standby
  suspend_failed :
      {status : BluetoothAudioStatus}
      → status ≢ success
      → Edge (report status) StreamState.suspending StreamState.disabled
  suspended_by_stack : Edge (report success) StreamState.started StreamState.standby
  reconfigured : Edge (report reconfiguration) StreamState.started StreamState.standby
  kept :
      {status : BluetoothAudioStatus}
      → status ≢ success
      → status ≢ reconfiguration
      → Edge (report status) StreamState.started StreamState.started
  unexpected :
      {status : BluetoothAudioStatus} {x : StreamState}
      → ExpectsNothing x
      → Edge (report status) x x
  disconnected : {x : StreamState} → Edge change x StreamState.disabled
  stopped : {x : StreamState} → Edge stop_request x StreamState.disabled

-- A way through the diagram, one edge for each cause.
pub data Trail : List Cause → StreamState → StreamState → Type 0 where
  here : {x : StreamState} → Trail [] x x
  next :
      {cause : Cause} {causes : List Cause} {x y z : StreamState}
      → Edge cause x y
      → Trail causes y z
      → Trail (cause ∷ causes) x z

pub Trail-append :
    {cs ds : List Cause} {x y z : StreamState} → Trail cs x y → Trail ds y z → Trail (cs ++ ds) x z
Trail-append here k = k
Trail-append (next e h) k = next e (Trail-append h k)

abbrev pub cookie_of : PortEvent → ℕ
cookie_of (PortEvent.control_result cookie status) = cookie
cookie_of (PortEvent.session_changed cookie) = cookie

abbrev pub cause_of : PortEvent → Cause
cause_of (PortEvent.control_result cookie status) = report status
cause_of (PortEvent.session_changed cookie) = change

-- The causes among the calls of callbacks: those for the cookie of the port.
unfoldable pub heard : ℕ → List PortEvent → List Cause
heard cookie [] = []
heard cookie (e ∷ es) =
    let rest = heard cookie es in if cookie == cookie_of e then cause_of e ∷ rest else rest

-- A wait for a port to leave a state: it ends when the thread sees another state, or at the timeout, and
-- what is called back before each look moves the port.
pub data Waits (cookie : ℕ) (state : StreamState)
    : List (List PortEvent) → StreamState → StreamState → Type 0 where
  timed_out : {x : StreamState} → Waits cookie state [] x x
  left :
      {wakes : List (List PortEvent)} {x : StreamState} → x ≢ state → Waits cookie state wakes x x
  looks :
      {wake : List PortEvent} {wakes : List (List PortEvent)} {x y z : StreamState}
      → x ≡ state
      → Trail (heard cookie wake) x y
      → Waits cookie state wakes y z
      → Waits cookie state (wake ∷ wakes) x z

next_state-Edge :
    (x : StreamState) (status : BluetoothAudioStatus) → Edge (report status) x (next_state x status)
unfolding next_state
next_state-Edge StreamState.started success = suspended_by_stack
next_state-Edge StreamState.started reconfiguration = reconfigured
next_state-Edge StreamState.started _ = kept (λ e. cc) (λ e. cc)
next_state-Edge StreamState.starting success = start_confirmed
next_state-Edge StreamState.starting _ = start_failed (λ e. cc)
next_state-Edge StreamState.suspending success = suspend_confirmed
next_state-Edge StreamState.suspending _ = suspend_failed (λ e. cc)
next_state-Edge StreamState.disabled status = unexpected when_disabled
next_state-Edge StreamState.standby status = unexpected when_standby
next_state-Edge StreamState.unknown status = unexpected when_unknown

pub same_state-eq : (x y : StreamState) → same_state x y ≡ true → x ≡ y
same_state-eq StreamState.disabled StreamState.disabled h = refl
same_state-eq StreamState.standby StreamState.standby h = refl
same_state-eq StreamState.starting StreamState.starting h = refl
same_state-eq StreamState.started StreamState.started h = refl
same_state-eq StreamState.suspending StreamState.suspending h = refl
same_state-eq StreamState.unknown StreamState.unknown h = refl
same_state-eq _ _ h = cc

same_state_self : (x : StreamState) → same_state x x ≡ true
same_state_self StreamState.disabled = refl
same_state_self StreamState.standby = refl
same_state_self StreamState.starting = refl
same_state_self StreamState.started = refl
same_state_self StreamState.suspending = refl
same_state_self StreamState.unknown = refl

pub same_state-ne : (x y : StreamState) → same_state x y ≡ false → x ≢ y
same_state-ne x y h e =
    let self = subst (λ z. same_state x z ≡ true) e (same_state_self x) in absurd (cc)

module _ (codes : SessionCodes) where
  handle-Edge :
      (e : PortEvent) (p : Port)
      → in_use codes p ≡ true
      → (p.cookie == cookie_of e) ≡ true
      → Edge (cause_of e) p.state (handle codes e p).state
  unfolding handle control_result_handler session_changed_handler
  handle-Edge (PortEvent.control_result cookie status) p used own =
      rw (used, own) (next_state-Edge p.state status)
  handle-Edge (PortEvent.session_changed cookie) p used own = rw (used, own) disconnected

  handle-other :
      (e : PortEvent) (p : Port) → (p.cookie == cookie_of e) ≡ false → handle codes e p ≡ p
  unfolding handle
  handle-other (PortEvent.control_result cookie status) p other = ground arith
  handle-other (PortEvent.session_changed cookie) p other = ground arith

  pub handle-unused : (e : PortEvent) (p : Port) → in_use codes p ≡ false → handle codes e p ≡ p
  unfolding handle
  handle-unused (PortEvent.control_result cookie status) p unused = ground arith
  handle-unused (PortEvent.session_changed cookie) p unused = ground arith

  pub used-same : (p q : Port) → q.cookie ≡ p.cookie → in_use codes p ≡ true → in_use codes q ≡ true
  unfolding in_use
  used-same p q same used = ap (λ c. not (c == cookie_undefined codes)) same ∙ used

  -- The calls of a port's callbacks move it along the diagram, by the calls for its cookie.
  pub handle_all-Trail :
      (es : List PortEvent) (p : Port)
      → in_use codes p ≡ true
      → Trail (heard p.cookie es) p.state (handle_all codes es p).state
  unfolding handle_all heard
  handle_all-Trail [] p used = here
  handle_all-Trail (e ∷ es) p used = elim (Bool-cases (p.cookie == cookie_of e)) [
    | inl own ↦
        let same = (handle-SamePort codes e p).0 in
        let rest =
          handle_all-Trail es (handle codes e p) (used-same p (handle codes e p) same used) in
        rw own (
          next (handle-Edge e p used own) (
            subst
              (λ c.
                Trail (heard c es) (handle codes e p).state
                  (handle_all codes es (handle codes e p)).state)
              same rest))
    | inr other ↦
        let same = handle-other e p other in
        rw other (
          subst (λ q. Trail (heard p.cookie es) p.state (handle_all codes es q).state) (sym same)
            (handle_all-Trail es p used))
  ]

  pub wait_while-Waits :
      (state : StreamState) (wakes : List (List PortEvent)) (p : Port)
      → in_use codes p ≡ true
      → Waits p.cookie state wakes p.state (wait_while codes state wakes p).0.state
  unfolding wait_while
  wait_while-Waits state [] p used = timed_out
  wait_while-Waits state (wake ∷ wakes) p used = elim (Bool-cases (same_state p.state state)) [
    | inr gone ↦ rw gone (left (same_state-ne p.state state gone))
    | inl stays ↦
        let q = handle_all codes wake p in
        let same = (handle_all-SamePort codes wake p).0 in
        let rest = wait_while-Waits state wakes q (used-same p q same used) in
        rw stays (
          looks (same_state-eq p.state state stays) (handle_all-Trail wake p used) (
            subst (λ c. Waits c state wakes q.state (wait_while codes state wakes q).0.state) same
              rest))
  ]
