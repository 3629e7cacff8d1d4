-- ===== src/Hal/Port/Confirmation.antt =====
-- A start that succeeds has been confirmed by the stack, and one that the stack refuses leaves the port in a
-- state that only a callback or a stop leaves.
use android_device_peter_gsi.Base.{
  ℕ, ◌≡◌, refl, sym, ap, subst, inl, inr, arith, Bool, true, false, ◌&&◌, ◌||◌, List, [], ◌∷◌, ◌==◌,
  Bool-cases,
}
use android_device_peter_gsi.Session.Types.{SessionCodes, BluetoothAudioStatus, success}
use android_device_peter_gsi.Session.Control.{StackCall, start_stream_control}
use android_device_peter_gsi.Session.State.{is_session_ready}
use android_device_peter_gsi.Session.Instances.{Instances, with_session, get_session_instance}
use android_device_peter_gsi.Session.Instances.Control as Sessions
use android_device_peter_gsi.Session.Instances.Refinement.{
  session_of, get_session_instance-session_of,
}
use android_device_peter_gsi.Hal.Port.{
  StreamState, same_state, Port, PortEvent, next_state, set_state, in_use, control_result_handler,
  session_changed_handler, handle, handle_all,
}
use android_device_peter_gsi.Hal.Port.Control.{
  Controlled, wait_while, condwait_state, start, suspend,
}
use android_device_peter_gsi.Hal.Port.Sameness.{handle_all-SamePort, handle-SamePort}

abbrev is_confirmation : ℕ → PortEvent → Bool
is_confirmation cookie (PortEvent.control_result c success) = cookie == c
is_confirmation cookie _ = false

-- Whether some event says that the stack has succeeded in what was asked of it, for a cookie.
unfoldable pub confirmed : ℕ → List PortEvent → Bool
confirmed cookie [] = false
confirmed cookie (e ∷ es) = is_confirmation cookie e || confirmed cookie es

unfoldable pub confirmed_by : ℕ → List (List PortEvent) → Bool
unfolding confirmed
confirmed_by cookie [] = false
confirmed_by cookie (wake ∷ wakes) = confirmed cookie wake || confirmed_by cookie wakes

next_state-started :
    (state : StreamState) (status : BluetoothAudioStatus)
    → same_state state StreamState.started ≡ false
    → same_state (next_state state status) StreamState.started ≡ true
    → status ≡ success
unfolding next_state
next_state-started StreamState.starting success h k = refl
next_state-started StreamState.starting _ h k = cc
next_state-started StreamState.suspending success h k = refl
next_state-started StreamState.suspending _ h k = cc
next_state-started StreamState.started status h k = cc
next_state-started _ status h k = cc

module _ (codes : SessionCodes) where
  handle-started :
      (e : PortEvent) (p : Port)
      → same_state p.state StreamState.started ≡ false
      → same_state (handle codes e p).state StreamState.started ≡ true
      → is_confirmation p.cookie e ≡ true
  unfolding handle control_result_handler session_changed_handler
  handle-started (PortEvent.session_changed cookie) p h k = ground arith
  handle-started (PortEvent.control_result cookie status) p h k =
      elim (Bool-cases (in_use codes p)) [
        | inr unused ↦ ground (arith, unused)
        | inl used ↦ elim (Bool-cases (p.cookie == cookie)) [
          | inr other ↦ ground (arith, used, other)
          | inl own ↦
              let e : status ≡ success =
                next_state-started p.state status h (ground (arith, used, own, k)) in
              subst (λ x. is_confirmation p.cookie (PortEvent.control_result cookie x) ≡ true)
                (sym e) own
        ]
      ]

  handle_all-started :
      (es : List PortEvent) (p : Port)
      → same_state p.state StreamState.started ≡ false
      → same_state (handle_all codes es p).state StreamState.started ≡ true
      → confirmed p.cookie es ≡ true
  unfolding handle_all confirmed
  handle_all-started [] p h k = ground (arith, h, k)
  handle_all-started (e ∷ es) p h k =
      elim (Bool-cases (same_state (handle codes e p).state StreamState.started)) [
        | inl now ↦ ground (arith, handle-started e p h now)
        | inr later ↦
            let rest : confirmed p.cookie es ≡ true =
              subst (λ c. confirmed c es ≡ true) (handle-SamePort codes e p).0
                (handle_all-started es (handle codes e p) later k) in
            ground (arith, rest)
      ]

  wait_while-started :
      (state : StreamState) (wakes : List (List PortEvent)) (p : Port)
      → same_state p.state StreamState.started ≡ false
      → same_state (wait_while codes state wakes p).0.state StreamState.started ≡ true
      → confirmed_by p.cookie wakes ≡ true
  unfolding wait_while confirmed_by
  wait_while-started state [] p h k = ground (arith, h, k)
  wait_while-started state (wake ∷ wakes) p h k =
      let q = handle_all codes wake p in
      elim (Bool-cases (same_state p.state state)) [
        | inr left ↦ ground (arith, h, k, left)
        | inl stays ↦ elim (Bool-cases (same_state q.state StreamState.started)) [
          | inl now ↦ ground (arith, handle_all-started wake p h now)
          | inr later ↦
              let rest : confirmed_by p.cookie wakes ≡ true =
                subst (λ c. confirmed_by c wakes ≡ true) (handle_all-SamePort codes wake p).0
                  (wait_while-started state wakes q later (ground (arith, k, stays))) in
              ground (arith, rest)
        ]
      ]

  -- The session that a call of the stack looks at.
  instance-ready :
      (p : Port) (sessions : Instances)
      → is_session_ready (get_session_instance codes p.session_type sessions).1
        ≡ is_session_ready (session_of codes sessions p.session_type)
  instance-ready p sessions =
      ap is_session_ready (get_session_instance-session_of codes p.session_type sessions).1

  -- A port that waits for the start and is started at the end has been told so.
  waited-confirmed :
      (during : List PortEvent) (wakes : List (List PortEvent)) (p : Port)
      → let q = handle_all codes during (set_state StreamState.starting p) in
        same_state (wait_while codes StreamState.starting wakes q).0.state StreamState.started
          ≡ true
        → (confirmed p.cookie during || confirmed_by p.cookie wakes) ≡ true
  unfolding set_state
  waited-confirmed during wakes p h =
      let p1 = set_state StreamState.starting p in
      let q = handle_all codes during p1 in
      elim (Bool-cases (same_state q.state StreamState.started)) [
        | inl now ↦ ground (arith, handle_all-started during p1 refl now)
        | inr later ↦
            let rest : confirmed_by p.cookie wakes ≡ true =
              subst (λ c. confirmed_by c wakes ≡ true) (handle_all-SamePort codes during p1).0
                (wait_while-started StreamState.starting wakes q later h) in
            ground (arith, rest)
      ]

  -- If `start` returns true, the port was in use and in standby, its session was ready, the stack was
  -- called once, to start the stream with no low latency, and took the call, the port has become started,
  -- and since the call a callback for the cookie of the port has reported success.
  pub start-started :
      (answer : Bool) (during : List PortEvent) (wakes : List (List PortEvent)) (p : Port)
      (sessions : Instances)
      → (start codes answer during wakes p sessions).result ≡ true
      → let r = start codes answer during wakes p sessions in
        (in_use codes p ≡ true)
        × (same_state p.state StreamState.standby ≡ true)
        × (is_session_ready (session_of codes sessions p.session_type) ≡ true)
        × (answer ≡ true)
        × (r.calls ≡ StackCall.start_stream false ∷ [])
        × (same_state r.port.state StreamState.started ≡ true)
        × ((confirmed p.cookie during || confirmed_by p.cookie wakes) ≡ true)
  unfolding start condwait_state start_stream_control Sessions.start_stream with_session
  start-started answer during wakes p sessions h =
      let same = instance-ready p sessions in
      let told = waited-confirmed during wakes p in
      elim (Bool-cases (is_session_ready (get_session_instance codes p.session_type sessions).1)) [
        | inr idle ↦ ground (arith, h, idle)
        | inl ready ↦ ground (arith, h, ready, same, told)
      ]

  -- An operation that did nothing, and says so.
  abbrev pub IsIdle : Port → Instances → Controlled → Type 0
  IsIdle p sessions r = (r.port ≡ p) × (r.sessions ≡ sessions) × (r.calls ≡ []) × (r.result ≡ false)

  -- If the port is in use and in standby and the stack does not take the start, as its session is not ready
  -- or the call fails, and no callback comes in between, then `start` returns false and leaves the port
  -- starting; each further start and each suspension returns false, makes no call and changes nothing.
  pub start-refused :
      (answer : Bool) (wakes : List (List PortEvent)) (p : Port) (sessions : Instances)
      → in_use codes p ≡ true
      → same_state p.state StreamState.standby ≡ true
      → (is_session_ready (session_of codes sessions p.session_type) && answer) ≡ false
      → let r = start codes answer [] wakes p sessions in
        (r.result ≡ false)
        × (r.port.state ≡ StreamState.starting)
        × ((again : Bool) (during : List PortEvent) (more : List (List PortEvent)) (m : Instances)
            → IsIdle r.port m (start codes again during more r.port m)
              × IsIdle r.port m (suspend codes again during more r.port m))
  unfolding start suspend start_stream_control Sessions.start_stream with_session handle_all
      set_state
  start-refused answer wakes p sessions used standby refused =
      let same = instance-ready p sessions in
      elim (Bool-cases (is_session_ready (get_session_instance codes p.session_type sessions).1)) [
        | inr idle ↦ ground (arith, used, standby, idle)
        | inl ready ↦ ground (arith, used, standby, ready, same, refused)
      ]
