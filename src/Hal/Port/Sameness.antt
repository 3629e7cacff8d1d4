-- ===== src/Hal/Port/Sameness.antt =====
-- What the operations of a port leave as it is.
use android_device_peter_gsi.Base.{◌≡◌, refl, ◌∙◌, arith, inl, inr, List, [], ◌∷◌, Bool-cases}
use android_device_peter_gsi.Session.Types.{SessionCodes}
use android_device_peter_gsi.Hal.Port.{
  StreamState, same_state, Port, PortEvent, set_state, control_result_handler,
  session_changed_handler, handle, handle_all,
}
use android_device_peter_gsi.Hal.Port.Control.{wait_while, condwait_state}

module _ (codes : SessionCodes) where
  -- What no operation but the set-up and the tear-down changes.
  abbrev pub SamePort : Port → Port → Type 0
  SamePort p q =
      (q.cookie ≡ p.cookie)
      × (q.session_type ≡ p.session_type)
      × (q.is_stereo_to_mono ≡ p.is_stereo_to_mono)

  pub SamePort-then : (p q r : Port) → SamePort p q → SamePort q r → SamePort p r
  SamePort-then p q r (a, b, c) (d, e, f) = (d ∙ a, e ∙ b, f ∙ c)

  pub handle-SamePort : (e : PortEvent) (p : Port) → SamePort p (handle codes e p)
  unfolding handle control_result_handler session_changed_handler
  handle-SamePort (PortEvent.control_result cookie status) p = ground arith
  handle-SamePort (PortEvent.session_changed cookie) p = ground arith

  pub handle_all-SamePort : (es : List PortEvent) (p : Port) → SamePort p (handle_all codes es p)
  unfolding handle_all
  handle_all-SamePort [] p = (refl, refl, refl)
  handle_all-SamePort (e ∷ es) p =
      SamePort-then p (handle codes e p) (handle_all codes es (handle codes e p))
        (handle-SamePort e p) (handle_all-SamePort es (handle codes e p))

  pub wait_while-SamePort :
      (state : StreamState) (wakes : List (List PortEvent)) (p : Port)
      → SamePort p (wait_while codes state wakes p).0
  unfolding wait_while
  wait_while-SamePort state [] p = (refl, refl, refl)
  wait_while-SamePort state (wake ∷ wakes) p = elim (Bool-cases (same_state p.state state)) [
    | inr left ↦ rw left (refl, refl, refl)
    | inl stays ↦ rw stays (
        SamePort-then p (handle_all codes wake p)
          (wait_while codes state wakes (handle_all codes wake p)).0 (handle_all-SamePort wake p)
          (wait_while-SamePort state wakes (handle_all codes wake p)))
  ]

  pub condwait_state-SamePort :
      (state : StreamState) (wakes : List (List PortEvent)) (p : Port)
      → SamePort p (condwait_state codes state wakes p).0
  unfolding condwait_state
  condwait_state-SamePort StreamState.starting wakes p =
      wait_while-SamePort StreamState.starting wakes p
  condwait_state-SamePort StreamState.suspending wakes p =
      wait_while-SamePort StreamState.suspending wakes p
  condwait_state-SamePort _ wakes p = (refl, refl, refl)

  pub requested-SamePort :
      (state : StreamState) (during : List PortEvent) (wakes : List (List PortEvent)) (p : Port)
      → SamePort p (handle_all codes during (set_state state p))
        × SamePort p
            (condwait_state codes state wakes (handle_all codes during (set_state state p))).0
  unfolding set_state
  requested-SamePort state during wakes p =
      let called_port = handle_all codes during (set_state state p) in
      let same = handle_all-SamePort during (set_state state p) in
      (
        same,
        SamePort-then p called_port (condwait_state codes state wakes called_port).0 same
            (condwait_state-SamePort state wakes called_port),
      )
