-- ===== src/Hal/Port/Control.antt =====
-- bluetooth/audio/hw/device_port_proxy.cc: `Start`, `Suspend` and `Stop` of `BluetoothAudioPortAidl`, and
-- `CondwaitState`. The callbacks come from other threads: `during` holds those that run while the stack
-- is called, and each element of `wakes` those that run before the waiting thread looks at the state
-- again; the end of `wakes` is the timeout of 4500 ms. `answer` is whether the stack takes the call.
use android_device_peter_gsi.Base.{Bool, true, false, not, ◌&&◌, List, [], ◌∷◌, if◌then◌else◌}
use android_device_peter_gsi.Session.Types.{SessionCodes}
use android_device_peter_gsi.Session.Control.{StackCall}
use android_device_peter_gsi.Session.Instances.{Instances}
use android_device_peter_gsi.Session.Instances.Control as Sessions
use android_device_peter_gsi.Hal.Port.{
  StreamState, same_state, Port, PortEvent, set_state, in_use, handle_all,
}

-- What an operation leaves: the port, the sessions, the calls of the stack, and its result.
pub record Controlled : Type 0 where
  pub port : Port
  pub sessions : Instances
  pub calls : List StackCall
  pub result : Bool

module _ (codes : SessionCodes) where
  -- `wait_for` with the test that the port has left a state.
  unfoldable pub wait_while : StreamState → List (List PortEvent) → Port → Port × Bool
  unfolding handle_all
  wait_while state [] p = (p, not (same_state p.state state))
  wait_while state (wake ∷ wakes) p =
      let waited = wait_while state wakes (handle_all codes wake p) in
      if same_state p.state state then waited else (p, true)

  unfoldable pub condwait_state : StreamState → List (List PortEvent) → Port → Port × Bool
  unfolding wait_while
  condwait_state StreamState.starting wakes p =
      let (p', retval) = wait_while StreamState.starting wakes p in
      (p', retval && same_state p'.state StreamState.started)
  condwait_state StreamState.suspending wakes p =
      let (p', retval) = wait_while StreamState.suspending wakes p in
      (p', retval && same_state p'.state StreamState.standby)
  condwait_state _ wakes p = (p, false)

  unfoldable pub start :
      Bool → List PortEvent → List (List PortEvent) → Port → Instances → Controlled
  unfolding condwait_state Sessions.start_stream in_use
  start answer during wakes p sessions =
      let (sessions', (calls, called)) =
        Sessions.start_stream codes p.session_type false answer sessions in
      let called_port = handle_all codes during (set_state StreamState.starting p) in
      let (waited, retval) = condwait_state StreamState.starting wakes called_port in
      if in_use codes p && same_state p.state StreamState.standby
      then record {
        port = if called then waited else called_port;
        sessions = sessions';
        calls = calls;
        result = if called then retval else false;
      }
      else record { port = p; sessions = sessions; calls = []; result = false }

  unfoldable pub suspend :
      Bool → List PortEvent → List (List PortEvent) → Port → Instances → Controlled
  unfolding condwait_state Sessions.suspend_stream in_use
  suspend answer during wakes p sessions =
      let (sessions', (calls, called)) =
        Sessions.suspend_stream codes p.session_type answer sessions in
      let called_port = handle_all codes during (set_state StreamState.suspending p) in
      let (waited, retval) = condwait_state StreamState.suspending wakes called_port in
      if in_use codes p && same_state p.state StreamState.started
      then record {
        port = if called then waited else called_port;
        sessions = sessions';
        calls = calls;
        result = if called then retval else false;
      }
      else record { port = p; sessions = sessions; calls = []; result = false }

  -- `Stop` returns nothing.
  unfoldable pub stop : Bool → Port → Instances → Controlled
  unfolding Sessions.stop_stream in_use set_state
  stop answer p sessions =
      let (sessions', calls) = Sessions.stop_stream codes p.session_type answer sessions in
      if in_use codes p
      then record {
        port = set_state StreamState.disabled p;
        sessions = sessions';
        calls = calls;
        result = true;
      }
      else record { port = p; sessions = sessions; calls = []; result = true }
