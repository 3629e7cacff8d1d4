-- ===== src/Hal/Examples.antt =====
-- A port and its streams on concrete inputs, and the theorems about them at these inputs.

use android_device_peter_gsi.Base.{◌≡◌, refl, Bool, true, false, ◌&&◌, ◌||◌, some, List, [], ◌∷◌}
use android_device_peter_gsi.Session.Types.{
  BluetoothAudioStatus, pcm_config, a2dp_software_encoding, cookie_undefined, cookie_init_value,
  cookie_upper_bound,
}
use android_device_peter_gsi.Session.State.{Session, is_session_ready}
use android_device_peter_gsi.Session.Control.{
  StackCall, register_status_cback, start_stream_control,
}
use android_device_peter_gsi.Session.Observers.{find, first_free}
use android_device_peter_gsi.Session.Registration.{AreDistinct}
use android_device_peter_gsi.Session.Numbers.{numbers, queue, cd_quality}
use android_device_peter_gsi.Session.Instances.{
  Instances, with_session, find_session, write_session, get_session_instance,
}
use android_device_peter_gsi.Session.Instances.Control as Sessions
use android_device_peter_gsi.Session.Instances.Refinement.{session_of}
use android_device_peter_gsi.Hal.Port.{
  StreamState, same_state, Device, Port, PortEvent, new_port, in_use, handle, handle_all,
  control_result_handler, next_state, set_up, tear_down, set_state, init_session_type,
  register_port, device_session_type,
}
use android_device_peter_gsi.Hal.Port.Control.{start, suspend, wait_while, condwait_state}
use android_device_peter_gsi.Hal.Port.Runs.{
  PortCall, start_call, suspend_call, callback, run_port, IsRun, run_port-IsRun,
}
use android_device_peter_gsi.Hal.Port.Confirmation.{
  confirmed, confirmed_by, start-started, IsIdle, start-refused,
}
use android_device_peter_gsi.Hal.Port.Registration.{observer}
use android_device_peter_gsi.Hal.Port.Lifetime.{set_up-tear_down}

abbrev pub ready : Session
ready = record {
  session_type = a2dp_software_encoding;
  stack_iface = some 1;
  data_mq = some queue;
  audio_config = some (pcm_config cd_quality);
  latency_modes = [];
  low_latency_allowed = true;
  observers = [];
}

abbrev pub sessions : Instances
sessions = (a2dp_software_encoding, ready) ∷ []

abbrev pub port : Port
port = record {
  cookie = 512;
  state = StreamState.standby;
  session_type = a2dp_software_encoding;
  is_stereo_to_mono = false;
}

-- The answer of the stack, which comes while the port waits, behind one for another port.
abbrev pub wakes : List (List PortEvent)
wakes =
    (PortEvent.control_result 513 BluetoothAudioStatus.failure ∷ [])
    ∷ (PortEvent.control_result 512 BluetoothAudioStatus.success ∷ [])
    ∷ []

start-result : (start numbers true [] wakes port sessions).result ≡ true
unfolding start Sessions.start_stream with_session get_session_instance find_session write_session
    start_stream_control is_session_ready condwait_state wait_while handle_all handle in_use
    control_result_handler next_state set_state cookie_undefined cookie_init_value
start-result = refl

start-started_example :
    (in_use numbers port ≡ true)
    × (same_state port.state StreamState.standby ≡ true)
    × (is_session_ready (session_of numbers sessions a2dp_software_encoding) ≡ true)
    × (true ≡ true)
    × ((start numbers true [] wakes port sessions).calls ≡ StackCall.start_stream false ∷ [])
    × (same_state (start numbers true [] wakes port sessions).port.state StreamState.started ≡ true)
    × ((confirmed 512 [] || confirmed_by 512 wakes) ≡ true)
start-started_example = start-started numbers true [] wakes port sessions start-result

pub port-in_use : in_use numbers port ≡ true
unfolding in_use cookie_undefined cookie_init_value
port-in_use = refl

-- A stack that does not take the call.
call-refused :
    (is_session_ready (session_of numbers sessions a2dp_software_encoding) && false) ≡ false
unfolding is_session_ready session_of find_session
call-refused = refl

start-refused_example :
    ((start numbers false [] wakes port sessions).result ≡ false)
    × ((start numbers false [] wakes port sessions).port.state ≡ StreamState.starting)
    × ((again : Bool) (during : List PortEvent) (more : List (List PortEvent)) (m : Instances)
        → IsIdle numbers
            (start numbers false [] wakes port sessions).port
            m
            (start numbers again during more (start numbers false [] wakes port sessions).port m)
          × IsIdle numbers (start numbers false [] wakes port sessions).port m (
              suspend numbers again during more
                (start numbers false [] wakes port sessions).port
                m))
start-refused_example =
    start-refused numbers false wakes port sessions port-in_use refl call-refused

abbrev afternoon : List PortCall
afternoon =
    start_call true [] wakes
    ∷ callback (PortEvent.control_result 512 BluetoothAudioStatus.reconfiguration)
    ∷ start_call true [] wakes
    ∷ suspend_call true (PortEvent.session_changed 512 ∷ []) []
    ∷ []

run_port-IsRun_example :
    IsRun numbers afternoon port sessions (run_port numbers afternoon (port, sessions)).0
run_port-IsRun_example = run_port-IsRun numbers afternoon port sessions

pub set_up-result :
    (set_up numbers 1 Device.out_bluetooth_a2dp (new_port numbers) sessions).1 ≡ true
unfolding set_up init_session_type register_port device_session_type Sessions.is_ready
    Sessions.register_control_result_cback with_session get_session_instance find_session
    write_session is_session_ready register_status_cback first_free find cookie_init_value
    cookie_upper_bound cookie_undefined
set_up-result = refl

pub set_up-distinct :
    AreDistinct
      (session_of numbers sessions
        (set_up numbers 1 Device.out_bluetooth_a2dp
          (new_port numbers)
          sessions).0.0.session_type).observers
unfolding set_up init_session_type register_port device_session_type Sessions.is_ready session_of
    find_session is_session_ready Sessions.register_control_result_cback with_session
    get_session_instance write_session
set_up-distinct = tt

set_up-tear_down_example :
    observer numbers
      (tear_down numbers
        (set_up numbers 1 Device.out_bluetooth_a2dp (new_port numbers) sessions).0.0
        (set_up numbers 1 Device.out_bluetooth_a2dp (new_port numbers) sessions).0.1).1
      a2dp_software_encoding
      512
    ≡ observer numbers sessions a2dp_software_encoding 512
set_up-tear_down_example =
    set_up-tear_down numbers 1 Device.out_bluetooth_a2dp (new_port numbers) sessions set_up-result
      set_up-distinct a2dp_software_encoding 512
