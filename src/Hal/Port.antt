-- ===== src/Hal/Port.antt =====
-- bluetooth/audio/hw/device_port_proxy.h and device_port_proxy.cc: `BluetoothAudioPortAidl`, the port of a
-- stream to the session of its type. The callbacks that a session holds are those of its port: they get
-- the cookie under which the session calls them. The lock of the port is not modelled: each handler of
-- a callback is one step.
pub mod Control
pub mod Sameness
pub mod Diagram
pub mod Runs
pub mod Disabled
pub mod Confirmation
pub mod Data
pub mod Registration
pub mod Lifetime
pub mod Metadata
use android_device_peter_gsi.Base.{
  ℕ, ◌*◌, ◌/◌, Bool, true, false, not, ◌&&◌, ◌||◌, Option, none, some, List, [], ◌∷◌, ◌==◌,
  if◌then◌else◌,
}
use android_device_peter_gsi.Session.Types.{
  SessionType, SessionCodes, a2dp_software_encoding, a2dp_hardware_offload_encoding,
  hearing_aid_software_encoding, le_audio_software_encoding, le_audio_software_decoding,
  le_audio_hardware_offload_encoding, le_audio_hardware_offload_decoding,
  le_audio_broadcast_software_encoding, le_audio_broadcast_hardware_offload_encoding,
  BluetoothAudioStatus, success, failure, reconfiguration, PortStatusCallbacks, cookie_undefined,
}
use android_device_peter_gsi.Session.Instances.{Instances}
use android_device_peter_gsi.Session.Instances.Control as Sessions

-- `BluetoothStreamState` of stream_apis.h.
pub data StreamState : Type 0 where
  disabled standby starting started suspending unknown : StreamState

abbrev pub same_state : StreamState → StreamState → Bool
same_state StreamState.disabled StreamState.disabled = true
same_state StreamState.standby StreamState.standby = true
same_state StreamState.starting StreamState.starting = true
same_state StreamState.started StreamState.started = true
same_state StreamState.suspending StreamState.suspending = true
same_state StreamState.unknown StreamState.unknown = true
same_state _ _ = false

-- The devices of the audio HAL that the code names; `other` is any other number.
pub data Device : Type 0 where
  out_bluetooth_a2dp out_bluetooth_a2dp_headphones out_bluetooth_a2dp_speaker : Device
  out_hearing_aid out_ble_headset out_ble_speaker in_ble_headset out_ble_broadcast : Device
  other : ℕ → Device

pub record Port : Type 0 where
  pub cookie : ℕ
  pub state : StreamState
  pub session_type : SessionType
  pub is_stereo_to_mono : Bool

-- The calls of the port's callbacks, each with the cookie that it is given.
pub data PortEvent : Type 0 where
  control_result : ℕ → BluetoothAudioStatus → PortEvent
  session_changed : ℕ → PortEvent

-- The switch of `init_session_type`.
unfoldable pub device_session_type : Device → Option SessionType
device_session_type out_bluetooth_a2dp = some a2dp_software_encoding
device_session_type out_bluetooth_a2dp_headphones = some a2dp_software_encoding
device_session_type out_bluetooth_a2dp_speaker = some a2dp_software_encoding
device_session_type out_hearing_aid = some hearing_aid_software_encoding
device_session_type out_ble_headset = some le_audio_software_encoding
device_session_type out_ble_speaker = some le_audio_software_encoding
device_session_type in_ble_headset = some le_audio_software_decoding
device_session_type out_ble_broadcast = some le_audio_broadcast_software_encoding
device_session_type (other n) = none

-- `IsA2dp` and `IsLeAudio`.
unfoldable pub is_a2dp_port : Port → Bool
is_a2dp_port p = elim p.session_type [
  | a2dp_software_encoding ↦ true
  | a2dp_hardware_offload_encoding ↦ true
  | _ ↦ false
]

unfoldable pub is_le_audio_port : Port → Bool
is_le_audio_port p = elim p.session_type [
  | le_audio_software_encoding ↦ true
  | le_audio_software_decoding ↦ true
  | le_audio_hardware_offload_encoding ↦ true
  | le_audio_hardware_offload_decoding ↦ true
  | le_audio_broadcast_software_encoding ↦ true
  | le_audio_broadcast_hardware_offload_encoding ↦ true
  | _ ↦ false
]

-- `force_pcm_stereo_to_mono` is `ForcePcmStereoToMono`.
unfoldable pub force_pcm_stereo_to_mono : Bool → Port → Port
force_pcm_stereo_to_mono force p = record p { is_stereo_to_mono = force }

unfoldable pub set_state : StreamState → Port → Port
set_state state p = record p { state = state }

abbrev is_success : BluetoothAudioStatus → Bool
is_success success = true
is_success _ = false

-- The switch of `ControlResultHandler`: the state that follows, if the switch does not return.
unfoldable pub next_state : StreamState → BluetoothAudioStatus → StreamState
next_state StreamState.started success = StreamState.standby
next_state StreamState.started reconfiguration = StreamState.standby
next_state StreamState.started _ = StreamState.started
next_state StreamState.starting success = StreamState.started
next_state StreamState.starting _ = StreamState.standby
next_state StreamState.suspending success = StreamState.standby
next_state StreamState.suspending _ = StreamState.disabled
next_state state _ = state

module _ (codes : SessionCodes) where
  -- The constructor.
  unfoldable pub new_port : Port
  new_port = record {
    cookie = cookie_undefined codes;
    state = StreamState.disabled;
    session_type = SessionType.unknown;
    is_stereo_to_mono = false;
  }

  unfoldable pub in_use : Port → Bool
  in_use p = not (p.cookie == cookie_undefined codes)

  unfoldable pub control_result_handler : BluetoothAudioStatus → Port → Port
  unfolding in_use next_state
  control_result_handler status p =
      if in_use p then record p { state = next_state p.state status } else p

  unfoldable pub session_changed_handler : Port → Port
  unfolding in_use
  session_changed_handler p = if in_use p then record p { state = StreamState.disabled } else p

  -- The callbacks that `SetUp` hands to the session.
  unfoldable pub handle : PortEvent → Port → Port
  unfolding in_use control_result_handler session_changed_handler
  handle (control_result cookie status) p =
      if in_use p && (p.cookie == cookie) then control_result_handler status p else p
  handle (session_changed cookie) p =
      if in_use p && (p.cookie == cookie) then session_changed_handler p else p

  unfoldable pub handle_all : List PortEvent → Port → Port
  unfolding handle
  handle_all [] p = p
  handle_all (e ∷ es) p = handle_all es (handle e p)

  abbrev pub check_session : Option SessionType → Port → Instances → (Port × Instances) × Bool
  check_session none p sessions = ((p, sessions), false)
  check_session (some t) p sessions =
      let (sessions', ready) = Sessions.is_ready codes t sessions in
      ((record p { session_type = t }, sessions'), ready)

  -- `init_session_type`: the port has the session type of the device, even if its session is not ready.
  unfoldable pub init_session_type : Device → Port → Instances → (Port × Instances) × Bool
  unfolding device_session_type
  init_session_type device p sessions = check_session (device_session_type device) p sessions

  -- `owner` tells the callbacks of this port from those of others; the port gives no callback for a changed
  -- configuration or for low latency.
  abbrev pub callbacks : ℕ → PortStatusCallbacks
  callbacks owner = record {
    owner = owner;
    has_audio_configuration_changed_cb = false;
    has_low_latency_mode_allowed_cb = false;
  }

  -- The part of `SetUp` behind `init_session_type`.
  unfoldable pub register_port : ℕ → Port → Instances → (Port × Instances) × Bool
  unfolding Sessions.register_control_result_cback
  register_port owner p sessions =
      let (sessions', cookie) =
        Sessions.register_control_result_cback codes p.session_type (callbacks owner) sessions in
      (
        (record p { state = StreamState.standby; cookie = cookie }, sessions'),
        not (cookie == cookie_undefined codes),
      )

  unfoldable pub set_up : ℕ → Device → Port → Instances → (Port × Instances) × Bool
  unfolding init_session_type register_port
  set_up owner device p sessions =
      let ((p', sessions'), ready) = init_session_type device p sessions in
      if ready then register_port owner p' sessions' else ((p', sessions'), false)

  -- `TearDown`; the destructors of the ports call it if the port is in use.
  unfoldable pub tear_down : Port → Instances → Port × Instances
  unfolding in_use Sessions.unregister_control_result_cback
  tear_down p sessions =
      if in_use p
      then (
        record p { cookie = cookie_undefined codes },
        (Sessions.unregister_control_result_cback codes p.session_type p.cookie sessions).0,
      )
      else (p, sessions)
