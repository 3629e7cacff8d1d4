-- ===== src/Session.antt =====
-- bluetooth/audio/utils/aidl_session: the session between the Bluetooth stack and the audio HAL, in
-- BluetoothAudioSession.h and BluetoothAudioSession.cpp.
pub mod Types
pub mod Observers
pub mod Cookies
pub mod Registration
pub mod Invariant
pub mod Readiness
pub mod State
pub mod Control
pub mod Latency
pub mod Transfer
pub mod Instances
pub mod Numbers
mod Examples
