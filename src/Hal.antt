-- ===== src/Hal.antt =====
-- bluetooth/audio/hw: the audio HAL's side of the Bluetooth audio path, its ports and its streams.
pub mod Port
pub mod Params
pub mod Output
mod Examples
mod StreamExamples
pub mod Input
