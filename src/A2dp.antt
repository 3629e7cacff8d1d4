-- ===== src/A2dp.antt =====
-- bluetooth/audio/hal: the A2DP codec capabilities, as bit fields of the signalling format, and the
-- offload codecs that negotiate over them.
pub mod Bits
pub mod Codec
pub mod Sbc
pub mod Aac
pub mod Factory
mod Examples
