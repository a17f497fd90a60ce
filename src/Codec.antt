-- ===== src/Codec.antt =====
-- src/lib/ipc/codec.cpp: the version-three wire format.
pub mod Failure
pub mod Encoder
pub mod Utf8
pub mod Decoder
pub mod Fence
pub mod RoundTrip
pub mod Method
pub mod Status
pub mod Document
pub mod Request
pub mod Value
pub mod Diagnostics
pub mod Info
pub mod Response
pub mod Correlation
