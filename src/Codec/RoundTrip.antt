-- ===== src/Codec/RoundTrip.antt =====
-- An encoder and a decoder that agree on a value, and how agreement composes.
pub mod Scalars
pub mod Compose
