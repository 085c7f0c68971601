-- ===== src/Sdk/Voice.antt =====
-- The voice part of the client library: sdk/src/voice. The codec, the resampler and the jitter
-- buffer are third-party packages, and samples are floats: they are parameters.
pub mod Codec
pub mod Drain
pub mod Encoder
pub mod Pipeline
pub mod Output
