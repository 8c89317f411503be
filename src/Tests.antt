-- ===== src/Tests.antt =====
-- Runs of the model on concrete inputs, and the theorems at concrete inputs.
pub mod Codec
pub mod Navigation
pub mod Messages
pub mod Decoding
pub mod Termination
pub mod Integers
