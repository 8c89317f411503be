-- ===== src/Nanopb.antt =====
-- Pods/nanopb: the C runtime that encodes and decodes protocol buffers.
pub mod Stream
pub mod Output
pub mod Encode
pub mod Input
pub mod Decode
pub mod Substream
pub mod DecodeFixed
pub mod Varint
pub mod Safety
pub mod Fixed
pub mod Delimited
pub mod Field
pub mod EncodeValue
pub mod EncodeMessage
pub mod EncodeField
pub mod Message
pub mod Sizes
pub mod DecodeState
pub mod DecodeValue
pub mod Defaults
pub mod DecodeField
pub mod FieldsSeen
pub mod DecodeMessage
pub mod Confined
pub mod Layout
pub mod Unknown
pub mod Words
pub mod Marks
pub mod Required
pub mod Undefined
pub mod Stored
pub mod Integers
pub mod Clamping
pub mod Trips
pub mod Strings
