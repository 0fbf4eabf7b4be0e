-- ===== src/Wire.antt =====
-- Package wire.
pub mod Bytes
pub mod Result
pub mod Reader
pub mod GoType
pub mod Tag
pub mod Encode
pub mod Decode
pub mod RoundTrip
pub mod Messages
pub mod Snacs
pub mod MessageText
pub mod Flap
pub mod Termination
pub mod TlvList
pub mod RateLimit
pub mod Roast
mod Tests
