-- ===== src/Wire/Snacs.antt =====
-- The message types of wire/snacs.go as the codec sees them, field by field, a file for each food group.
pub mod Blocks
pub mod Icq
pub mod Kerberos
pub mod Admin
pub mod Bart
pub mod Bucp
pub mod Buddy
pub mod Chat
pub mod ChatNav
pub mod Deny
pub mod Feedbag
pub mod Icbm
pub mod Locate
pub mod Misc
pub mod ODir
pub mod Service
pub mod Codable
pub mod Carried
pub mod Checked
mod Tests
