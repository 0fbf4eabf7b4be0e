-- ===== src/State.antt =====
-- Package state: the sessions of the users that are signed on, and the users.
pub mod Float
pub mod Session
pub mod Manager
pub mod Text
pub mod User
pub mod Cookie
pub mod ChatRoom
pub mod Sql
pub mod Store
pub mod Accounts
pub mod Relationship
