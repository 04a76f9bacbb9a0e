-- ===== src/Store.antt =====
-- server/onyxchat-server/internal/store: the tables and the statements that the stores run on them.
pub mod Db
pub mod Session
pub mod Messages
pub mod Users
pub mod Contacts
pub mod Invites
pub mod Account
