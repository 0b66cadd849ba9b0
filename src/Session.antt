-- ===== src/Session.antt =====
-- gorp-core/src/session.rs: the session store. Each child models the methods on one group of
-- tables, over the shared database of Database.antt.
pub mod Files
pub mod Channels
pub mod Dispatch
pub mod Settings
pub mod Tasks
pub mod Bindings
