-- ===== src/World.antt =====
-- What the services share: the database session, the clock, the connection to the node, and the
-- actions on them. The outside (the node's replies, failing statements, the time that a call takes,
-- the drawn ids, other sessions' locks) is the record `Env`, a parameter of every definition.
pub mod Exec
pub mod Types
pub mod Frame
pub mod Steps
pub mod Returns
