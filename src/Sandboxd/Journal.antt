-- ===== src/Sandboxd/Journal.antt =====
-- crates/gobrowse-sandboxd/src/journal.rs: the durable record of terminals, their output, the
-- inputs written to them and the protocol requests that changed them. SQLite is not modelled: a
-- table is a list of rows by key, each statement is what it does to the rows, and a call that
-- returns an error leaves its transaction uncommitted, so that the tables stay as they were.
pub mod Tables
pub mod Terminals
pub mod Output
pub mod Inputs
pub mod Mutations
pub mod Restart
mod Tests
