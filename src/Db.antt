-- ===== src/Db.antt =====
-- The tables (crates/db/src) that the modelled code reads and changes, each a list of rows; a
-- statement is a function on the table. Timestamps are numbers, and `now` is an argument.
pub mod Actors
pub mod Clips
pub mod Follows
pub mod Ledger
pub mod Assets
pub mod Users
pub mod Tokens
pub mod Hashtags
pub mod Sounds
