-- ===== src/Lib.antt =====
-- TootTok, a federated short-video server: models of its core in Rust, and what holds of them.
--
-- The server (crates/server) takes requests of browsers and of other servers. A request passes the
-- rate limiter, media are served by the asset handler, and everything slow is a row of the jobs
-- table (crates/db), which worker tasks claim. Whatever the federation code (crates/federation)
-- fetches or delivers goes through the egress guard, and captions of remote posts pass the sanitizer
-- before they are stored.
--
-- The files:
-- Common - shared tests, lists, equality, association lists and texts (lists of code points).
-- Net - IP addresses as `std::net` has them, with the predicates that the code uses; Net/Ranges has
--     CIDR blocks.
-- Egress - crates/federation/src/egress.rs. `ip_is_blocked` and what it calls are in Egress,
--     `EgressGuard` with `validate_and_pin` and `client_for` in Egress/Guard, and
--     `validate_media_ingest_url` in Egress/Guard/Ingest. The two maps behind mutexes are association
--     lists in the guard's record, and each call gives the next record. Egress/Resolver is
--     `GuardedResolve`, crates/federation/src/resolver.rs.
-- RateLimit - crates/server/src/ratelimit.rs. `check` takes the time in nanoseconds as an argument.
-- Assets - crates/server/src/assets.rs. The parser `parse_byte_range` is in Assets, the handler
--     `asset` in Assets/Serving; the outcomes of the database, the store and the file are a record.
-- Sanitize - `strip_html_tags` and what it calls, crates/federation/src/note.rs.
-- Json - JSON values and the accessors of `serde_json`.
-- Db - the tables that the inbox and the workers change, crates/db/src: Db/Actors, Db/Clips,
--     Db/Follows, Db/Assets, and Db/Ledger with the log of activities and the tombstones. A statement
--     is a function on the list of rows.
-- Notes - the validation of remote notes and the JSON of local clips, crates/federation/src/note.rs.
-- Inbox - crates/federation/src/activity.rs. The types and their reader are in Inbox, the gate and the
--     `receive_inbound` methods in Inbox/Pipeline, which maps the tables before an activity to those
--     after it. Inbox/Pipeline/Changes is the specification: a relation of the changes that an
--     activity may make, by its type, its content and its sender.
-- Media - crates/media: the store's keys, the probe's decision and the ladder.
-- Jobs - the statements of crates/db/src/job.rs and those of crates/server/src/worker.rs that change
--     the jobs table, as functions on a list of rows. Time is in seconds.
-- Worker - the handlers of crates/server/src/worker.rs: `process_probe` in Worker, `process_transcode`
--     in Worker/Transcode, `process_finalize` in Worker/Finalize, `process_deliver_create` in
--     Worker/Fanout and the dispatch in Worker/Handling. The environment says which statements,
--     the one that ends the job included, which files and which programs fail; a handler maps the tables and the files before it to those after it.
-- Sessions - crates/server/src/session.rs (the cookie parser and the `AuthUser` extractor) and
--     crates/server/src/csrf.rs (`csrf_middleware`, `constant_time_eq`). What the database answers to
--     the queries for one row is a record of functions.
-- Accounts - crates/server/src/auth.rs and crates/server/src/accounts.rs, on tables of users, actors,
--     tokens and sessions (Db/Users, Db/Actors, Db/Tokens): Accounts/Registration, Accounts/Login,
--     Accounts/Resets with the verification of addresses, and Accounts/Profile with the deletion.
--     Accounts/Steps joins the tables to the extractor of Sessions.
-- Uploads - crates/server/src/upload.rs: the form in Uploads/Fields, the handler in Uploads. Sounds and
--     hashtags are Db/Sounds and Db/Hashtags.
-- Feeds - the queries of crates/db/src/feed.rs for the followed, the discover and the local feed, and
--     the cursors of crates/server/src/social.rs.
-- Examples - the theorems on concrete inputs.
--
-- Bounds. A `u64` of a `Range` header is a number below 2^64 and its parser fails beyond; a hit count
-- never passes the limit, a `u32`, so it does not wrap; the attempts of a job are far below 2^31. The
-- sanitizer's loop runs at most 8 rounds, as in the source. The printer of decimals that the range
-- round trip uses has one unit of fuel more than the number, which is more than its digits, and the
-- scan for hashtags one more than the caption has characters.
--
-- Parameters: DNS, the URL parser, the IP address parser, the HTTP client builder, the token hash, the
-- reader and writer of dates, the reader of the library's tombstones, the fetch of a remote actor, the
-- sending of an activity, the hashing of passwords and tokens, random values, key pairs, ffprobe and
-- ffmpeg, which are libraries or programs or call one.
--
-- Not modelled: the import of an actor's old clips and the sending of one delivery behind their
-- jobs (`process_backfill_job`, crates/federation/src/backfill.rs, is in Worker/Handling), the
-- remote actors' JSON, the other social routes, the administration, the federation routes and the
-- web frontend; nor poisoned mutexes, the ignored error of a seek, failing database connections of
-- the queue and the inbox, durations of clips, logging.
pub mod Common
pub mod Net
pub mod Json
pub mod Db
pub mod Egress
pub mod RateLimit
pub mod Assets
pub mod Sanitize
pub mod Notes
pub mod Media
pub mod Jobs
pub mod Worker
pub mod Inbox
pub mod Sessions
pub mod Accounts
pub mod Uploads
pub mod Feeds
mod Examples
