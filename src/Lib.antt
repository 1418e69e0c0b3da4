-- ===== src/Lib.antt =====
-- zonemail, a mail and DNS server (crate `zonemail`, files of src/). Outbound mail is a table of
-- jobs that a worker drains with retries; the SMTP receiver fills the tables and forwards through
-- that queue; a service manager starts and stops the listeners; a guard with a role policy stands
-- before the REST API, which reads and writes the tables.
--
-- The parts and their files:
-- - Prelude, and Prelude/Tests, Lists, Strings, Outcome, Maps: shared names, Boolean tests over
--   the native numbers, lists, texts as lists of code points, and `Result` with an error text.
-- - Db: the tables' rows of src/db.rs and `World`, the tables with their next automatic keys.
--   Db/Action is the monad of the asynchronous functions: an action takes the world to an outcome
--   and the world after, also where it fails. Each call of code outside the repository (a
--   database statement, a DNS query, a handoff) has a number, and a parameter says what call
--   number n answers, so every pattern of failures is covered. `transaction` puts the tables back
--   when its action fails. Db/Outbox has the jobs by key. Db/RecordTypes has `RecordType` and its
--   two conversions. Db/Tables has the statements of the REST API with what the models declare: the
--   keys, the unique triple of records and the cascading deletes. Db/Integrity has these as an
--   invariant, with Statements, Deletes, Messages and Actions for what the code does to them.
-- - Config: `OutboundTransport`, `OutboundRelay` and `RoleConfig` of src/config.rs.
-- - Services: `Service`, `BootMode` and the reports of src/services.rs; Services/Manager has
--   `ServiceManager`, whose lock makes each method one step. A task is a number, and `alive`
--   holds the tasks that were spawned and not aborted. Services/Consistency, Modes and Names have
--   the theorems.
-- - Send: src/send.rs. Send/Queue has `enqueue_forward`, `reclaim_in_progress` and `claim`;
--   Send/Delivery has one attempt, from the MX lookup to `fail_or_requeue`; Send/Worker has
--   `drain_once` and the poll loop, whose ticks are a list of times. Send/Lifecycle has the steps
--   of a job's life as a relation, Send/Attempt and Send/Progress compare the worker with it,
--   Send/Outcomes draws on that for one job, and Send/Claims, Recovery, Audit (with
--   Trail), Totality, Backoff and Hosts the operations. Send/Sound and Producers are about the
--   invariant of Db/Integrity.
--   Send/Enqueue has `enqueue_outbound`.
-- - Api: src/api.rs, the REST handlers. A handler takes the tables to a reply and the tables after
--   it; a body or parameter that does not parse is `none`. Api/Domains, Mailboxes (with
--   `Mailbox::try_from` of src/db.rs), Records, Messages, Mail and Control have the handlers of one
--   resource each, Api/Page the pagination and Api/Server the routes. Api/Contracts has, for each
--   of them, what a step needs of the tables and what it leaves; Api/KeySet compares the domains
--   with a set of keys, and Api/Fanout, Repeat, Addresses and Listing are about mail, records,
--   mailboxes and messages, with Api/Loading for `load_mailbox_messages`.
-- - App: src/app.rs, `seed_from_config`, with App/Seeding and App/Restart.
-- - Dns: src/dns.rs, `handle_dns_query` from the bytes of a packet to the sending of the reply, with
--   Dns/Replies.
-- - Auth/Policy: src/auth/policy.rs, the grants and `AuthPolicy`. Hash maps are lists of entries
--   in any order and hash sets lists of elements. Auth/Closure has `Gives`, an account of
--   inheritance by steps of `extends` of its own, with Closure/Sound and Closure/Complete, and
--   Auth/Allows the two directions for `allows`.
-- - Auth/Keys: src/auth/keys.rs, the cached key set, with Auth/Resolve. Auth/Service:
--   src/auth/mod.rs and src/auth/guard.rs, the claims, the decision on a request and the guard,
--   with Auth/Admission, Constraints and Roles.
-- - Email: `ZonedMailHandler` of src/email.rs, that is `handle_rcpt` and `handle_email`, with
--   Email/Receive and Email/Sound. It adds jobs to the queue by `enqueue_forward` of Send/Queue.
-- - System: the components together, as a sequence of events; a tick of the worker and a request
--   are one event each, so what runs between two of their statements is left out.
-- - Examples, and the modules Examples of Api, App, Auth, Dns, Email, Send, Services and System: the
--   theorems at concrete inputs.
--
-- Bounds: `attempts` is a `u64` and the model counts it in the natural numbers, so `attempts + 1`
-- has no bound there; the two differ only for a row that has 2^64 - 1 attempts. The backoff has its
-- `saturating` operations and its cap of 62 on the shift written out, and the cast of the delay to
-- an `i64` wraps. The sum of a time and a delay is `add_span` of `Outside`, which has no result
-- where the time library panics: then `fail_or_requeue` fails with `panic_mark`, a text that no
-- `String` holds, and the worker's task ends with that tick, its job left InProgress. The
-- only fuel is the bound of 10,000 passes that the source's own loop in `AuthPolicy::build` has;
-- every other loop runs over a list.
--
-- Parameters: the message parser and Unicode's lower case, the database's faults, DNS, the SMTP
-- client, the sum of a time and a span, the address parser, the TLS connector and the environment
-- (`Outside` of Send), the database and the names of the record types (`Backend` of Api),
-- `lettre`'s parsers and builder (`Mailer` of Api/Mail), the decoding, encoding and sending of DNS
-- packets and the parsers of their names and addresses (`Wire` of Dns), the spawn function of the
-- service manager, and for the authentication the JSON values, the parsing and verification of
-- tokens, the keys and the fetcher of key sets. A poisoned lock is left out.
--
-- Not modelled: the listening sockets, logging, JSON, time stamps of rows, the ORM's schema,
-- reading the configuration, the matching of paths to routes, the health probe, the OpenAPI
-- document, and building the key material from the configuration.
pub mod Api
pub mod App
pub mod Auth
pub mod Config
pub mod Db
pub mod Dns
pub mod Email
pub mod Examples
pub mod Prelude
pub mod Send
pub mod Services
pub mod System
