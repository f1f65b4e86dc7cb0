-- ===== src/Lib.antt =====
-- A model of stolosio's own core: the gateway that admits browser sessions, places their attempts
-- on browser instances or external providers, scales the fleets of instances, and paces the
-- captures of a domain.
--
-- The parts, how they interact and where they are modelled:
--   Prelude, Contracts, Tables: a table is the list of its rows; `select`, `find`, `count`,
--     `update_where`, `update_row` and `delete_where` are the queries that the repositories make.
--     The types are those of backend/proxy/contracts, backend/fleet/contracts.py and
--     backend/db/models/gateway.py.
--   Usage: backend/proxy/postgres/usage.py, what an attempt used and costs when it ends.
--   Sessions: backend/proxy/postgres/sessions.py. `admit`, `heartbeat`, `open`, `release`,
--     `active_count` and `_expire_stale`, one function each, over the row of a session.
--   Attempts: backend/proxy/postgres/attempts.py. `enqueue`, `claim`, `activate`,
--     `bind_provider_session`, `record_provider_usage`, `finish`, and `_select_instance`, which
--     picks the instance.
--   Gateway: sequences of calls of both repositories on one database, in any order and with any
--     clock values: the sessions' leases decide which attempts still occupy a slot.
--   Fleet: backend/fleet/policy.py and backend/fleet/repository.py. `evaluate` counts the live
--     attempts of a provider and lets the policy move the number of instances; the observation of
--     instances and the drain of one of them write the rows from which `_select_instance` chooses.
--   Reconciler: backend/fleet/reconciler.py, a pass over Fleet's operations that scales the
--     deployment, replaces instances that do not answer, and measures how long requests to scale
--     took. The runtime is a record of its answers. Other processes write before each transaction of
--     the pass; what they write between one and a command to the runtime counts as written after
--     the command, so the theorems on commands say what the pass itself has made sure of.
--   MethodCache: packages/pagecapture/src/pagecapture/cache.py and backend/proxy/capture/cache.py,
--     the evidence on which a capture skips its render, in memory and in the database, and the
--     deletion of old entries by backend/workers/maintenance/retention.py. `url_keys` is a
--     parameter.
--   ExternalCapacity: backend/proxy/external_capacity.py, the limits of external providers and
--     their audit.
--   Admission: backend/proxy/attempts/manager.py, `acquire` and `release` over Attempts'
--     operations, with the faults of the database, the retries, the queue's timeout and the
--     cancellation. A TimeoutError of the database's driver ends an acquisition like the queue's.
--   Pacing: backend/proxy/domain_pacing. The controller's feedback rules, and the repository's
--     `acquire`, `release`, `request_reset` and `update_settings` with their rows; and what a
--     capture tells the controller, backend/proxy/capture/pacing.py.
--   Blocking: backend/proxy/transport/domain_blocking.py, the proxy between a client and a
--     provider. It keeps a new page from the client until the provider has confirmed the list of
--     blocked domains. A handler is cut where it waits, and the pieces are the events of
--     `Calls.step`; json.loads is a parameter.
--   NetworkPolicy: backend/proxy/network_policy.py, the list of blocked domains in the database and in
--     a process's cache. `normalize_domain_pattern` is a parameter.
--
-- How the state corresponds: a transaction is a function from the database to the next one. The row
-- locks and advisory locks that the program takes make each of them one step, so that interleavings
-- are sequences of calls. The clock is an argument of each call, and consecutive calls need not
-- have increasing times. An exception that rolls the transaction back is a value, and leaves the
-- database as it was. Times are natural numbers of microseconds, the resolution of PostgreSQL.
-- Identifiers, owners, tokens and hostnames are natural numbers, which only serve to be compared. A
-- JSON value is its text, but for the messages of Blocking, which are trees. The identifiers that
-- the program draws at random are arguments. The number of the queue's sequence that a transaction
-- which is rolled back has drawn is given again, while PostgreSQL leaves a gap; nothing reads the
-- gaps, only the order.
-- The loops run over lists of rows; an operation on the database is retried as often as the program
-- does, three runs in all; the search for a free command id has one round more than there are
-- commands, which is enough because each id that is taken belongs to a command.
--
-- The floats of the program are exact numbers here: a spacing is a whole number of microseconds,
-- and `ceil(demand / capacity)` is a division of whole numbers. Foreign keys are not checked.
--
-- In Blocking, `_fail_closed` and `close` are one step each, though they wait for the tasks that
-- they cancel, and the session beside a message in the queue is the one it was routed by, which the
-- program does not keep.
--
-- Not modelled: the other transports and the adapters, which move bytes; the API's routes;
-- messaging, outbox and metrics; the runtimes of the fleets; the capture service and the rest of
-- the pagecapture package; the retention of tables other than the method cache.
pub mod Prelude
pub mod Contracts
pub mod Tables
pub mod Usage
pub mod Sessions
pub mod Attempts
pub mod Gateway
pub mod Fleet
pub mod Reconciler
pub mod MethodCache
pub mod ExternalCapacity
pub mod Admission
pub mod NetworkPolicy
pub mod Pacing
pub mod Blocking
