-- ===== src/Lib.antt =====
-- Verification of macqueue: a job queue behind an HTTP server, and the Mac worker that pulls from it.
--
-- The program. A submitter posts a job, which is decoded JSON, to the server (macqueue/server.py). The
-- server checks it against the wire format (macqueue/schema.py over macqueue/common.py) and keeps it in
-- the tables of macqueue/store.py. A worker (macqueue/worker.py) claims the oldest queued job of its
-- projects, renews its lease by heartbeats, sends the live log in chunks, uploads an artifact and
-- reports the outcome. It runs the commands of a job as bounded subprocesses (macqueue/process.py).
--
-- The files. A module stands for a source file, and its children for parts of it or for what is proved.
--   Base      numbers, texts, lists, exceptions as values (`Result`, `require`), tests; Files has named
--             files, and Actions methods that change a state and may raise.
--   Json      decoded JSON, Python's == on it, and equality of encodings.
--   Common    macqueue/common.py: keys, integer, name, relative.
--   Schema    macqueue/schema.py: seed requests and outputs; Command, Benchmarks, Steps and Jobs hold
--             `command`, the operations of a step, and `validate_job`.
--   Store     macqueue/store.py: Rows (the tables, reaping, transactions), Queue (submit, get, list,
--             claim, cancel), Leases (heartbeat, append_log, logs, artifact, finish, and the server's
--             publication of an artifact) and Prune. History has the calls in any order.
--   Server    macqueue/server.py: Handlers, Uploads and Dispatch are the parts of Handler.dispatch.
--   Worker    macqueue/worker.py: the live log (Lease.event, Lease.loop); Renewal has the heartbeats of
--             Lease.loop and Worker.watchdog, Handling Worker.handle and the claim loop, and Pruning
--             prune_worker.
--   Process   macqueue/process.py: what Process.pump does with the bytes that it reads.
--   Policy    macqueue/policy.py: capabilities, and the commands and jobs that a worker allows, and in
--             Argv the arguments that it runs, of which Run says what they are.
--   Sources   macqueue/sources.py: the catalog, and in Budget and Unpack what a source package may hold;
--             Finding has what a lookup finds.
--   Runner    macqueue/runner.py: pack_artifacts, and in Comparing the comparison of two binaries.
--   Deploy    deploy/update.py: in Update its receipt, its backup, an update and the restoring of a backup.
--
-- How state is modelled. A method of the store takes the tables and returns a result and the tables; a
-- transaction reaps, runs its body, and rolls everything back where the body raises. Files are lists of
-- bytes under their names. Each call is one transaction, so calls in any order, with any clock readings,
-- stand for what threads do under the store's lock. A waiting claim is a list of attempts with what
-- other requests do before each.
--
-- Conventions. A time is a whole number of microseconds, given as an argument, as are fresh ids and
-- leases. A column of encoded JSON holds the value that it encodes, and that of a result also with
-- which spaces. A float is its IEEE 754 pattern. Texts have no lone surrogates. A message keeps its fixed part where Python prints values into it.
-- Rows of equal time keep the order of the table. The expiry of a stored job is a natural number.
-- External functions are parameters: json.loads, SHA-256, the length of a decimal float, the query of
-- a URL, json.dumps of an event, of a manifest and of a configuration, the compiler and the user
-- database that deploy/update.py asks, and the size of a gzip archive. What a subprocess, a poll or a
-- write does is an argument (the records Outside, Work and Turn; Work has the death of a worker).
--
-- Fuel. The loop over the newlines of a read has the length of the bytes as its fuel, and removes a
-- newline in each turn. The length of a number in decimal digits has the number as its fuel.
--
-- Not modelled. SQLite, HTTP framing, sockets, threads, signals, clocks, files' modes and links, the
-- sandbox; load_config of the worker, the checkouts, freezing, profiles and training of the runner, the
-- plans, the client, the making of source packages, the command line, and the other scripts under
-- deploy/; the web page under frontend/.
pub mod Base
pub mod Common
pub mod Deploy
pub mod Json
pub mod Policy
pub mod Process
pub mod Runner
pub mod Schema
pub mod Server
pub mod Sources
pub mod Store
pub mod Worker
