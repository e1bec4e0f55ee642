-- ===== src/Lib.antt =====
-- Verification of NoblePort, a supervisor for agents: requests arrive at an HTTP API, are audited,
-- and are then run as a small graph of steps, with checkpoints, events, metrics and a cooperative
-- kill.
--
-- The parts and their files. Paths are from the repository's root.
--
-- Python/: what the program uses of the language. Text is `str` as a list of code points, with
-- `strip` and `split` in Text/Strip, Int the integers, Json the values of a state dict and what
-- `json.dumps` and `json.loads` make of them, Dumps which dicts can be serialised. `dumps` gives
-- `none` for a circular value, the ValueError; `default=str` makes a text of any other object. A
-- dict is an association list. There are no floats: a state or a payload with a float, which
-- `json.dumps` keeps as a number, is not represented.
-- Schema.antt (app/db/schema.py): the tables `audit_log`, `agent_metrics`,
-- `langgraph_checkpoints` and `agent_thread_state` as lists of rows, and the SQL statements that
-- the program runs on them as functions. A broken key constraint gives `none`.
-- World.antt: the state that the coroutines act on (database, event bus, a count of the external
-- calls, a trace of the effects) and the monad of its exceptions. Every await on a driver is one
-- external call, but SQLite's execution and commit of a statement are one together (Db/Connection
-- says why). The environment, an argument of every operation, says of the n-th call whether
-- it is carried out, raises before it has done anything, raises after it was carried out, or is
-- cut short by a cancellation. The ids and the clock readings come from the environment too.
-- World/Respects, World/Binds and World/Runs are the proof rules of the monad.
-- Db/ (app/db/): Connection is `execute`, `fetch_one` and `fetch_all`; Params is
-- `_convert_params`; Lifecycle is the choice of the dialect, `connect` and `close`; Audit is
-- `insert_audit`, Audit/Listing `list_audit`; Metrics is `record_invoke_latency`; Percentile is
-- `_percentile`; Summary is `gate_latency_summary`.
-- RedisBus.antt (app/redis_bus/events.py): `publish` of the in-memory bus and of the Redis bus.
-- An event is marked in the trace when Redis has taken it, also if the call then raises and the
-- event is not noted.
-- Agent/ (app/agent/): State is state.py, with `_upsert` as `upsert` and its second half as
-- `write_thread`; Checkpoint is checkpointing.py; Step is `default_supervisor_step`; Runtime is
-- `Supervisor`, whose `invoke` is cut at its audit (`audit_request`, then `execute`), its `try`
-- statement (`supervised`, with `run_graph`, `handle` and `finish`) and what follows (`conclude`).
-- Admission, AuditFirst, Stable, Isolation, Events, Chain, Kill and Calm hold the proofs about `invoke`,
-- each named for what it proves.
-- Api.antt (app/api/): the validation of requests, and the routes with their status codes; a route
-- is given the world and returns an answer.
-- Config.antt (app/config.py): the settings, read from the environment variables.
-- Tools/Sandbox.antt (app/tools/sandbox.py): the allowlist and `run_command`, with the splitter of
-- shlex, `which` and the subprocess as parameters.
-- Permits/Process.antt and Permits/Alerts.antt (scripts/process_and_notify.py): the permits of a
-- day filed by priority, and the batches of alerts; the fuel of the loop over the batches is the
-- number of permits to be shown, and each round covers at least one.
-- Permits/Fetch.antt (scripts/fetch_permits.py): the simulated permits of a municipality, with the
-- digest of a seed as a parameter; `none` is an IndexError.
-- Permits/Gather.antt (scripts/fetch_permits.py): `fetch_all_permits`.
-- Permits/Money.antt, Permits/Groups.antt and Permits/Sorting.antt (scripts/): the amounts as texts,
-- with the rounding of Python/Float.antt, the dicts that group permits, and the sorting.
-- Permits/Notify.antt (scripts/process_and_notify.py): the texts of the messages and `main`; Slack is
-- a function from the messages before and the message to the end of the subprocess.
-- Permits/Digest.antt (scripts/generate_digest.py): the digest, line by line, and `main`.
-- Permits/Daily.antt (scripts/): the three scripts one after the other. The scaling loops of a float
-- have as fuel a number that their measure starts below; 20 places tell any two floats apart.
-- Schema/Ddl.antt and Db/Migrate.antt (app/db/schema.py, app/db/connection.py): the statements that
-- create the tables and indexes, and the migration that runs them.
-- Service.antt and Service/Routes.antt (app/config.py, app/db/connection.py, app/redis_bus/events.py,
-- app/agent/runtime.py, app/api/app.py): the objects that the process makes at their first use, the
-- lifespan, /health and /ready; the import of LangGraph and the answers of Redis are parameters.
-- Tests/: runs on concrete data.
--
-- How the parts interact: `Supervisor.invoke` calls Db/Audit, Agent/State, RedisBus,
-- Agent/Checkpoint and Db/Metrics, all of which reach the tables through Db/Connection only.
--
-- Bounds. The loop of `invoke` is recursion on `max_steps`, as the source bounds it. The decimal
-- digits of n are written with n + 1 rounds, which are enough since each divides by ten. Times are
-- exact natural numbers of nanoseconds where the source has floats.
--
-- Not modelled: the drivers of the databases and of Redis behind the calls above, the paths and
-- DSNs that they are given, the order in which `sort_keys` writes keys, `execute_many`, which
-- nothing calls, what the scripts print, the time of a fetch in its file, and the tasks beside a
-- request, except where Agent/State/Race takes a write apart.
pub mod Service
pub mod Permits
pub mod Prelude
pub mod Python
pub mod Schema
pub mod World
pub mod Db
pub mod RedisBus
pub mod Agent
pub mod Api
pub mod Config
pub mod Tools
pub mod Tests
