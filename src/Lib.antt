-- ===== src/Lib.antt =====
-- gorp runs a Claude or mux agent session for each chat room. This library models its stores, its
-- scheduler, its message bus, the orchestrators that stand between chats and agents, the cache of warm
-- sessions and the reconnection of its coven gateway, and proves what they keep.
--
-- How the parts interact: the session store and the schedule store share one SQLite database behind one
-- mutex. The scheduler claims the schedules that are due and executes each of them: it looks up the
-- channel, writes a context file, expands a slash command, publishes a message on the bus and records the
-- outcome. The bus routes a platform channel to a session by its bindings, which the session store keeps
-- across restarts. The orchestrator of the bus takes each message once: a message for DISPATCH is a
-- command on the store and the bus, any other one is a prompt for the agent of its session. The
-- orchestrator of a chat interface does the same for the messages of a room. Both take agents from
-- the warm sessions, and write the session IDs that agents give to the store. The coven gateway
-- reconnects its streams after growing delays.
--
-- Base           results, tests on numbers, lists, maps
-- Text           the operations of `str`, `char` and `Path` that the code uses; Chunks: chunk_message of
--                gorp-core/src/utils.rs
-- Sql            statements on a table, a list of rows in the order of their insertion; ORDER BY
-- Database       the tables and the effect of a statement (SessionStore::new of
--                gorp-core/src/session.rs, initialize_schema of gorp-core/src/scheduler.rs)
-- Session        SessionStore of gorp-core/src/session.rs: Files (copy_dir_contents, and the directory
--                work of create_channel), Channels, Dispatch, Settings (settings, onboarding, mux
--                sessions), Tasks (dispatch tasks and events), Bindings
-- Bus            MessageBus of src/bus.rs; Bus.Restart relates it to the stored bindings as src/server.rs
--                loads them
-- Scheduler      SchedulerStore of gorp-core/src/scheduler.rs (Store, Status), and Execute:
--                execute_schedule of src/scheduler.rs with expand_slash_command of
--                gorp-core/src/utils.rs, Tick: one round of start_scheduler, and Times: parse_recurring, parse_time_of_day and
--                parse_weekday_time of gorp-core/src/scheduler.rs
-- Warm           gorp-core/src/warm_session.rs: the map of handles, Sessions: opening and prompting, Prepare:
--                prepare_session_async, Steps: any interleaving of what tasks do with the manager,
--                Steps.Kept: how long a channel keeps its session under it
-- Agent          the AgentHandle of gorp-agent/src/handle.rs (Prompts: sequences of what tasks do with it)
--                and the registry of gorp-agent/src/registry.rs
-- Commands       gorp-core/src/commands.rs
-- Chat           gorp-core/src/orchestrator.rs: Commands (!status, !reset, !backend), Turn (a prompt and the
--                events that answer it)
-- Orchestrator   src/orchestrator.rs: Commands (parsing), Dedup (the memory of message IDs), Dispatch (the
--                DISPATCH commands), Agent (prompts), Run (the loop)
-- Backoff        BackoffState of src/coven/reconnect.rs
-- Tests          concrete rows, file systems and buses
--
-- A function of the source keeps its name. A method of a store is a function from the database to a
-- database and a Result; `fault` in the database stands for a poisoned mutex or an SQLite error, which
-- every statement then reports. Fresh UUIDs and the current time are arguments. Times are the RFC 3339
-- texts that are stored, compared as texts, as SQLite does. The synchronous and the asynchronous variant
-- of a method of the bus are one function.
--
-- Parameters: Unicode (lower case, alphanumeric), FileSystem (std::fs), Json (serde_json), Broadcast
-- (tokio::sync::broadcast), Agents (the handles, registry and configuration values of gorp-agent, as far
-- as the warm sessions use them), Platform (a chat interface, Markdown, the regular expressions of
-- strip_function_calls), and Env (the crates cron and chrono-tz, the file system and JSON text of an
-- execution). What they are assumed to satisfy stands in the fields of these records.
--
-- Bounds: the counter of executions is read into an i32; a larger value is an error of the read. The
-- failure counter of a BackoffState is a u32 that wraps, and a Duration is below 2 ^ 64 seconds. There is
-- no fuel: every function is structurally recursive.
--
-- Concurrency: what runs behind one lock is one step. Where a method gives a lock back, it is split, and
-- what other tasks do in between is a parameter (get_or_create_dispatch_channel, prepare_session_async,
-- the prompts of an AgentHandle) or a sequence of steps (Warm.Steps). The rest of the handling of a
-- message, and the execution of a schedule, is one step.
--
-- Not modelled: the timer of start_scheduler; natural language times that are not recurring (a regular
-- expression and the crate two_timer); the chat commands of src/message_handler and its onboarding
-- dialogue; the gateways, the HTTP servers and the user interfaces, which are input and output over
-- third-party libraries; the agent backends; configuration and metrics. A crash in the middle of a
-- method, and the log output, are not modelled either.
mod Base
pub mod Text
pub mod Sql
pub mod Database
pub mod Session
pub mod Bus
pub mod Scheduler
pub mod Backoff
pub mod Orchestrator
pub mod Warm
pub mod Commands
pub mod Chat
pub mod Agent
mod Tests
