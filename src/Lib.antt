-- ===== src/Lib.antt =====
-- The Webex generic account bot: a sidecar posts Webex events, the bot decides by the policies of
-- the rooms which messages to answer, runs Codex, and posts the answer as a reply.
--
-- Parts, and the files that model them:
--   * Config (src/config.rs): the configuration records with their defaults, the lookups that the
--     bot makes, and `BotConfig::validate` with everything it calls. An error is a constructor for
--     each message. Config/Paths has the lexical paths of `path_is_inside`, Config/Lease the time
--     budget in saturating 64-bit arithmetic, Config/Facts, Config/Separation, Config/Planned and
--     Config/Budget what holds of a validated configuration.
--   * ConfigCommands (src/config_commands.rs): the `/config` commands, and the permission table.
--   * Policy (src/policy.rs): the trigger decision, the message context, the prompt template.
--   * Webex (src/main.rs): views of the Webex types, the classification of failed calls, and the
--     HTTP errors.
--   * Markers (src/main.rs): the hidden markers that tie a reply to its message.
--   * Reply (src/main.rs): the text of replies and of forwarded messages.
--   * Thread (src/main.rs): the thread context and the prompt of a follow-up. Thread/Order is about
--     the stable sort that stands for the one of std, Thread/Choice and Thread/Selection about the
--     replies of the context, Thread/Templates about the prompt.
--   * Bot (src/main.rs, `impl BotApp`): `process_event` and its handlers. Bot/Monad has the
--     services and the history, Bot/Failures the store's calls and the failure handlers,
--     Bot/Threads `prepare_reply_thread`, Bot/Codex `run_codex_reply`, Bot/Commands
--     `process_config_command`, Bot/Followup `resolve_followup`, and Bot/Policies and Bot/Process
--     the rest of `process_event`. Where the source returns early in the midst of a function, the
--     rest of it is a definition of its own, by clauses on what was answered. Bot/Settling,
--     Bot/Attempts, Bot/Silence and Bot/Admin are about them.
--   * Scheduler (src/main.rs, and the order of the listing and the ID check of
--     src/message_jobs.rs): the active jobs, the deferred jobs and the tasks, as steps in any
--     order.
--   * Jobs (src/message_jobs.rs): the durable message jobs. Jobs/Records has the records and their
--     validation, Jobs/Disk the directory as files with names, inodes, owners and contents, where a
--     call may fail, Jobs/Files the reading of files, the listing and the recovery of candidates,
--     Jobs/Index the index by digest, Jobs/Enqueue `enqueue_sync`, Jobs/Access the other operations
--     and the opening of a store, Jobs/Health the health guard. Jobs/Names, Jobs/Kept,
--     Jobs/Canonical, Jobs/Stages, Jobs/Outcomes, Jobs/Published, Jobs/Removed, Jobs/Requests, Jobs/Refinement,
--     Jobs/Reading, Jobs/Loading, Jobs/Yields and Jobs/Serving are about them.
--   * Http (src/main.rs): Http/Server has `authorize`, `handle_event`, `handle_health` and their
--     responses; Http/Access and Http/Durability are about them.
--   * Launcher (src/launcher_protocol.rs): Launcher/Messages has the messages to and from the
--     launcher, Launcher/Validation their checks, Launcher/Frames their bounding and their frames;
--     Launcher/Bounded
--     and Launcher/RoundTrip are about them.
--   * Jenkins (src/main.rs): the replies on Jenkins builds. Jenkins/Words has the words, the
--     excerpt and the escaping, Jenkins/Render the replies, Jenkins/Verify the check of an excerpt
--     against the logs; Jenkins/Escaping, Jenkins/Brackets, Jenkins/Links and Jenkins/Evidence are
--     about them.
--   * Base and Text: shared lists, results, words, and texts as lists of Unicode scalar values.
--   * Checks: concrete inputs.
--
-- How they interact: `handle_event` admits an event, queues its job in the durable store, and hands
-- the message ID to the scheduler. The scheduler starts a task for a durable job, which calls
-- `process_event`. The handlers read the configuration, and call services: the attempt store, the
-- Webex client, the status provider, the action client, the Jenkins prefetch and the Codex runner.
-- A handler is a function from the history of calls to a result and the longer history. The record
-- `App` has the services as functions of the history, so that each may answer every call
-- differently, and fail. Locks, logging and tracing are left out, as is the release of a lease
-- whose store call failed.
--
-- The durable store is a function from the state of the directory and the index to a result and the
-- next state. Every call of the file system has a number, and `Env.fault` says which calls fail
-- and, for a write, after how many bytes. A crash is a run in which all later calls fail, followed
-- by the opening of the store. The directory belongs to the store alone, as the source demands by
-- its owner and mode checks.
--
-- The file system and the environment that the validation of a configuration looks at are the
-- record `Host`. The time's RFC 3339 form, the rendering of Jenkins replies and its evidence check
-- are fields of `App`; Jenkins models the code that stands behind these two. SHA-256 and serde_json
-- are parameters of Jobs (`Codec`), Launcher (`Json`) and Jenkins (`ReplyReaders`, `EvidenceLogs`),
-- and the theorems on them name what they rely on. A timestamp is in milliseconds, a duration in
-- nanoseconds. Every function here is by structural recursion: there is no fuel. The scanners of
-- markers, templates and replaced texts count the characters that are still to be skipped.
--
-- Not modelled: the start-up and the shutdown (src/main.rs), the choice and the creation of the
-- directory of the jobs, changes of it by other processes, panics and poisoned locks
-- (src/message_jobs.rs), the Jenkins prefetch (src/main.rs), the configuration actions and status
-- (src/config_actions.rs, src/config_status.rs), the runner, the sockets of the launcher and the
-- isolation of Codex, and the activation of a host: mostly processes, sockets and foreign services.
-- In the scheduler the health flag is left out.
mod Base
pub mod Text
pub mod Webex
pub mod ConfigCommands
pub mod Config
pub mod Policy
pub mod Markers
pub mod Reply
pub mod Thread
pub mod Bot
pub mod Scheduler
pub mod Jobs
pub mod Launcher
pub mod Http
pub mod Jenkins
mod Checks
