-- ===== src/Lib.antt =====
-- MeridianLogistics: a model of the backend of a freight broker's assistant, in Python,
-- under backend/app. A chat session asks for work; a long analytics refresh becomes a job
-- that the client polls with a token, and its completion is promoted into the session; a
-- booking goes through a write gateway that books a confirmed quote under an idempotency
-- key; a controller decides which wave of work runs next; read tools answer questions about
-- the shipments of an office.
--
-- Prelude, Python and Table are shared. Prelude passes on library names and has tests on
-- numbers and case lemmas. Python has what the code uses of the language: exceptions by
-- class, methods as functions of a state that may raise and keep what they wrote, dicts as
-- association lists, dynamic values; Python.Json has JSON documents and how they are read.
-- Table is a database table as the list of its rows, with SELECT, UPDATE, INSERT, DELETE,
-- ORDER BY and LIMIT.
--
-- Jobs is backend/app/jobs. Status and Documents have models.py: JobStatus, its texts, the
-- table _VALID_TRANSITIONS, and reachability by legal transitions as an indexed type, and
-- the dict forms of a job. Store has the rows of generation_jobs, JobState and the reads of
-- store.py; Methods has its methods that write, one function each (create_job,
-- prepare_result, bind_pending_response, start_job, fail_job, cancel_job, expire_job,
-- complete_job, refresh_job, update_autonomy_metadata, reset); the body that five of them
-- share is change_status. Lists has list_jobs. Ops makes a call a value, for sequences of
-- calls, all but reset, which deletes every job; Steps, Effects, Polls and Changes are the
-- lemmas on one call; Opening has the life of a new job up to its start; Progress, Polling
-- and Access are on sequences and tokens. Repository has repository.py, each operation as
-- its statement and the read after it; Idempotent has create_job and complete_job of
-- idempotent_store.py over it.
--
-- Gateway is backend/app/gateway. Idempotency has idempotency_store.py, each function one
-- step on the records of a mapping and its target claims. Exclusion has the calls of any
-- threads as a sequence, Keys the life of one key as a specification. Bookings has the rows,
-- results and staleness tests of booking_actions.py, Booking the whole of
-- execute_confirmed_booking, with its commit, its rollback and its finally clause, and
-- execute_write_gateway of write_gateway.py.
--
-- Controller is backend/app/controller. Precedence has precedence.py; Policy has the
-- predicates of policy.py, Waves its queue items and stage candidates, Queue
-- next_terminal_or_runnable_state and finalize_queue_state, Stages
-- control_plane_truth_aligned, derive_next_stage_candidate and the tests before a promotion.
-- Models has models.py, the checkpoint and its dict form. Runtime has runtime.py and the
-- adapter of strategies.py: the state is the checkpoint directory, and each method is a
-- function of it, with Closing for the end of a queue, Compress for a compaction and
-- Requests for the methods that ask the policy; Resume, Stops and Compaction are the lemmas
-- on what a resume finds. Contract has what contracts/controller-checkpoint-schema.json says
-- of a queue.
--
-- Session is backend/app/session: the rows of chat_sessions and InMemorySessionStore;
-- Documents has the summary of a session and the text of its id.
--
-- Autonomy is backend/app/autonomy: Models the metadata of a job and the outcome of a step,
-- Service the seed and the step of a run, Bounds the lemmas, Seeds what the two readers of a
-- seeded checkpoint make of it. Api is backend/app/api: Jobs and Lists have the routes of
-- api/routes/jobs.py over the job store, the session store and the checkpoint directory,
-- with the `try` of get_job that keeps what was written; Polls, Waits, Failures and Refusals
-- are on these routes, Waits on the polls of a job that no autonomy run completes. Actions
-- has api/identity.py and the confirmation of api/routes/actions.py, from the identity of
-- the caller to the write gateway; Authority is on its guards. api/routes/chat.py is
-- Requests, with the session of a request, Payloads, and Chat, with the read and the refresh
-- branch and post_chat. The children of Chat are lemmas: Refresh and Finish on the two
-- halves of a refresh, Background and Completion on its job up to the poll that completes
-- it, Keeping and Ownership on the sessions that a chat writes, Stale on a changed context.
--
-- Reads is backend/app/tools/read_executor.py and db/read_repository.py: Bounds the
-- normalisation of what is asked, Repository the tables and the queries of one table, Joins
-- those of several, Filters the choice of a tool and the filters of a prompt, Tools the
-- three tools; Ranges, Isolation and Offices are the lemmas. Responses is
-- responses/builder.py. Orchestrator is orchestrator/graph.py: the hooks over the
-- controller, the read and the write path, and the operations on jobs; Merges is on which
-- jobs are merged, Stages on the stage hooks and a later resume.
--
-- What the clock, uuid4 and secrets give is an argument. The parser of timestamps and the
-- hook before a submission are fields of a Context, any functions; so is the key of a wave's
-- name, which strip() and casefold() give, an argument of derive_next_stage_candidate. A
-- JSON payload is held decoded. Times that are only stored are texts; the time that an
-- expiry is compared with is a number. A mapping of the idempotency store and its target
-- claims, which the source keeps by the object's id, are one value. A function that takes
-- the store's lock is one step; where the source waits on the condition the step answers
-- `blocked` and changes nothing, and the thread asks again. A booking is one step over its
-- database, since its target claim keeps other bookings of that confirmation out. A rollback
-- is made where no transaction is open too, where it changes nothing. The validator of the
-- checkpoint contract, a compaction strategy, str.lower, the digests of a request, the
-- equality of two dicts, ORDER BY on a time, the age of a time, the database's lower(),
-- replace() on a text, the groups that regular expressions find in a prompt, SQLite's
-- comparisons of texts, rates and times, the arithmetic of dates, the average of hours, and
-- the validation of a response are parameters too, any functions; so is how str() and int()
-- read what is not a text or a natural number. A checkpoint file is the document that it
-- holds, with natural numbers; a reader takes the wrong kind of value as a TypeError. A call
-- of the idempotent job store that has to wait answers `blocked`; complete_claim is where it
-- goes on. A dict that the job store keeps has the texts of the lists and dicts in it.
--
-- Lists are walked by structural recursion, and a poll is one call. Only the text of a
-- number has fuel: the number itself, which is no less than its count of digits after the
-- first.
--
-- Left out of the tables are the artifact columns in the job store, which neither reads nor
-- writes them, and the type checks that tell a datetime or bytes from a text. Not modelled:
-- the set-up of schemas, the backfill of tokens and foreign keys; the dict form of a
-- QueueDecision; logging; the components of an action's response; the loading of the seeds
-- of a read repository; build_orchestrator_graph, which describes the orchestrator for
-- display; and the routes of sessions and of health, configuration, storage, evals and the
-- front end, which are mostly input and output around third-party libraries.
pub mod Prelude
pub mod Python
pub mod Table
pub mod Jobs
pub mod Gateway
pub mod Controller
pub mod Session
pub mod Autonomy
pub mod Api
pub mod Reads
pub mod Orchestrator
pub mod Responses
