-- ===== src/Lib.antt =====
-- AcaBot (src/acabot): a chat agent runtime. This library models the parts of the runtime that keep
-- state and decide by themselves, and proves what makes them correct.
--
-- Parts and files:
--
-- - Scheduler, src/acabot/runtime/scheduler (scheduler.py, contracts.py, store.py).
-- Scheduler/Contracts has schedules, rows and their storage form; Scheduler/Store the statements of
-- SQLiteScheduledTaskStore on a table; Scheduler/Engine the state of RuntimeScheduler (tasks, heap,
-- store, wake event) and its helpers; Scheduler/Tasks register, cancel, disable, enable,
-- unregister_by_owner and list_tasks; Scheduler/Worker the rounds of _worker_loop;
-- Scheduler/Recovery start, stop, _recover_persisted_tasks and _rebind_persisted_callbacks. The
-- other files under Scheduler hold proofs.
--
-- - Runs, src/acabot/runtime/storage/runs.py and SQLiteRunStore of storage/sqlite_stores.py.
-- Runs/Records has the records and the mark_ transitions, Runs/Memory InMemoryRunManager,
-- Runs/Store the tables, Runs/Backed StoreBackedRunManager. Simulation, Refinement, Equivalence,
-- Lifecycle and Latest hold proofs.
--
-- - Threads, src/acabot/runtime/storage/threads.py and SQLiteThreadStore. Threads/Records, Memory,
-- Store and Backed model them; Replies, Conversation and Listing hold proofs. A client that changes
-- the thread object it got changes the entry of the dict.
--
-- - Facts, src/acabot/runtime/storage/event_store.py, memory_store.py and the event and message
-- stores of sqlite_stores.py. Facts/Records has the records and the interface Fact that events and
-- messages fill, Facts/Memory the in-memory store, Facts/Table the SQLite one; Replies, Pages,
-- Saved and Queries hold proofs.
--
-- - Compactor, src/acabot/runtime/memory/context_compactor.py. Compactor/Turns cuts messages into
-- turns and chooses those to keep; Compactor/Compact is compact and apply_to_thread;
-- Compactor/Summarizer the summary by a chain of models; Compactor/Text Python's strip and the
-- truncation. Budget, Partition, Survival, Outcome, Weights, Fits, Summary and Chain hold proofs.
-- It works on the messages and the state of Threads.
--
-- - Ingest, src/acabot/runtime/memory/conversation_facts.py, long_term_ingestor.py and
-- long_term_memory/write_port.py with the ids of fact_ids.py. Ingest/Facts reads the facts of a
-- thread behind its cursors from the tables of Facts; Ingest/Windows cuts them into windows;
-- Ingest/World has cursors, failed windows and upserts with the calls that may fail; Ingest/Write
-- is ingest_thread_delta, Ingest/Process _process_thread, and Ingest/Worker the dirty threads and
-- the worker loop. Cover, Delta, Grows, Accounted, Advance and Drained hold proofs.
--
-- - Pipeline, src/acabot/runtime/pipeline.py and the sending loop of outbox.py. Pipeline/Outbox is
-- send_items, Pipeline/Replies writes the replies to the threads of Threads/Memory, Pipeline/Finish
-- decides how a run ends, and Pipeline/Execute is execute on the runs of Runs/Memory. Written,
-- Left, Stale, Sent and Settled hold proofs.
--
-- - Edits, src/acabot/runtime/computer/editing.py. Edits/Search and Edits/Lines are Python's find,
-- count, replace, split and join; Edits/Endings line endings and the byte order mark;
-- Edits/Matching the exact and fuzzy search; Edits/Diff the diff; Edits/Prepare prepare_text_edit.
-- Found, Newlines, Detected, Outcome, Accepted and Changes hold proofs.
--
-- - Logs, src/acabot/runtime/control/log_buffer.py. Logs/Buffer is InMemoryLogBuffer; Polling,
-- Numbers and Clients hold proofs.
--
-- - Models, src/acabot/runtime/model (model_registry.py and model_targets.py). Models/Targets is
-- the catalog of the places that use a model; Models/Registry the data, Models/Checks its
-- validation, Models/Impacts what depends on what and the deletions in a registry, Models/Requests
-- the state of a binding and its requests, Models/Manager the reloads with their cache and the
-- application of a change, Models/Changes the changes. Sound, Integrity, Reported, Cascade,
-- Resolved, Answered and Raised hold proofs. What the files give and whether a write works are
-- parameters.
--
-- - Ranking, src/acabot/runtime/memory/long_term_memory/ranking.py. Ranking/Merge merges and sorts
-- hits; Hits and Exact hold proofs.
--
-- Prelude has the shared names, lists measured by native numbers, dicts as association lists in
-- insertion order and the stable sort. Texts has lemmas on lists of texts, Errors the exceptions as
-- values, and Tasks operations that may raise one and change a state. Each Tests module applies its
-- part's theorems to concrete inputs.
--
-- Conventions: an operation takes the state and returns its result with the new state. time.time(),
-- uuid4() and what libraries return are arguments; times are whole ticks, so that a duration is
-- positive just if it is not 0. croniter, LiteLLM's token_counter and get_model_info, the
-- completion of the agent and the case mappings of str are parameters, as are
-- unicodedata.normalize, difflib.ndiff, the extractor and the embedding client of the long term
-- memory, the gateway, and the faults of the stages of a run and of the store calls, which are
-- functions of the stage or of the number of the call; the only law assumed is that croniter's next
-- time is later than its start, and an expression that is valid has a next time. In the tables of
-- SQLite the rows stand in the order of insertion, and a primary key that is there refuses an
-- insertion. Loops are recursions on lists; the worker loop up to its next wait has fuel, for which
-- the length of the heap plus one is enough; the windows of a list of facts have its length as
-- fuel, since a step is never 0, and the printing of a number the number. Calls that await run one
-- after another. A task's spec holds a text or a number; Python would carry a value of the wrong
-- kind on to its first use, and here it is an error at once.
--
-- Not modelled: JSON columns and schema migrations, locks, logging, the content of callbacks, and
-- the parts of the runtime that are input and output or glue (gateways, HTTP, model calls, plugins,
-- files).
pub mod Prelude
pub mod Errors
pub mod Tasks
pub mod Texts
pub mod Scheduler
pub mod Runs
pub mod Threads
pub mod Facts
pub mod Compactor
pub mod Edits
pub mod Ingest
pub mod Pipeline
pub mod Models
pub mod Logs
pub mod Ranking
