-- ===== src/Lib.antt =====
-- Tantra: the durable core of an agent runtime (packages/tantra/src/tantra).
--
-- A session is an actor with a journal, an append-only list of numbered events, and a header, its
-- mutable summary. Commands are queued into the journal; a turn takes one, samples a model and calls
-- tools, and every step of it is an event. The model sees messages that are assembled from the
-- journal; when they outgrow its context, a compaction appends stubs of old tool results and a
-- summary, and assembly starts at the summary from then on. Sessions form trees: a tool call may
-- create a child. Cleanup selects old trees and deletes them.
--
-- The parts, by file, with the source's modules (paths below packages/tantra/src/tantra):
--   Prelude        shared names, lists and dicts over native numbers, results that may raise
--   Json           the values that the source types as `Any`
--   Events         events.py, ask.py: the events, `Stamped`, `SessionHeader`
--   Journal        stores/base.py `reduce_journal`; Journal/Machine is an actor that takes events one
--                  by one, which Journal/Refines compares it with
--   Header         stores/base.py `reduce_header`, `apply_patch`
--   Memories       memory.py `MemoryRecord`, stores/base.py `select_memories`
--   Listing        stores/base.py `select_headers`
--   MemoryStore    stores/memory.py: the state as a record of dicts, each method a function from a
--                  store to what it returns or raises and the store after it; MemoryStore/Tree has
--                  `delete_tree` and `select_cleanup`
--   Cleanup        cleanup.py: selectors, revisions, the selection of trees, reports
--   Messages       providers/base.py: messages and requests
--   Context        context.py: `compaction_window`, `compacted_history`, `assemble_messages`. The
--                  message objects that the source shares between its list and its dicts are `Slot`s
--                  of the list that name an entry of a dict
--   Compaction     compaction.py: estimates, `_tail_start`, `_prune`, `_compact`
--   Permissions    permissions.py
--   Pages          _pages.py: the cache of recent events that live readers share
--   Recovery       runtime.py: `_journal`, `_reduce_operational`, and what `_recover_locked` appends
--   Skills         skills.py: the catalogue of `FileSystemSkills`
--   Requests       context.py: `build_sample_request`, `resolve_model`
--   Recall         memory.py: rows written, superseded, deleted and filtered
--   Rpc            acp/jsonrpc.py: the answer to a message, `_handle`
--   Turn           loop.py: the turn. The engine is a record with the events it wrote; Turn/Stream has
--                  the batches of deltas, Turn/Sampling the tries of a sample, Turn/Parts its events,
--                  Turn/Tools and Turn/Batch the checks and runs of tool calls, Turn/Drive the loop.
--                  Tools that run at the same time write in any order (`weave`). A hook is what its
--                  methods give or raise; a tool whose `after_tool` raises has no completion, and
--                  the turn raises when the other tools have ended
--   Coordinator    coordinator.py: the messages of instances. Coordinator/Database has the tables;
--                  Coordinator/Lease is `PostgresCoordinator`'s ownership of trees,
--                  Coordinator/Transaction is `CoordinatedStore`, Coordinator/Requests the requests
--                  between instances, and Coordinator/System any steps of any instances;
--                  Coordinator/Lasting is what such steps may do to a request
--   Samples        concrete sessions for the tests, which stand in the Tests modules
--
-- The store calls the reducers and the cleanup selection; compaction calls the assembly, and the
-- events it returns are read back by `compaction_window`. The methods of a store hold a lock, so
-- each is one step. Instances that share a database own trees in turns, by leases; each of their
-- transactions holds the lock of its tree and is one step, in which every statement that compares
-- a lease with the clock has its own reading of it. An exception is the value `raise`.
--
-- Parameters, for code that is not in this repository: UUIDs (`uuid`), the hash of a tree
-- (`digest`), the cursor text of cleanup (`cursor_of`), JSON text, decimals and the measures of
-- messages (`Codec`), `fnmatchcase` (`fnmatch`), `str.casefold`, the sizes of Python's objects
-- (`size_of`), the files of skills (`Folder`), the clock (`now`), the model provider (`stream`)
-- and the caller's hooks. They are arbitrary functions; where a result needs more of them, it is
-- a hypothesis.
--
-- Fuel: the walk over a tree of sessions takes one step for each session of the tree, and as many as
-- the store has headers, and one more, are given. A store where headers are each other's parents
-- would make the source's loop run on without end: this is the error `no_end` of the model.
--
-- `read_journal` takes one step for each page, and one more; each page but the last has an event,
-- so the number of events and one is enough.
--
-- A sample has as many tries as failures are allowed, and two more: the last failure is raised, and
-- one try may follow a compaction. For a call whose id is taken as many new ids are tried as ids are
-- taken, and one more; where they all are, which is a collision of digests, this is `no_end` too. It
-- is enough where the digests of as many attempts as ids are taken and calls are named are different.
--
-- Numbers are natural numbers, and integers where the source may go below zero. Texts, ids and UUIDs
-- are strings, and times are numbers.
--
-- Not modelled: the rest of the runtime, which schedules the work; of the turn loop the wait between
-- tries, the asks of running tools, the spans of tracing, `notify` and `Hook.on_event`, which are
-- called in `_append` after the events are written, and whose exceptions would leave it there, and
-- `Hook.on_cancel`, which the runtime calls; of the coordinator the connections,
-- their failures and the watching of changes; the file and database stores; the rest of the protocol
-- server; the ranking of `recall`; providers, tools, tracing and telemetry, which are input and
-- output; the checks of `CompactionConfig.__post_init__`.
pub mod Prelude
pub mod Json
pub mod Events
pub mod Journal
pub mod Header
pub mod Memories
pub mod Listing
pub mod MemoryStore
pub mod Cleanup
pub mod Messages
pub mod Context
pub mod Compaction
pub mod Permissions
pub mod Samples
pub mod Turn
pub mod Coordinator
pub mod Rpc
pub mod Requests
pub mod Recall
pub mod Recovery
pub mod Skills
pub mod Pages
