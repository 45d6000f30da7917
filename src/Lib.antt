-- ===== src/Lib.antt =====
-- Retrieval Token Cutter: the way of a change from a node of the context file system to the vector
-- index.
--
-- A node that is written registers an event in an outbox directory beside it (commit/outbox_store.py,
-- with the URIs and paths of fs/agfs_adapter/agfs_context_fs.py). A scheduler (index/scheduler.py) runs
-- the worker's cycle (index/outbox_worker.py): it lists the pending events of all accounts, claims each
-- by a lock file, embeds the records of all upserts in one call, changes the vector index, and removes
-- the event, puts it back with a delay, or moves it to the dead letter queue. The vector index of
-- providers/vector_index/in_memory_index.py answers searches.
--
-- What is written comes from candidates: commit/candidate_pipeline.py gathers them from the extractors and
-- validates them (code-version/core/validation.py), the policies of code-version/commit plan for each a
-- creation, a merge or nothing, archive_builder.py makes the node, and commit/context_writer.py writes it,
-- with up to three attempts where another writer was faster.
--
-- What is in the index is found again by retrieval/hierarchical_searcher.py, which goes down from the
-- best directories. session/session_state.py keeps the promises of a session, and
-- session/archive_store.py its archives, which are nodes too. index/directory_event_handler.py makes the
-- summaries of the directories, from the leaves up.
--
-- Base, Base/*: numbers, lists, Python's str as the list of its code points, and errors as values.
-- Json: JSON documents. A float is the number that its bits spell.
-- Outbox/Event, Client: OutboxEvent, what the files hold, and the AGFS client (pyagfs), a parameter
-- with the laws of reading, writing, removing and renaming.
-- Outbox/Uri, Paths: parse_uri, uri_to_path, _uri_to_agfs_path. The seven regular expressions are
-- matchers on the parts between slashes; urllib's unquote is a parameter.
-- Outbox/Store, Register, Pending: the methods of OutboxStore. Layout, Locks, Durable, Race, Retries,
-- Confined: what holds of them. Memory: a client over an association list, as an instance of the laws.
-- Worker/Result, Extract, Services, Process, Run: OutboxWorker; each function has the method's name
-- and run_once is cut at its loops. Backoff, Tenancy, Accounting, Books, Isolation/*, Twice: what holds.
-- Wiring: the outbox store as the worker's store.
-- Scheduler: OutboxScheduler over a background scheduler that is a parameter.
-- VectorIndex/Dict, Index, Search: InMemoryVectorIndex, whose two dictionaries are lists of items in
-- order. Arithmetic on floats and the MD5 digest are parameters; NaN is a float that no comparison with
-- another holds of. Hits: what one hit for each passing record is. Scope, Found: what holds.
--
-- Nodes/Files, Meta, Methods: write_node and read_node of AGFSContextFS, over a client of files of bytes
-- and a codec (UTF-8 and json) that are parameters. Tree: exists, list_children, delete_node, move_node
-- and build_uri. Segments: texts between slashes. Written, Ordered, Readback, Present, Built: what holds.
-- Memory: files in an association list, as an instance of the laws.
-- Commit/Keys, Resolver: routing keys and the URIs of the schemas. Plan, Policies, Chunks, Router: the
-- merge policies and their choice; Planned has PolicyRouter.plan. Builder: ArchiveBuilder. Writer:
-- ContextWriter, cut at its early returns. Validation, Speaker, Pipeline: the checks of the candidates
-- and their gathering. Squeeze, Settled, Again, Planned, Versions, Once, Valid, Collide, Gather: what
-- holds.
-- Retrieval/Walk: HierarchicalSearcher, the loop over the queue cut at what one directory does. Visits,
-- Ends, Origin: what holds.
-- Directory/Summaries, Records: the texts of a summary, its node and its records. Dag: the state of
-- DirectoryEventHandler, with the tasks of its event loop, of which any may run next; Task: what each does
-- up to where it waits. Once, Flat: what holds.
-- Session/State: SessionState. Archive: SessionArchiveStore over the nodes. Loops, Stored: what holds.
-- Filter/Lines, Truncation, Dedup, Comments: filter/core/truncation.py, dedup.py and filter.py, which
-- shorten the output of tools. Regular expressions are parameters, except those that only compare
-- prefixes. Bounds, Overflow, Runs, Kept: what holds.
--
-- Times are microseconds since the epoch. The clock of the worker is a function of the store it is read
-- in, so that each use may read another time. _scan_outbox_recursive recurses as deep as the tree of
-- directories; its fuel is what the interpreter's recursion limit leaves, and running out of it is the
-- RecursionError that list_pending catches. The loop of deduplicate has the number of lines for fuel,
-- of which each round takes at least one; digits has one more than the number, which each step divides
-- by ten. The loop over consecutive underscores has the length of the key for fuel: each round makes it
-- shorter. The loop over the queue of directories has fuel too; a bound is among the results. No other
-- function needs fuel.
--
-- Not modelled: texts of log and error messages, concurrency inside one process, the other vector
-- indexes, retrieval but for the hierarchical search, sessions but for their state and archives,
-- extraction, the HTTP servers, the AGFS server in Go, and the plugins. Of the context writer, the
-- pool of threads that writes several candidates at once.
pub mod Base
pub mod Json
pub mod Outbox
pub mod Worker
pub mod VectorIndex
pub mod Scheduler
pub mod Filter
pub mod Nodes
pub mod Commit
pub mod Directory
pub mod Session
pub mod Retrieval
