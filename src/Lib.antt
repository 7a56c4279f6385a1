-- ===== src/Lib.antt =====
-- The distributed programs of this repository that are written in Python: a server of shared text
-- documents with its console client, the streaming analytics of weather measurements with their
-- reference program, and the reference program and the generator for shortest paths. The modules
-- named Tests run them on concrete inputs.
--
-- The document server. section3/problem1/server.py is in Doc: `DocumentService` is the dict of the
-- documents with the queues of the subscribers, a `Document` holds the numbers of its queues, and
-- each handler (`create_document`, `get_document`, `edit_document`, `subscribe_to_updates`) is a
-- call on that state which answers or aborts with a status code. The loop and the callback of a
-- stream are `next_update` and `unsubscribe`. Doc/Runs has runs of the service as sequences of
-- such steps. Children: Doc/Queues (broadcast), Doc/Writes (each handler as one write),
-- Doc/Streams (what a stream has sent), Doc/Creation, Doc/Edits, Doc/Persist.
-- section3/problem1/concurrent_demo.py is in Doc/Demo: its editors and its subscriber act on the
-- server in an order given by a list of moves, which any schedule of its threads is; `demo` is
-- `main`, up to the checks and the exit code.
--
-- The console client. section3/problem1/client.py is in Client: Client/Console has its operations,
-- each of which returns or raises, Client/Dispatch the command line and the loop; in its `run` no
-- stream prints or ends while the commands are read, the thread of a subscription being the steps
-- `pump` and `pump_end`. A call of the stub is the handler's call on the server's state, and
-- Base/Text/Shlex models `shlex.split`.
--
-- The weather analytics, section2/q2_grpc. Weather/Accum is the partial state of common.py
-- (`KSum`, `hotter`, `colder`, `add_batch`, `merge`, `merge_all`), Weather/Wire its conversion to
-- and from protobuf, Weather/Report the report, Weather/Dataset the reading of a data set
-- (`read_header`, `iter_batches`). Weather/Worker is worker.py, Weather/Coordinator is
-- coordinator.py: the links with their queues, the two ways to distribute a batch, the ingest
-- session and `GetAnalytics`. A worker stands behind its link; the sender thread and the worker
-- act in the step `deliver`, which may come between any two steps of the coordinator. A round of
-- the session is two steps, since the batch is distributed outside of the lock and counted under
-- it; a query asks each worker at a moment of its own and reads the coordinator later, under the
-- lock, and Weather/Coordinator/Queries has these steps in any order. Weather/Coordinator/Window
-- is about the rate window and the exclusion of sessions. Weather/Accum/Spec says what a state
-- tells of the records it has seen, without their order. Weather/Streamer is streamer.py, and
-- Weather/Streamer/EndToEnd follows a file from there to the merged answer. Weather/Oracle is the
-- reference program, q8_from hw2/scripts/oracle.py. Weather/Dashboard is dashboard.py, the text
-- that it shows and its waiting for the final answer. Weather/QueryLoad is bench/query_load.py:
-- its client threads as turns in any order, and the figures of their latencies. Weather/Bench is
-- bench/bench.py: its configurations and commands, with Weather/Bench/Outputs (what it reads from
-- the output of the processes, which is an argument) and Weather/Bench/Trial (a configuration and
-- its row). Weather/Bench/QueryLog and Weather/Bench/StreamerLine relate its reading to what
-- bench/query_load.py and streamer.py print.
--
-- Shortest paths, section1/q2_sssp. Sssp is oracle.py, Dijkstra's algorithm with `heapq` as a
-- sorted list, with Sssp/Ends (its fuel), Sssp/Relax (the invariant of its loop) and Sssp/Optimal.
-- Sssp/Generate is gen_graph.py, with Python's `random` as a parameter, and Sssp/Generate/Output
-- the text that it writes, which oracle.py reads.
--
-- Numbers. Timestamps and station numbers are integers, counts are natural numbers; the ranges of
-- protobuf's 32 and 64 bits are not modelled, nor a version beyond 2^64. Floats are a parameter
-- (Weather/Floats): values that are not NaN, the two zeros being one, with the laws of IEEE 754 on
-- comparisons and on adding 0.0 as hypotheses. The conversions to printed and scaled values are
-- another parameter (`Measures`), whose rounding is assumed to keep the order. Text is a list of
-- code points, and digits are ASCII.
--
-- Bounds. `iter_batches` has as many rounds as lines and one more, which is enough since each
-- further round reads a line. The client's loop has one round more than input lines, since the end
-- of the input counts as `exit`. Dijkstra's loop takes the bound of its rounds as an argument; it
-- has finished when its queue is empty. A critical section under a lock is one step.
--
-- Not modelled: the bound of the send queues and the waiting on it, the costs of a query, clocks
-- (their readings are arguments), logging, and process set-up; the processes that bench/bench.py
-- starts and stops, the C++ programs, the pace of the streamer, the plots and the generated
-- protobuf modules.
pub mod Base
pub mod Doc
pub mod Weather
pub mod Client
pub mod Sssp
