-- ===== src/Lib.antt =====
-- offwork runs Python functions on remote workers: a client traces a function into a graph of the
-- functions that it needs, signs a task that carries the graph, and sends it through a broker; a
-- worker checks the task's envelope, runs the function, and sends a result envelope, or a stream of
-- values, back through the broker. This library models the parts that decide what is accepted, what
-- is kept, and in which order it arrives.
--
-- The parts and their files, with paths from the root of the repository:
--   * Base: Python's tests, `==`, lists and dicts over native numbers. Base/Dict.antt is the dict.
--   * Core/Bytes.antt: byte strings, `hex` and `fromhex`; hashlib, hmac and UTF-8 are the fields of
--     `Crypto`, of which nothing is assumed.
--   * Core/Ed25519.antt: offwork/core/ed25519.py. Core/Ed25519/Ranges.antt has its bounds.
--   * Core/Nonces.antt: `NonceLRU` of offwork/core/signing.py. A call of `check_and_add` evicts the
--     expired items, then the excess, and records the key if it is new.
--   * Core/Clients.antt: offwork/core/clients.py, with the registry's file in the state.
--   * Core/Json.antt: the JSON values. Core/Task.antt: `Task` of offwork/core/task.py and its dict.
--     A dict whose fields have a type that no client writes is an error of the model, where the code
--     makes a task of it. Core/Values.antt: `_to_jsonable` and `_resolve` of the same file, over the
--     Python values that they tell apart.
--   * Core/Envelope.antt: offwork/core/envelope.py and the HMAC of offwork/core/signing.py. It
--     composes the registry, the nonce cache, the task's dict and a signature scheme, `Scheme`.
--   * Core/Pairing.antt: the protocol of offwork/core/pairing.py, each side a machine that makes one
--     request to the broker in a step. Core/Keys.antt: the files of offwork/core/token.py,
--     offwork/core/identity.py and offwork/core/pairing.py.
--   * Graph/Models.antt: offwork/core/models.py, with its dicts in Graph/Models/Wire.antt.
--     Graph/Store.antt: `Store` of offwork/graph/store.py; its children have reachability,
--     subgraphs, collection, merging and the exported dict.
--   * Worker/Broker.antt: `_Broker` of offwork/worker/backends/local.py, a step for each request.
--   * Worker/Result.antt: `ResultEnvelope` and `_unwrap` of offwork/worker/result.py, and
--     offwork/core/_timeout.py. Worker/Stream.antt: `Stream` of the same file, which meets the
--     broker and the worker's numbering of yields in arbitrary interleavings.
--   * Worker/Backend.antt: the client methods of `LocalBackend`, over a connection that can lose the
--     request or the reply. Worker/Remote.antt: `_handle_task` and `_execute_task` of
--     offwork/worker/remote.py, with progress in Worker/Remote/Reports.antt; the life of a function,
--     with the times of its events, is an argument.
--   * Worker/Handle.antt: `Result` of offwork/worker/result.py, polling the broker over the readings
--     of a clock; Worker/Handle/Schedule.antt: `ScheduleHandle` of offwork/worker/schedule.py.
--   * Worker/Loop.antt: `_worker_loop` of offwork/worker/remote.py, its semaphore and its signals.
--   * Worker/Policy.antt: `run_with_policy` of offwork/worker/worker.py.
--   * Examples: each theorem on concrete data.
--
-- Times are natural numbers of milliseconds, and a time is an argument wherever the code reads a
-- clock. JSON numbers are natural, with NaN beside them. Locks and the single thread of asyncio make
-- a call without an await one step. The loop of `walk` has fuel for two rounds more than there are
-- dependency edges, which is enough since each edge is pushed once at most. Powers and scalar
-- multiples have fuel 256, the bits of their exponents at most. A loop that polls recurs on the list of
-- its clock's readings, and still waits when the list ends.
--
-- Not modelled: the analysis of Python code and the reconstruction of source text, which work on
-- syntax trees; running a function, of which the events of its life stand for it: its heartbeats,
-- yields and reports, and how it ends; the submission of a task; base64, pickle and the text forms of
-- dates, numbers and paths, whose objects stand as what encodes them; sockets, subprocesses, and files other than the registry's and
-- those with keys, tokens and the identity; the Redis, RabbitMQ and websocket backends; sandboxes; log
-- lines; the command line.
pub mod Base
pub mod Core
pub mod Graph
pub mod Worker
pub mod Examples
