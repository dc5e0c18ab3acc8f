-- ===== src/Lib.antt =====
-- Machine Fabric: the state machines of a fabric of machines, and the theorems about them.
--
-- A controller keeps two tables: tasks submitted to executors (crates/machine-fabric-core/src/task.rs)
-- and leases of exclusive resources (crates/machine-fabric-core/src/lease.rs), both made of the data of
-- crates/machine-fabric-schema/src/lib.rs. It checks what goes to an executor and
-- what comes back against the schemas of its capabilities. It talks to executors by the requests and responses of
-- crates/machine-fabric-protocol/src/lib.rs, over channels whose lifetime is a grant
-- (crates/machine-fabric-peer/src/lease.rs).
--
-- Files and code:
--   Base, Base/*        names and lemmas shared by all files: tests on numbers and texts, lists, Result.
--   BTreeMap, BTreeMap/*  `std::collections::BTreeMap` with text keys, as its entries in order.
--   Schema              the tasks, task events and leases of crates/machine-fabric-schema.
--   Tasks/Table         `TaskTable`, `push_event`, `from_tasks`, `get`, `snapshot` and the scoped key.
--   Tasks/Lifecycle     `submit_traced`, `submit`, `transition`, `retry`, `retry_with_input` and
--                       `recover_orphans`.
--   Tasks/Upkeep        `page_by`, the payload references and `prune_terminal_before`.
--   Tasks/*             the theorems: the methods and their invariant (Methods, Cases, Consistent,
--                       Steps), what a method does to each task (Evolution, History, Events, Final),
--                       submissions and their keys (Submission, Key), Page, Prune and Restore.
--   Leases/Table        `LeaseTable` and all its methods.
--   Leases/*            Cases, Consistent, Fences and Holding: the theorems about leases.
--   Protocol            requests, responses and their constructors.
--   Peer/Grant          `Lease` of crates/machine-fabric-peer: `new`, `revoke`, `ended`, `renew`.
--   Peer/Frame, Peer/Wire  the frames of crates/machine-fabric-peer/src/connection.rs, `encode` and
--                       `read_frame`; Peer/Lines has the theorems.
--   Peer/Compression    crates/machine-fabric-peer/src/compression.rs, with JSON, gzip and base64 as a
--                       parameter; Peer/Gzip has the theorems.
--   Peer/Channel, Peer/Inbound  the state that the threads of a connection share, and what a caller, the
--                       reading and the writing thread do to it under its lock.
--   Peer/Limits, Peer/Runs  the theorems on every interleaving of these calls.
--   Peer/Config, Peer/Handshake  `PeerConfig::validate`, and the handshake at the start of `read_loop`;
--                       Peer/Meeting joins its two sides through `send` and `read_frame`, and Peer/Sends,
--                       Peer/Greetings and Peer/Meets have the theorem on them.
--   Desktop/Queue, Desktop/Gate  the data of crates/machine-fabric-runtime/src/desktop.rs, and what lets a
--                       session use the desktop: `snapshot_allows_input` and `user_authorization`.
--   Desktop/Promotion   `promote`, `needs_cleanup`, `cleanup_done`, `worker_reconcile` and
--                       `open_with_boot_id`.
--   Desktop/Commands, Desktop/Dispatch  the arms of `command`, then `command` itself, `begin`, `end` and
--                       the recovery inspection.
--   Desktop/Live, Desktop/Stable, Desktop/Runs, Desktop/Exclusive  the sessions that have the desktop,
--                       in every order of calls; Desktop/Ages, Desktop/Idle, Desktop/Grants and
--                       Desktop/Turns: the theorems on grants; Desktop/Permission and Desktop/Admission:
--                       those on actions and on an opened queue.
--   Executor/Capacity   `ExecutionCapacity` of crates/machine-fabric-runtime/src/executor.rs: `acquire`
--                       as the entry, each try and the timeout, and the drop of a permit.
--   Executor/Permits    the permits that are out, in every order of these steps.
--   Executor/Fences     `ExecutorFences` and `issue_authority`, with the table in memory and the one in the
--                       file; Executor/Issue and Executor/Authority have the theorems.
--   PathPolicy/Paths, PathPolicy/Policy  crates/machine-fabric-runtime/src/path_policy.rs for the Unix
--                       targets, with the file system as a parameter; PathPolicy/Roots is
--                       `DesktopPathPolicy::new` for Linux, and PathPolicy/Access `checked_path` of
--                       executor.rs. PathPolicy/Normal, PathPolicy/Safety and PathPolicy/Protected have
--                       the theorems.
--   Controller/Validation  `validate_schema` of crates/machine-fabric-runtime/src/controller.rs, on the JSON
--                       values of Controller/Json; Controller/Inside and Controller/Right describe what a
--                       schema asks, and Controller/Checks, Controller/Kinds, Controller/Demands and
--                       Controller/Conforms show that it accepts just that.
--   Tests/*             runs, and the theorems at concrete inputs.
--
-- How the code corresponds: a `HashMap` or `BTreeMap` that is iterated in order is a sorted list of
-- entries; a method that takes `&mut self` returns the new table beside its answer; a method that can
-- panic returns an Option, none for the panic. A reading of the clock (`now_ms`, `Instant::now`) and the
-- text of a new UUID are arguments of the function that makes it, with instants in whole milliseconds, so the theorems hold whatever the
-- clocks show. JSON values are a type parameter, but for schemas, where they are a data
-- type and a number is its text. `u64` and `u32` arithmetic is written out with its
-- wrap-around or saturation. All loops are structural recursion, so there is no fuel. What
-- a method of the desktop queue reads, the clock each time, the files of the provider and of the user and
-- whether each write of the queue succeeds, is a record of arguments (`Readings`, `Inputs`), so a theorem
-- holds for all of them. A path is the list of its components; a thread that waits on a condition variable
-- takes a step each time that it has the lock.
--
-- Not modelled, since it is I/O or glue: persistence (store.rs), sockets, processes and ssh, the
-- clipboard and platform interfaces. Not modelled either: the handlers of a connection, the
-- dispatch of the controller and of the executors, the rendering of the names of resources, and the paths
-- of Windows.
pub mod Base
pub mod BTreeMap
pub mod Schema
pub mod Tasks
pub mod Leases
pub mod Protocol
pub mod Peer
pub mod Desktop
pub mod Executor
pub mod PathPolicy
pub mod Controller
mod Tests
