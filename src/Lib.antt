-- ===== src/Lib.antt =====
-- A lock-free queue for many producers and many consumers, and what keeps its memory safe.
--
-- The program. `ms_queue` (include/lfq/ms_queue.hpp) is the queue of Michael and Scott: a singly
-- linked list behind a dummy node, with head_ and tail_. Its reclaimer decides when a node that a
-- dequeue has unlinked is freed. With `hp_reclaimer` (include/lfq/hazard_pointer.hpp) a thread
-- publishes in its hazard slots the nodes that it is about to read, `retire` collects unlinked
-- nodes in a list of the thread, and `scan` frees those that no slot names; a thread that exits
-- leaves the rest on the orphan stack, which the next scan of any thread adopts. `mutex_queue`
-- (include/lfq/mutex_queue.hpp), std::queue under a mutex, is the control group.
--
-- The parts.
--   Base            names of the libraries passed on, and lemmas on lists and numbers
--   Std             std::sort and std::binary_search, as `scan` uses them
--   Machine         ms_queue over hp_reclaimer, for `n` threads
--     State         the shared memory; where a thread stands, with the locals that are live there
--     Step          one access of one thread: `enqueue_step` is ms_queue::enqueue, `dequeue_step`
--                   is try_dequeue, `protect` and `store_slot` are guard::protect and guard::set,
--                   `unguard` in `step` is ~guard, `retire` and `scan_step` are hp_domain::retire
--                   and scan with adopt_orphans, `push_orphans` and `release` are ~tl_cache
--     Spec          the specification: a first-in first-out list, and how far an operation has got
--     System        all threads interleaved, with the history of calls and returns
--     Invariant     the invariant of the machine, and that each step keeps it
--     Refine        the refinement of the specification
--     Conserve      what the specification means for the values
--     Safety        what hazard pointers promise
--     Books, Garbage    the counters of hp_domain, and the retire list of each thread
--     Hands, Bound  what the threads hold of the retired nodes, and all the garbage
--     Solo          a thread that runs alone ends its operation; a drain while nothing else happens
--     Entries       what the retire lists and the orphan stack name
--     Destroy       ~ms_queue, and where each allocated node is
--     Empty         empty
--     Schedule      runs by evaluation
--   Registry        the list of hazard records, for `n` threads
--     Acquire       acquire_record, local_record, the release of a record at thread exit, the stores to
--                   slots of guard and the loop of `scan` over the records
--     Chain, Ownership, Listed, News, Growth    who has a record, and what is on the list
--     Snapshot, Complete    what the loop of `scan` collects while others push records and store
--   Orphans         the stack of orphans, for `n` threads
--     Stack         push_orphan and adopt_orphans
--     Tracked, Items, Conserve    which thread has which node, and where the retired items are
--   Inject          inject_point of include/lfq/inject.hpp; the delays that it makes are no steps of
--                   the machine, which lets a thread be delayed anywhere
--   Leaky           ms_queue_m of model/queue_model.hpp, the queue with a reclaimer that frees nothing
--     Queue         `leaky_enqueue`, `leaky_dequeue`, `leaky_init`: enqueue, try_dequeue and init
--     Outcome, Invariant, Correct    what a step does, by the invariant of Machine; the refinement
--     Solo          a thread that runs alone
--     Teardown      `teardown`
--     Clients       queue_suite of model/queue_model.hpp: `suite_init`, `client_step` and `after` are
--                   before, thread and after
--   Mutex           mutex_queue, for `n` threads, and the same specification
--   Model           hp_protocol_suite of model/hp_model.hpp: a protector and a retirer whose stores
--                   wait in a buffer each, with and without each of the two fences
--     Driver        run and main of model/model_check.cpp; what Relacy answers is a parameter
--   Bench           bench/bench_main.cpp and bench/harness.hpp
--     Numbers, Threads, Args    strtoul, parse_thread_list, parse_args and `main`
--     Suite         split_ratio and run_suite
--     Trials        the workers of the four trials, over a queue that meets Machine.Spec
--     Skeleton      run_threads: the start line, the clock and the join
--     Stats         percentile_sorted, summarize and the merge of the samples
--     Barrier, Release    spin_barrier
--
-- The machine. A step is one access of one thread to the shared memory, with the computation up to
-- the next access. Which thread steps, which operation an idle thread starts, which address `new`
-- returns and whether compare_exchange_weak fails for no reason are choices of the environment, so
-- every property is about all of them. An address is a number; null is 0; `new` may return any
-- address that is not null and not in use, so addresses are reused. The counters wrap at 2 ^ 64.
-- Loops are loops of the machine, without fuel. `destroy`, of ~ms_queue and teardown, is a recursion
-- on fuel, for which two more than the number of links from head_ to the last node are enough.
--
-- The limits. In Machine, Leaky and Mutex accesses are sequentially consistent. In Model a
-- store may pass the later loads of its thread, which is what the fences forbid, and nothing
-- else is reordered; the C++ memory model allows more. Thread `i` has hazard record `i`, and
-- the list has `n` records from the start: acquire_record, and the snapshot of a list that
-- grows, are modelled apart, in Registry; a thread that exits may enter again, with an empty
-- list, which is a later thread with the same record. A push on the orphan stack is one step of
-- Machine, the compare-exchange that succeeds; its loop and the nodes of the stack are modelled
-- in Orphans, where a thread may put any item on its list at any time and no sweep takes items
-- from one, so there are more runs than in hp_domain. The read of nrecords_ in scan_threshold
-- belongs to the step of `retire`, and in_flight and empty are two loads each, from two states
-- with steps of the threads in between. The constructor and the destructor of the queue run
-- alone, as they must. Every node is one of a single queue. The size of T and exceptions are
-- not modelled. In Bench.Trials and Leaky.Clients an operation of the queue is one step, and
-- the clock is a choice of the environment; in Bench.Skeleton a body is the times that it
-- reads, and the clock does not go back. The arithmetic on double of split_ratio and of the
-- percentiles is a parameter. Not modelled either: empty() of mutex_queue, the variants of
-- queue_model.hpp with a relaxed access, padding.hpp (the layout of memory), the system calls
-- behind the clock and the pinning of bench, its seconds and printed numbers, tests, and
-- third_party, which is code of other projects.
pub mod Base
pub mod Std
pub mod Machine
pub mod Registry
pub mod Orphans
pub mod Inject
pub mod Leaky
pub mod Mutex
pub mod Model
pub mod Bench
