-- ===== src/Lib.antt =====
-- cothread runs many bthreads and coroutines on a few worker threads. This library models the parts
-- that decide which task runs, when, and under which id, and proves what each of them promises.
--
-- Parts and files (paths from the repository's root):
-- - Task: the metadata of a task, include/bthread/core/task_meta_base.hpp and task_meta.hpp.
-- - TaskGroup: the pool of TaskMetas with its free list and generations, src/bthread/core/task_group.cpp
--   (AllocTaskMeta, AllocMultipleSlots, GetOrCreateTaskMeta, DeallocTaskMeta, DecodeId,
--   GetSuspendedTasks). TaskGroup/Valid has the invariant, Alloc and Ids what allocation and recycling
--   do to it and to the ids, Suspended the search of all slots.
-- - StealQueue: a worker's ring of tasks, src/bthread/queue/work_stealing_queue.cpp. StealQueue/Ring reads
--   the ring as a list, StealQueue/Owner has the operations on it, StealQueue/Overlap thieves between the
--   loads and the store of the owner's pop.
-- - MpscQueue: the intrusive queue of include/bthread/queue/mpsc_queue.hpp, as a list in MpscQueue/Fifo.
-- - GlobalQueue: the shards of MpscQueues from which all workers take, src/bthread/queue/shared_mpsc_queue.cpp.
--   GlobalQueue/Shards reads them as lists, Push and Pop have the operations on these.
-- - ObjectPool: include/bthread/pool/object_pool.hpp, as a stack in ObjectPool/Stack.
-- - ExecutionQueue: src/bthread/queue/execution_queue.cpp, which uses MpscQueue and ObjectPool;
--   ExecutionQueue/Order and Stopped use their theorems.
-- - IdleRegistry: the list of idle workers in src/bthread/core/scheduler.cpp.
-- - Timer/Heap: the heap functions of src/bthread/detail/timer_thread.cpp; Order is the heap order, Up and
--   Down the two ways to restore it. Timer/Shard: ProcessShard; Process, Account and Stale say what a run
--   does. Timer/Thread: Init, Schedule, Cancel, Stop and a round of TimerThreadMain; Books and Invariant
--   have the invariant of a shard and of all shards, Wait the time that a round sleeps.
-- - Worker: the batch, yields, the search for a task and the caches, src/bthread/core/worker.cpp, which use
--   StealQueue and TaskGroup. Worker/Run is the worker's loop, Run and PickTask over its own queue, GlobalQueue
--   and the queues of other workers; Pick says which task it takes, Drain what it does after the stop.
-- - Worker/Park: WaitForTask and WakeUp of the same file, with the registry of idle workers, as a
--   relation of single accesses of a waiting worker and of any number of threads that queue a task and wake an
--   idle worker; Park/Wake has the invariant, Park/Unlisted a worker that sleeps outside the registry.
-- - MpmcQueue: the queue of a butex's waiters, include/bthread/queue/mpmc_queue.hpp. MpmcQueue/Deque reads
--   it as a list, Pop has the pops and removals, Rejoin a waiter that joins twice.
-- - Butex: src/bthread/sync/butex.cpp over MpmcQueue; Butex/Wake, Wait and Timeout have Wake, Wait and
--   TimeoutCallback by themselves. Butex/Race interleaves one Wait with one Wake, access by access, and
--   Butex/Race/Woken and Lost say which wake-ups arrive.
-- - Mutex: src/bthread/sync/mutex.cpp as steps of any number of tasks. Mutex/Owner and Exclusion follow the
--   possession of the lock, Mark the bit HAS_WAITERS; Native has the threads that are
--   no workers, Flaws what the mutex does not promise.
-- - Waiters: the tasks that wait on an event or a condition variable, in an MpscQueue; Waiters/Order has
--   their order and what draining the queue does.
-- - Event: src/bthread/sync/event.cpp over Waiters, with Event/Wake and Event/TimedWait.
-- - CondVar: src/bthread/sync/cond.cpp over Waiters, with CondVar/Notify; CondVar/WaitRace has one wait and one
--   notification with the mutex, step by step.
-- - Scheduler: src/bthread/core/scheduler.cpp over StealQueue, GlobalQueue, IdleRegistry and Timer/Thread.
--   Scheduler/Submit says where a task goes and who is woken, Scheduler/Restart what Init and Shutdown do.
-- - FramePool: src/coro/frame_pool.cpp; the allocator is a parameter.
-- - Coroutines: the pool of metas and the sleeping coroutines, src/coro/scheduler.cpp and
--   include/coro/meta.h; Coroutines/Metas and Coroutines/Sleep have their properties.
-- - Results: include/coro/result.h and cancel.h.
-- - Promise: the promises and tasks of include/coro/coroutine.h, with RunCoroutine of
--   src/bthread/core/worker.cpp and Scheduler::Spawn. Promise/Objects has the objects that own frames, Outcomes
--   what get says, Run and Awaiter the run of a coroutine and of the one that awaits it, Race an await
--   and a final suspension access by access.
-- - Api: bthread_create, bthread_join and bthread_detach of src/bthread.cpp over TaskGroup; Api/Create has
--   the making of a task's id, Api/Lifetime its end, Api/Current bthread_self and bthread_exit, Api/Life a
--   task from create to join, Api/JoinRace a join and the end of its task access by access, Api/Config the
--   timers and the number of workers over Scheduler and Timer/Thread, Api/ByWorker create and join called on
--   a worker, over Worker's caches.
-- - Handle: the handles of include/bthread/core/task.hpp and src/bthread/core/task.cpp and the spawn of
--   include/bthread/api/spawn.hpp, over TaskGroup; Handle/Spawned has what spawn makes, Join what a join does.
-- - Once: src/bthread/api/once.cpp.
-- - Platform: the stacks of src/platform/platform_linux.cpp and platform_windows.cpp, in Platform/Stacks.
-- - Prelude: notation, Boolean tests, lists, maps as functions, fixed-width integers, arrays.
-- - Tests: runs on concrete inputs.
--
-- How state and operations correspond: a class is a record of its fields under the source's names, an
-- atomic field is its value, a pointer is an address or a slot, and `none` is a null pointer or -1. A
-- method is a function from the state (and the clock's reading, where it reads the clock) to the result
-- and the new state. Callbacks and tasks act through a function parameter; the calls of
-- Submit by an event, a condition variable or a butex are a list. A write outside an array is a result of
-- its own.
--
-- Bounds and fuel: words wrap at 2^32 or 2^64 where the source's do. ProcessShard, Execute, Wake and the
-- draining of waiters loop on fuel; one round more than there are due timers, queued tasks or waiters is
-- enough, and for a pop from a butex's queue one more than items are linked. The sifting loops take the
-- index or the length as fuel, which is enough since every round moves to a parent or a child. The loop
-- after a worker's stop has the source's hundred rounds. The run of a coroutine takes two rounds for
-- itself and its awaiter, and one more for each that is resumed after them. Sizes of stacks are such that
-- the mapped region ends below 2^64.
-- Deadlines and times are taken below 2^63, where the source's int64_t does not overflow.
--
-- Not modelled: outside Worker/Park, Butex/Race, Mutex, Promise/Race, Api/JoinRace, CondVar/WaitRace and
-- StealQueue/Overlap, operations that overlap in time (each runs by itself, so a compare-exchange succeeds
-- at once); context switches, which are assembly, threads and clocks, which are system calls; the
-- specialisations of the coroutine types for void, which only lack the value; tracing. What a task or the
-- body of a coroutine does while it runs is a parameter, and so is when the compiler suspends it. The step
-- relations take the accesses as sequentially consistent. In Worker/Park the futex compares and sleeps in
-- one step, as the system call documents; fewer than 2^32 wake-ups are counted where a theorem says so. In
-- Mutex a task sleeps on the butex in one step if the value is the one that it read, and Wake(1) finds a
-- sleeper if there is one: what Butex/Race shows beyond this is left out there; in Api/JoinRace the
-- accesses within Wait and Wake are those that decide whether the join sleeps, and a Wait may be cut short
-- at any time. CondVar/WaitRace has one waiter and one notification. Shutdown's joins of the workers'
-- threads are taken to return. Threads that are no workers wait in the system's futex, mutex and condition
-- variable, of which only the effect on the state word and the number of signals is kept.
pub mod Prelude
pub mod Task
pub mod TaskGroup
pub mod StealQueue
pub mod ObjectPool
pub mod MpmcQueue
pub mod Butex
pub mod Mutex
pub mod Scheduler
pub mod Api
pub mod Timer
pub mod MpscQueue
pub mod IdleRegistry
pub mod ExecutionQueue
pub mod Worker
pub mod Waiters
pub mod Event
pub mod CondVar
pub mod FramePool
pub mod Coroutines
pub mod Results
pub mod Promise
pub mod Handle
pub mod Platform
pub mod Once
pub mod GlobalQueue
pub mod Tests
