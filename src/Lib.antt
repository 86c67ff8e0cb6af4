-- ===== src/Lib.antt =====
-- v2lin: the VxWorks kernel calls over POSIX threads (lib/). A program for VxWorks is linked with
-- this library, whose tasks are threads and whose semaphores and message queues are made of mutexes
-- and condition variables.
--
-- The parts, and the files that model them:
--
-- - lib/lmsgQLib.c, message queues. `Msgq.Types` has the control block v2pt_mqueue_t and the list of
--   the queues, `Msgq.Ring` the circular extent (data_extent_for, urgent_msg_to, send_msg_to,
--   fetch_msg_from), `Msgq.Registry` the list of the queues, msgQCreate and msgQNumMsgs, `Msgq.Send`
--   msgQSend with waitToSend and waiting_on_q_space, `Msgq.Receive` msgQReceive with
--   waiting_on_q_msg, and `Msgq.Delete` msgQDelete. `Msgq.Solo` is a queue that a single task uses
--   without waiting, and its specification over a list of messages. `Msgq.Flow` is a queue that any
--   number of tasks use, in any interleaving of the steps of their calls, with the events of its
--   messages and the abstract queue that they are events of (`Msgq.Flow.Deque`). `Msgq.Handoff` follows a message from a sender to a
--   waiting receiver, and space from a receiver to a waiting sender, and `Msgq.Delete.Drain` a deletion to its end.
-- - lib/lsemLib.c, semaphores. `Sem.Types` has the control block v2lsem_t, `Sem.Registry` the list of
--   the semaphores and the three calls that create one, `Sem.Give` semGive, `Sem.Take` semTake with
--   wait_for_token, waiting_on_sem and priority_inversion, and `Sem.Delete` semDelete and semFlush. `Sem.Mutex`
--   and `Sem.Counting` have the interleavings of semTake and semGive, `Sem.Handoff` follows a token from a
--   task to the next, `Sem.Fifo` the order of the tasks that wait, and `Sem.Drain` deletions and flushes to their end.
-- - lib/ltaskLib.c: `Susp` has the lists of the tasks that are suspended on an object
--   (link_susp_task, unlink_susp_task, signal_for_my_task), `Susp.Pointers` the same over the pointers
--   of the task control blocks, `Sched` taskLock, taskUnlock and the counts of taskSafe and
--   taskUnsafe, and `Priority` translate_priority. `Task.Types` has the control block task_t and the
--   list of the tasks, on top of the state of the semaphores and the scheduler (my_task, task_for),
--   `Task.Table` new_tid, taskInit and task_delete, `Task.Start` taskActivate and taskSpawn,
--   `Task.Lookup` the lookups, priorities and taskDelay, `Task.Delete` taskDelete, taskDeleteForce,
--   taskSafe and taskUnsafe, and `Task.Restart` taskRestart with selfRestart and self_starter of
--   lib/lwdLib.c. `Task.Locking` has what they share about the scheduler's
--   lock, and `Task.Valid` the sequences of all these calls. taskSpawn holds no lock between its steps:
--   `Task.Valid.Spawner` has other calls come in between, and `Task.Start.Race` a second taskSpawn.
-- - lib/lwdLib.c: `Wdog` has the watchdog timers, over any function that a timer may call.
-- - lib/lkernelLib.c: `Task.Kernel` has kernelTimeSlice, the turns of the exception task and v2lin_init.
-- - lib/main_impl.c: `Task.Main` has main and the root task, up to the user's functions.
-- - `Clock` has the deadlines that semTake, msgQSend and msgQReceive compute, and the tests whether
--   they have passed.
-- - lib/vxw_defs.h: `Errno` has the error codes and how a call ends.
-- - `Base` is the shared vocabulary: tests, lists and options over the native numbers.
--
-- A function keeps its name, in this library's spelling. A call that can block is cut into steps: a
-- step runs from one point at which other tasks can run to the next (a wait on a condition
-- variable, taskDelay, or the way back to a lock), and what the call has to remember in between is
-- a record (`Sending`, `Receiving`, `Taking`). Inside a step the task holds the lock of the object,
-- so that steps of different tasks on the same object do not overlap; the loop of waitToSend does
-- not hold it, and each of its looks at the queue is a step of its own. Sequences of steps of any
-- tasks in any order are thus all the interleavings. An access outside an object, the overflow of a
-- deadline and a change of the policy of a task without a thread are the result `none`. A condition
-- variable is the number of broadcasts made on it. The time of day, the thread that calls and what
-- malloc returns are arguments.
--
-- Bounds and fuel: an unsigned long has 64 bits and an int 32; the other counts are numbers without a
-- bound. Two loops take fuel: the walks along the pointers of a list, for which two units more than
-- the list has entries are enough, and process_timer_list, whose handlers may change the list that it
-- walks along; more fuel than the list has timers is enough if no handler takes a timer away that is
-- still to come. No other function can fail to end; a wait is a state of its own, and may last for ever.
--
-- Not modelled: the loop of task_wrapper that waits for pthrid, what errno was before a call, the
-- time of day (lib/v2ltime.c), debugging (lib/v2ldebug.c), all that only prints (msgQShow, semShow,
-- taskShow, wdogShow and their kin), the stubs (lib/taskVarLib.c, lib/loadLib.c), and the
-- cancellation of a thread inside a call, but for taskDelete and taskRestart, which cancel a thread
-- between its steps. Some of what C leaves undefined is not told apart from what it defines: the
-- use of qfull_lock by a thread that does not hold it (waitToSend), the pointer below the extent
-- that urgent_msg_to forms before it puts it right, pthread_cancel and pthread_join of a task that
-- has no thread (taskDelete), and the overflow of an int in translate_priority, for which
-- `fits_int` is the test. taskInit is one step, and taskLock is modelled at the point where it
-- returns.
pub mod Base
pub mod Errno
pub mod Clock
pub mod Priority
pub mod Susp
pub mod Sched
pub mod Msgq
pub mod Sem
pub mod Wdog
pub mod Task
mod Tests
