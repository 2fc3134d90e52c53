-- ===== src/Lib.antt =====
-- disastrOS, an operating system simulator with message queues.
--
-- PoolAllocator models pool_allocator.c: a block is an index, the table of links is a list, and a
-- block's address is the buffer's address plus index times size. PoolAllocator.Live states what the
-- kernel relies on: which addresses are handed out.
--
-- LinkedList models linked_list.c on a memory that maps an item to its two links. `find` has fuel,
-- one round for each item and one more. Sequence is the view of a list as the sequence of its items,
-- used for every list of the kernel. An insertion of null or of an item that is in the list, and a
-- removal of an item that is not, stop with a fault there; the code would go through null, return 0
-- or break the list.
--
-- Os holds the objects of disastrOS_pcb.h, disastrOS_mq.h, disastrOS_resource.h,
-- disastrOS_descriptor.h and disastrOS_timer.h, one memory for each type, and the global variables
-- of disastrOS_globals.h with the allocators. Process models disastrOS_pcb.c. MessageQueue models
-- disastrOS_mq.c, MessageQueue.Write the handler of disastrOS_write_mq.c (`write` is
-- internal_MessageQueue_write), MessageQueue.Read that of disastrOS_read_mq.c (`read` is
-- internal_MessageQueue_read). A handler is a function from the state to a `Run`: the state behind
-- the call, or the fault at which it stops. Its arguments lie in the running process, as in the code,
-- and are taken to fit an `int` where the code stores them in one; an argument that is a pointer is
-- the number, 0 if it is negative.
--
-- MessageQueue.Invariant is the state of the queues between two calls: the counter of each queue is
-- the number of its messages, at most 256; readers wait only at an empty queue and writers only at
-- a full one; a process is running, ready or waiting, in one list once, and waits at one queue at
-- most; messages and list items are live blocks of their pools. MessageQueue.Contents is the
-- abstract view: the byte strings in each queue, oldest first.
--
-- The memory of the processes is two functions, of bytes and of ints, apart from the kernel's
-- objects. Not modelled: the log, contexts, stacks, signals and the interval timer of the host
-- (disastrOS.c), which only transfer control, and the test programs.
--
-- Descriptor models disastrOS_descriptor.c, and MessageQueue.Open the handlers of
-- disastrOS_open_mq.c, disastrOS_close_mq.c and disastrOS_destroy_mq.c. Timer models
-- disastrOS_timer.c and disastrOS_sleep.c, Schedule disastrOS_schedule.c, disastrOS_preempt.c,
-- disastrOS_shutdown.c and the clock interrupt of disastrOS.c, Wait disastrOS_wait.c, Exit
-- disastrOS_exit.c, Spawn disastrOS_spawn.c and disastrOS_fork.c, Resource disastrOS_resource.c and
-- the three handlers for resources, System the tables of disastrOS.c, disastrOS_syscall up to the
-- switch of contexts, and disastrOS_trap. System.Calls has the functions that a process calls:
-- `syscall` is disastrOS_syscall with the trap, and its result the state behind it; the process
-- that runs then reads its own syscall_retvalue. The loop of Exit over the children has as many
-- rounds as the process has children, one for each that leaves the list. The clock and the time at
-- which a sleeper wakes are `int`s that wrap around; the overflow has no meaning in C. The counters
-- of pids and descriptors are unbounded numbers where the code has an `int`.
--
-- Schedule.Schedules.IsClock is the state of timers and process lists between two calls: the list of
-- timers is sorted, its items are live blocks, and the process of each timer waits and has no other
-- one.
--
-- Spawn.Born.IsPopulated is the state of the processes: those that run, are ready or wait are live
-- blocks with pids below the next one.
--
-- Wait.Ended.HasEnded is the state at a wait for a child that has ended, and Exit.Ends.CanEnd the
-- one at the end of a process without children for which nobody waits.
--
-- Start models disastrOS_start up to the switch to the first process, and Start.Pools the calls that
-- set up the pools. The addresses of the static arrays and the sizes of the objects, which the
-- compiler and the linker choose, are a parameter, `Layout`; Start.Ready.IsLayout says that they are
-- not zero and that the size of each array fits an `int`.
--
-- MessageQueue.Opens.IsDescribed is the state of the descriptors: the listed queues, the descriptors of
-- the running process and the items of the queues are live blocks, and the numbers were given out.
--
-- Reach.Steps is the kernel as a step relation: the running process computes or makes a call, or
-- the clock ticks, from the state that the start leaves; a fault ends the run. The calls are those
-- on queues and resources, fork, spawn and preempt; wait, exit, sleep and shutdown are no steps, so
-- no timer is ever set there. Reach.Sound.IsSound is what holds in each state. Reach.Within says
-- which handlers create no process and no queue.
--
-- Print and Print.Objects model the functions that print, as the list of what they write: texts,
-- numbers and byte strings. A print reads `%s` up to a zero byte and has no meaning behind its array.
--
-- Base holds the integers over the native numbers, the lists, pointers and faults that all parts
-- share. Examples holds concrete states at which the theorems are applied.
pub mod Base
pub mod PoolAllocator
pub mod LinkedList
pub mod Sequence
pub mod Os
pub mod Process
pub mod Descriptor
pub mod MessageQueue
pub mod Timer
pub mod Schedule
pub mod Wait
pub mod Exit
pub mod Spawn
pub mod Resource
pub mod Start
pub mod Print
pub mod System
pub mod Reach
pub mod Examples
