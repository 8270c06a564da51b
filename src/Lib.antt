-- ===== src/Lib.antt =====
-- HoraciOS: a small kernel with a priority round robin scheduler, a buddy allocator, mutexes,
-- semaphores, mailboxes, a graphic console, and user programs under a shell.
--
-- The timer's handler calls `short_term_scheduling` (Kernel/scheduler.c), which puts new
-- processes in the ring of Kernel/priority_round_robin.c and picks the next one that is ready. A
-- mutex, a semaphore or a mailbox asks `get_current_pid` who calls, blocks it by
-- `mark_process_as_blocked` and wakes it by `resume_process` (Kernel/process.c). Objects are
-- found by name through directories of pointers, and their memory comes from
-- Kernel/memoryManager.c. A process reads from the keyboard or a mailbox and writes to the screen
-- or a mailbox (Kernel/read.c, Kernel/write.c). User programs reach the kernel by
-- Kernel/SysCallDispatcher.c; the shell (Userland/SampleCodeModule/shell.c) runs commands as
-- processes and joins two of them by a mailbox.
--
-- Prelude: shared names, lists over the native numbers, windows of circular arrays.
-- Strings: Kernel/strings.c but `toString`; a string is the list of its bytes.
-- Services: what the other parts ask of the scheduler and the allocator, as an interface.
-- WaitQueue: `lockedQueue` and its two indices in Kernel/mutex.c and Kernel/sem.c.
-- Mutex: `mutex_lock`, `mutex_unlock` and `mutex_super_unlock` on one mutex, with the view that
--   they implement in Mutex/Spec.
-- Directory: the array of pointers and the `free_index` of the directories.
-- MutexDirectory: the functions of Kernel/mutex.c that create, find, lock, unlock, destroy and
--   release mutexes; MutexDirectory/Memory and Backed put them over the scheduler and the buddy
--   allocator.
-- Semaphore: `sem_wait` and `sem_signal` of Kernel/sem.c, with Semaphore/Spec.
-- SemaphoreDirectory: the functions of Kernel/sem.c that create, find, wait on, signal and
--   destroy semaphores, over MutexDirectory.
-- Mailbox: `write_message`, `read_message` and what they call in Kernel/mailbox.c, on one
--   mailbox; Mailbox/Stream gives the stream of bytes that the ring holds.
-- MailboxDirectory: the functions of Kernel/mailbox.c that create, find and destroy mailboxes.
-- RoundRobin: Kernel/priority_round_robin.c; RoundRobin/Ring gives the cells that the nodes link.
-- PointerStack: Kernel/non_sizable_stack.c.
-- ProcessTable: the control blocks, their states and accessors, of Kernel/process.c.
-- Scheduler: Kernel/scheduler.c and the functions of Kernel/process.c that block and wake;
--   Scheduler/Provide fills the interface of Services, with the buddy allocator for memory.
-- Processes: `create_process`, `mark_process_as_finished`, `change_priority` and what they call
--   in Kernel/process.c; `_initialize_stack` is an argument.
-- Keyboard: Kernel/keyboard.c; what `readKey` returns is an argument.
-- MemoryManager: Kernel/memoryManager.c but `print_bitmap`; MemoryManager/Tree says when the
--   statuses of the tree agree, Search where the search goes, Ends that it ends, Malloc, Blocks,
--   Apart and Free what `malloc` and `free_handler` do.
-- Bytes: `memset` and `memcpy` of Kernel/lib.c and Kernel/moduleLoader.c; memory is a function
--   from addresses to bytes. Bytes/Fill and Bytes/Copy say what is written.
-- Packer: Toolchain/ModulePacker/main.c, which builds the image that Kernel/moduleLoader.c loads;
--   Packer/Image says what the image is, Packer/Load what the loader makes of it. Command line and
--   files are libraries: the model has the call-back of the parser, and files as lists of bytes.
-- Start: `initializeKernelBinary` of Kernel/kernel.c, with Start/Boot on the memory that it
--   leaves, and Kernel/idtLoader.c, with Start/Gates.
-- Font: Kernel/font.c, with the rows of the bitmaps as numbers.
-- Console: Kernel/naiveConsole.c; memory is a function from addresses to bytes. Console/Text
--   prints strings and large characters, Console/Numbers numbers.
-- Streams: `read_buffer_handler`, `write_handler` and `big_handler`.
-- SystemCalls: Kernel/SysCallDispatcher.c over an interface of the functions that it calls;
--   SystemCalls/Library has the functions of Userland/SampleCodeModule/ipc.c, memory.c,
--   taskmanager.c and stdlib.c that make one system call.
-- Time: Kernel/time.c, Kernel/irqDispatcher.c, and `sleep` and `watch` of
--   Userland/SampleCodeModule/time.c.
-- Userland: Userland/Stdlib has the conversions of numbers and the formatted output of
--   Userland/SampleCodeModule/stdlib.c, and the formatted input of myScanf.c there, Userland/Shell
--   the shell over an interface of what its commands call, Userland/Restaurant the chefs and
--   waiters of Userland/SampleCodeModule/prodcons_sem.c, Userland/Philosophers those of
--   philosophers.c and Userland/Increments the counting processes of tests.c, as steps of processes
--   over what Mutex/Spec and Semaphore/Spec promise.
-- Tests: the theorems at concrete inputs.
--
-- State is passed from call to call. A pointer is an index or an address in an Option, with none
-- for NULL. An int or unsigned int is the number of its 32-bit pattern; counters that the program
-- never lets wrap are plain numbers. A blocked call is where the process leaves the processor:
-- the outcome says so, and what it does when it runs again is another step.
--
-- Fuel: the search for a free slot of a directory and that for a free node of the ring have as
-- much fuel as there are places, which is proved to be enough where the counter is right; the
-- loops of the memory manager have as much as the tree has nodes or levels, which is proved to be
-- enough for `free_handler` and the updates of the tree, and for the search of `malloc`, which
-- has a round for each block and order; the loop of `newLine` has as much as the width, which is
-- proved to be enough; the digits of a 64-bit value are 64 at most; the draining of new processes
-- has one round for each and one more. The loop that picks a process and that for a free control
-- block take their fuel as an argument, because they need not end.
--
-- Not modelled: the sound, what the exceptions print, the assembly, the large clock, the list of
-- processes and the other programs of tests.c. The boot loader comes from other projects. A
-- warning that is printed has no effect here, and a write behind an array is lost.
pub mod Prelude
pub mod Strings
pub mod Directory
pub mod Services
pub mod WaitQueue
pub mod Mutex
pub mod MutexDirectory
pub mod Semaphore
pub mod SemaphoreDirectory
pub mod Mailbox
pub mod MailboxDirectory
pub mod RoundRobin
pub mod PointerStack
pub mod ProcessTable
pub mod Scheduler
pub mod Processes
pub mod Keyboard
pub mod MemoryManager
pub mod Bytes
pub mod Packer
pub mod Start
pub mod Font
pub mod Console
pub mod Streams
pub mod SystemCalls
pub mod Time
pub mod Userland
pub mod Tests
