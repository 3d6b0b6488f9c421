-- ===== src/Lib.antt =====
-- A verification library for the course programs on Linux application programming: file_io
-- (standard streams and descriptors), process_test (processes, pipes, message queues) and
-- thread_test (threads, locks, semaphores). Each program is a `main` of its own; what they share is
-- the way in which they use the system. So there is one module for each group of programs that
-- differ in a few choices, and a group's choices are a parameter, a record or a list of calls.
--
-- How code becomes a model. A thread or a process is a program point (with its live locals) and a
-- function from program points to the next state, `none` where it blocks. A run is a sequence of
-- such steps in any order, so that every interleaving is there; `sleep` orders nothing. A step is
-- one access to shared memory or one call of the system; accesses that a held lock protects may be
-- one step. Errors are results, and undefined behaviour is an outcome or a program point of its
-- own, but in three places: a race on memory is an interleaving of loads and stores; in
-- condition_var.c the arguments `buffer[--count]` and `count` of one `printf`, which are not
-- sequenced, are taken in the order written; and in signal_test.c the handler may interrupt `main`
-- anywhere between two calls. A counter that is an `int` keeps its wrap-around, bytes are numbers below 256, and `char` is
-- signed.
--
-- The modules:
-- - Common holds: tests and lists over the native numbers, sums over threads, induction between two
--   numbers.
-- - Threads models the `main` that creates threads in a loop, joins them and prints (mutex_test.c
--   and three more); Threads.Joined, Invariance and Termination are facts on any thread function,
--   and Threads.Schedule runs a given order of turns.
-- - Counter models thread_test/mutex_test.c and unnamed_sem_bin_thread.c (Guarded, over the
--   interface Counter.Lock, which the mutex and the semaphore fill), race_condition_test.c and
--   unnamed_sem_bin_thread_condition.c (Racy).
-- - ConditionVar models thread_test/condition_var.c, `producer` and `consumer` with the condition
--   variable, spurious wakeups included; ConditionVar.Refinement holds what it promises, a bounded
--   stack.
-- - CreateTest models thread_test/create_test.c, the ring between `input_thread` and
--   `output_thread`.
-- - Handoff models thread_test/unnamed_sem_count_thread.c; `rand` and `time` are parameters.
-- - ThreadPool models thread_test/thread_pool_test.c, `task_func` and `main` with the heap; the
--   pool of glib is the parameter ThreadPool.Api, which asks that a block pushed is given to one
--   thread, once.
-- - Cancel models thread_test/pthread_cancel_deferred_test.c, pthread_cancel_async_test.c and
--   pthread_cancel_disabled_test.c; a task is its list of calls, and whether `printf` is a
--   cancellation point is a parameter, since POSIX leaves it open.
-- - Copy models the loops of `read` and `write` in file_io/system_call_test.c,
--   process_test/fifo_write.c and process_test/fifo_read.c. A list of turns says how the kernel
--   answers; every theorem that a loop ends says how many turns are enough.
-- - ForkFd models process_test/fork_fd_test.c, two processes that append to one file.
-- - Interrupt models process_test/signal_test.c, its loop, its handler and SIGINT at any point.
-- - Detached models thread_test/pthread_detach_test.c, whose thread ends with `main` at the latest.
-- - Pair models thread_test/unnamed_sem_bin_process.c, unnamed_sem_bin_process_isolate.c,
--   unnamed_sem_bin_process_condition.c and named_sem_bin.c, father and son with their clean-up
--   (Pair.Resources); Pair.Private adds the sleep in `sem_wait` for
--   unnamed_sem_bin_process_illegal.c, where it is a parameter whether `sem_post` wakes the other
--   process, since POSIX leaves it open.
-- - SharedMemory models process_test/shared_memory.c and shared_memory_block.c, `strcpy` and
--   `printf` byte by byte, on an object that is new or was left by another process, and the name that `sprintf` makes of the process's number (ten digits
--   are enough for an int).
-- - Pipe models process_test/unnamed_pipe_test.c byte by byte, with the ends that each process
--   holds.
-- - Processes models process_test/fork_test.c, fork_execve_test.c, execve_test.c,
--   orphan_process_test.c, pstree_test.c, waitpid_test.c, system_test.c, erlou.c and erlou_block.c
--   as their calls; Processes.Family is the tree of processes with their output buffers, and
--   Processes.Lines says without any order what a program prints, and Processes.AnyOrder that every
--   order of the processes prints this. ping is a parameter, which ends by itself.
-- - SonFirst models thread_test/unnamed_sem_count_process.c, named_sem_count.c and
--   named_sem_no_unlink.c.
-- - NamedSem composes Pair and SonFirst: named_sem_bin.c, named_sem_count.c and
--   named_sem_no_unlink.c, run one after another on the semaphore whose name they share.
-- - Setup models what the eight programs of Pair and SonFirst do up to `fork`, and named_sem_bin.c
--   after one that failed up to `sem_wait`, whatever the calls of the system return and whatever
--   objects are there already; where all succeed they hand over what Pair and SonFirst begin with.
-- - Rwlock models thread_test/rwlock_test.c, rwlock_test_writer_unlock.c, rwlock_write_hungry.c,
--   rwlock_hungry_solved.c and rwlock_rw_alternate.c, over Threads.
-- - MessageQueue models process_test/producer.c and consumer.c with the queue of ten messages.
-- - FatherSonMq models process_test/father_son_mq_test.c, ten rounds on a queue of ten.
-- - Streams models file_io/fgetc_test.c, fgets_test.c, fputc_test.c, fputs_test.c, fprintf_test.c,
--   fopen_test.c, fclose_test.c and stdin_out_err_test.c. The loop over `fgets` has fuel; one turn
--   for each byte and one more are enough.
-- - Scan models file_io/fscanf_test.c, the three conversions of `fscanf` and the loop, with variables
--   that nothing was stored into; the loop has fuel: one turn for each byte of the file and one more
--   are enough.
-- - Roses models thread_test/terminate_test.c, `red_thread`, `white_thread` and the joins of
--   `main`, with the six blocks of the heap.
--
-- What is assumed. Thread creation, `fork`, `mmap`, `shm_open`, `sem_open` and `mq_open` succeed,
-- but in Setup, where each of them may fail, in CreateTest, where the failures of `malloc` and
-- `pthread_create` are outcomes, in Pair, which says what a failed `fork` leaves, and in
-- SharedMemory, Processes, Pipe, ForkFd and Detached; Copy and Streams take the results of `open`,
-- `mkfifo` and `fopen` as arguments. A mutex, a semaphore, a readers-writer lock and a message
-- queue do what POSIX says, each call atomic, and so is a call of `write` in ForkFd.
--
-- What is not modelled: what the programs print for the reader beyond the values and lines named in
-- the states; process_test/errno_test.c and perror_test.c, which have no logic of their own.
pub mod Common
pub mod Threads
pub mod Counter
pub mod ConditionVar
pub mod CreateTest
pub mod Handoff
pub mod ThreadPool
pub mod Cancel
pub mod Detached
pub mod Copy
pub mod ForkFd
pub mod Pair
pub mod Setup
pub mod NamedSem
pub mod Rwlock
pub mod SharedMemory
pub mod Processes
pub mod Interrupt
pub mod Pipe
pub mod SonFirst
pub mod MessageQueue
pub mod Streams
pub mod Scan
pub mod Roses
pub mod FatherSonMq
