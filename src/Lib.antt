-- ===== src/Lib.antt =====
-- Verification of the C stubs of Lwt, src/unix, src/glib and src/text of the repository.
--
-- The OCaml side of Lwt allocates a job by a stub of its kind (src/unix/lwt_unix_unix.c) and starts
-- it with `lwt_unix_start_job` (src/unix/lwt_unix_stubs.c). The worker of the job runs at once, or in
-- a thread that takes jobs from a queue. When it is done it sends a notification, by which the main
-- thread wakes up, calls the result function of the job and frees it.
--
--   Base         shared names, lists, integers, the ways in which a stub ends, and its state monad
--   JobQueue     the circular queue `pool_queue`: `lwt_unix_start_job` adds to it, `worker_loop`
--                takes from it
--   Execution    one job between the main thread and its worker: `execute_job`, the end of
--                `lwt_unix_start_job` and `lwt_unix_check_job`, one step for each access of shared
--                memory, in every order
--   Pool         the threads of the pool and their counters: `lwt_unix_start_job`, `worker_loop`,
--                `lwt_unix_reset_after_fork`, `lwt_unix_set_pool_size`
--   Switch       the method "switch", by which a thread that makes a blocking call leaves the OCaml
--                code to another: `lwt_unix_start_job`, `altstack_worker`, `alloc_new_stack` and
--                `worker_loop`, over all threads and stacks
--   Condition    the condition variables for Windows: `lwt_unix_condition_wait`,
--                `lwt_unix_condition_signal`, `lwt_unix_condition_broadcast`
--   Notify       the buffer of notifications and the eventfd or pipe that wakes the main thread:
--                `lwt_unix_send_notification`, `lwt_unix_recv_notifications`,
--                `lwt_unix_init_notification`
--   Signals      `signal_notifications`, `handle_signal`, `lwt_unix_set_signal`,
--                `lwt_unix_remove_signal`, `lwt_unix_init_signals`
--   Jobs         memory, and the life of a job: the macros of src/unix/lwt_unix.h,
--                `lwt_unix_free_job`. Its modules have the jobs of src/unix/lwt_unix_unix.c, with
--                the worker and the result of each under the names of the source:
--     ReadWrite    read, bytes_read, write, bytes_write
--     Directory    opendir, closedir, readdir, readdir_n, readlink
--     Stat         stat, lstat, fstat, isatty
--     Open         open, guess_blocking
--     Netdb        gethostbyname, gethostbyaddr, the jobs of JOB_GET_ENTRY2
--     Addresses    getaddrinfo, getnameinfo
--     Lock         lockf
--     Accounts     getlogin, getpwnam, getgrnam, getpwuid, getgrgid, gethostname
--   Terminal     the tables and the conversion of terminal settings, and the jobs tcgetattr and
--                tcsetattr. Terminal/Merge says which settings the tables name
--   Calls        the stubs that call the kernel at once: read, write, recv and send, with strings
--                and bigarrays. Calls/Same compares them with the jobs of these names.
--     Message      `lwt_unix_recv_msg`, `lwt_unix_send_msg` and their variants on bigarrays, with
--                  the descriptors of a message. Message/Scatter has how bytes fill its vectors
--     Datagram     recvfrom and sendto, with strings and bigarrays
--     Affinity     `lwt_unix_get_affinity`, `lwt_unix_set_affinity`
--     Wait         `lwt_unix_wait4`, and the status of a process by the words of V7
--     Pages        madvise, mincore, the size of a page, and the job wait_mincore
--     Machine      readable, writable, get_credentials, get_cpu, and the size of a terminal of
--                  src/text/lwt_text_stubs.c
--     Buffers      the operations on bigarrays of src/unix/lwt_unix_stubs.c
--   Events       the loops and watchers of src/unix/lwt_libev_stubs.c. Events/Documented has what
--                libev documents, Events/Invariant what holds of memory in every reachable state
--   Windows      the calls and the jobs read and write of src/unix/lwt_unix_windows.c.
--                Windows/Jobs compares the jobs with those of Jobs/ReadWrite, and Windows/Unix the
--                calls with those of Calls
--     Process      src/unix/lwt_process_stubs.c, and the jobs system and fsync. A process has ended
--                  when a thread has waited for it
--     Sockets      `lwt_unix_socketpair` of src/unix/lwt_unix_stubs.c
--     Wakeup       `lwt_unix_init_notification` for Windows, which makes such a pair
--   Glib         `lwt_glib_poll` of src/glib/lwt_glib_stubs.c; Glib/Query has its loop over
--                `g_main_context_query`, Glib/Loops those over the block
--     Sources      `lwt_glib_get_sources`, the marks, `lwt_glib_check`, `lwt_glib_iter` and the
--                  other stubs for GLib
--
-- How the code is read. A stub is a function of the monad of Base/Outcome: it returns, raises an
-- OCaml exception, or does what C leaves undefined. The kernel and the C library are records of
-- functions that the definitions take; a call that gives -1 with an error number is `failed`. The
-- eventfd or pipe is a channel with its laws. Allocation does not fail, since `lwt_unix_malloc`
-- ends the program where it would. In JobQueue a section under the mutex is one operation, while in
-- Execution locking and unlocking are steps of their own. In Pool a section under `pool_mutex` is
-- one step, the test of the counters before it is another, and a worker may wake without a signal;
-- jobs are numbered as they are started. Switch adds to Pool the places where a thread stands on
-- its way from one stack to another, and a jump takes a thread to where the checkpoint was made.
-- The tables of Terminal have the numbers of Linux, and the speeds of a terminal go through
-- functions of the C library. A job and its mutex are known by the address of the job, and the
-- fields of a job beside those of `struct lwt_unix_job` are the records of its module, with the
-- answer of the kernel and its error number as one field.
--
-- Loops without a bound in the source run on fuel. `read_link` tries k + 1 buffers, which is enough
-- for a target shorter than 1024 * 2 ^ k bytes. `get_entry` tries k + 1 buffers, which is enough
-- where the k + 1-st is not too small. `read_name` tries k + 1 buffers, which is enough for a name
-- shorter than 64 * 2 ^ k bytes. `query_loop` makes k + 1 queries, which is enough where Lwt and
-- GLib together want at most k descriptors more than the block has; `lwt_glib_get_sources` and
-- `lwt_glib_iter` use it too, for the descriptors of GLib alone. On no fuel they do what is
-- undefined, so that a theorem about what they return shows that they end.
--
-- Not modelled: the job rewinddir, which has no result; the wrappers of the functions of the system
-- for threads, mutexes and conditions, which are primitives here; the stubs that only give a number
-- of the system or of the runtime (the page size on Windows, `lwt_text_sigwinch`,
-- `lwt_unix_mapped`, `lwt_unix_has_wait4`); on Windows the size of a terminal and the signals, and
-- how descriptors of GLib become handles; and the OCaml
-- sources, which are in another language.
pub mod Base
pub mod Calls
pub mod Condition
pub mod Events
pub mod Execution
pub mod Glib
pub mod JobQueue
pub mod Jobs
pub mod Notify
pub mod Pool
pub mod Signals
pub mod Switch
pub mod Terminal
pub mod Windows
