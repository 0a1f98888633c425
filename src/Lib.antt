-- ===== src/Lib.antt =====
-- NERV-FS is a file server for a flat storage directory. Clients send requests over TCP, each a header
-- of 16 bytes and a payload; the server answers with a response of the same form. The accept loop
-- (src/net.c) hands a connection with its parsed header to a pool of worker threads
-- (src/threadpool.c), a worker reads the payload and calls the dispatcher (src/handlers.c), and the
-- handlers work on files (src/fileops.c) under a lock for each file name.
--
-- The files of this library:
--   Base, Wire      shared names and lemmas; the big-endian integers of src/handlers.c (read_u16 to
--                   write_u64) on byte lists, with none for an access outside of the buffer
--   Os              the calls that the program makes: an environment answers a call from the history
--                   of the calls before it, so a theorem over every environment covers every failure
--   Disk            what files hold after a history of calls, for the theorems on uploads and downloads
--   Protocol        include/protocol.h and src/protocol.c: constants; Header has parse_header and
--                   serialize_header; Transfer has recv_full and send_full
--   FileOps         src/fileops.c: Resolve has safe_resolve_path, Files the operations on one file,
--                   Listing has fileops_list_dir, Whole fileops_init and the operations on whole files
--   LockTable       src/fileops.c: the table behind fileops_lock_acquire_write and the other three
--                   calls; Refinement relates it to counts of holders, Exclusion runs threads
--   ThreadPool      src/threadpool.c: the linked list and what threads do with it under the mutex;
--                   Queue relates it to a list of jobs, Workers runs the threads, Process has
--                   process_job, which a worker does between two turns, Answers what it sends
--   Net             src/net.c: handle_client_readable; Request relates it to the queue, Handled has its
--                   outcomes; Select has net_run_select_loop, with what it does with descriptors in
--                   Balance, Ends, Faults and Slots; Listener has net_create_listener, Echo the echo loop
--   Server          main of src/main.c
--   Clock           elapsed_microseconds of src/handlers.c
--   Handlers        src/handlers.c: Respond has send_message, send_ok and send_error; Request takes
--                   payloads apart; Upload, Download, Listing and Change have the handlers; Usage,
--                   Sound and Discipline are about how they use locks, files and buffers, ListPayload
--                   and Answer about what they send, as values of Reply; Stores and Returns
--                   about what uploads leave on disk and downloads send of it
--   Client          client/nervfs_client.c: the payloads that do_upload, do_download, do_delete and
--                   do_chmod build, with the server's parsers on them in Requests; Exchange has
--                   send_request, read_response_header and print_simple_result, Listing do_list,
--                   Commands the other commands, Main connect_to_server and main; Decode and Answers
--                   are about what it makes of responses, EndToEnd joins it with the server
--   Tests           the theorems at concrete inputs, and runs of the code
--
-- Bytes are natural numbers; integers of w bits wrap at 2 ^ w where the code's can. A function that
-- calls the system takes the history of calls and gives back a longer one. In the handlers a lock
-- call is one event, which carries whether the table could give the lock: without memory for an entry
-- fileops_lock_acquire_write and fileops_lock_acquire_read return without it and the handler goes on.
-- Usage says which orders of events are proper, and LockTable what the calls do.
-- The loops of recv_full and send_full have as fuel one more than the number of bytes, and every
-- round but the last moves at least one; their theorems exclude that the fuel runs out; the loops
-- on whole files have the same fuel. The select loop has a bound on its rounds, for it runs until
-- nervfs_running is cleared; it is enough if that is found cleared within the bound. All other
-- loops are over lists. A thread that waits on a condition variable looks its entry up again when
-- it wakes, which finds the entry that the code's pointer still names, for entries are never
-- removed. A thread that sleeps for a file name may test its condition at any time; the broadcasts of
-- the releases are left out, and nothing is said of when a sleeper gets its turn. The pool's signals
-- and broadcasts are counted.
--
-- Not modelled: the signal handlers of src/main.c, src/logging.c and all log messages, calls of free,
-- what the commands print beside their results, and the parts in other languages. The C library's
-- inet_pton, atoi and strtol are parameters, and so is what pthread_join waits for: which workers
-- return, from the pool as threadpool_shutdown leaves it.
pub mod Base
pub mod Wire
pub mod Os
pub mod Protocol
pub mod FileOps
pub mod LockTable
pub mod ThreadPool
pub mod Clock
pub mod Handlers
pub mod Net
pub mod Client
mod Tests
pub mod Server
pub mod Disk
