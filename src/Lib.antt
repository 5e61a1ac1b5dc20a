-- ===== src/Lib.antt =====
-- hotwired, a server for the Hotline protocol: the data structures, the messages and the tables that
-- its threads share, with the theorems that make them correct. Paths are from the repository's root.
--
-- How the parts interact. A helper thread takes a message from its queue (MQueue.c), reads a
-- transaction from the socket of a client (Transaction.c over socketops.c), and answers it. What is
-- known of a client stands in the table of connections (ConnectionManager.c), a Collection
-- (Collection.c) by file descriptor, with the client's privileges (Permissions.c). Idle threads lie on
-- a stack (Stack.c) of the thread pool (ThreadManager.c). Transfers are numbered by the allocator of
-- IDM.c. The accounts (AccountManager.c over HashTable.c) are read from a file and written to it. The
-- handlers (transaction_handler.c) change the connections, the accounts, the transfers and, by fileops.c,
-- the files of the shared directory, and write replies. RCL.c has the lock that guards the tables, and
-- Config.c the settings.
--
-- Files.
--   Prelude: names and lemmas that the modules share; native numbers, lists, bytes and words.
--   Collection: Collection.c over any type of keys with an instance of `Key`. `insert`, `remove`,
--     `lookup` and `iterate` are collection_insert and so on; `grow`, `shrink` and `rebuild` are
--     hash_table_grow, hash_table_shrink and hash_table_rebuild. Load has the comparison of floats.
--     View says which map a table stands for; Rebuild, Operations, Removal and Walk prove the
--     operations against it; Through is a write through a pointer that a lookup returned.
--   HashTable: HashTable.c, the same code over texts, and its `hash`.
--   Idm: IDM.c, a list of ranges of free ids. `give_back` is idm_return.
--     Ranges proves the functions, Allocation any history of their callers.
--   Socket: socketops.c, over the pieces in which recv and send move bytes.
--   Transaction: Transaction.c. Objects has the accessors, PathName transaction_object_path with its
--     two passes, Encoding and RoundTrip what is read of what was written.
--   Permissions: Permissions.c. Fields has the bits, Ascii the text form, Classes superusers.
--   ConnectionManager: ConnectionManager.c. `on_connection` is the lookup, the test for NULL and the
--     locks that its accessors share; Userlist is cm_build_userlist, Broadcast is
--     cm_transaction_broadcast.
--   Rcl: RCL.c as a step relation. A state says how many threads stand at each place of the code.
--     Exclusion and Progress are for waits that end by a signal, Wakeup for others.
--   AccountManager: Account.c and AccountManager.c. The table and the list hold addresses in a store.
--     Roster is the list of the accounts without addresses, Unlink and Amend what becomes of it under a
--     pointer, Changes and Deletion the operations, File and Reload the account file, Listing the list of
--     accounts for administrators.
--   Password: password.c.
--   Handlers: transaction_handler.c, transaction_replies.c and transaction_factories.c; Login, Accounts,
--     Submit and Messages have the handlers. What leaves the two tables (bytes on a socket, a broadcast,
--     the account file) is a list of events. Privileges proves what a client without a privilege gets,
--     Rosters, Edits, Sessions and Logins what the handlers do; Replies is what these share. Dispatch has the
--     table of handlers.
--   TransferManager: TransferManager.c. Waiting has uploads, tfm_register, tfm_remove and tfm_purge_uid;
--     what is sent and started is a list of notices. Queue and Calls prove the positions in the queue,
--     Removal what tfm_remove does to it. The turns of the loop over free slots are no more than the
--     transfers in the queue.
--   Config: Config.c. `strip` is strip_whitespace, and `read_line` a turn of the loop of config_init.
--     Lines has the lines that a printer writes, Reading the tables as one map, File a whole file.
--   FileOps: fileops.c over a record of system calls; `remove_directory` is the static rmdir_recursive,
--     whose depth is bounded by the length of the buffer for a path, so that 4097 levels are enough.
--     Types has f_type, Listing f_list_create, Removal the removal of directories: Depth proves that it
--     ends, Below what it touches. BasePath is about f_init.
--   FileHandlers: the handlers of transaction_handler.c that work on files, on a state of the server, the
--     files and the transfers. `location` is the path that most of them make, `file_path` the function of
--     that name. Changes, Transfers and Views have the handlers; Confinement, Deletions, Moves and
--     Reading prove what they do to the disk.
--   Execution: th_exec over all the handlers. Dispatch proves which one a message gets, Confinement what
--     messages do to the disk.
--   Multiplexer: Multiplexer.poll.c. What poll answers is an argument of multiplexer_poll. Rounds proves
--     what the calls behind one answer report, Lapses where they go wrong, Entries which descriptors are in
--     the table.
--   TransferHandler: transfer_handler.c, over the bytes of the files. `receive` is the loop of an upload,
--     with as many rounds as there are bytes. Headers is about the two headers, Receiving about the
--     loop, Resuming about an upload that goes on behind a partial file.
--   HelperThread: helper_thread.c. `serve` is what ht_transaction does with a message that it has read.
--     Handshake is about the start of a control connection, Messages about the bytes of a message.
--   ConnectionHandler: connection_handler.c. `ch_turn` is a turn of the loop of ch_main. Places and Sharing
--     are about the descriptors, which are in the table of the multiplexer or with a thread, over any
--     turns of the main thread and of the others; Starting is about ch_init.
--   Stack, ThreadManager, MQueue: Stack.c, ThreadManager.c and MQueue.c.
--   Tests: the theorems at concrete inputs, and runs.
--
-- How the code is modelled. `int`s that count are natural numbers where the code keeps them from
-- going below 0; arithmetic that wraps says so, `% 2 ^ 32`. NULL and the answer -1 are `none` or
-- `false`, as each definition says. A linked list that one owner reaches is the list of its nodes. The
-- work between a lock and its release is one function; what other threads do across a wait is an
-- argument. Floats are rounded to 24 bits, as IEEE 754 single precision does.
--
-- Loops are structural, over the list of nodes, buckets, bytes or ranges, or over the count of bytes
-- that are left, so that no fuel is needed. The walk of a broadcast, whose bucket changes under it,
-- takes a number of steps, over which its theorem ranges; the removal of directories takes a depth, and
-- the loop of an upload a number of rounds, both with a theorem that enough is given. The loop of
-- tfm_remove over the queue takes a number of rounds, of which no number is enough. `next_prime` ends with the last prime,
-- which is INT_MAX.
--
-- In the handlers a fault and a walk that does not end have no outcome. What is read behind freed
-- memory or behind the end of an object is an argument.
--
-- Not modelled: the loop of a helper thread (ht_exec and helper_thread), the tracker (tracker.c), the other multiplexers, starting, listening and logging,
-- failing writes to the disk, and all that is input and output or the release of memory. The file
-- system, localtime_r, time, crypt, rand and pthread_create are parameters, and so are the values of
-- the configuration file in the login and in TransferManager.
mod Prelude
pub mod Rcl
pub mod Collection
pub mod HashTable
pub mod Config
pub mod FileOps
pub mod FileHandlers
pub mod Multiplexer
pub mod TransferHandler
pub mod HelperThread
pub mod ConnectionHandler
pub mod Execution
pub mod Idm
pub mod AccountManager
pub mod Password
pub mod Handlers
pub mod TransferManager
pub mod Socket
pub mod Permissions
pub mod ConnectionManager
pub mod Stack
pub mod MQueue
pub mod ThreadManager
pub mod Transaction
mod Tests
