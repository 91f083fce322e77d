-- ===== src/Lib.antt =====
-- The programs of the system programming course, verified from their C sources: the first
-- exercise (MP0), the backup tool (MP1), the first csiebox, without threads (MP2), the mining
-- game (MP3), the matching chat server (MP4) and the csiebox file synchronisation service (MP5).
-- How the parts work together:
-- - csiebox: a server (MP5/src/csiebox_server.c) gets its port from the port register
--   (MP5/src/port_register.c) under the name of the user who runs it; a client asks the register
--   for the port of a user and talks to that server. The server gives each request to a pool of
--   threads (MP5/src/thread.c). Server and client read messages by the functions of
--   MP5/src/csiebox_common.c; the register and the client keep tables by MP5/src/hash.c.
-- - first csiebox: the client (MP2/src/csiebox_client.c) walks through its directory by nftw,
--   sends what it finds, links the further names of a file to the one it sent, and then follows
--   the events of inotify, which come with watch descriptors that a table maps to directories;
--   the server (MP2/src/csiebox_server.c) serves one connection at a time, message by message.
-- - mining: a boss (MP3/server/boss.c) gives each of its miners (MP3/client/miner.c) a share of
--   the texts that may follow its mine, over a pair of pipes each. A miner that finds a hash
--   with the wanted number of leading zeros reports it, and the boss broadcasts it and gives out
--   the next jobs.
-- - backup: loser (MP1/MP1.c) keeps the names and MD5 digests of the files of a directory in a
--   record, and compares them with the directory.
-- - chat: one process (MP4/server.c) pairs clients by the filter functions they send, and passes
--   on their messages.
--
-- The files:
-- - Common, with Common/Tests, Common/Lists, Common/Int and Common/Strings: Boolean tests on the
--   native numbers, lists measured and indexed by them, C's int, and strings.
-- - HashTable and the modules below it: MP5/src/hash.c and MP5/include/hash.h. The bucket array
--   is a list of chains, `locate` is the index computation, put_into_hash, get_from_hash,
--   del_from_hash, get_from_hash_by_path, init_hash and the iterator are functions of their C
--   names on the record Hash. Chains and Lookup define what a valid table is and its view as a
--   map from codes to values; Insert, Delete, Iterator and Paths have the laws of the
--   operations.
-- - PortRegister and the modules below it: MP5/src/port_register.c. The chains of registrations
--   are lists, the array of reserved ports a list of numbers; Ports and Booking are about
--   get_next_port and book_port, Service about whole requests, CleanChain and Cleaning about
--   clean_port_reserve, Runs about the register under any sequence of requests.
-- - Connect and the modules below it: MP5/src/connect.c. Each function is given what the system
--   calls return and gives its result with the calls it made; Descriptors is about the sockets
--   that stay open, Meeting puts server_start and client_start together with the port register.
-- - ThreadPool and the modules below it: MP5/src/thread.c. `work` is one access of a worker's
--   loop and `dispatch` one of run_task, Steps interleaves them in any order; Invariant,
--   Dispatch and Progress are about all reachable states.
-- - BoxServer and the modules below it: MP5/src/csiebox_server.c and the receive functions of
--   MP5/src/csiebox_common.c. What a client has sent is a list of bytes, what the server does a
--   list of actions; Accounts has the logins and the account file, Files the handlers of
--   sync_file and rm_file, Requests the dispatch and the choice of a thread; Transfer is about
--   the loop that receives a file, Gate about requests without a login, Session about logins and
--   the answer of a busy server, Config about its configuration file. Loop has
--   csiebox_server_run and its workers as a step relation: Touched says what a request may
--   change of the table of clients, Tasks counts the tasks of a connection, Invariant and Runs
--   are about all states that calm steps reach.
-- - BoxClient and the modules below it: MP5/src/csiebox_client.c. Messages has the bytes that it
--   sends, Paths its relative paths, Config its configuration file, Start csiebox_client_init
--   and csiebox_client_run, Walk, Trees and Listing the first synchronisation over a tree of
--   directories, Watch and Events the loop over the events of inotify; Agree, Stored and
--   Exchange put it together with the handlers of BoxServer.
-- - FirstBox and the modules below it: MP2/src/csiebox_client.c. FirstBox itself has the walk
--   (process, traverse) and Events the loop over events (change, delete, find_wd); Links and
--   Traverse are about its requests, with the files of several links, Depth about the longest
--   path, Watches and Watched about the table of watches as a list of paths, Session about the
--   walk and the events together.
-- - FirstServer and the modules below it: MP2/src/csiebox_server.c on one connection.
--   FirstServer has the handlers and the loop over messages, Served what each request asks for
--   and how it stands in the bytes of its client, Framing and Rounds show that the loop does the
--   one for the other; Syncing is about syn of the client against these handlers.
-- - Chat and the modules below it: MP4/server.c. Handlers has one function for each branch of
--   the select loop, Invariant the pairing of the clients, Search the loop over them, Matching
--   and Leaving the handlers that change it, Serving whole histories of events, Format the
--   framing of messages.
-- - Miner and the modules below it: the search of MP3/client/miner.c. Order and Search rank the
--   candidates, Runs and Share say which are tried and by whom, Zeros what is accepted.
-- - Boss and the modules below it: MP3/server/boss.c and the reading side of MP3/client/miner.c.
--   Protocol is about the bytes on the pipes, Targets about the boss's target and replies,
--   Console about its configuration file and typed commands.
-- - Loser and the modules below it: MP1/MP1.c. Loser itself has file_list and collect_old_list,
--   which reads the record from its end, Status has current_status, status and commit; Lines,
--   Reading, Titles, Counting and Numbers are about a record that is read back, Recorded, Quiet,
--   Commits and Numbered about what is written, Log has get_log and Printed what it prints.
-- - CharCount and CharCount/Lines: the character counter MP0/MP0.c.
-- - The Tests module of each part runs it at concrete inputs and applies its theorems there.
--
-- Conventions: `none` of a handler is undefined behaviour in C (an index out of range, a missing
-- item, a message longer than its buffer, a filter that does not return), unless its comment
-- says otherwise. Numbers are the native ones; where the source works on 32-bit words the
-- wrap-around is written out. Where a table indexed by descriptors or by positions is a
-- function, the code's bound is a test in the handler or a hypothesis.
--
-- Bounds and fuel: the loop over the messages of a connection is run on fuel, of which one more
-- than the number of requests is enough; the table of watches of the first csiebox has 400
-- places and its paths PATH_MAX = 4096 bytes, the table of clients of the csiebox server is
-- looked at from 2 to 1023, the request to the port register has 512 bytes; the array of
-- reserved ports has 512 entries as in the source, a candidate of a miner at most PATH_MAX =
-- 4096 digits, the tables of the chat server 1000 entries, its sets of descriptors 1024, its
-- buffer 4096 bytes, the buffers of the backup tool 100, 1000 and 300000 bytes. The iterator of
-- a hash table is run on fuel, of which one more than the number of values is enough; the loop
-- that receives a file on fuel, of which one more than the number of whole parts of 4096 bytes
-- is enough; the loop over a configuration file on fuel, of which one more than its length is
-- given and one more than the number of lines is enough; the loop that sends a file on fuel, one
-- more than the number of whole parts; the loop over the events of inotify on fuel, of which the
-- number of events is enough where their descriptors are known; the digits of a number are
-- printed on fuel, one more than the number. All other loops are structural.
--
-- Parameters: the layout of the structs and the files of the server of the first csiebox
-- (records Layout and Disk), what the system calls of connect.c return (records Kernel and
-- Peer), the JSON library, the compiler and the dynamic loader of the chat server (record
-- Library, with two laws: the print of an object with an item has two newlines or more), the
-- layout of structs, the files found and the digests of the csiebox server (record World), the
-- same of the csiebox client (records Wire and Local) with what the calls of the system give it
-- (records Os and Client), the function MD5 of the boss, and the directory and the digests of
-- the backup tool.
--
-- Not modelled: the signals, daemons and command lines (the main files), the command line of the
-- backup tool (main of MP1/MP1.c) and its MD5 (MP1/md5sum.c), the hash table, the port register
-- and the configuration files of the first csiebox (MP2), which are earlier versions of those of
-- MP5, and the bytes its client sends, the copy of cJSON (MP4/cJSON.c), and the web pages.
pub mod Common
pub mod HashTable
pub mod PortRegister
pub mod ThreadPool
pub mod Boss
pub mod BoxClient
pub mod BoxServer
pub mod CharCount
pub mod Chat
pub mod Connect
pub mod FirstBox
pub mod FirstServer
pub mod Loser
pub mod Miner
