-- ===== src/Lib.antt =====
-- Two programs in C: PROJ2, a bank server and its user program (PROJ2/src), and PROJ1, which lists
-- the files of a directory with their types, permissions and checksums (PROJ1/src/forensic.c).
--
-- The user program turns its command line into a request and writes it to the server's FIFO. The
-- server's main thread puts requests into a queue; office threads take them out, check the login,
-- perform the operation on the table of accounts under the mutexes of the accounts concerned, and
-- write the reply to the user's FIFO.
--
-- The files, and the code that they model (paths under PROJ2/src where no other is given):
--   Types        types.h and constants.h: messages, enumerations, limits
--   Reply        replymaker.c: the functions make...Reply
--   Queue        queue.c: queue_create, queue_push, queue_resize, queue_pop, queue_front
--   State        the static variables of accounts.c and bankoffice.c as one record, the outside world
--                (Env), and the monad of the server's functions
--   Accounts     accounts.c: the table, its mutexes, generateSalt, generateHash, createAccount
--   Office       bankoffice.c: Access has the delays and the locks, Handlers the login check and the
--                handle...Request functions, Manage has sendReply and manageRequest
--   Threads      bankoffice.c: addRequestToQueue, getRequestFromQueue, runBankOffice and
--                waitForRequestFinish as steps of threads under any schedule (Invariant, Drain, Safety,
--                Finish, Progress); server.c: the loop of readRequests
--   Parallel     bankoffice.c: manageRequest in steps, with the mutexes of the accounts, for any number of
--                offices under any schedule (Phases, Moves, Locking, Writing, Serial, Funds, Progress), and under one
--                that gives every office its turns (Work, Fair)
--   Wire         the bytes in the FIFOs: sendRequest and awaitReply of user.c, readRequests of server.c,
--                sendReply of bankoffice.c (Requests, Stream, Replies)
--   Log          log.c: the lines of the log files, in a pipe's buffer
--   Startup      server.c: setupAccounts
--   Life         server.c: main from its arguments to its end, with createQueue, createBankOffices,
--                destroyBankOffices, destroyQueue, makeServerFifo, openServerFifo and openSLog; Running has the
--                threads at work on the accounts (Servable, Closed, Keeps, Balance, Served)
--   Display      the texts on the terminal: displayRequest and displayReply of user.c, displayRequest of
--                server.c (Reading, Answer)
--   Client       user.c: createRequest, makeReqHeader, makeCreateAccReq, makeTransferReq;
--                argProcessing.c: processServerArgs, processUserArgs; Session has main, sendRequest,
--                awaitReply and sigAlarmHandler of user.c, makeUserFifo and deleteUserFifo of fifoMaker.c;
--                Delivery goes from the command lines to the server's queue
--   Fifo, Format, Libc  fifoMaker.c: getUserFifoPath; printf's numbers; atoi and strtok
--   Forensic     PROJ1/src/forensic.c: processArgs and getFileAccess; Scan has getFileType, getCheckSum,
--                timestampToISO and scanfile; Program has main, scanDir as a tree of processes, and the handlers of
--                SIGUSR1 and SIGUSR2 (Output, Walk, Counts, Recursion, Handlers, Counters)
-- Prelude has the shared lemmas, Samples the data of the tests. Office/Spec is the specification of
-- the bank: what one request does, without locks, delays and pointers.
--
-- Numbers are the native ones: a uint32_t is its value, an int the 32 bits that hold it, and
-- wrap-around is written out. A string is the list of its bytes. A bank_account_t* into the table
-- is the index that it points to. The functions of the server take and return the state; they end in
-- `done`, in `exited` (exit), in `fault` (undefined behaviour, such as an index out of range) or in
-- `deadlock` (a thread that waits for a mutex which it holds).
--
-- Given from outside (Env): the results of rand, what sha256sum and its pipes give, whether a user's
-- FIFO opens and takes a reply, and what malloc leaves in memory. Where a theorem needs that
-- sha256sum works, it takes the hypothesis Sha256 (Accounts/Hash). sleep only leaves an event. Likewise
-- what the system calls and commands tell forensic.c (Outside, Files) and the user program (Calls), and
-- the size of a pipe's buffer in Log, for which theorems take the bound that POSIX promises.
--
-- Recursion: queue_push and queue_resize call one another to a depth of two, since a push into the
-- doubled queue does not resize (Queue/Resize); the loop of queue_resize has one round for each item.
-- The loop of readRequests has one round more than there are bytes, since every round that goes on takes
-- a byte; the loops of forensic.c follow the list of arguments, of files, or of directory entries.
-- A number is printed with at most 20 digits, enough for 64 bits.
--
-- In Threads a step is one access to a semaphore, the mutex, the queue or `activeOffices`, in one
-- order that all threads see, and `manageRequest` is one step;
-- in Office one thread runs alone.
--
-- In Parallel a step is one access to a mutex or one handler's reads or writes up to the next access
-- to the table, and `order` records when the handlers ran. That is finer than Threads, whose step for
-- `manageRequest` it splits. A run of generateHash is within one step: two offices that are in it at once,
-- whose children inherit the pipes of one another, are left out.
--
-- In Life the threads between createBankOffices and destroyBankOffices run as in Threads, where the step of
-- `manageRequest` performs the request on the accounts, and the reads of the main thread end only when a
-- shutdown has closed the server's own end of its FIFO. The schedule is given; a main thread that has not come
-- to the end of its wait when the schedule ends still `waits`. That it gets there needs more than turns for
-- every thread: it may find the mutex of the queue taken at each turn.
--
-- Not modelled: pthread_cancel but as the end of an office; the texts on the terminal that tell of errors and of the
-- server's progress; openULog, which ends the user program when its log file does not open; a message of length 0
-- in Life, which ends the reads of the server; of PROJ1 a fork that fails, a SIGINT in the middle of a directory,
-- and waitForChildren, so that the processes of a tree are those that were forked, whoever ends first. The
-- signals that are lost, where several of one kind are delivered once, are a parameter of the counters.
pub mod Prelude
pub mod Types
pub mod Libc
pub mod Format
pub mod Fifo
pub mod Reply
pub mod Queue
pub mod State
pub mod Accounts
pub mod Log
pub mod Office
pub mod Client
pub mod Startup
pub mod Life
pub mod Display
pub mod Samples
pub mod Threads
pub mod Parallel
pub mod Wire
pub mod Forensic
