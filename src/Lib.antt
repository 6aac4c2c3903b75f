-- ===== src/Lib.antt =====
-- Verification of the C programs of this repository: operating-system exercises, each a program of
-- its own. The parts that are modelled, and the files that model them:
--
-- ArrayStack (unix-lab-02/task3/lab_4_9/array_operations.c): a stack of `int` in an array, the
--   conversion of infix text to postfix with it, and the menu loop. `Stack` is the struct; push,
--   pop, top, empty, full, init, precedence, infix_to_postfix and create_infix_form are the
--   functions of these names; pop_group, pop_higher, pop_all, on_token and for_tokens are the
--   loops of infix_to_postfix and its branches. Menu has start_array_menu, a round of its loop at
--   a time: input is a list of entries, output a list of messages, and a word that does not fit in
--   its buffer of 500 bytes is a fault, `none`. Reference is the conversion over lists, Refine
--   links the two.
-- ListStack (unix-lab-02/task3/lab_4_9/list_operations.c): the same over nodes from malloc, in an
--   explicit heap. `Stack` is the heap with the caller's `s` and `n`; a NULL or freed address that
--   is read gives `none`. Chain says which nodes a stack holds; Freed has the array of freed
--   addresses, and Menu start_list_menu, which keeps it beside the stack; its buffers have 102
--   bytes, and a session has as many rounds as it is given keys.
-- StackProgram (unix-lab-02/task3/lab_4_9/main.c and time.c): the main loop over the two menus,
--   and compare_time, which runs both converters on one text. Equal says where the converters
--   agree, Session what a run of the program prints. A round reads a `Choice`: a key, and what is
--   typed while the menu that it opens is open.
-- Infix: expressions, their text and their postfix form, against which both converters are stated.
-- Memory: the heap and `malloc`, for ListStack and Queue.
-- Queue (unix-lab-02/task3/lab_05_02/src/list.c and array.c): the queue in a linked list of the
--   simulation and its ring of freed addresses; in Ring the queue in an array. Clock has get_min,
--   over any ordered type for `double`, and Times the rest of the clocks. Simulation is
--   start_list_time and ArraySimulation start_arr_time: `round` is a round of the loop, `rounds`
--   the loop for a number of rounds, and what the loop prints is a list of blocks. Main is main.c
--   and the input of io.c; input is a list of results of scanf.
-- Semaphore: the sets of System V semaphores and `semop`, which the next two use through the
--   interface `Kernel`. Counters is an instance of it.
-- ProducerConsumer (unix-lab-04/pc.c): three producers and three consumers over a shared segment.
--   Every process is at a place of its loop, and `Move` is one statement or one call of semop.
-- ReadersWriters (unix-lab-04/rw.c): readers and writers over a shared number, in the same way.
-- Bakery (unix-lab-06/bakery/bakery_server.c): the bakery of Lamport behind remote calls. `Serve`
--   is a step of the one thread that serves the calls, get_number in single reads and stores;
--   `Work` is a step of a thread in bakery(). Calls has get_number as one step, Progress who can
--   go on.
-- BakeryCalls (unix-lab-06/bakery, the rest): xdr_BAKERY of bakery_xdr.c, the stubs of
--   bakery_clnt.c and the dispatcher of bakery_svc.c, each function with its C name; Client is
--   bakery_client.c, Server the start in bakery_svc.c. A stream is a list of units, and the
--   functions of the server, of which Bakery has the steps, are a parameter.
-- EventMonitor (unix-lab-05/main.c): readers and writers over a mutex and two events of Windows.
--   `Move` is one statement of startRead, stopRead, startWrite, stopWirite or a routine, Startup
--   has the calls of main.
-- Daemon (unix-lab-03/main.c): `daemonize`, `already_running` and `start` (main, until its loop)
--   are the run of one process over its table of descriptors; LockFile has already_running in
--   several processes at once, and Signals the thread thr_fn.
-- PipeTasks (unix-lab-02/task-4.c and task-5.c): a parent and two children that send it messages
--   through a pipe; `Step` is one call of one of the three processes, the signal, or the end of a
--   child by another signal.
-- ProcessTasks (unix-lab-02/task-1.c, task-2.c and task-3.c): a parent that forks two children,
--   and in the last two waits for them; `Step` is one call of one of the processes, or what it
--   prints between two calls.
-- Common: numbers, lists, options, integers, processes by index, and the two children of a loop.
--
-- What is outside the repository is a parameter: isalnum (Infix.Ctype), malloc (Memory.Malloc),
-- semop (Semaphore.Kernel), the mutex and the events of Windows (EventMonitor.Winapi.Kernel),
-- close, open and dup (Daemon.Kernel), the macros on a status of wait (ProcessTasks.WaitStatus),
-- xdr_int, clnt_call and the svc functions of the RPC library (BakeryCalls.XdrInt, ClntCall and
-- Svc), the lock on a file and sprintf (Daemon.LockFile.Library), the arithmetic on `double`
-- (Queue.Times.Arithmetic) and the results of rand, the contents of unset memory, and what calls
-- of the system return. Each has an instance in the modules of the tests. The steps of PipeTasks
-- and ProcessTasks have the pipe, fork, execl and wait as POSIX describes them; a child that the
-- parent waits for has ended, since wait is called without WUNTRACED.
--
-- Bounds and fuel. A stack has at most MAXSIZE = 102 elements, so its loops and walks have fuel
-- for 103 rounds, which the theorems on the converters show to be enough. The walks of Queue take
-- their fuel as an argument, and the theorems ask for the length of the list, or in Simulation for
-- the number of rounds, since a round adds at most one node to each queue. The main loop of the
-- simulations has fuel for more rounds than there are results of scanf, of which each round reads
-- one or more. start_list_menu does not test for the end of its array of 500 freed addresses: behind it
-- the model has no result. `char` is signed with 8 bits and wraps (to_char). Counters that are
-- `int` are natural numbers: each is bounded by an array, or by the number of calls made.
--
-- Concurrent programs are step relations: any process may take the next step, and a theorem on
-- every reachable state holds for every schedule and every number of processes that were forked. A
-- failed semop of pc.c ends the process, as its exit(1) does, and behind the 128 bytes of its
-- segment a store is done or ends the process; rw.c does not look at the result of semop, so that a
-- process goes on after a failed call, and `Reach` counts these. Output and sleep are left out
-- unless an order of output is stated. In Bakery a client calls wait_queue once, with the number
-- that it was given, or again when no thread could be made for it; the server takes 30 clients, and
-- there is no step for one more, since get_number then writes behind its arrays. The test of a loop
-- in bakery() is one step.
--
-- In ProcessTasks output goes to a terminal: a buffer of stdout that a fork copies is left out.
-- BakeryCalls.Transparent is about a network that loses nothing; a lost or repeated request is in
-- no theorem.
--
-- Not modelled: measurement of time; get_all_time, print_fault_2 and print_fault_3 of the simulations,
-- and is_digit and is_number of lab_4_9, none of which is called; the texts of the log, the clock
-- and the descriptor for the log of the daemon, which syslog opens when it is first called; a failed call of pipe; unix-lab-01, which forks once and prints without end; and the
-- reports.
pub mod Common
pub mod Infix
pub mod Memory
pub mod ArrayStack
pub mod ListStack
pub mod StackProgram
pub mod Semaphore
pub mod ProducerConsumer
pub mod ReadersWriters
pub mod Bakery
pub mod BakeryCalls
pub mod Queue
pub mod EventMonitor
pub mod Daemon
pub mod PipeTasks
pub mod ProcessTasks
