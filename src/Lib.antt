-- ===== src/Lib.antt =====
-- radlib: lists, shared buffers, timers, queues and the message router.
--
-- radlib is a C library of services for event-driven processes, with a message router process on top
-- of it. This library models its core, part by part, and proves what makes each part correct.
--
-- The parts:
-- * RadList (src/radlist.c, h/radlist.h): doubly linked lists with two dummy nodes, over a memory of
--   links. radListInsertAfter is insert_after, and so on for each function. RadList/Chain says when a
--   memory holds a list of nodes; Order is about links alone; Insert, Delete, Ends and Walk are about
--   the functions.
-- * SortList (src/radsortlist.c): lists in the order of a key, on the functions of RadList. The key
--   function is a parameter.
-- * Buffers (src/radbuffers.c, h/radbuffers.h): buffers of fixed sizes in a shared segment, with
--   a free list for each size. Init is radBuffersInit, which lays them out. Free says when the
--   lists are well formed, with the free buffers of each size as lists; Get, Release and Count
--   refine the calls to these lists. Start, Layout and Fresh are about a new segment.
-- * Timers (src/radtimers.c, h/radtimers.h): timers on a free and a pending list, driven by a
--   millisecond clock. Tick and Expire are about the two walks over the pending list, Service puts
--   them together, Lists and Calls are about starting, stopping, making and deleting timers, Init about
--   a new list.
-- * MsgRouter (msgRouter/msgRouter.c, h/radmsgRouter.h): the clients of the router, the consumers of
--   each message ID, and the handlers of a message. Send has the functions that send, Handler is
--   QueueMsgHandler, Client is ClientRXHandler, Connect has ServerRXHandler and connectTimerHandler.
--   Valid says when the lists fit together; Frame, Leave, Enable, Keep, Receive and Peers are about what
--   each step does to them, Run about sequences of steps. Due and Route are about what is sent, Calls
--   and Settle about connections, Subscribe about the consumers of a message ID.
-- * RouterClient (src/radmsgRouter.c, h/radmsgRouter.h): the side of a local process in the protocol
--   with the router. Wait is about waiting for an answer, Requests about each request, Service about
--   a request and the router that handles it, with QueueMsgHandler of MsgRouter.
-- * Queue (src/radqueue.c, h/radqueue.h): the message queues of processes, over a table of names and
--   groups in shared memory. Table has the functions named qdb, Group the loops over a group, Attach
--   the list of queues that a process sends to, Send and Recv the messages. Unique says when a table
--   is valid; View and Purge are about the table, Visit about the loops over a group.
-- * Stack (src/radstack.c, h/radstack.h): stacks of linked nodes; Order is about what a pop returns.
-- * Crc (src/radcrc.c, h/radcrc.h): the table-driven CRCs. Xor has the laws of exclusive or, Step the
--   CRC of one byte bit by bit, Bitwise and Bound are about the two functions.
-- * States (src/radstates.c, h/radstates.h): state machines with a table of handlers; Run is about
--   sequences of stimuli.
-- * ProcList (src/radproclist.c, h/radproclist.h): lists of processes with priorities. Order is about
--   their order, Start about what is started.
-- * Events (src/radevents.c, h/radevents.h): masks of events; Masks is about what is caught.
-- * ConfFile (src/radconffile.c, h/radconffile.h): configuration files as lists of lines. Its own file
--   has radCfOpen's parsing and what radCfFlush prints, Entries and Comments the calls on entries and
--   comments, Walk the search from entry to entry, Flush the writing. Tokens and Print are about one
--   line, Lines and Saved about a file, Entries/Laws and Entries/Put about what is found.
-- * Database (src/raddatabase.c, h/raddatabase.h): rows of fields. Values is about the texts that a field
--   is given, Types about the digits of its type, Cursor about the way through a set of results.
-- * SysDefs (h/radsysdefs.h) has OK and ERROR and the widths of the integers, Base what all share.
--
-- How the program is read:
-- * A pointer is a number, NULL is 0. A function that writes returns the new state. A function that
--   may fail returns its result with the state.
-- * RadList works on memory. The other parts that use lists, but SortList, take a list as the sequence
--   of its nodes, and name the function of RadList that does the step to it.
-- * Unsigned arithmetic wraps where the source's does, written out with the modulus. An int that is
--   only counted is kept as its bit pattern. A ULONG that the source passes as an int is narrowed where
--   that decides what is found or returned: a message ID in getMIIB, the length that a process sends and
--   the countdown of serviceTimers. Inside the router the length of a message is taken as below 2^31.
-- * What the system does is a parameter: the readings of the clock, whether malloc, a send or a read
--   succeeds, which may depend on all calls before. The calls of other parts are recorded in order.
-- * A text is the list of its characters, none of them 0. Where a call writes past a field, or leaves a
--   text without its end mark, the model's result says that and nothing more.
-- * A lock or a blocked signal covers each change of shared lists, so a call is one step.
-- * The loops of SortList and Stack, the walk along a free list and the loops over a group of queues
--   run on fuel. The number of nodes or records and one more is enough, since each round passes one; for
--   the search for the starting size of a segment, more than the doublings that it takes.
-- * A wait for an answer is a list of rounds, each with a reading of the clock and what is then on the
--   queue. A connection from another router is what it delivers, with what the system answers.
--
-- Not modelled: the start-up of the router and its signals, the making of pipes, processes, sockets,
-- threads and the other utilities of src/, text search and hashes, the closing of a configuration file
-- and the names of its lock, and the wrappers of the servers of databases. Logging, free and the copying
-- of bytes have no effect in the model.
pub mod Base
pub mod SysDefs
pub mod RadList
pub mod SortList
pub mod Buffers
pub mod Timers
pub mod MsgRouter
pub mod RouterClient
pub mod Stack
pub mod Crc
pub mod States
pub mod Queue
pub mod ProcList
pub mod Events
pub mod ConfFile
pub mod Database
