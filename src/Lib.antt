-- ===== src/Lib.antt =====
-- A chat service: a server with one thread for each client, clients that send and clients that
-- receive, and a line protocol between them.
--
-- The parts and their files. Paths are those of the repository, file names of this library stand
-- first.
-- - Text (client_util.cpp): ltrim, rtrim, trim, isLowerCased and hasColon on lists of bytes, with the
--   members of std::string that they call. `npos` and an exception are `none`. Text/Trim and
--   Text/Find hold the lemmas.
-- - Message (message.h, message.cpp): the struct, the tags, split_payload. Message/Split describes
--   the parts of a payload without a loop, Message/Checks the tests in front of it.
-- - Csapp (calls of csapp.c): the interface that a connection uses, as a record of functions. It is a
--   parameter of all that follows; a theorem that needs something of it names that.
-- - Connection (connection.h, connection.cpp): send, receive, connect and close. The bytes that
--   rio_readlineb leaves in the buffer are decoded by `decode`; `wire` is the text that send writes.
--   The message that receive fills is passed in and handed back. Connection/Bounds is about lengths.
-- - Queue (message_queue.h, message_queue.cpp): the semaphore's count and the deque. Queue/Fifo is
--   for one caller, Queue/Threads for any number of threads that stop between the operations on the
--   lock and on the semaphore. Queue/Atomic is for one thread at each end, against calls that take
--   effect at once.
-- - Heap (user.h, room.h, the map in server.h): users and rooms at addresses, and the map from names
--   to rooms. Nothing is deleted, as in the source.
-- - Room (room.h, room.cpp): add_member, remove_member, broadcast_message. The std::set of pointers
--   is the list of addresses in ascending order; Room/Sets has sets of members as a quotient of
--   lists.
-- - Server (server.h, server.cpp, server_main.cpp): Server/Program has the calls that a client thread
--   makes, as the nodes of a tree, and what each does; Server/Chat has worker, chat_with_sender and
--   chat_with_receiver as such trees; Server/Listener has listen, handle_client_requests and main;
--   Server/System runs any number of threads, one call at a time in any order, over a world that
--   changes as it likes; a broadcast takes one step for each member, between which other threads go
--   on as far as the lock of the room lets them. Server/Service is an abstract service (users, rooms,
--   one log of the posts of all users, and what each user has taken) with the events that are seen of
--   it; Server/Service/Matches says when the objects of the server stand for a state of it, and
--   Server/Service/* are about the runs of both. Server/Service/Access is about the threads that are
--   at one queue. Server/Invariant, Server/Effects, Server/Users, Server/Places, Server/Membership,
--   Server/Replies, Server/Fuel, Server/Ends, Server/Forwarding and Server/System/* are about the
--   calls, the programs and their interleavings.
-- - Locks (guard.h, and the locks in room.cpp, message_queue.cpp and server.cpp): what each operation
--   locks and unlocks, in order. Locks/Order has the ranks of the locks, Locks/Invariant who holds
--   which, Locks/Progress that threads go on.
-- - Client (sender.cpp, receiver.cpp): what both have in common, with std::stoi; Client/Sender and
--   Client/Receiver have the two programs. A console is the lines of the standard input and the texts
--   printed.
-- - Dialogue (sender.cpp and receiver.cpp with server.cpp): a client and its thread in one world. The
--   interface of csapp.c that the client meets is built from the one below it and from the thread:
--   while the client waits for a line the thread receives and goes on to its next receive or to its
--   wait for a message in its queue. What the other threads do to the objects is a schedule of lists
--   of calls (Server/Deeds): one list happens whenever the client has written a request, and none
--   while the thread handles one. Dialogue/Link says what is asked of the network and which messages
--   fit a line, Dialogue/Exchange and Dialogue/Synced follow one request and its answer,
--   Dialogue/Replies and Dialogue/Talk are the abstract conversation (requests, answers, the objects
--   of the server, the console, and no network), Dialogue/Login, Dialogue/Session, Dialogue/Quit,
--   Dialogue/Course and Dialogue/Whole lead from the log-in to `/quit`, Dialogue/Texts,
--   Dialogue/Objects, Dialogue/Modest and Dialogue/Typed say which lines can be typed, Dialogue/Kept
--   and Dialogue/Still what other threads' calls leave as it is, Dialogue/Sent, Dialogue/Heard and
--   Dialogue/Abroad what other users get. Dialogue/Entry and Dialogue/Joined are the session of a
--   receiver up to its loop; Dialogue/Speech, Dialogue/Screen and Dialogue/Audience (receiver.cpp
--   with server.cpp) follow the messages of a queue over a receiver's thread and the network to the
--   receiver's screen.
-- - Delivery: the way of a chat message from a broadcast to the screen of a receiver.
-- - Base: shared helpers, and integers over the native numbers. Tests: runs on concrete inputs.
--
-- Fuel. A `while (1)` runs on fuel, one unit for each round, and reports `out_of_fuel` or `runs` when
-- it has none left. The fuel is an argument everywhere, so that a run of any length is covered. The
-- loop of split_payload has fuel for each byte of the payload and one more: each round makes the rest
-- of the payload shorter.
-- Texts have no bound on their length, as std::string; port numbers that std::stoi yields are within
-- 32 bits.
--
-- Not modelled. Outside Locks and Queue each critical section is one step, but for a broadcast, which
-- is one step for each member, in which the message is pushed and posted at once. The memory that is
-- never freed, what the server prints, destructors that no run reaches and signal(SIGPIPE) are left
-- out. In Dialogue no other thread acts while a request is handled; Server/System has all
-- interleavings, without the clients. The addresses that `new` yields ascend. isalnum is that of the
-- C locale, and false above 127.
-- csapp.c, a copy of the support code of a textbook, is not modelled; its calls are parameters.
pub mod Base
pub mod Text
pub mod Message
pub mod Csapp
pub mod Connection
pub mod Queue
pub mod Heap
pub mod Room
pub mod Server
pub mod Client
pub mod Locks
pub mod Delivery
pub mod Dialogue
pub mod Tests
