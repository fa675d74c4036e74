-- ===== src/Lib.antt =====
-- The login server of LoginServer_Chat: an IOCP network library (`CNetServer`) with its packet
-- (`CNetPacket`), its receive buffer (`CRingBuffer`) and lock-free pools, and the login contents
-- (`LoginServer`) on top of it.
--
-- A session receives bytes into its ring buffer. A worker thread cuts messages out of the ring, each
-- a header of five bytes and a payload, puts each into a packet, decodes it and hands it to the
-- contents, whose answers are packets that are encoded and sent.
--
-- - Prelude: shared names; lists with native indices and memory copies (Lists), laws of xor (Bits),
--   remainders (Remainders), signed integers and the C conversions (Int), assignment at one index
--   (Assign), sums over indices (Totals).
-- - RingBuffer: LoginServer_Chat/CRingBuffer.cpp. `Ring` is the object; `enqueue`, `dequeue`, `peek`,
--   `move_rear`, `move_front`, `resize` and the others are its members. The fields `front_next` and
--   `rear_next` are `iFront + 1` and `iRear + 1`, since a call with size 0 may store -1. Sizes are
--   not negative. Invariant has the representation invariant, Window the bytes held, Enqueue and
--   Dequeue the calls, Moves the calls that do half of these, Fifo the contract, Resize the rest.
-- - NetPacket: LoginServer_Chat/CNetPacket.cpp and CNetPacket.h. `NetPacket` is the object with its
--   cursors as offsets, `encode` and `decode` the cipher with its checksum. Cipher, Checksum, Wire and
--   RoundTrip are about the cipher, Cursors about reading and writing, Values about the operators,
--   References about `packet_alloc`, `packet_free` and the count between them.
-- - NetServer: LoginServer_Chat/CNetServer.cpp. Receive has the buffers that `RecvPost` hands to
--   `WSARecv` and what a completion leaves, with `WSARecv` as a parameter. Framing has the loop in
--   `IOCPWorkerThread` over the received bytes: `cut_message` is one round up to `MoveWritePos`, and
--   `receive_messages` the loop with `Decode` and `OnRecv`. Session has the sessions: `accept_client` is
--   a round of `AcceptThread`, `enter_session`, `leave_session`, `release_session`, `disconnect` and
--   `send_packet` are the members of these names. Counts is about the count of users, Stale about ids
--   of ended sessions, Slots and Lifecycle about the stack of free slots, Reachable about sequences of
--   calls, Disconnect about the socket. A call is one step there; what it does outside of the server
--   is a list of events, and what the system answers is an argument. Sending has `SendPost` and
--   the completion of a send. Worker has `RecvPost` and `worker_round`, a round of `IOCPWorkerThread`
--   with its dispatch; `OnRecv` gets the messages of a receive in order after the loop over them.
--   Slot has one slot with all threads interleaved: `slot_step` is the next access of somebody to the
--   count, the flag, the id or the stack of free slots, and `SlotStep` lets anybody go on. A receive or a
--   send in the background and a posted job count as somebody. The other fields of the session, and the
--   other slots, are not part of it. Start has `Start`, with what `new[]` leaves in the array; its
--   handles and threads are two answers of the system.
-- - MemoryPoolTls: LoginServer_Chat/MemoryPoolTLS.h in the mode with checks. `alloc_tls` and `free_tls`
--   are `Alloc` and `Free` of a thread, `chunk_alloc`, `chunk_free`, `push_chunk`, `pop_chunk` the members
--   for chunks, `chunk_push` and `chunk_pop` those of `Chunk`. What the chunk manager and the allocator
--   of block arrays hand out are arguments. Reuse is about a block that is freed, Limit and Bounds about
--   the limit on chunks. Setup has the constructor, `new_pool_tls`.
-- - LockFreeStack: LoginServer_Chat/CLockFreeStack.h. A state has the nodes in memory, `_uniqTop` and
--   the place of each thread in `Push` or `Pop`; `advance` is the next step of a thread, with one read,
--   write or exchange of shared memory, and `Step` lets any thread go on. The node pool is the
--   contract that it hands out an address that is not in use. `Event` says what takes effect. Spec has
--   the list with calls that take effect one at a time, Invariant, Preserve, Moves and Takes what holds
--   between the steps, Simulate, Exchange, Pops and Refine the refinement, Alone a thread that runs
--   alone.
-- - LockFreeQueue: LoginServer_Chat/CLockFreeQueue.h. The same way of modelling: `advance_queue` is the next
--   step of a thread in `Enqueue` or `Dequeue`, with one access to shared memory, and `QueueStep` lets any
--   of `n` threads go on. `QueueEvent` says what takes effect. The pool of nodes is the contract that it
--   hands out an address that is not in use and, for the refinement, one at which no thread looks. Spec
--   has the list, Chain the nodes in memory, Invariant what holds between the steps, Moves, Nodes,
--   Appends and Heads that it stays, Counts the size, Simulate, Enqueues, Dequeues, Takes and Refine the
--   refinement, Stale a tail that is handed out again.
-- - LoginServer: LoginServer_Chat/LoginServer.cpp and LoginServer.h. `on_client_join`,
--   `on_client_leave`, `on_recv`, `job_handler`, `login` and `find` are the members of these names
--   (`FindCharacter`), with the map of characters as a list of entries, the sessions of NetServer, and
--   what was set in Redis. The answers of the database and of the system are arguments. `none` is the
--   end of the process in `sprintf_s`. Response has the bytes of the response, Wire what a client
--   decodes, Answer what is put into the queue of the session, Dispatch the ways of a
--   request, Characters and Runs the map over sequences of calls.
-- - MemoryPool: LoginServer_Chat/MemoryPool.h in the mode with checks. `push` and `pop` are a round of
--   the loops of `Push` and `Pop` that succeeds, `alloc` and `free` the members; what the block
--   allocator returns is an argument. `new_pool` is the constructor, with what `VirtualAlloc` returns.
--   Stack is about the free stack, Codes about the codes of a block, Limit about the limit on blocks,
--   Setup about the blocks of the constructor.
--
-- Bytes are numbers below 256; a `char` is read as its bit pattern, and as a signed number where the
-- checksum adds it up. The loops of the packet recur on the rounds that are left. The
-- loop over the received bytes has fuel for one round more than there are bytes, and each round takes
-- a header of five, so that the fuel is enough. What `new`
-- leaves in memory and what `rand()` returns are arguments.
--
-- Not modelled: the handles, the monitor threads, the stop of both servers and the start of the
-- contents, which make and close handles; the interleaving of two calls inside a call but for the
-- lock-free stack and queue, and the count, flag and id of a slot (the queue of packets to send is a
-- list in NetServer.Session); destructors; the crash dump handlers, the database connector, the entry
-- point, and the vendored libraries.
pub mod Prelude
pub mod RingBuffer
pub mod NetPacket
pub mod NetServer
pub mod MemoryPool
pub mod LoginServer
pub mod LockFreeStack
pub mod MemoryPoolTls
pub mod LockFreeQueue
