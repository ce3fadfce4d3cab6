-- ===== src/Lib.antt =====
-- Verification of rel4u, a library for reliable messages over UDP (include/rel4u.h).
--
-- The program. A client (src/core/rel4u_client.c) and a server (src/core/rel4u_server.c) exchange
-- datagrams that start with a 24-byte header. On each side a worker thread takes messages from a send
-- queue, numbers the reliable ones in a send window, sends them, and gives what arrives to a receive
-- window, whose output goes to a queue that the application reads. Acknowledgements carry a number
-- and a mask of 32 bits; round-trip samples set the timeout for sending again. The server keeps a
-- table of sessions, each with its own windows.
--
-- The files, and the code that each is about:
--   Packet, Packet/PktType, Packet/DeliveryMode  the header and its codec: src/core/rel4u_packet.c
--     and .h (`rel4u_packet_encode_header` is `encode_header`, `rel4u_packet_decode_header` is
--     `decode_header`); Packet/RoundTrip has the codec's theorems.
--   Seq  the comparisons of sequence numbers in src/core/rel4u_window.h; Seq/Order their theorems.
--   Window/Send, Window/Recv  the windows of src/core/rel4u_window.c, one definition per function,
--     named without the prefix `rel4u_send_window_` or `rel4u_recv_window_`; Window/Index has what
--     both share, and Window/Fresh is about their set-up. Below them: Send/Inv (valid windows and
--     `push`), Send/Push (what a push adds), Send/Ack (the cumulative part of `on_ack`), Send/Marks,
--     Send/Sack and Send/OnAck (its mask), Send/Timer (`get_expired`), Recv/Inv (valid windows and
--     the loops), Recv/Deliver (what the loops put out), Recv/Accept (which packets are taken),
--     Recv/Modes (`pop_ready` and `on_packet`), Recv/Once (packets that arrive again), Recv/AckInfo
--     (the acknowledgement that `get_ack_info` makes).
--   Rtt  the estimator of src/core/rel4u_rtt.c; Rtt/Bounds its ranges.
--   Mpmc  the queue of src/core/rel4u_mpmc.c: Mpmc/Defs the functions that run with the mutex held
--     (`mpmc_push_back_locked`, `mpmc_push_front_locked`, `mpmc_pop_head_locked`), Mpmc/Ops the
--     public ones, Mpmc/Wait the blocking pop (Mpmc/Fixed/Waiting what it comes to), Mpmc/Calls
--     sequences of calls, Mpmc/Fixed and Mpmc/Dynamic the two memory modes and their theorems,
--     Mpmc/Fixed/Alone a queue of one item.
--   Session  the table of src/core/rel4u_session.c; Session/Inv valid tables, Session/Allocate and
--     Session/Lookup its operations.
--   Window/Send/Reclaim  is about the packets that go back to the queue on a reconnection.
--   Transfer  a receive window behind a network that loses, repeats and reorders the packets of a
--     stream of messages, as a relation between states: Transfer/Kept has what the window keeps of
--     the stream, Transfer/Order and Transfer/Progress the theorems.
--   Endpoint  what src/core/rel4u_client.c and src/core/rel4u_server.c share: the clock and the
--     socket, the headers that they fill in, the counters. Endpoint/Inbox is their handling of a data
--     packet, Endpoint/Config the codes and limits of include/rel4u.h, Endpoint/Link and
--     Endpoint/Incoming the validity of the two windows and the estimator at one end, Endpoint/Drains
--     the loops over what a window hands out, Endpoint/Delivery a packet that is waited for,
--     Endpoint/Wire and Endpoint/Sending what one end sends and the other decodes.
--   Client  the client of src/core/rel4u_client.c: its state and packets, Client/Create and
--     Client/Calls the public functions without the prefix `rel4u_client_` (`connect_start` and
--     `connect_wait` are the two halves of `rel4u_client_connect`), Client/Worker
--     `client_worker_thread_func`, cut into a function for each part of its loop. Client/Inv and
--     Client/Rounds are about its validity, Client/Link has the table of the packets that move its
--     connection state, Client/Link/Loop the worker's loop against that table, Client/States the
--     packets without effect, Client/Start about its creation, Client/Dispatch and Client/Messages
--     about a message on its way out.
--   Server  the server of src/core/rel4u_server.c in the same way: Server/Calls, Server/Worker
--     (`server_worker_thread_func`); Server/Inv, Server/Packets, Server/Arrivals and Server/Rounds
--     are about its validity, Server/Known about connection requests of clients that it knows,
--     Server/Queued and Server/Messages about a message on its way in.
--   Exchange  a send window and a receive window with a network between them that loses, repeats and
--     reorders packets and acknowledgements, as a relation between states: Exchange/Arrived has what
--     stays at the receiver, Exchange/Pending the send window against the stream, Exchange/Acks what
--     an acknowledgement tells and what `on_ack` makes of it, Exchange/Push, Exchange/Inv and
--     Exchange/NoLoss the steps, Exchange/Retry the packets that are sent again.
--   Handshake  CONNECT_REQ, CONNECT_RESP and ACK between a client's worker and a server's, composed:
--     Handshake/Table has the searches by address, Handshake/Replies the datagrams,
--     Handshake/Admission the request at the server, Handshake/Joined the rest.
--   Delivery  one message from `rel4u_client_send` through both worker threads to
--     `rel4u_server_recv`, composed.
--   Recovery  a server that has lost a session and the client that still holds it, composed.
--   Net  the comparison of addresses in src/platform/rel4u_net.c, and Net/Same its theorem.
--     Net/System has the system calls that the file makes, as parameters, Net/Wakeup the wake-up pipe
--     and `rel4u_net_poll` on POSIX, Net/Awake a worker that is woken, Net/Windows the wake-up
--     channel on Windows, Net/Resources the sockets that it opens and closes.
--   Clock  the clock of src/platform/rel4u_time.c and the time limit of `rel4u_cond_timedwait_ms` in
--     src/platform/rel4u_threads.c; Clock/Bounds their ranges.
--   Stats  the statistics of include/rel4u.h.
--   Prelude  what the others share: tests on numbers, arrays as lists, signed integers, binary digits
--     (Prelude/Digits numbers them), and arrays that are read round and round. The Tests modules run
--     the definitions and apply the theorems to concrete values, those of Samples among them.
--
-- How the code is read. A structure is a record with the fields of the source (`data` is called
-- `bytes`), an array a list, a string that may be a null pointer an option, another array that may be
-- null the empty list for the null pointer, a pointer into an array an index. A function that changes
-- what its arguments point to returns the new values beside its own result. The other pointer
-- arguments are taken not to be null. Whether memory can be had is a parameter (`mem`), and so are
-- the sizes that `sizeof` yields. Sums and differences wrap at 2 ^ 32 or 2 ^ 64 where those of the
-- code do. A mutex is held for the whole of a queue's operation, so the threads' work on a queue is a
-- sequence of calls; what the other threads do while a consumer waits is given as the list of its
-- wake-ups. Output buffers are the values written to them: what their unwritten bytes hold is not
-- modelled.
--
-- The system below the library is the record `Platform`: each reading of the clock and each result of
-- a send is told by how many went before. `World` holds the datagrams that were sent, newest first. A
-- round of a worker thread gets the list of datagrams that wait at its socket; its loop is a list of
-- rounds. The calls of the application happen between two rounds, and the worker has ended where
-- `rel4u_client_disconnect` and `rel4u_server_stop` have joined it.
--
-- Loops. The loop of `on_ack` over the acknowledged packets, that of `get_expired` and that of
-- `reclaim_unacked` have the distance from `head_seq` to `next_seq` as fuel, which each round makes
-- smaller by one. The loops of the receive window have one round more than there are slots: each
-- round but the last gives up a slot that is in use; so have the loops around `pop_ready` of client
-- and server. The loops that empty a queue have a round for each of its messages and one more, and on
-- the server one for the message at hand. The loop that empties the wake-up pipe has a number of
-- rounds as fuel, of which more than there are bytes in the pipe are enough. The other loops go along
-- a list or count to 32.
--
-- Not modelled: the calls that hand their arguments to one system call (sockets, address resolution,
-- threads, mutexes, conditions), and on Windows the signal and the wait; calls of the application in
-- the middle of a round of a worker; the release of memory; the benchmark, the echo server and the
-- tests of the repository.
pub mod Prelude
pub mod Packet
pub mod Seq
pub mod Stats
pub mod Rtt
pub mod Net
pub mod Clock
pub mod Mpmc
pub mod Window
pub mod Session
pub mod Endpoint
pub mod Client
pub mod Server
pub mod Transfer
pub mod Exchange
pub mod Handshake
pub mod Delivery
pub mod Recovery
pub mod Samples
