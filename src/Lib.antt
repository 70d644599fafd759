-- ===== src/Lib.antt =====
-- Chamlon is a VPN over UDP: a server (chamlon_server) and a client (chamlon_client), both in C, that
-- exchange IP packets of a TUN device in encrypted fragments. This library models the parts that
-- decide what is accepted, stored, sent and dropped, and proves what makes each of them correct.
--
-- How the parts interact. The epoll thread of the server gives each packet as a job to one of the
-- sharded queues of the thread pool (ThreadPool). A worker that handles a packet from a client asks the
-- rate limiter (RateLimiter), finds the session (Sessions), tests the sequence number (ReplayWindow),
-- decrypts, marks the number, decodes the tunnel header (Wire) and puts the fragment into the
-- reassembly table (Reassembly), from which a whole packet goes to the TUN device. A packet in the
-- other direction is cut into fragments (Fragment); under a constant bit rate the fragments wait in the
-- two-lane queue of the session (OutQueue), from which the scheduler sends (Pacing) at the times in
-- its heap of tasks (Scheduler). The client has the same parts with one session, and renews its keys from time to
-- time (Rehandshake). A session begins with a handshake of two messages (Handshake), which the
-- client's address may repeat to rotate the keys; every five seconds the server sweeps its tables and
-- sends keepalives (Maintenance), and at the end it lets the sessions drain (Shutdown). Inbound and
-- Outbound put the parts of the server together, ClientLink and Uplink those of the client. Metrics
-- counts what happens on the server. MainLoop is the loop of the epoll thread with the workers of the
-- pool, and SendWorker the one of the scheduler; on the client EventLoop and Sender are the two
-- threads, which share a counter and hand over keys.
--
-- The files.
--   Base            names, lists, Boolean tests, machine words and bits that the others share.
--   ReplayWindow    check_replay and update_window of chamlon_server/src/replay_window.c and
--                   chamlon_client/src/vpn_replay_window.c. History is the specification, Slide and
--                   Refine relate the bitmap to it, NoReplay has the consequences.
--   Wire            proto_header_t and tunnel_header_t of chamlon_server/include/vpn_common.h, and
--                   the nonce and associated data of chamlon_server/src/vpn_crypto.c.
--   Reassembly      chamlon_client/src/vpn_reassembly.c, the table of chamlon_server/src/fragment.c,
--                   and the part of handle_udp_packet (chamlon_client/src/vpn_packet_handler.c) and
--                   of handle_inbound_udp (chamlon_server/src/packet_processor.c) after decryption.
--   Fragment        handle_outbound_tun_buf and send_outbound_packet of
--                   chamlon_server/src/packet_processor.c, packet_padding of
--                   chamlon_server/src/packet.c, fragment_next_packet_id.
--   Tunnel          sender and receiver together.
--   OutQueue        classify_packet, packet_queue_push, out_queue_pop and the drain loop of
--                   execute_send in chamlon_server/src/scheduler.c, and
--                   chamlon_client/src/vpn_queue.c.
--   Scheduler       pq_push, pq_pop, timespec_compare and the carry of
--                   add_mbps_interval_to_timespec in chamlon_server/src/scheduler.c.
--   RateLimiter     chamlon_server/src/rate_limiter.c.
--   Crypto          chamlon_server/src/vpn_crypto.c (the client's copy is the same), over a record of
--                   the calls of libsodium; Contract states what libsodium documents, and Toy is a
--                   concrete instance for the examples.
--   Sessions        chamlon_server/src/session.c, prepare_dummy_static_parts of
--                   chamlon_server/src/packet.c, and what handle_msg1 of
--                   chamlon_server/src/handshake.c does to the table where every call succeeds.
--   Handshake       handle_msg1 and handle_rehandshake_msg1 of chamlon_server/src/handshake.c on every
--                   path; ClientSide is client_handshake of chamlon_client/src/vpn_handshake.c. Fields
--                   is about the messages, Opening and Outcome about the table, Agreement and Rotation
--                   about both sides together, Invariant about the table's facts.
--   KeyFile         load_or_create_server_key of chamlon_server/src/handshake.c.
--   Datagram        the data packets of both directions, send_control_packet of
--                   chamlon_server/src/packet.c and send_keepalive_to_client.
--   ClientLink      handle_udp_packet of chamlon_client/src/vpn_packet_handler.c.
--   Uplink          handle_tun_packet and send_keepalive of chamlon_client/src/vpn_packet_handler.c,
--                   packet_padding of chamlon_client/src/vpn_utils.c, send_disconnect of
--                   chamlon_client/src/vpn_client.c.
--   Outbound        send_outbound_packet and handle_outbound_tun_buf of
--                   chamlon_server/src/packet_processor.c; Delivery follows a packet from one TUN
--                   device to the other.
--   Inbound         handle_inbound_udp of chamlon_server/src/packet_processor.c, and the key by which
--                   main of chamlon_server/src/vpn_server.c chooses a worker.
--   Maintenance     perform_maintenance of chamlon_server/src/packet_processor.c.
--   Shutdown        chamlon_server/src/graceful_shutdown.c and the loop of main that waits for the
--                   sessions to end.
--   Pacing          execute_send of chamlon_server/src/scheduler.c.
--   ThreadPool      the queues of chamlon_server/src/thread_pool.c.
--   Rehandshake     should_attempt_rehandshake and rehandshake_client_with_state of
--                   chamlon_client/src/vpn_handshake.c, and their use in
--                   chamlon_client/src/vpn_event_loop.c.
--   Metrics         chamlon_server/src/metrics.c.
--   MainLoop        the loop of main in chamlon_server/src/vpn_server.c, handle_outbound_tun of
--                   chamlon_server/src/packet_processor.c, and worker_thread with its jobs in
--                   chamlon_server/src/thread_pool.c.
--   SendWorker      scheduler_worker_fn, scheduler_add_session and the interval of
--                   add_mbps_interval_to_timespec in chamlon_server/src/scheduler.c.
--   Sender          chamlon_client/src/vpn_sender_thread.c; Rekey has it together with the end of
--                   rehandshake_client_with_state in chamlon_client/src/vpn_handshake.c.
--   EventLoop       event_loop_run of chamlon_client/src/vpn_event_loop.c.
--   ClientMain      parse_arguments and start_sender_thread of chamlon_client/src/vpn_client.c, and
--                   hex2bin of chamlon_client/src/vpn_utils.c, over a record of functions of the C library.
-- A module Examples beside these has tests that compute and the theorems at concrete inputs.
--
-- How the code is read. A function that changes an object returns the new one; a pointer into a table
-- is an index. A byte is a number below 256 and a buffer a list of numbers. Unsigned sums wrap where the
-- source can reach the wrap-around; a subtraction that the source guards is the one on natural
-- numbers. The clock is an argument. Reads and copies outside a buffer, which C leaves undefined, are
-- results of their own (`none` or `fault`).
--
-- Loops. Loops over an array are recursion on it. The others run on fuel: the loop over the fragments
-- has one round for each byte and one more, the drain loop one for each packet and one more, the loops
-- of the heap as many as there are tasks, and the carry of seconds as many as there are nanoseconds.
-- For each of these the theorems say what the loop returns, so that the fuel is enough.
-- The loops of the threads have no end of their own: their turns are functions, and the client's event
-- loop is recursion on the list of what its turns meet.
--
-- Not modelled. libsodium is outside: the cipher, the hashes, the key exchange and the signatures are
-- parameters, with their documented behaviour as named hypotheses. Outside are also sockets and the TUN
-- device, the waiting for events, the signal handlers, routes, the start and the end of the threads, and
-- the backpressure counter. The arithmetic on `double` is a parameter of SendWorker, of which nothing is
-- assumed; set_interval_from_mbps of the client's sender thread is outside. A lock makes an operation one
-- step; that a function takes the lock that its comment asks for is not part of the model. The events of
-- a turn are handled in one order: on the server the datagrams come first, on the client the TUN device
-- does.
pub mod Base
pub mod ReplayWindow
pub mod Wire
pub mod Reassembly
pub mod Fragment
pub mod Tunnel
pub mod Uplink
pub mod EventLoop
pub mod OutQueue
pub mod RateLimiter
pub mod Scheduler
pub mod Sender
pub mod Crypto
pub mod Sessions
pub mod Handshake
pub mod Datagram
pub mod ClientLink
pub mod Outbound
pub mod Inbound
pub mod Maintenance
pub mod Shutdown
pub mod MainLoop
pub mod Pacing
pub mod SendWorker
pub mod Rehandshake
pub mod ThreadPool
pub mod Metrics
pub mod ClientMain
pub mod KeyFile
