-- ===== src/Lib.antt =====
-- DISC, a Diameter (AAA) server and client library in C: a model of its core and what holds of it.
-- Paths are from the repository's root, below disc/src/.
--
-- The parts. Applications open sessions (diameter_api/session.c), build messages of AVPs
-- (diameter_msg/avp.c), and these are written to and read from buffers (diameter_msg/message.c) that
-- the transport exchanges with peers. All structures live in shared memory (mem/).
--
-- - Base: lists, tests on numbers, and names of the libraries that the other modules share.
-- - Utils: utils.h, the conversions int2str, int2hexstr, hexchar2int, hexstr2int and to_32x_len.
--   Decimal and Hex are about what they write.
-- - Shm: shm_malloc and shm_free as the other parts see them. What each call returns is a parameter
--   of the model, so that every pattern of failures is covered; the model counts calls and blocks.
-- - Session.Id: generate_sessionID, the end of AAAStartSession, parse_sessionID. Session.Id.RoundTrip
--   and Session.Id.Text are about the text, Session.Id.Counter about monoton_sID.
-- - Session.Machine: session_state_machine, create_session and AAAEndSession. The mutex is a flag, so
--   that waiting for it twice shows. Session.Machine.World adds the requests that are on their way.
-- - Msg: the data types of diameter_msg/diameter_msg.h. Msg.Wire: numbers in buffers, on a
--   little-endian machine; an access outside a buffer is the result `fault`.
-- - Msg.Create: set_avp_fields, AAACreateAVP, AAACloneAVP, AAAFreeAVP.
-- - Msg.AvpList: AAAAddAVPToMessage, AAAFindMatchingAVP, AAARemoveAVPFromMessage. The doubly linked
--   list is the list of its nodes, and a pointer to a node is the address of its structure.
-- - Msg.Build: AAABuildMsgBuffer. Msg.Translate: AAATranslateMessage and AAAFreeMessage, with
--   pointers of 8 bytes.
--   Msg.New: AAANewMessage.
-- - Timer: the operations of timer.c on timer lists. Timer.Owners is about the field `timer_list` of the
--   links, Timer.Sorted about the order of the lists.
-- - Peer: transport/peer.h, reset_peer and the macros of transport/peer.c; Peer.Machine:
--   peer_state_machine. The results of the functions that send and read messages are arguments of the
--   machine. Peer.Timers sets the machine's view of the timer link against Timer; Peer.Watch adds the
--   commands of peer_timer_handler that are on their way.
-- - Peer.Scan, Peer.Process, Peer.Capabilities: the loop over the AVPs of a message between peers, and
--   process_dw, process_dp and process_ce, which read it. Peer.Encoded runs the loop on what
--   AAABuildMsgBuffer writes; Peer.Accepts says which messages pass; Peer.Settles and Peer.Ends are
--   about when the loop ends.
-- - Peer.Buffers, Peer.Sent: build_msg_buffers, and the bytes of the messages that the send_ functions of
--   transport/peer.c write. Peer.Parts, Peer.Standard, Peer.Made and Peer.Headers are about these bytes;
--   Peer.Heartbeat and Peer.Disconnect about a request from one peer to another and its answer.
-- - Peer.Dispatch: dispatch_message. Peer.Returned and Peer.Answered: from a watchdog request, over the
--   answer of the other peer, to the end of the transaction.
-- - HashTable: hash_table.c and hash_table.h. HashTable.Hash: hash. HashTable.Links, HashTable.Labels
--   and HashTable.Found are about the lists of the entries and the labels of their cells.
-- - Trans: transport/trans.c, transport/trans.h, and the functions of transport/peer.c that send
--   requests. It brings together the hash table, the timer lists and the counters of references.
--   Trans.Steps: the threads that share transactions, as steps that come in any order, each up to the
--   next access to what they share.
-- - FMalloc: mem/f_malloc.c, without DBG_F_MALLOC and with pointers of 4 bytes. FMalloc.Tiles: the
--   fragments in memory. FMalloc.Heap, FMalloc.Calls and FMalloc.Init: they stay free or in use.
--   FMalloc.Search: what the search finds.
-- - Tcp: do_read of transport/tcp_receive.c. Tcp.System: what is asked of recv. Tcp.Rounds, Tcp.Streams
--   and Tcp.Runs: a round, a call, and any number of calls; Tcp.Cuts and Tcp.Delivery: the messages.
-- - Cfg: cfg_parser.c, cfg_parser.h and parser_f.h, a pointer into a line being the text from it on.
--   Cfg.Run: the table of definitions, and callbacks of cfg_init.c. Cfg.Words, Cfg.Lines and
--   Cfg.Comments: how a line is read; Cfg.Streams, Cfg.Kept and Cfg.Peers: whole configurations.
-- - Route: route.c and route.h. Route.Chain and Route.Extend: the list of routes as a chain.
--   Route.Cycle: a second peer for a realm. Route.Peers: the peers of the configuration.
-- - Uri: aaa_parse_uri.c. Uri.Inside: where the strings of the result end. Uri.Rounds and Uri.Print:
--   what is read from a URI with all its parts.
-- - Tests: runs at concrete inputs.
--
-- Bounds and fuel. A w-bit number is a natural number with the reduction modulo 2 ^ w written where
-- the source computes it. The loop of AAATranslateMessage over the AVPs runs on fuel, one unit for
-- each byte of the source; a round takes 8 bytes at least, so that the fuel never runs out.
-- The loop of AAANewMessage over the proxy-info AVPs runs on fuel that the caller chooses: it need not
-- end. So do the loops over the AVPs of a message between peers, where an AVP of length 0 is met again
-- for ever; as many rounds as there are bytes tell whether the loop ends.
--
-- Not modelled: sockets, threads, locks other than the mutexes of sessions and peers, logging, the parts of
-- the configuration that load modules or include files, dynamic modules, the ticker of the timers, the
-- addresses of peers, the queue between the threads, and the allocators besides f_malloc.
mod Base
mod Tests
pub mod Utils
pub mod Shm
pub mod Msg
pub mod Session
pub mod Tcp
pub mod Timer
pub mod Peer
pub mod Uri
pub mod Cfg
pub mod FMalloc
pub mod Route
pub mod Trans
pub mod HashTable
