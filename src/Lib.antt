-- ===== src/Lib.antt =====
-- nim-libp2p: a model of parts of the library, and what is proved of them.
--
-- The parts and how they interact. A connection between two peers carries many streams: the Yamux
-- session (libp2p/muxers/yamux/yamux.nim) reads frames from the connection, keeps a table of
-- channels, and each channel has a send queue, a receive queue (the `ZeroQueue` of
-- libp2p/utils/zeroqueue.nim) and two windows. Kademlia (libp2p/protocols/kademlia) finds peers: the
-- routing table files keys in buckets by their XOR distance, and shares one registry of peer rows
-- with other routing tables. Service discovery caches advertisements and counts their addresses in
-- the address tree of libp2p/utils/iptree.nim. The dialer asks the backoff tables before it dials.
-- GossipSub answers requests for recent messages from its message cache. The C examples drive whole
-- nodes through the library's binding.
--
-- The files, with the sources that they model:
--   Common: Boolean tests, lists measured by native numbers, sets without duplicates, and Nim's
--     `Table` as an association list. The list's order stands for the order of a hash table.
--   Utils/ZeroQueue: libp2p/utils/zeroqueue.nim. Content is the bytes that a queue stands for,
--     Consume the reads.
--   Utils/IpTree: libp2p/utils/iptree.nim. Counts has the counters, Undo a removal after an insertion.
--   Pubsub/MCache: libp2p/protocols/pubsub/mcache.nim, `put`, `shift`, `window` and the lookups.
--   Kademlia/Distance: the distances of libp2p/protocols/kademlia/types.nim.
--   Kademlia/PeerRegistry: libp2p/protocols/kademlia/peer_registry.nim.
--   Kademlia/RoutingTable: libp2p/protocols/kademlia/routing_table.nim. The parent has insertion and
--     lookup, Remove the removal and `detachAll`, Closest `findClosest`; Invariant, Insert and Admit
--     build up the invariant of insertion, Positions has a bucket without one of its peers, and
--     Buckets is about the replacement of peers.
--   Kademlia/ProbeBackoff: libp2p/protocols/kademlia/probe_backoff.nim.
--   Muxers/Yamux: libp2p/muxers/yamux/yamux.nim. Header is the frame header (`readHeader`, `encode`);
--     Channel is `YamuxChannel` with `reset`, `closeImpl`, `readOnce`, `gotDataFromRemote` and
--     `updateRecvWindow`, and Channel/SendLoop `sendLoop` and `write`; Session is `Yamux` with
--     `createStream`, `newStream`, `close` and the remembered streams, and Session/Handle `handle`.
--   Dial/Backoff: libp2p/dial_backoff.nim.
--   Discovery/AdvertisementCache: libp2p/protocols/service_discovery/advertisement_cache.nim.
--   Cbind: the C programs of cbind/examples. Binding has the requests and replies of the generated
--     header libp2p.h, Program the actions and the wait loop of common.h, Waiters the rest of common.h.
--     Echo, Gossipsub, Kad, Metrics, Peerstore, Relay, ServiceDisco and MobileCheck
--     (libp2p_mobile_check.c) have a `main` each. Contexts says which contexts a program owns, Status
--     what the log says of the requests after a run (Shown: of the data that a program compares), and
--     Liveness when a program returns, each with rules for the ways to build a program and a proof for
--     each program. Waits is about the wait loop, Bounds about the buffers, and Examples has what
--     holds of all programs on common.h, and of libp2p_mobile_check.c.
--   The Tests of each part hold runs at concrete inputs.
--
-- How code is modelled. An operation is a function from the state to the state, with its answer
-- beside it. An assertion that fails, and an index out of range, is `none`, and theorems say that it
-- does not happen. An exception is a constructor of the result. A `Moment` and a `Duration` are
-- numbers of nanoseconds, a difference stops at 0, and one call sees one moment. A byte is a number
-- below 256. A key, a peer or a service is a value of a type with decidable equality, or a number. An
-- `await` is atomic: what else runs while it waits is an operation before or after it. In Yamux each
-- write of the send loop may fail, as a parameter says; the other writes of a channel do not, and
-- the order of the frames of different channels is not recorded. The handler of a new stream belongs
-- to the caller.
--
-- A C example is an action on a log of what it asked of the binding and on the global variables that
-- its listeners write. It returns, or it leaves the process by `exit`. A wait polls up to 1000 times,
-- as in the source, and a listener may run in every sleep. A waiter is a record, whose buffers hold
-- the string before the NUL; an array with its count is a list. What follows an early return or a
-- `goto` is a function of its own. Reports of errors are in the log, but for the one before an
-- `exit`; other output is not.
--
-- Parameters. The binding of the C examples answers each request as a function of the log, at a
-- time of its own or never, and a context that it gives is owned whatever the code of the answer;
-- for the ownership of contexts it gives none together with an error. pthread and the clock are a
-- parameter of libp2p_mobile_check.c. The hash of Kademlia (SHA-256) is a parameter, with the
-- hypothesis that it gives 32 bytes and different hashes for different keys. The random jitter of
-- a wait is a parameter that does not exceed the wait. The hash of an address is a number.
--
-- Fuel. `consumeTo` runs on one round more than there are chunks, and one more to end; each round
-- takes a chunk or fills the request. `sendLoop` runs on three: a round empties the queue or the
-- window, and the next one ends. `handle` runs on one more than the number of bytes, of which
-- every header takes twelve, and `discardData` on the number of bytes to drop. The wait on a condition
-- variable runs on the wakeups before its deadline, a parameter. All other loops are structural.
--
-- Not modelled: cryptography, transports, addresses and their codecs, and whatever rests on packages
-- or on the asynchronous runtime; scores and waiting times in floating point; metrics, logs and
-- timeouts; the generated side of the C binding. GossipSub's mesh, the iterative lookups of
-- Kademlia, Mplex, the negotiation of protocols and the other caches are not modelled either.
pub mod Cbind
pub mod Common
pub mod Utils
pub mod Pubsub
pub mod Kademlia
pub mod Muxers
pub mod Dial
pub mod Discovery
