-- ===== src/Lib.antt =====
-- Verification of TCP-implementation-over-UDP: a server that sends a file in segments over UDP, with
-- a sliding window, congestion control and a closing handshake, and a client with two threads.
--
-- The parts, and the files that model them:
-- Wire: the messages and constants of utility.h.
-- Window: slidingwindow.c, the ring of segment buffers of the client. The statics `slidingWindow`
--   and `currentIndex` are the record `Window`; each function is a function on it. Window/Spec is the
--   reorder buffer that the ring stands for.
-- Segments: `GetSegmentCount`, `InitializeFileSegmentInfo` and `SendSegment` of server.c, and the
--   writes of `ConsumerThread` of client.c.
-- Client: `SendClientAckWithLoss`, `ProducerMainThread` and `ConsumerThread` of client.c. A step of
--   either thread runs under the mutex; the answers of `ShouldSimulatePacketLoss` are inputs.
-- Transmit: `HandleFileTransmission` of server.c. Transmit holds its local variables as `Sender`
--   and the pieces of its loops, Transmit/Loop runs them on the returns of `read` and the alarms.
-- Probe: `clientWindowProbe` of server.c, which `HandleFileTransmission` calls on a window of 0.
-- Close: `ActiveClose` of client.c and `PassiveClose` of server.c.
-- Clients: the array `cInfo` of server.c, its functions, and the branch of `main` that uses it.
-- Rtt: rtt.c and unprtt.h, the estimator of the round-trip time that `HandleFileTransmission` keeps.
-- Interface: `GetClientIPAddress` of client.c, over the list of the client's interfaces.
-- Handshake: the request for a file in `main` of client.c and its answer in `main` of server.c.
-- Listen: `BindServerToUnicastInterfaces` and the loop of `main` of server.c that waits for requests.
-- Startup: both `main` functions as sequences of system calls: Startup/ClientMain is the client's up to
--   its threads, Startup/ServerChild the child of server.c up to `HandleFileTransmission`. A call
--   answers by an oracle over all calls before it; the trace has the last call first.
-- Transfer: the sender of Transmit and the threads of Client, joined by a network that may lose, repeat
--   and reorder datagrams; Transfer/Joint has both ends at work in turn, a timeout of the server, what it
--   sends, and what the client answers.
-- Input: `readClientInput` of client.c and `readServerInput` of server.c; Input/Standalone holds their
--   copies in readInput.c.
-- Location: `getServerLocation` and `getSubAddrLongest` of client.c, which nothing calls any more.
-- Earlier: server_bkup.c, where it differs from server.c: its `HandleFileTransmission`, the loop of its
--   `main`, and its `AddClientToKnownClientList`, which nothing calls.
-- Common: names, Boolean tests, lists and the integers of C that the parts share.
--
-- Loops over events are recursions on the list of events, and have no bound of their own. Loops
-- over a table or a window recurse on the number of rounds. The consumer's loop has one round more
-- than the window has slots, since each round but the last empties one.
--
-- `int` and `unsigned int` are exact numbers, except where a conversion or a wrap-around is written
-- out: timestamps and samples (2 ^ 32), segment numbers read as `int`, the doubled wait of a probe.
-- `none` from a send stands for an access outside the segment table, and `none` from
-- `get_next_ack_index` for the missing return of a full window, whose value is a parameter of the
-- client. The byte order functions, the clock, the signal and the sockets are parameters or events.
--
-- A reader of an input file recurses on the length of the file, since each `fgets` takes a byte at
-- least (Input/Buffers). `atoi` gives an exact number, and `inet_pton`, `atof` and the numbers with a
-- fraction are parameters.
--
-- What the consumer writes goes to `writeFileFd`, which nothing sets: the field of the model holds any
-- number, and a theorem on what is written is one on the bytes handed to `write`. The length in the
-- answer of the server stays as `htonl` has made it for the sender and the client's producer; theorems
-- that need it to be the length of the file say so.
--
-- Not modelled: the printing, `sig_chld`, which only reaps children, and the signal mask; a timer of the
-- server that runs out while `clientWindowProbe` waits; a datagram to the sender that is shorter than an
-- acknowledgement, which would overwrite a part of `ack`;
-- the copy of library code in get_ifi_info_plus.c, unp.h and unpifiplus.h; the child of
-- server_bkup.c and what that file shares with server.c; probe.c, a draft that does not compile, and a.c,
-- which are no part of the programs.
pub mod Common
pub mod Wire
pub mod Window
pub mod Segments
pub mod Rtt
pub mod Clients
pub mod Close
pub mod Client
pub mod Probe
pub mod Transmit
pub mod Interface
pub mod Handshake
pub mod Listen
pub mod Transfer
pub mod Input
pub mod Location
pub mod Startup
pub mod Earlier
