-- ===== src/Lib.antt =====
-- libnrm, the node resource manager library. A daemon (nrmd) keeps the sensors, scopes, slices and
-- actuators of a node; clients send it events and requests over the network; it files the events,
-- answers the requests and orders the owners of actuators to act.
--
-- Files and the code that they are about:
--   Error       include/nrm/utils/error.h
--   Bitmap      src/utils/bitmaps.c: sets of indices below 2048 in 32 words of 64 bits
--   Vector      src/utils/vectors.c: arrays over utarray, and their sorting
--   Time        src/utils/timers.c: seconds and nanoseconds, and counts of nanoseconds
--   Hash        src/utils/hashes.c: maps from names to objects over uthash
--   Scope       src/utils/scopes.c: a name and three bitmaps
--   Timeserie   src/timeserie.c: the events of a sensor in a scope
--   Eventbase   src/eventbase.c: events by sensor, scope and time slice
--   Actuator    src/actuator.c, src/actuators/discrete.c, src/actuators/continuous.c
--   State       src/state.c, src/sensor.c, src/slices.c: the daemon's four tables
--   Server      src/server.c: the handlers of the requests
--   Control     src/control/europar21.c: the control loop that caps power by a program's progress;
--               Control/Creation has how src/control/control.c makes one from JSON
--   Daemon      src/binaries/nrmd.c: the daemon's callbacks; Daemon/Tick with a control loop
--   Message     src/messages.c, src/msg.proto: the messages, made from objects and read again;
--               Message/Frames has their frames on the wire, Message/Printing the JSON of
--               messages, Message/Ctrlmsg the control messages within a program
--   Client      src/client.c: a program's calls of the daemon, over any transport; Client/Link joins
--               a client to the server
--   Role        src/roles/client.c: the thread between a client and its sockets; Role/Controller
--               has src/roles/controller.c, the thread of the daemon
--   Json        src/utils/bitmaps.c, src/utils/scopes.c, src/utils/timers.c, src/actuator.c: objects
--               as JSON, and back
--   Tools       src/tools.c: the options that the programs share, over getopt
--   Command     src/binaries/nrmc.c: the commands of the command line client
--   Preload     src/preloads/ompt: the events of OpenMP programs, at a limited rate
--   Strings     src/utils/strings.c: counted strings
--   Parsers     src/utils/parsers.c: numbers from text
--   Ringbuffer  src/utils/ringbuffer.c: the latest elements, over utringbuffer
--   Ext         what stands outside of the repository or is a copy of an outside library: uthash,
--               utarray, utringbuffer, qsort, the `double` numbers and libm, czmq, jansson, as records of
--               operations with their laws, and an instance of each that the tests run on
--   Prelude     names and lemmas that the others share
--
-- How they interact: a client's call becomes a message (Message), which goes through the client's
-- thread (Role) to the server, which reads it as a request (Server/Wire) and answers with messages
-- that come back the same way; the thread keeps answers for the call and hands orders to the
-- client's listener. Client/Link composes these, one request at a time. The server hands an events
-- message to the daemon's event callback, which pushes each event into the event base and publishes
-- it; an actuate request goes through the daemon's callback to the actuator's correction of the
-- value, into the state's table and to the owner. The state and the event base stand on the hash
-- tables, the time series, lists of choices and replies on the vectors, and the scopes on the
-- bitmaps.
--
-- How the code reads here: a struct is a record, an operation takes the struct and returns it with
-- its code; a pointer that may be NULL is an Option, and an operation's result `none` is a behaviour
-- that C does not define. An object in a table is written through the table, as all pointers to it
-- lead there. Error codes are the constructors of ErrorCode, for the code's negative numbers.
-- Loops over the bits of a bitmap recur on the number of rounds left, which the code's bounds give
-- (2048, 32 and 64); all other recursion is on the list that the code walks, but for one loop on fuel,
-- over the options in Tools: it has more fuel than getopt has arguments left, and is proved to end.
--
-- Bounds: `unsigned long` words are kept below 2^64, which the bitmap's well-formedness states. Times
-- are integers without a bound, as signed overflow has no meaning in C; they stay in 64 bits for 292
-- years about 1970. Doubles are an ordered set with the laws that hold without NaN. Allocation of
-- small structs succeeds; what depends on the memory of arrays takes it as an assumption, Memory.
--
-- Client/Link leaves out the sockets: a message arrives as it was sent, a request is handled before
-- the next one is sent, and what other clients send between two calls is not part of a statement. A
-- call that waits for an answer that does not come, or whose assertion fails, has the result `none`.
--
-- Not modelled: the packing of messages (protobuf-c, a parameter of Message/Frames), sockets, event
-- loops and threads (czmq), the text of JSON (jansson, whose values are a parameter of Json, Command,
-- Control/Creation and Message/Printing), the creation and destruction of clients, roles and servers,
-- logging, the own options of the commands of nrmc and its commands run and listen, and the rest of
-- the preloaded libraries, which is calls of OMPT and MPI.
pub mod Prelude
pub mod Error
pub mod Bitmap
pub mod Ext
pub mod Vector
pub mod Time
pub mod Tools
pub mod Hash
pub mod Scope
pub mod Timeserie
pub mod Eventbase
pub mod Actuator
pub mod State
pub mod Server
pub mod Daemon
pub mod Strings
pub mod Parsers
pub mod Preload
pub mod Ringbuffer
pub mod Message
pub mod Client
pub mod Role
pub mod Control
pub mod Json
pub mod Command
