-- ===== src/Lib.antt =====
-- Roastery: a client of the Java Debug Wire Protocol (JDWP), in C++.
--
-- The program's parts. The field types (src/include/jdwp_type.hpp, src/jdwp_type.cpp) write
-- themselves as bytes in network byte order (`Serialize`) and read themselves back
-- (`FromEncoded`). The packets (src/include/jdwp_packet.hpp, src/jdwp_packet.cpp) are classes of
-- commands, each a tuple of fields behind an 11-byte header, and classes of events, which are read
-- out of a composite event packet. A socket (src/jdwp_socket.cpp) connects, shakes hands, and
-- writes and reads strings over the calls of the operating system. A connection
-- (src/include/jdwp_con.hpp, src/jdwp_con.cpp) gives the sizes of IDs to the field types; its callers
-- put packets into a queue and register handlers, one of its threads writes the packets to the
-- socket, and the other reads packets from it and dispatches their events to the handlers. `main`
-- (src/roast.cpp) makes a connection, registers a handler that prints and sends one command.
--
-- Which module models what:
--   Outcome      a C++ call: a value, an exception, undefined behaviour, or fuel that ran out
--   Bytes        std::string by index, by pointer and by substr; integers in memory
--   HostOrder    ntohll and htonll of src/jdwp_type.cpp; ntohl and htonl of the host
--   Con          the four sizes that IJdwpCon gives to the field types
--   Numeric      JdwpFieldBase and the eight types derived from it
--   Ids          JdwpVariableSizeFieldBase and the fourteen ID types
--   Tags         JdwpTag and JdwpTypeTag
--   Text, Tagged, Location, Value, Region
--                JdwpString, JdwpTaggedObjectId, JdwpLocation, JdwpValue, JdwpArrayRegion
--   Errors       JdwpError and jdwp_strerror
--   Fields       IJdwpField over all types; tuples of fields, TupleForEach, RecursiveSerialize
--   EventClass   JdwpEventKind and the classes of the namespace events
--   Event        HeaderIsEvent, IJdwpEvent::FromEncoded and IJdwpEvent::FromComposite
--   Command      the classes of the namespace command_packets, a module for each command set;
--                RespFields and Replies for their replies
--   Packet       GetNextId, ProduceHeader, CommandPacketBase::SerializeImpl; in SetValues and
--                SetCommand the implementations that src/jdwp_packet.cpp puts in its place;
--                Sent is about the classes that keep the first
--   Action       calls that change an object and may throw
--   Socket       JdwpSocket::Impl: Write, CanRead, Read, Close; Connect and Constructor for making
--                one; Writes, Interrupted, Reads, Streams, Keeps, Open, Descriptor, Addresses,
--                Iterations and Handshake are about
--                these; Wrapper is JdwpSocket
--   Handler      Handler, GenericHandler and Dispatch; Print is PrintHandler of src/roast.cpp, and
--                Printed what it writes
--   Handles      the pImpl of JdwpSocket and JdwpCon, with the moves and the ends of their objects;
--                Moved is about these
--   JdwpException
--                the exception of src/jdwp_exception.cpp; What is about its message
--   Connection   JdwpCon::Impl: Outgoing for the packets it sends, Constructor, Steps for its threads
--                and callers; History, Order, Drain, Reading, Packets, Incoming,
--                Observing, Interleaving, Malformed, Failure, Shutdown and Underflow are about
--                these; Calls are the smaller steps, and Progress, Handling, Simulation,
--                SplitAccesses, SplitWrites, WholeRound, SplitReads and Atomic lead from them
--                to the others; Delivery is about both; Wrapper is IJdwpCon and JdwpCon
--   Program      main of src/roast.cpp; Version and Session are about its runs
--   Tests        runs on concrete inputs, and the theorems applied to them
--
-- How state and operations correspond. A `SerializeImpl` is a function from the value and the
-- connection's sizes to an Outcome of bytes; a `FromEncodedImpl` returns the number of bytes read
-- and the new value, and takes what the object held before where a part of that can survive. The
-- static `next_id` is an argument and a result of get_next_id. A read outside of a string, a write
-- outside of an object, and a null pointer that is read through are `undefined`. An object that an
-- exception leaves half read is not modelled, but for a socket and a connection: a method of these is
-- an Action, which gives the object after a throw too.
--
-- The operating system. The state of a socket keeps what the kernel has accepted (outbox) and what the
-- peer still sends until it closes the stream (inbox). Each method takes the answers that its calls
-- of send and read get: a number of bytes that are moved at most, or -1 with an errno. A call that
-- has no answer left still waits, which is `out_of_fuel`: the answers are the fuel of the two loops,
-- and the theorems that a call returns ask for one answer that moves bytes for each byte. The numbers
-- of the platform's headers (BUFSIZ, the errnos, the flags of poll) are the fields of Platform, a
-- parameter; so are the results of socket, getaddrinfo and connect, the fields of Network.
--
-- Threads. A connection takes steps in any order (Connection/Steps.antt): a caller sends, registers a
-- handler or cancels; the writing thread tests should_cancel and goes into its loop, and then yields,
-- or takes a packet from the queue and writes it, and comes back to the test; the reading thread tests
-- should_cancel and goes into its loop, does a round, and comes back. So a cancel can fall between a
-- test and what follows it. Both threads may take steps as soon as the connection is made. Queue and
-- handlers are under locks in the source, but for the test that the queue is not empty, which only the
-- writing thread can make untrue, and the loop over the handlers. A second relation
-- (Connection/Calls.antt) has a step for each send and each read instead of whole calls, and for the
-- handling of a packet; in both, each update of the queue, of the handlers and of should_cancel is one
-- step. The two directions of a stream do not meet in the kernel. An exception in a thread ends the
-- process and with it the run: only calls that return are steps.
--
-- Host: little-endian, as the branches without __BIG_ENDIAN__ are, with 64-bit size_t. A byte is a
-- number below 256; a signed type is modelled by its bits. Of the field types one
-- uses fuel, the reader of array regions: a round for each value that the length field announces, and one for the last test.
--
-- Parameters: what the fields of a new event held before they are read, and the sizes of IDs. The
-- lemmas that need it assume sizes of at most 8 bytes (IsSupported), and that the ID a field held
-- fits the size too (IsClear), as zeroed memory does.
--
-- Moves. Objects of JdwpSocket and of JdwpCon have numbers, in the order in which they are made, and
-- the model keeps which Impl each owns, if any. A call through a null pImpl is undefined. A theorem
-- about a Socket or a Connection is about the Impl, whichever object owns it.
--
-- Not modelled: the destination of packets that are replies (the code forgets them), signals, and in
-- main the prompt and the wait for a key, the join of threads (a run ends where they do), and RedefineClassesCommand,
-- whose fields the template cannot serialize. An exception in a thread is kept as the outcome of its
-- call; the end of the process that follows is not modelled.
pub mod Prelude
pub mod Outcome
pub mod Bytes
pub mod HostOrder
pub mod Con
pub mod Numeric
pub mod Ids
pub mod Tags
pub mod Text
pub mod Tagged
pub mod Location
pub mod Value
pub mod Region
pub mod Errors
pub mod Fields
pub mod EventClass
pub mod Event
pub mod Command
pub mod Packet
pub mod Action
pub mod Socket
pub mod Handler
pub mod Handles
pub mod JdwpException
pub mod Connection
pub mod Program
pub mod Tests
