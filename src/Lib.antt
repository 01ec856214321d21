-- ===== src/Lib.antt =====
-- umsg sends typed messages over byte streams. A payload becomes a frame with a header of eight bytes
-- (`protocol`), the frame with its checksum (`crc32`) is stuffed so that no byte is zero (`cobs`) and
-- is ended by a zero byte (`framer`); on the other side the framer turns the bytes of the stream back
-- into frames, the header is read, and the payload is given to the handler of its message id
-- (`dispatcher`).
--
-- The files and the code, by paths from the root of the repository:
--
-- - Common, Common/Sizes: src/umsg/common.hpp. `ByteSpan` is the memory from its pointer on, `none`
--   for null, with its length. `cobsMaxOverhead`, `maxFrameSize`, `maxPacketSize`.
-- - Crc32: src/umsg/crc32.hpp. The three bodies of `crc32_iso_hdlc` that the preprocessor selects, as
--   three functions. Equivalence compares them, Linear and Detection treat the sum as a linear map.
-- - Cobs: src/umsg/cobs.hpp. `CobsEncState` with `begin`, `put`, `finish`; `cobsEncode2`,
--   `cobsEncode`, `cobsDecodeInPlace`. Format describes the format on lists, by `encoding` and
--   `decoding`, without buffers; Length has its sizes. Encoder, EncoderLoop and Encode2 are about the
--   encoder; Decoder, DecoderBlock, DecoderLoop and DecoderSize about the decoder. The decoder takes a
--   zero byte inside a block as any other byte, and so does `decoding`; Strict compares it with the
--   documented format, in which such a byte is invalid.
-- - Marshalling: the integer helpers of src/umsg/marshalling.hpp. Cursor has `Writer` and `Reader` with
--   their overloads for unsigned integers and `bool`, Signed those for signed integers and floating
--   point numbers, which are their bits, and Array `writeArray` and `readArray`. Fields states what a
--   pair of overloads promises; Casts shows it of those that cast, and Arrays uses it for arrays.
-- - Framer: src/umsg/framer.hpp. `encode`, and `feed` as a function of the state and a byte. Stream
--   describes a receiver that collects whole packets; Receive, Delimiter, Feed and Session relate
--   `feed` to it. Packet and Capacity are about `encode`, Delivery about packets that arrive.
-- - Protocol: src/umsg/protocol.hpp. `encodeFrame` and `decodeFrame`.
-- - Dispatcher: src/umsg/dispatcher.hpp. A handler is a function on the `World`, which is everything
--   that handlers can change; a member function pointer is its bytes, and calling through it is a
--   parameter. Install and Register are about `registerHandler`.
-- - Node: src/umsg/node.hpp. The transport is a record of the two operations that the node calls. Stream
--   says what a node makes of the bytes that it receives, without buffers; Handle, Poll and Refine
--   relate `poll` to it, Publish is about `publish`, Letters and Exchange about nodes that send to each
--   other, and Typed about messages from `publish` to their handlers. A handler
--   that calls back into its node is not modelled.
-- - Posix: src/umsg/transports/posix. What `SerialPort` and `TcpClient` share, which is `read`, `write`,
--   `close` and the buffer, is in Posix; SerialPort has `open`, TcpClient `connect`, and UdpSocket the
--   whole of its class. Line states what the system promises about its calls, Send and Receive are
--   about `write` and `read`, Clean and Connect about `open` and `connect`, with Descriptors for what is
--   open in the system, Datagrams about UDP, and Source about `TcpClient` as the transport of a node.
-- - Arduino: src/umsg/transports/arduino.hpp and src/umsg/transports/arduino, over objects of the
--   Arduino libraries. Queues and Packets relate `read` to the bytes that the objects hold.
-- - Messages: examples/Common/messages, the structs that the generator has written. Codec is about
--   fields one behind the other, RoundTrip about each message.
-- - Base: numbers, tests on them, lists as buffers, bit operations.
-- - Tests, Fixtures, System of a part: concrete inputs on which its theorems apply.
--
-- A `uint8_t *` that is written through is a list that is passed in and returned. A read out of the
-- range of a list gives zero and a write there changes nothing; the theorems state that buffers are as
-- large as the lengths given with them. Sizes are natural numbers: a `size_t` does not overflow on
-- buffers that exist. Integers of fixed width are natural numbers, cut off where the code converts.
--
-- The loop of `cobsDecodeInPlace` runs on fuel, the length of the input, which is enough since each
-- round reads a byte at least; running out of it is the result `stuck`, which is shown not to occur.
-- The loops of the POSIX transports around system calls run on fuel as well (Posix/Loop), and end with
-- more of it than the patience of the system, which bounds how often it interrupts or postpones a
-- call, and the bytes to write. All other loops are recursions on lists, except `poll`, whose fuel is
-- shown to be enough when it is more than the bytes that the transport has.
--
-- Parameters, with their documented behaviour as named laws: the transport of a node (`Transport`), the
-- calls of the system (`Calls`, `Terminals`, `Sockets`) and the objects of the Arduino libraries
-- (`Stream`, `Client`, `Udp`). A descriptor is a natural number, and -1 is `none`. `errno` is one of
-- three kinds of error. Of `termios` and `sockaddr_in` only what the code sets is told apart.
--
-- Not modelled: destructors, which only close; handlers that call back into their node; the programs
-- of the examples, which are input, output, timers and endless loops; the generator, a script in
-- Python.
pub mod Common
pub mod Crc32
pub mod Cobs
pub mod Marshalling
pub mod Framer
pub mod Protocol
pub mod Dispatcher
pub mod Node
pub mod Posix
pub mod Arduino
pub mod Messages
pub mod Base
