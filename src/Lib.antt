-- ===== src/Lib.antt =====
-- eventstore-tcp: the TCP client protocol of EventStore, modelled and verified.
--
-- The program turns packages into frames and back. A package holds optional credentials, a
-- correlation id and a message. The codec (src/codec.rs) reads and writes the frame around it, the
-- credentials stand in the frame (src/auth.rs), the message is told by a discriminator and is
-- encoded by protocol buffers (src/raw/mod.rs, src/raw/client_messages.rs). A transport
-- (src/client.rs) pairs every package with its id. The messages of the wire are refined into adapted
-- ones (src/adapted/), which speak of versions, event numbers and log positions
-- (src/stream_version.rs, src/event_number.rs, src/expected_version.rs, src/lib.rs).
--
-- Files:
--   Prelude    shared names: Tests and Lists over the native numbers, Int (the signed integers and
--              the casts between the machine types), Text (bytes and UTF-8), Results (what a
--              function ends in)
--   Errors     src/lib.rs, the module `errors`, and the io::Errors that the codec makes
--   Version    src/stream_version.rs, src/event_number.rs, src/expected_version.rs,
--              src/content_type.rs
--   Position   `LogPosition` of src/lib.rs
--   Protobuf   the interface of the crate quick_protobuf, the read loop of every `from_reader`, and
--              the lemmas that carry the proofs on messages
--   Message    src/raw/client_messages.rs: a file for each message that `RawMessage` carries, of
--              a transaction, and of a subscription to a stream, with its record, `default`,
--              `from_reader`, `get_size` and `write_message`
--   Raw        src/raw/mod.rs: `RawMessage`, its `decode`, `encode` and `discriminator`, and
--              the hexdump of its debug view
--   Crates     the interface of the crates byteorder, bitflags, uuid and bytes
--   Auth       src/auth.rs: `UsernamePassword`, with `new`, `decode` and `encode`
--   Codec      src/package.rs and src/codec.rs: `Package`, `PackageCodec`; Sender and Link put its
--              encoder and its decoder to the ends of a connection, with the arrival of bytes and
--              the calls of the decoder as steps in any order
--   Client     `Separator` of src/client.rs
--   Adapted    src/adapted/: the results of a write, of reading an event, a stream and all events,
--              `AdaptedMessage`, and the conversions from and to the raw messages
--   Builder    src/builder.rs: a file for each builder, with its setters and what building takes out
--              of it; WriteEvents/Session has the calls on a builder of writes as steps, and
--              WriteEvents/Calls what the calls ask for
--   Decoder    decoder/src/main.rs: the iterator over lines of hexadecimal text, and what is printed
--   Testclient testclient/src/: Read and Prepare go from the command line to requests, Commands has
--              what each command sends and what it makes of the reply, Output has the printing of
--              events, Parse what is called of the standard library
--   Example    small instances of the two interfaces, and the theorems at concrete values
--
-- How the code is read: a function that can fail returns an `Outcome`: a value, an error, a panic
-- (`assert!`, `unwrap`, `unreachable!`, an overflow where checks are on), or `stuck`, which is the
-- model's own mark of a loop that ran out of fuel. A Rust integer is a natural number or an integer
-- with its cast written out, in 32 or 64 bits; arithmetic that can overflow takes a flag that says
-- whether overflow checks are on. A reader over a buffer is the bytes that are left; a writer on
-- memory does not fail, so a write is the bytes it appends. A `BytesMut` is an abstract buffer with
-- what it holds and how much room it has. Texts are their bytes; the check for UTF-8 is written out.
--
-- Fuel: the read loop of the messages runs on fuel, one unit more than there are bytes. Each round
-- takes a tag off the reader, so that is enough for every input. The loop of the decoder tool runs on
-- a number of calls of `next`, of which one more than there are lines is enough.
--
-- Parameters: quick_protobuf, byteorder, bitflags, uuid and bytes are not part of the repository.
-- They are two records of operations (Protobuf, Crates), with the behaviour that the code relies on
-- as records of laws (IsProtobuf, IsCrates): a read undoes its write, sizes are those of what is
-- written, reads go forward, a slice that fits is put behind what a buffer holds and takes as much of
-- its room, and one that does not fit panics. The decoder tool has regex and hex as parameters
-- (Tools), of which nothing is relied on but the bytes that they give; the command line client has
-- the answers of clap, the derived texts of `Debug` and the crate json (Printing).
--
-- Not modelled: the messages of persistent subscriptions, of the end of a subscription and of
-- scavenges, and `MasterInfo` (no `RawMessage` carries them); the
-- connection itself, which is tokio's, and with it `EventStoreClient` and the runner of the
-- commands; the definition of the arguments for clap, whose answers are taken as given; times and
-- display texts. A write to a formatter, to the standard output or to memory does not
-- fail in the model.
pub mod Adapted
pub mod Auth
pub mod Builder
pub mod Client
pub mod Codec
pub mod Crates
pub mod Decoder
pub mod Errors
pub mod Example
pub mod Message
pub mod Position
pub mod Prelude
pub mod Protobuf
pub mod Raw
pub mod Testclient
pub mod Version
