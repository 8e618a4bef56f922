-- ===== src/Raw.antt =====
-- `RawMessage` of src/raw/mod.rs: the messages of the protocol, their discriminators, and the
-- decoding and encoding of a body. `ReadDirection` is that of src/lib.rs.
pub mod Validity
pub mod RoundTrip
pub mod Decode
pub mod Hexdump
use eventstore_tcp.Prelude.{
  ℕ, Bool, true, false, Bytes, List, [], ◌∷◌, Outcome, ok, err, panic, stuck, ◌>>=◌, map_err,
}
use eventstore_tcp.Errors.{IoError, from_crate}
use eventstore_tcp.Protobuf.{Rd, Protobuf, match_tag}
use eventstore_tcp.Message.WriteEvents
use eventstore_tcp.Message.WriteEvents.{WriteEvents}
use eventstore_tcp.Message.WriteEventsCompleted
use eventstore_tcp.Message.WriteEventsCompleted.{WriteEventsCompleted}
use eventstore_tcp.Message.DeleteStream
use eventstore_tcp.Message.DeleteStream.{DeleteStream}
use eventstore_tcp.Message.DeleteStreamCompleted
use eventstore_tcp.Message.DeleteStreamCompleted.{DeleteStreamCompleted}
use eventstore_tcp.Message.ReadEvent
use eventstore_tcp.Message.ReadEvent.{ReadEvent}
use eventstore_tcp.Message.ReadEventCompleted
use eventstore_tcp.Message.ReadEventCompleted.{ReadEventCompleted}
use eventstore_tcp.Message.ReadStreamEvents
use eventstore_tcp.Message.ReadStreamEvents.{ReadStreamEvents}
use eventstore_tcp.Message.ReadStreamEventsCompleted
use eventstore_tcp.Message.ReadStreamEventsCompleted.{ReadStreamEventsCompleted}
use eventstore_tcp.Message.ReadAllEvents
use eventstore_tcp.Message.ReadAllEvents.{ReadAllEvents}
use eventstore_tcp.Message.ReadAllEventsCompleted
use eventstore_tcp.Message.ReadAllEventsCompleted.{ReadAllEventsCompleted}
use eventstore_tcp.Message.NotHandled
use eventstore_tcp.Message.NotHandled.{NotHandled}

pub data ReadDirection : Type 0 where
  forward backward : ReadDirection

-- `BadRequest` and `NotAuthenticated` hold the bytes of their payload newtypes.
pub data RawMessage : Type 0 where
  heartbeat_request heartbeat_response ping pong : RawMessage
  write_events : WriteEvents → RawMessage
  write_events_completed : WriteEventsCompleted → RawMessage
  delete_stream : DeleteStream → RawMessage
  delete_stream_completed : DeleteStreamCompleted → RawMessage
  read_event : ReadEvent → RawMessage
  read_event_completed : ReadEventCompleted → RawMessage
  read_stream_events : ReadDirection → ReadStreamEvents → RawMessage
  read_stream_events_completed : ReadDirection → ReadStreamEventsCompleted → RawMessage
  read_all_events : ReadDirection → ReadAllEvents → RawMessage
  read_all_events_completed : ReadDirection → ReadAllEventsCompleted → RawMessage
  bad_request : Bytes → RawMessage
  not_handled : NotHandled → RawMessage
  authenticate authenticated : RawMessage
  not_authenticated : Bytes → RawMessage
  unsupported : ℕ → Bytes → RawMessage

-- The result of `from_reader`, then `assert!(reader.is_eof())`.
abbrev finish : {M : Type 0} → Outcome ℕ M → Bool → Outcome IoError M
finish stuck eof = stuck
finish panic eof = panic
finish (ok m) true = ok m
finish (err e) true = err (from_crate e)
finish _ false = panic

module _ (p : Protobuf) where
  -- The macro `decode!`.
  unfoldable pub decode_body : (M : Type 0) → Rd M → Bytes → Outcome IoError M
  decode_body M from_reader buf =
      let (res, reader) = from_reader buf in finish res (p.is_eof reader)

  -- The macro `decoded!`.
  abbrev decoded : (M : Type 0) → Rd M → Bytes → (M → RawMessage) → Outcome IoError RawMessage
  decoded M from_reader buf var = decode_body M from_reader buf >>= λ x. ok (var x)

  -- The arms of the `match` on the discriminator.
  decoders : Bytes → List (ℕ × Outcome IoError RawMessage)
  decoders buf =
      (0x01, ok heartbeat_request)
      ∷ (0x02, ok heartbeat_response)
      ∷ (0x03, ok ping)
      ∷ (0x04, ok pong)
      ∷ (0x82, decoded WriteEvents (WriteEvents.from_reader p) buf write_events)
      ∷ (
        0x83,
        decoded WriteEventsCompleted (WriteEventsCompleted.from_reader p) buf
            write_events_completed,
      )
      ∷ (0x8a, decoded DeleteStream (DeleteStream.from_reader p) buf delete_stream)
      ∷ (
        0x8b,
        decoded DeleteStreamCompleted (DeleteStreamCompleted.from_reader p) buf
            delete_stream_completed,
      )
      ∷ (0xb0, decoded ReadEvent (ReadEvent.from_reader p) buf read_event)
      ∷ (
        0xb1,
        decoded ReadEventCompleted (ReadEventCompleted.from_reader p) buf read_event_completed,
      )
      ∷ (
        0xb2,
        decoded ReadStreamEvents (ReadStreamEvents.from_reader p) buf (read_stream_events forward),
      )
      ∷ (
        0xb3,
        decoded ReadStreamEventsCompleted (ReadStreamEventsCompleted.from_reader p) buf
            (read_stream_events_completed forward),
      )
      ∷ (
        0xb4,
        decoded ReadStreamEvents (ReadStreamEvents.from_reader p) buf (read_stream_events backward),
      )
      ∷ (
        0xb5,
        decoded ReadStreamEventsCompleted (ReadStreamEventsCompleted.from_reader p) buf
            (read_stream_events_completed backward),
      )
      ∷ (0xb6, decoded ReadAllEvents (ReadAllEvents.from_reader p) buf (read_all_events forward))
      ∷ (
        0xb7,
        decoded ReadAllEventsCompleted (ReadAllEventsCompleted.from_reader p) buf
            (read_all_events_completed forward),
      )
      ∷ (0xb8, decoded ReadAllEvents (ReadAllEvents.from_reader p) buf (read_all_events backward))
      ∷ (
        0xb9,
        decoded ReadAllEventsCompleted (ReadAllEventsCompleted.from_reader p) buf
            (read_all_events_completed backward),
      )
      ∷ (0xf0, ok (bad_request buf))
      ∷ (0xf1, decoded NotHandled (NotHandled.from_reader p) buf not_handled)
      ∷ (0xf2, ok authenticate)
      ∷ (0xf3, ok authenticated)
      ∷ (0xf4, ok (not_authenticated buf))
      ∷ []

  unfoldable pub decode : ℕ → Bytes → Outcome IoError RawMessage
  unfolding decoders
  decode discriminator buf =
      match_tag discriminator (decoders buf) (ok (unsupported discriminator buf))

  -- A writer on memory does not fail, so what is encoded is the bytes that are written.
  unfoldable pub encode : RawMessage → Bytes
  encode heartbeat_request = []
  encode heartbeat_response = []
  encode ping = []
  encode pong = []
  encode authenticate = []
  encode authenticated = []
  encode (write_events x) = WriteEvents.write_message p x
  encode (write_events_completed x) = WriteEventsCompleted.write_message p x
  encode (delete_stream x) = DeleteStream.write_message p x
  encode (delete_stream_completed x) = DeleteStreamCompleted.write_message p x
  encode (read_event x) = ReadEvent.write_message p x
  encode (read_event_completed x) = ReadEventCompleted.write_message p x
  encode (read_stream_events dir x) = ReadStreamEvents.write_message p x
  encode (read_stream_events_completed dir x) = ReadStreamEventsCompleted.write_message p x
  encode (read_all_events dir x) = ReadAllEvents.write_message p x
  encode (read_all_events_completed dir x) = ReadAllEventsCompleted.write_message p x
  encode (bad_request x) = x
  encode (not_handled x) = NotHandled.write_message p x
  encode (not_authenticated x) = x
  encode (unsupported d x) = x

unfoldable pub discriminator : RawMessage → ℕ
discriminator heartbeat_request = 0x01
discriminator heartbeat_response = 0x02
discriminator ping = 0x03
discriminator pong = 0x04
discriminator (write_events x) = 0x82
discriminator (write_events_completed x) = 0x83
discriminator (delete_stream x) = 0x8a
discriminator (delete_stream_completed x) = 0x8b
discriminator (read_event x) = 0xb0
discriminator (read_event_completed x) = 0xb1
discriminator (read_stream_events forward x) = 0xb2
discriminator (read_stream_events_completed forward x) = 0xb3
discriminator (read_stream_events backward x) = 0xb4
discriminator (read_stream_events_completed backward x) = 0xb5
discriminator (read_all_events forward x) = 0xb6
discriminator (read_all_events_completed forward x) = 0xb7
discriminator (read_all_events backward x) = 0xb8
discriminator (read_all_events_completed backward x) = 0xb9
discriminator (bad_request x) = 0xf0
discriminator (not_handled x) = 0xf1
discriminator authenticate = 0xf2
discriminator authenticated = 0xf3
discriminator (not_authenticated x) = 0xf4
discriminator (unsupported d x) = d
