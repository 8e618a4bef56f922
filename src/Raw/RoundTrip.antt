-- ===== src/Raw/RoundTrip.antt =====
-- Decoding behind encoding, for `RawMessage` of src/raw/mod.rs.
use eventstore_tcp.Prelude.{ℕ, false, Bytes, List, [], ◌∷◌, ok, ◌≡◌, refl, ◌==◌, All}
use eventstore_tcp.Protobuf.{Rd, Protobuf, match_tag}
use eventstore_tcp.Protobuf.Laws.{IsProtobuf}
use eventstore_tcp.Raw.{
  RawMessage, heartbeat_request, heartbeat_response, ping, pong, write_events,
  write_events_completed, delete_stream, delete_stream_completed, read_event, read_event_completed,
  read_stream_events, read_stream_events_completed, read_all_events, read_all_events_completed,
  bad_request, not_handled, authenticate, authenticated, not_authenticated, unsupported, forward,
  backward, decode_body, decoders, decode, encode, discriminator,
}
use eventstore_tcp.Raw.Validity.{IsValid}
use eventstore_tcp.Message.WriteEvents
use eventstore_tcp.Message.WriteEvents.{WriteEvents}
use eventstore_tcp.Message.WriteEventsCompleted
use eventstore_tcp.Message.WriteEventsCompleted.{WriteEventsCompleted}
use eventstore_tcp.Message.DeleteStream
use eventstore_tcp.Message.DeleteStream.{DeleteStream}
use eventstore_tcp.Message.DeleteStreamCompleted
use eventstore_tcp.Message.DeleteStreamCompleted.{DeleteStreamCompleted}
use eventstore_tcp.Message.ReadEvent
use eventstore_tcp.Message.ReadEvent.{ReadEvent}
use eventstore_tcp.Message.ReadEventCompleted
use eventstore_tcp.Message.ReadEventCompleted.{ReadEventCompleted}
use eventstore_tcp.Message.ReadStreamEvents
use eventstore_tcp.Message.ReadStreamEvents.{ReadStreamEvents}
use eventstore_tcp.Message.ReadStreamEventsCompleted
use eventstore_tcp.Message.ReadStreamEventsCompleted.{ReadStreamEventsCompleted}
use eventstore_tcp.Message.ReadAllEvents
use eventstore_tcp.Message.ReadAllEvents.{ReadAllEvents}
use eventstore_tcp.Message.ReadAllEventsCompleted
use eventstore_tcp.Message.ReadAllEventsCompleted.{ReadAllEventsCompleted}
use eventstore_tcp.Message.NotHandled
use eventstore_tcp.Message.NotHandled.{NotHandled}

match_tag_none :
    {A : Type 0} (t : ℕ) (arms : List (ℕ × A)) (other : A)
    → All (λ arm. (t == arm.0) ≡ false) arms
    → match_tag t arms other ≡ other
match_tag_none t [] other h = refl
match_tag_none t ((k, arm) ∷ arms) other h = rw h.0 (match_tag_none t arms other h.1)

module _ {p : Protobuf} (q : IsProtobuf p) where
  decode_body_ok :
      (M : Type 0) (rd : Rd M) (s : Bytes) (x : M) → rd s ≡ (ok x, []) → decode_body p M rd s ≡ ok x
  unfolding decode_body
  decode_body_ok M rd s x h = rw (h, q.eof_nil)

  -- A valid raw message is decoded from its discriminator and the bytes that it is encoded to.
  pub decode-encode_raw :
      (m : RawMessage) → IsValid p m → decode p (discriminator m) (encode p m) ≡ ok m
  unfolding decode encode discriminator
  decode-encode_raw heartbeat_request h = refl
  decode-encode_raw heartbeat_response h = refl
  decode-encode_raw ping h = refl
  decode-encode_raw pong h = refl
  decode-encode_raw authenticate h = refl
  decode-encode_raw authenticated h = refl
  decode-encode_raw (write_events x) h = rw (
      decode_body_ok WriteEvents (WriteEvents.from_reader p) (WriteEvents.write_message p x) x
        (WriteEvents.from_reader-write_message q x h))
  decode-encode_raw (write_events_completed x) h = rw (
      decode_body_ok WriteEventsCompleted (WriteEventsCompleted.from_reader p)
        (WriteEventsCompleted.write_message p x) x
        (WriteEventsCompleted.from_reader-write_message q x h))
  decode-encode_raw (delete_stream x) h = rw (
      decode_body_ok DeleteStream (DeleteStream.from_reader p) (DeleteStream.write_message p x) x
        (DeleteStream.from_reader-write_message q x h))
  decode-encode_raw (delete_stream_completed x) h = rw (
      decode_body_ok DeleteStreamCompleted (DeleteStreamCompleted.from_reader p)
        (DeleteStreamCompleted.write_message p x) x
        (DeleteStreamCompleted.from_reader-write_message q x h))
  decode-encode_raw (read_event x) h = rw (
      decode_body_ok ReadEvent (ReadEvent.from_reader p) (ReadEvent.write_message p x) x
        (ReadEvent.from_reader-write_message q x h))
  decode-encode_raw (read_event_completed x) h = rw (
      decode_body_ok ReadEventCompleted (ReadEventCompleted.from_reader p)
        (ReadEventCompleted.write_message p x) x
        (ReadEventCompleted.from_reader-write_message q x h))
  decode-encode_raw (read_stream_events forward x) h = rw (
      decode_body_ok ReadStreamEvents (ReadStreamEvents.from_reader p)
        (ReadStreamEvents.write_message p x) x (ReadStreamEvents.from_reader-write_message q x h))
  decode-encode_raw (read_stream_events backward x) h = rw (
      decode_body_ok ReadStreamEvents (ReadStreamEvents.from_reader p)
        (ReadStreamEvents.write_message p x) x (ReadStreamEvents.from_reader-write_message q x h))
  decode-encode_raw (read_stream_events_completed forward x) h = rw (
      decode_body_ok ReadStreamEventsCompleted (ReadStreamEventsCompleted.from_reader p)
        (ReadStreamEventsCompleted.write_message p x) x
        (ReadStreamEventsCompleted.from_reader-write_message q x h))
  decode-encode_raw (read_stream_events_completed backward x) h = rw (
      decode_body_ok ReadStreamEventsCompleted (ReadStreamEventsCompleted.from_reader p)
        (ReadStreamEventsCompleted.write_message p x) x
        (ReadStreamEventsCompleted.from_reader-write_message q x h))
  decode-encode_raw (read_all_events forward x) h = rw (
      decode_body_ok ReadAllEvents (ReadAllEvents.from_reader p) (ReadAllEvents.write_message p x) x
        (ReadAllEvents.from_reader-write_message q x h))
  decode-encode_raw (read_all_events backward x) h = rw (
      decode_body_ok ReadAllEvents (ReadAllEvents.from_reader p) (ReadAllEvents.write_message p x) x
        (ReadAllEvents.from_reader-write_message q x h))
  decode-encode_raw (read_all_events_completed forward x) h = rw (
      decode_body_ok ReadAllEventsCompleted (ReadAllEventsCompleted.from_reader p)
        (ReadAllEventsCompleted.write_message p x) x
        (ReadAllEventsCompleted.from_reader-write_message q x h))
  decode-encode_raw (read_all_events_completed backward x) h = rw (
      decode_body_ok ReadAllEventsCompleted (ReadAllEventsCompleted.from_reader p)
        (ReadAllEventsCompleted.write_message p x) x
        (ReadAllEventsCompleted.from_reader-write_message q x h))
  decode-encode_raw (bad_request x) h = refl
  decode-encode_raw (not_handled x) h = rw (
      decode_body_ok NotHandled (NotHandled.from_reader p) (NotHandled.write_message p x) x
        (NotHandled.from_reader-write_message q x h))
  decode-encode_raw (not_authenticated x) h = refl
  decode-encode_raw (unsupported d x) h = match_tag_none d (decoders p x) (ok (unsupported d x)) h
