-- ===== src/Raw/Validity.antt =====
-- When a raw message can be sent and read back: its body is valid, and an unsupported message does
-- not carry a discriminator of the protocol.
use eventstore_tcp.Prelude.{ℕ, false, List, [], ◌∷◌, ◌≡◌, ◌==◌, All}
use eventstore_tcp.Protobuf.{Protobuf}
use eventstore_tcp.Raw.{
  RawMessage, write_events, write_events_completed, delete_stream, delete_stream_completed,
  read_event, read_event_completed, read_stream_events, read_stream_events_completed,
  read_all_events, read_all_events_completed, not_handled, unsupported,
}
use eventstore_tcp.Message.WriteEvents
use eventstore_tcp.Message.WriteEventsCompleted
use eventstore_tcp.Message.DeleteStream
use eventstore_tcp.Message.DeleteStreamCompleted
use eventstore_tcp.Message.ReadEvent
use eventstore_tcp.Message.ReadEventCompleted
use eventstore_tcp.Message.ReadStreamEvents
use eventstore_tcp.Message.ReadStreamEventsCompleted
use eventstore_tcp.Message.ReadAllEvents
use eventstore_tcp.Message.ReadAllEventsCompleted
use eventstore_tcp.Message.NotHandled

-- The discriminators of the protocol that the code knows.
abbrev pub known : List ℕ
known =
    0x01 ∷ 0x02 ∷ 0x03 ∷ 0x04 ∷ 0x82 ∷ 0x83 ∷ 0x8a ∷ 0x8b ∷ 0xb0 ∷ 0xb1 ∷ 0xb2 ∷ 0xb3 ∷ 0xb4 ∷ 0xb5
    ∷ 0xb6 ∷ 0xb7 ∷ 0xb8 ∷ 0xb9 ∷ 0xf0 ∷ 0xf1 ∷ 0xf2 ∷ 0xf3 ∷ 0xf4 ∷ []

abbrev pub IsUnknown : ℕ → Type 0
IsUnknown d = All (λ k. (d == k) ≡ false) known

module _ (p : Protobuf) where
  abbrev pub IsValid : RawMessage → Type 0
  IsValid (write_events x) = WriteEvents.IsValid p x
  IsValid (write_events_completed x) = WriteEventsCompleted.IsValid p x
  IsValid (delete_stream x) = DeleteStream.IsValid p x
  IsValid (delete_stream_completed x) = DeleteStreamCompleted.IsValid p x
  IsValid (read_event x) = ReadEvent.IsValid p x
  IsValid (read_event_completed x) = ReadEventCompleted.IsValid p x
  IsValid (read_stream_events dir x) = ReadStreamEvents.IsValid p x
  IsValid (read_stream_events_completed dir x) = ReadStreamEventsCompleted.IsValid p x
  IsValid (read_all_events dir x) = ReadAllEvents.IsValid p x
  IsValid (read_all_events_completed dir x) = ReadAllEventsCompleted.IsValid p x
  IsValid (not_handled x) = NotHandled.IsValid p x
  IsValid (unsupported d x) = IsUnknown d
  IsValid _ = Unit
