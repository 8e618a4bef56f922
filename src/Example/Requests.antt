-- ===== src/Example/Requests.antt =====
-- The theorems on builders, at a request for the first events of a stream.
use eventstore_tcp.Prelude.{true, false, some, ok, panic, [], ◌∷◌, ◌≡◌, refl}
use eventstore_tcp.Prelude.Int.{pos}
use eventstore_tcp.Errors.{ErrorKind}
use eventstore_tcp.Version.{EventNumber, event_number_to_i32}
use eventstore_tcp.Raw.{ReadDirection, RawMessage, read_stream_events, forward}
use eventstore_tcp.Builder.ReadStream.{
  ReadStreamEventsBuilder, new, build_command, build_message, set_stream_id, set_from_event_number,
}
use eventstore_tcp.Builder.Package.{checked_id}
use eventstore_tcp.Message.ReadStreamEvents.{ReadStreamEvents}
use eventstore_tcp.Builder.Laws.{build_message_twice}

abbrev filled : ReadStreamEventsBuilder
filled = record new {
  direction = some forward;
  event_stream_id = some (115 ∷ []);
  from_event_number = some EventNumber.first;
}

abbrev left : ReadStreamEventsBuilder
left = record new { direction = some forward }

abbrev message : RawMessage
message = read_stream_events forward (record {
  event_stream_id = 115 ∷ [];
  from_event_number = pos 0;
  max_count = pos 10;
  resolve_link_tos = true;
  require_master = false;
})

message_built : build_message {E = ErrorKind} filled ≡ ok (message, left)
unfolding build_message build_command event_number_to_i32
message_built = refl

-- The name is set again, but not the first event.
abbrev named_again : ReadStreamEventsBuilder
named_again = record left { event_stream_id = some (116 ∷ []) }

set_again : set_stream_id {E = ErrorKind} (116 ∷ []) left ≡ ok named_again
unfolding set_stream_id checked_id
set_again = refl

build_message_twice_example :
    (build_message {E = ErrorKind} left ≡ panic)
    × (build_message {E = ErrorKind} named_again ≡ panic)
    × (build_message {E = ErrorKind} (set_from_event_number EventNumber.last left) ≡ panic)
    × (dir : ReadDirection) × (cmd : ReadStreamEvents) × (message ≡ read_stream_events dir cmd)
    × (build_message {E = ErrorKind} (set_from_event_number EventNumber.last named_again)
        ≡ ok (
          read_stream_events dir (record cmd {
            event_stream_id = 116 ∷ [];
            from_event_number = event_number_to_i32 EventNumber.last;
          }),
          left,
        ))
build_message_twice_example =
    build_message_twice filled left named_again message (116 ∷ []) EventNumber.last message_built
      set_again
