-- ===== src/Example/Commands.antt =====
-- The theorems on builders that are used again, and on the commands of the command line client.
use eventstore_tcp.Prelude.{
  ◌++◌, true, false, none, some, ok, panic, [], ◌∷◌, ◌<◌, ◌^◌, ◌≡◌, refl, arith, utf8_valid,
}
use eventstore_tcp.Prelude.Int.{pos, negsuc, as_u64}
use eventstore_tcp.Errors.{ErrorKind}
use eventstore_tcp.Version.{expected_version_to_i32, content_type_to_i32}
use eventstore_tcp.Position.{LogPosition, into_i64}
use eventstore_tcp.Message.NewEvent
use eventstore_tcp.Message.NewEvent.{NewEvent}
use eventstore_tcp.Raw.{RawMessage, ReadDirection, read_all_events, write_events}
use eventstore_tcp.Raw.Validity
use eventstore_tcp.Builder.Package
use eventstore_tcp.Builder.WriteEvents
use eventstore_tcp.Builder.WriteEvents.{WriteEventsBuilder, NewEventBuilder}
use eventstore_tcp.Builder.WriteEvents.Session.{
  Reach, here, next, building, stream_id, begin, event_data, event_type, finish,
}
use eventstore_tcp.Builder.WriteEvents.Calls.{calls, request_asked}
use eventstore_tcp.Builder.WriteEvents.Asked.{session_message-asked}
use eventstore_tcp.Builder.ReadAll
use eventstore_tcp.Builder.ReadAll.{ReadAllEventsBuilder}
use eventstore_tcp.Builder.Reuse.{read_all_keeps}
use eventstore_tcp.Example.Wire.{wire}
use eventstore_tcp.Example.Kit.{kit, kit-IsCrates, Id16}
use eventstore_tcp.Example.Sample.{id}

abbrev named : WriteEventsBuilder
named = record (WriteEvents.new) { event_stream_id = some (115 ∷ []) }

abbrev event : NewEvent
event = record {
  event_id = kit.as_bytes id;
  event_type = 116 ∷ [];
  data_content_type = pos 0;
  metadata_content_type = pos 0;
  data_bytes = 1 ∷ 2 ∷ [];
  metadata = none;
}

abbrev with_event : WriteEventsBuilder → WriteEventsBuilder
with_event b = record b { events = b.events ++ (event ∷ []) }

abbrev filled : WriteEventsBuilder
filled = with_event (with_event named)

abbrev begun : WriteEventsBuilder → NewEventBuilder Id16
begun b =
    WriteEvents.set_event_type (116 ∷ [])
      (WriteEvents.set_data (1 ∷ 2 ∷ []) (WriteEvents.new_event b))

named_set : WriteEvents.set_stream_id {E = ErrorKind} (115 ∷ []) WriteEvents.new ≡ ok named
unfolding WriteEvents.set_stream_id Package.checked_id
named_set = refl

event_made :
    (b : WriteEventsBuilder) → WriteEvents.event_of kit {E = ErrorKind} id (begun b) ≡ ok event
unfolding WriteEvents.event_of WriteEvents.set_event_type WriteEvents.set_data WriteEvents.new_event
    content_type_to_i32
event_made b = refl

event_done :
    (b : WriteEventsBuilder) → WriteEvents.done kit {E = ErrorKind} id (begun b) ≡ ok (with_event b)
unfolding WriteEvents.done WriteEvents.event_of WriteEvents.push_event WriteEvents.set_event_type
    WriteEvents.set_data WriteEvents.new_event content_type_to_i32
event_done b = refl

event_small : NewEvent.get_size wire event < 2 ^ 31
unfolding NewEvent.get_size as_u64
event_small = omega arith

-- An event more.
add_event :
    (b : WriteEventsBuilder)
    → Reach kit wire ErrorKind (building WriteEvents.new) (building b)
    → Reach kit wire ErrorKind (building WriteEvents.new) (building (with_event b))
unfolding utf8_valid
add_event b r =
    next
      (next
        (next (next r (begin b)) (event_data (WriteEvents.new_event b) (1 ∷ 2 ∷ []) (omega arith)))
        (event_type (WriteEvents.set_data (1 ∷ 2 ∷ []) (WriteEvents.new_event b)) (116 ∷ [])
          (refl, omega arith)))
      (finish (begun b) id event (with_event b) (event_made b) event_small (event_done b))

-- A stream and two events.
session : Reach kit wire ErrorKind (building WriteEvents.new) (building filled)
unfolding utf8_valid
session = add_event (with_event named) (
    add_event named
      (next here (stream_id WriteEvents.new named (115 ∷ []) (refl, omega arith) named_set)))

abbrev write_request : RawMessage
write_request = write_events (record {
  event_stream_id = 115 ∷ [];
  expected_version = negsuc 1;
  events = event ∷ event ∷ [];
  require_master = false;
})

write_built : WriteEvents.build_message {E = ErrorKind} filled ≡ ok (write_request, WriteEvents.new)
unfolding WriteEvents.build_message WriteEvents.build_command expected_version_to_i32
write_built = refl

session_message-asked_example :
    (write_request ≡ write_events (request_asked kit (calls kit session)))
    × Validity.IsValid wire write_request
session_message-asked_example =
    session_message-asked kit-IsCrates wire filled WriteEvents.new write_request session write_built

abbrev reading_all : ReadAllEventsBuilder
reading_all = record {
  direction = some ReadDirection.forward;
  commit_position = some LogPosition.first;
  prepare_position = some LogPosition.first;
  max_count = some 2;
  resolve_link_tos = none;
  require_master = none;
}

abbrev all_left : ReadAllEventsBuilder
all_left = record reading_all { direction = none }

abbrev all_request : RawMessage
all_request = read_all_events ReadDirection.forward (record {
  commit_position = pos 0;
  prepare_position = pos 0;
  max_count = pos 2;
  resolve_link_tos = true;
  require_master = true;
})

all_built : ReadAll.build_message {E = ErrorKind} reading_all ≡ ok (all_request, all_left)
unfolding ReadAll.build_message into_i64
all_built = refl

read_all_keeps_example :
    (ReadAll.build_message {E = ErrorKind} all_left ≡ panic)
    × (ReadAll.build_message {E = ErrorKind} (ReadAll.set_direction ReadDirection.backward all_left)
        ≡ ReadAll.build_message (ReadAll.set_direction ReadDirection.backward reading_all))
read_all_keeps_example =
    read_all_keeps reading_all all_left all_request ReadDirection.backward all_built
