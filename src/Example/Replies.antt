-- ===== src/Example/Replies.antt =====
-- The theorems on adapted messages, at concrete replies.
use eventstore_tcp.Prelude.{true, false, none, some, ok, err, [], ◌∷◌, ◌≡◌, refl, arith}
use eventstore_tcp.Prelude.Int.{pos, negsuc, as_u32}
use eventstore_tcp.Errors.{ErrorKind, invalid_stream_version, unsupported_discriminator}
use eventstore_tcp.Version.{EventNumber, try_from_i32}
use eventstore_tcp.Position.{from_i64_opt}
use eventstore_tcp.Raw.{forward, backward, RawMessage}
use eventstore_tcp.Message.Enums.{ReadAllResult, ReadStreamResult}
use eventstore_tcp.Message.ReadStreamEventsCompleted.{ReadStreamEventsCompleted}
use eventstore_tcp.Message.ReadAllEventsCompleted.{ReadAllEventsCompleted}
use eventstore_tcp.Adapted.Keeps.{success}
use eventstore_tcp.Adapted.Event.{no_event}
use eventstore_tcp.Adapted.Stream
use eventstore_tcp.Adapted.Stream.{ReadStreamCompleted}
use eventstore_tcp.Adapted.Stream.Laws.{
  IsPage, try_from-completed_as_raw_page, try_from-IsPage, try_from-error_as_raw,
}
use eventstore_tcp.Adapted.All
use eventstore_tcp.Adapted.All.{ReadAllCompleted}
use eventstore_tcp.Adapted.All.Laws.{AllConverted, try_from_total}
use eventstore_tcp.Adapted.Convert
use eventstore_tcp.Adapted.Convert.{AdaptedMessage, Rejected}
use eventstore_tcp.Adapted.Convert.Laws.{try_from-as_raw_message, try_from_rebuilds}

abbrev page : ReadStreamCompleted
page = record {
  events = no_event ∷ [];
  next_page = some (EventNumber.exact (record { value = 4 }));
  last_event_number = record { value = 3 };
  end_of_stream = false;
  last_commit_position = pos 100;
}

page-IsPage : IsPage forward page
page-IsPage = record { next = omega arith; last = omega arith }

try_from-completed_as_raw_page_example :
    Stream.try_from forward (Stream.completed_as_raw page) ≡ ok (success page)
try_from-completed_as_raw_page_example = try_from-completed_as_raw_page forward page page-IsPage

abbrev raw_page : ReadStreamEventsCompleted
raw_page = record {
  events = no_event ∷ [];
  result = some ReadStreamResult.success;
  next_event_number = pos 4;
  last_event_number = pos 3;
  is_end_of_stream = false;
  last_commit_position = pos 100;
  error = none;
}

raw_page_read : Stream.try_from forward raw_page ≡ ok (success page)
unfolding Stream.try_from Stream.next_page_of try_from_i32 as_u32
raw_page_read = refl

try_from-IsPage_example : IsPage forward page
try_from-IsPage_example =
    try_from-IsPage forward raw_page page (omega arith) (omega arith) raw_page_read

try_from-error_as_raw_example :
    Stream.try_from backward (Stream.error_as_raw Stream.no_stream)
    ≡ err ((backward, Stream.error_as_raw Stream.no_stream), invalid_stream_version (negsuc 0))
try_from-error_as_raw_example = try_from-error_as_raw backward Stream.no_stream

abbrev all_page : ReadAllEventsCompleted
all_page = record {
  commit_position = pos 9;
  prepare_position = negsuc 0;
  events =
      record {
        event = no_event.event;
        link = none;
        commit_position = pos 9;
        prepare_position = pos 8;
      }
      ∷ [];
  next_commit_position = negsuc 5;
  next_prepare_position = pos 12;
  result = ReadAllResult.success;
  error = none;
}

try_from_total_example :
    (x : ReadAllCompleted) × (All.try_from {E = ErrorKind} all_page ≡ ok (success x))
    × AllConverted all_page.events x.events
    × (from_i64_opt (pos 9) ≡ some x.commit_position)
    × (from_i64_opt (negsuc 0) ≡ some x.prepare_position)
    × (x.next_commit_position ≡ from_i64_opt (negsuc 5))
    × (x.next_prepare_position ≡ from_i64_opt (pos 12))
try_from_total_example = try_from_total all_page refl refl refl ((refl, refl), tt)

abbrev notice : AdaptedMessage
notice = AdaptedMessage.read_stream_events_completed forward (success page)

try_from-as_raw_message_example :
    (raw : RawMessage) × (Convert.as_raw {E = Rejected} true notice ≡ ok raw)
    × (Convert.try_from true raw ≡ ok notice)
try_from-as_raw_message_example = try_from-as_raw_message true notice page-IsPage

abbrev odd : RawMessage
odd = RawMessage.unsupported 200 (1 ∷ [])

odd_refused : Convert.try_from true odd ≡ err (odd, unsupported_discriminator 200)
unfolding Convert.try_from
odd_refused = refl

try_from_rebuilds_example : odd ≡ odd
try_from_rebuilds_example =
    try_from_rebuilds true odd odd (unsupported_discriminator 200) odd_refused
