-- ===== src/Example/CommandLines.antt =====
-- The theorems on the command line client, at a read of all events, a write and a printed event.
use eventstore_tcp.Prelude.{
  true, false, Bytes, none, some, ok, [], ◌∷◌, ◌++◌, ◌<◌, ◌^◌, ◌≡◌, refl, arith, utf8_valid,
}
use eventstore_tcp.Prelude.Int.{pos, negsuc, as_u64}
use eventstore_tcp.Errors.{ErrorKind}
use eventstore_tcp.Version.{any}
use eventstore_tcp.Position.{into_i64}
use eventstore_tcp.Message.NewEvent.{NewEvent}
use eventstore_tcp.Message.EventRecord.{EventRecord}
use eventstore_tcp.Protobuf.Laws.{IsText}
use eventstore_tcp.Raw.{ReadDirection, read_all_events, write_events}
use eventstore_tcp.Raw
use eventstore_tcp.Auth
use eventstore_tcp.Message.ReadAllEvents
use eventstore_tcp.Codec.{encode, decode}
use eventstore_tcp.Codec.Frame.{frame, body, header}
use eventstore_tcp.Testclient.Arrival.{read_command_arrives}
use eventstore_tcp.Prelude.{◌+◌, ◌≤◌, IsUtf8, length}
use eventstore_tcp.Example.Wire.{wire-IsProtobuf}
use eventstore_tcp.Example.Sample.{empty_buffer}
use eventstore_tcp.Example.Kit.{Buffer}
use eventstore_tcp.Testclient.Prepare.{env_credentials}
use eventstore_tcp.Codec.{Package}
use eventstore_tcp.Builder.Package
use eventstore_tcp.Builder.WriteEvents
use eventstore_tcp.Builder.WriteEvents.{WriteEventsBuilder}
use eventstore_tcp.Builder.ReadAll
use eventstore_tcp.Testclient.Parse.{eq_str, parse_unsigned}
use eventstore_tcp.Testclient.Read.{
  ReadMode, forward_once, Position, position_of, into_request, all_events, into_log_position,
  all_stream, direction_of,
}
use eventstore_tcp.Testclient.Output.{debug, hex, Printing, Written, format_event}
use eventstore_tcp.Testclient.Prepare.{
  ReadArgs, Read, prepare_read, count_of, mode_of, position_or_first, output_or_debug, WriteArgs,
}
use eventstore_tcp.Testclient.Commands.{Config, read_request}
use eventstore_tcp.Testclient.Accepts.{Answers, into_request-Answers}
use eventstore_tcp.Testclient.Names.{Names}
use eventstore_tcp.Testclient.Replies.{unhex, unhex-format_event}
use eventstore_tcp.Example.Wire.{wire}
use eventstore_tcp.Example.Kit.{kit, kit-IsCrates, Id16}
use eventstore_tcp.Example.Sample.{id}

into_request-Answers_example :
    Answers true 0xb8 id none
      (into_request {E = ErrorKind} id (ReadMode.backward Position.last 2) all_stream none)
unfolding eq_str
into_request-Answers_example =
    into_request-Answers id none (ReadMode.backward Position.last 2) all_stream

abbrev config : Config
config = record { credentials = none; verbose = false }

-- read '$all' -c 2
abbrev read_args : ReadArgs
read_args = record {
  stream_id = some all_stream;
  count = some (50 ∷ []);
  position = none;
  mode = none;
  output = none;
}

abbrev prepared : Read
prepared = record {
  stream_id = all_stream;
  read_mode = some (forward_once Position.first 2);
  output_mode = some debug;
}

read_prepared : prepare_read {E = ErrorKind} read_args ≡ ok prepared
unfolding prepare_read count_of position_or_first position_of mode_of output_or_debug eq_str
    parse_unsigned
read_prepared = refl

abbrev sent : Package Id16
sent = record {
  authentication = none;
  correlation_id = id;
  message = read_all_events ReadDirection.forward (record {
    commit_position = pos 0;
    prepare_position = pos 0;
    max_count = pos 2;
    resolve_link_tos = true;
    require_master = true;
  });
}

abbrev taken : Read
taken = record { stream_id = all_stream; read_mode = none; output_mode = none }

read_sent : read_request {E = ErrorKind} id config prepared ≡ ok (sent, debug, taken)
unfolding read_request into_request all_events into_log_position direction_of eq_str
    ReadAll.set_direction ReadAll.set_positions ReadAll.set_max_count ReadAll.build_package
    ReadAll.build_message Package.build_package Package.checked_count into_i64
read_sent = refl

name_IsText : IsText all_stream
unfolding utf8_valid
name_IsText = (refl, omega arith)

-- ES_USERNAME=ab ES_PASSWORD=cd
abbrev with_credentials : Config
with_credentials = record {
  credentials = some (record { username = 97 ∷ 98 ∷ []; password = 99 ∷ 100 ∷ [] });
  verbose = false;
}

from_environment :
    env_credentials {E = ErrorKind} (some (97 ∷ 98 ∷ [])) (some (99 ∷ 100 ∷ []))
    ≡ ok with_credentials.credentials
unfolding env_credentials Auth.new
from_environment = refl

abbrev sent_with : Package Id16
sent_with = record sent { authentication = with_credentials.credentials }

read_sent_with :
    read_request {E = ErrorKind} id with_credentials prepared ≡ ok (sent_with, debug, taken)
unfolding read_request into_request all_events into_log_position direction_of eq_str
    ReadAll.set_direction ReadAll.set_positions ReadAll.set_max_count ReadAll.build_package
    ReadAll.build_message Package.build_package Package.checked_count into_i64
read_sent_with = refl

user_texts : IsUtf8 (97 ∷ 98 ∷ []) × IsUtf8 (99 ∷ 100 ∷ [])
unfolding utf8_valid
user_texts = (refl, refl)

sent_size : 4 + length (body kit wire sent_with) < 2 ^ 32
unfolding body header Raw.encode Raw.discriminator Auth.encode ReadAllEvents.write_message as_u64
sent_size = omega arith

sent_room : length (frame kit wire sent_with) ≤ 100
unfolding frame body header Raw.encode Raw.discriminator Auth.encode ReadAllEvents.write_message
    as_u64
sent_room = omega arith

read_command_arrives_example :
    (sent_with.authentication ≡ with_credentials.credentials)
    × (full drained : Buffer) × (encode kit wire true sent_with empty_buffer ≡ ok full)
    × (decode kit wire full ≡ (ok (some sent_with), drained))
    × (kit.view drained ≡ [])
read_command_arrives_example =
    read_command_arrives kit-IsCrates wire-IsProtobuf true id (some (97 ∷ 98 ∷ []))
      (some (99 ∷ 100 ∷ [])) with_credentials read_args prepared taken sent_with debug empty_buffer
      user_texts.0 user_texts.1 name_IsText from_environment read_prepared read_sent_with sent_size
      refl sent_room

-- write s any t d --json, with the metadata m
abbrev write_args : WriteArgs
write_args = record {
  stream_id = some (115 ∷ []);
  expected_version = some (97 ∷ 110 ∷ 121 ∷ []);
  event_type = some (116 ∷ []);
  event_data = some (100 ∷ []);
  metadata = some (109 ∷ []);
  as_json = true;
  require_master = false;
}

abbrev event : NewEvent
event = record {
  event_id = kit.as_bytes id;
  event_type = 116 ∷ [];
  data_content_type = pos 1;
  metadata_content_type = pos 1;
  data_bytes = 100 ∷ [];
  metadata = some (109 ∷ []);
}

abbrev write_builder : WriteEventsBuilder
write_builder = record {
  event_stream_id = some (115 ∷ []);
  expected_version = some any;
  require_master = some false;
  events = event ∷ [];
}

abbrev written : Package Id16
written = record {
  authentication = none;
  correlation_id = id;
  message = write_events (record {
    event_stream_id = 115 ∷ [];
    expected_version = negsuc 1;
    events = event ∷ [];
    require_master = false;
  });
}

-- Texts of no length for all that is a parameter.
abbrev printing : Printing (Unit {0}) (Unit {0})
printing = record {
  parse = λ s. ok tt;
  new_object = tt;
  string_value = λ s. tt;
  object = λ d m. tt;
  write = λ v. [];
  event_text = λ v x. [];
  message_text = λ v x. [];
  failure_text = λ v x. [];
  number_text = λ i. [];
  parsing_text = λ e. [];
}

abbrev printed : EventRecord
printed = record {
  event_stream_id = 115 ∷ [];
  event_number = pos 0;
  event_id = [];
  event_type = 116 ∷ [];
  data_content_type = pos 0;
  metadata_content_type = pos 0;
  data_bytes = 171 ∷ 7 ∷ [];
  metadata = none;
  created = none;
  created_epoch = none;
}

abbrev blank : Written
blank = record { out = []; err_out = [] }

unhex-format_event_example :
    (line : Bytes) × (format_event printing hex false printed blank
      ≡ record blank { out = line ++ (10 ∷ []) })
    × (unhex line ≡ 171 ∷ 7 ∷ [])
unhex-format_event_example =
    unhex-format_event printing false printed blank refl (omega arith, (omega arith, tt))
