-- ===== src/Builder/ReadStream.antt =====
-- `ReadStreamEventsBuilder` of src/builder.rs.
use eventstore_tcp.Prelude.{
  ℕ, Bool, true, false, Str, Option, none, some, Outcome, ok, ◌>>=◌, unwrap, unwrap_or,
}
use eventstore_tcp.Prelude.Int.{pos}
use eventstore_tcp.Version.{EventNumber, event_number_to_i32}
use eventstore_tcp.Auth.{UsernamePassword}
use eventstore_tcp.Raw.{ReadDirection, RawMessage, read_stream_events}
use eventstore_tcp.Message.ReadStreamEvents.{ReadStreamEvents}
use eventstore_tcp.Codec.{Package}
use eventstore_tcp.Builder.Package.{checked_id, checked_count, build_package as package_of}

pub record ReadStreamEventsBuilder : Type 0 where
  pub direction : Option ReadDirection
  pub event_stream_id : Option Str
  pub from_event_number : Option EventNumber
  pub max_count : Option ℕ
  pub resolve_link_tos : Option Bool
  pub require_master : Option Bool

abbrev pub new : ReadStreamEventsBuilder
new = record {
  direction = none;
  event_stream_id = none;
  from_event_number = none;
  max_count = none;
  resolve_link_tos = none;
  require_master = none;
}

unfoldable pub set_direction : ReadDirection → ReadStreamEventsBuilder → ReadStreamEventsBuilder
set_direction dir b = record b { direction = some dir }

unfoldable pub set_max_count :
    {E : Type 0} → ℕ → ReadStreamEventsBuilder → Outcome E ReadStreamEventsBuilder
set_max_count count b = do n ← checked_count count; ok (record b { max_count = some n })

unfoldable pub set_stream_id :
    {E : Type 0} → Str → ReadStreamEventsBuilder → Outcome E ReadStreamEventsBuilder
set_stream_id id b = do s ← checked_id id; ok (record b { event_stream_id = some s })

unfoldable pub set_from_event_number :
    EventNumber → ReadStreamEventsBuilder → ReadStreamEventsBuilder
set_from_event_number n b = record b { from_event_number = some n }

unfoldable pub set_resolve_link_tos : Bool → ReadStreamEventsBuilder → ReadStreamEventsBuilder
set_resolve_link_tos resolve b = record b { resolve_link_tos = some resolve }

unfoldable pub set_require_master : Bool → ReadStreamEventsBuilder → ReadStreamEventsBuilder
set_require_master require b = record b { require_master = some require }

-- Both `take`s empty their field; the other fields stay.
unfoldable pub build_command :
    {E : Type 0} → ReadStreamEventsBuilder → Outcome E (ReadStreamEvents × ReadStreamEventsBuilder)
build_command b = do
  id ← unwrap b.event_stream_id
  number ← unwrap b.from_event_number
  ok (
    record {
      event_stream_id = id;
      from_event_number = event_number_to_i32 number;
      max_count = pos (unwrap_or b.max_count 10);
      resolve_link_tos = unwrap_or b.resolve_link_tos true;
      require_master = unwrap_or b.require_master false;
    },
    record b { event_stream_id = none; from_event_number = none },
  )

unfoldable pub build_message :
    {E : Type 0} → ReadStreamEventsBuilder → Outcome E (RawMessage × ReadStreamEventsBuilder)
build_message b = do
  dir ← unwrap b.direction
  (cmd, b') ← build_command b
  ok (read_stream_events dir cmd, b')

unfoldable pub build_package :
    {E Uuid : Type 0}
    → Uuid
    → Option UsernamePassword
    → Option Uuid
    → ReadStreamEventsBuilder
    → Outcome E (Package Uuid × ReadStreamEventsBuilder)
build_package fresh authentication correlation_id b = do
  (msg, b') ← build_message b
  ok (package_of fresh msg authentication correlation_id, b')
