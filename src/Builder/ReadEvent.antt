-- ===== src/Builder/ReadEvent.antt =====
-- `ReadEventBuilder` of src/builder.rs.
use eventstore_tcp.Prelude.{
  Bool, true, false, Str, Option, none, some, Outcome, ok, ◌>>=◌, unwrap, unwrap_or,
}
use eventstore_tcp.Version.{EventNumber, event_number_to_i32}
use eventstore_tcp.Auth.{UsernamePassword}
use eventstore_tcp.Raw.{RawMessage, read_event}
use eventstore_tcp.Message.ReadEvent.{ReadEvent}
use eventstore_tcp.Codec.{Package}
use eventstore_tcp.Builder.Package.{checked_id, build_package as package_of}

pub record ReadEventBuilder : Type 0 where
  pub event_stream_id : Option Str
  pub event_number : Option EventNumber
  pub resolve_link_tos : Option Bool
  pub require_master : Option Bool

abbrev pub new : ReadEventBuilder
new = record {
  event_stream_id = none;
  event_number = none;
  resolve_link_tos = none;
  require_master = none;
}

unfoldable pub set_stream_id : {E : Type 0} → Str → ReadEventBuilder → Outcome E ReadEventBuilder
set_stream_id id b = do s ← checked_id id; ok (record b { event_stream_id = some s })

unfoldable pub set_event_number : EventNumber → ReadEventBuilder → ReadEventBuilder
set_event_number number b = record b { event_number = some number }

unfoldable pub set_resolve_link_tos : Bool → ReadEventBuilder → ReadEventBuilder
set_resolve_link_tos resolve b = record b { resolve_link_tos = some resolve }

unfoldable pub set_require_master : Bool → ReadEventBuilder → ReadEventBuilder
set_require_master require b = record b { require_master = some require }

-- All four fields are taken out.
unfoldable pub build_command :
    {E : Type 0} → ReadEventBuilder → Outcome E (ReadEvent × ReadEventBuilder)
build_command b = do
  id ← unwrap b.event_stream_id
  number ← unwrap b.event_number
  ok (
    record {
      event_stream_id = id;
      event_number = event_number_to_i32 number;
      resolve_link_tos = unwrap_or b.resolve_link_tos true;
      require_master = unwrap_or b.require_master false;
    },
    record {
      event_stream_id = none;
      event_number = none;
      resolve_link_tos = none;
      require_master = none;
    },
  )

unfoldable pub build_message :
    {E : Type 0} → ReadEventBuilder → Outcome E (RawMessage × ReadEventBuilder)
build_message b = do (cmd, b') ← build_command b; ok (read_event cmd, b')

unfoldable pub build_package :
    {E Uuid : Type 0}
    → Uuid
    → Option UsernamePassword
    → Option Uuid
    → ReadEventBuilder
    → Outcome E (Package Uuid × ReadEventBuilder)
build_package fresh authentication correlation_id b = do
  (msg, b') ← build_message b
  ok (package_of fresh msg authentication correlation_id, b')
