-- ===== src/Builder/WriteEvents.antt =====
-- `WriteEventsBuilder` and `NewEventBuilder` of src/builder.rs.
pub mod Session
pub mod Calls
pub mod Asked
pub mod Laws
use eventstore_tcp.Prelude.{
  Bool, true, false, Bytes, Str, Option, none, some, Outcome, ok, ◌>>=◌, List, [], ◌∷◌, ◌++◌,
  unwrap, unwrap_or,
}
use eventstore_tcp.Version.{
  ExpectedVersion, any, ContentType, bytes, expected_version_to_i32, content_type_to_i32,
}
use eventstore_tcp.Auth.{UsernamePassword}
use eventstore_tcp.Crates.{Crates}
use eventstore_tcp.Message.NewEvent.{NewEvent}
use eventstore_tcp.Message.WriteEvents.{WriteEvents}
use eventstore_tcp.Raw.{RawMessage, write_events}
use eventstore_tcp.Codec.{Package}
use eventstore_tcp.Builder.Package.{checked_id, build_package as package_of}

pub record WriteEventsBuilder : Type 0 where
  pub event_stream_id : Option Str
  pub expected_version : Option ExpectedVersion
  pub require_master : Option Bool
  pub events : List NewEvent

abbrev pub new : WriteEventsBuilder
new = record { event_stream_id = none; expected_version = none; require_master = none; events = [] }

unfoldable pub set_stream_id :
    {E : Type 0} → Str → WriteEventsBuilder → Outcome E WriteEventsBuilder
set_stream_id id b = do s ← checked_id id; ok (record b { event_stream_id = some s })

unfoldable pub set_expected_version : ExpectedVersion → WriteEventsBuilder → WriteEventsBuilder
set_expected_version version b = record b { expected_version = some version }

unfoldable pub set_require_master : Bool → WriteEventsBuilder → WriteEventsBuilder
set_require_master require b = record b { require_master = some require }

unfoldable pub push_event : NewEvent → WriteEventsBuilder → WriteEventsBuilder
push_event event b = record b { events = b.events ++ (event ∷ []) }

-- Every field is taken out or replaced.
unfoldable pub build_command :
    {E : Type 0} → WriteEventsBuilder → Outcome E (WriteEvents × WriteEventsBuilder)
build_command b = do
  id ← unwrap b.event_stream_id
  ok (
    record {
      event_stream_id = id;
      expected_version = expected_version_to_i32 (unwrap_or b.expected_version any);
      events = b.events;
      require_master = unwrap_or b.require_master false;
    },
    record { event_stream_id = none; expected_version = none; require_master = none; events = [] },
  )

unfoldable pub build_message :
    {E : Type 0} → WriteEventsBuilder → Outcome E (RawMessage × WriteEventsBuilder)
build_message b = do (cmd, b') ← build_command b; ok (write_events cmd, b')

unfoldable pub build_package :
    {E Uuid : Type 0}
    → Uuid
    → Option UsernamePassword
    → Option Uuid
    → WriteEventsBuilder
    → Outcome E (Package Uuid × WriteEventsBuilder)
build_package fresh authentication correlation_id b = do
  (msg, b') ← build_message b
  ok (package_of fresh msg authentication correlation_id, b')

-- The builder of an event holds its parent, which is out of reach until it is given back.
pub record NewEventBuilder (Uuid : Type 0) : Type 0 where
  pub parent : WriteEventsBuilder
  pub event_id : Option Uuid
  pub event_type : Option Str
  pub data_content_type : Option ContentType
  pub metadata_content_type : Option ContentType
  pub data_bytes : Option Bytes
  pub metadata : Option Bytes

module _ {Uuid : Type 0} where
  unfoldable pub new_event : WriteEventsBuilder → NewEventBuilder Uuid
  new_event b = record {
    parent = b;
    event_id = none;
    event_type = none;
    data_content_type = none;
    metadata_content_type = none;
    data_bytes = none;
    metadata = none;
  }

  unfoldable pub set_event_id : Uuid → NewEventBuilder Uuid → NewEventBuilder Uuid
  set_event_id id e = record e { event_id = some id }

  unfoldable pub set_event_type : Str → NewEventBuilder Uuid → NewEventBuilder Uuid
  set_event_type ty e = record e { event_type = some ty }

  unfoldable pub set_data : Bytes → NewEventBuilder Uuid → NewEventBuilder Uuid
  set_data d e = record e { data_bytes = some d }

  unfoldable pub set_data_content_type : ContentType → NewEventBuilder Uuid → NewEventBuilder Uuid
  set_data_content_type t e = record e { data_content_type = some t }

  unfoldable pub set_metadata : Bytes → NewEventBuilder Uuid → NewEventBuilder Uuid
  set_metadata m e = record e { metadata = some m }

  unfoldable pub set_metadata_content_type :
      ContentType → NewEventBuilder Uuid → NewEventBuilder Uuid
  set_metadata_content_type t e = record e { metadata_content_type = some t }

  unfoldable pub cancel : NewEventBuilder Uuid → WriteEventsBuilder
  cancel e = e.parent

module _ {Uuid Buf : Type 0} (c : Crates Uuid Buf) where
  -- The event that `done` makes; `fresh` is the id that `Uuid::new_v4` makes.
  unfoldable pub event_of : {E : Type 0} → Uuid → NewEventBuilder Uuid → Outcome E NewEvent
  event_of fresh e = do
    ty ← unwrap e.event_type
    d ← unwrap e.data_bytes
    ok (record {
      event_id = c.as_bytes (unwrap_or e.event_id fresh);
      event_type = ty;
      data_content_type = content_type_to_i32 (unwrap_or e.data_content_type bytes);
      metadata_content_type = content_type_to_i32 (unwrap_or e.metadata_content_type bytes);
      data_bytes = d;
      metadata = e.metadata;
    })

  unfoldable pub done : {E : Type 0} → Uuid → NewEventBuilder Uuid → Outcome E WriteEventsBuilder
  done fresh e = do event ← event_of fresh e; ok (push_event event e.parent)
