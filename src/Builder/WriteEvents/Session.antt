-- ===== src/Builder/WriteEvents/Session.antt =====
-- The calls that can be made on a `WriteEventsBuilder` of src/builder.rs, one after the other. While
-- an event is built its parent is borrowed, so only the calls of `NewEventBuilder` are there.
use eventstore_tcp.Prelude.{Bool, Bytes, Str, ok, ◌^◌, ◌<◌, ◌≡◌}
use eventstore_tcp.Version.{ExpectedVersion, ContentType}
use eventstore_tcp.Version.Wire.{IsExpected}
use eventstore_tcp.Protobuf.{Protobuf}
use eventstore_tcp.Protobuf.Laws.{IsText, Fits}
use eventstore_tcp.Crates.{Crates}
use eventstore_tcp.Message.NewEvent
use eventstore_tcp.Message.NewEvent.{NewEvent}
use eventstore_tcp.Raw.{RawMessage}
use eventstore_tcp.Builder.WriteEvents.{
  WriteEventsBuilder, NewEventBuilder, set_stream_id, set_expected_version, set_require_master,
  build_message, new_event, set_event_id, set_event_type, set_data, set_data_content_type,
  set_metadata, set_metadata_content_type, cancel, done, event_of,
}

pub data State (Uuid : Type 0) : Type 0 where
  building : WriteEventsBuilder → State Uuid
  in_event : NewEventBuilder Uuid → State Uuid

-- The calls whose arguments are in range: a text is UTF-8, a block and an event can be told by a
-- length.
module _ {Uuid Buf : Type 0} (c : Crates Uuid Buf) (p : Protobuf) (E : Type 0) where
  pub data Step : State Uuid → State Uuid → Type 0 where
    stream_id :
        (b b' : WriteEventsBuilder) (id : Str)
        → IsText id
        → set_stream_id {E = E} id b ≡ ok b'
        → Step (building b) (building b')
    expected_version :
        (b : WriteEventsBuilder) (v : ExpectedVersion)
        → IsExpected v
        → Step (building b) (building (set_expected_version v b))
    require_master :
        (b : WriteEventsBuilder) (r : Bool) → Step (building b) (building (set_require_master r b))
    begin : (b : WriteEventsBuilder) → Step (building b) (in_event (new_event b))
    event_id :
        (e : NewEventBuilder Uuid) (id : Uuid) → Step (in_event e) (in_event (set_event_id id e))
    event_type :
        (e : NewEventBuilder Uuid) (ty : Str)
        → IsText ty
        → Step (in_event e) (in_event (set_event_type ty e))
    event_data :
        (e : NewEventBuilder Uuid) (d : Bytes)
        → Fits d
        → Step (in_event e) (in_event (set_data d e))
    data_content_type :
        (e : NewEventBuilder Uuid) (t : ContentType)
        → Step (in_event e) (in_event (set_data_content_type t e))
    metadata :
        (e : NewEventBuilder Uuid) (m : Bytes)
        → Fits m
        → Step (in_event e) (in_event (set_metadata m e))
    metadata_content_type :
        (e : NewEventBuilder Uuid) (t : ContentType)
        → Step (in_event e) (in_event (set_metadata_content_type t e))
    finish :
        (e : NewEventBuilder Uuid) (fresh : Uuid) (x : NewEvent) (b : WriteEventsBuilder)
        → event_of c {E = E} fresh e ≡ ok x
        → NewEvent.get_size p x < 2 ^ 31
        → done c {E = E} fresh e ≡ ok b
        → Step (in_event e) (building b)
    give_up : (e : NewEventBuilder Uuid) → Step (in_event e) (building (cancel e))
    build :
        (b b' : WriteEventsBuilder) (m : RawMessage)
        → build_message {E = E} b ≡ ok (m, b')
        → Step (building b) (building b')

  pub data Reach (s : State Uuid) : State Uuid → Type 0 where
    here : Reach s s
    next : {t u : State Uuid} → Reach s t → Step t u → Reach s u
