-- ===== src/Builder/WriteEvents/Calls.antt =====
-- What the calls on a `WriteEventsBuilder` of src/builder.rs ask for, read off the calls alone: of
-- every setting the last one counts, since the last build or, in an event, since its beginning.
use eventstore_tcp.Prelude.{
  Bool, false, Bytes, Str, Option, none, some, List, [], ◌∷◌, ◌++◌, unwrap_or,
}
use eventstore_tcp.Version.{
  ExpectedVersion, any, ContentType, bytes, expected_version_to_i32, content_type_to_i32,
}
use eventstore_tcp.Protobuf.{Protobuf}
use eventstore_tcp.Crates.{Crates}
use eventstore_tcp.Message.NewEvent.{NewEvent}
use eventstore_tcp.Message.WriteEvents.{WriteEvents}
use eventstore_tcp.Builder.WriteEvents.Session.{State, Step, Reach, here, next}

pub data Call (Uuid : Type 0) : Type 0 where
  stream_id : Str → Call Uuid
  expected_version : ExpectedVersion → Call Uuid
  require_master : Bool → Call Uuid
  begin : Call Uuid
  event_id : Uuid → Call Uuid
  event_type : Str → Call Uuid
  event_data : Bytes → Call Uuid
  data_content_type : ContentType → Call Uuid
  metadata : Bytes → Call Uuid
  metadata_content_type : ContentType → Call Uuid
  -- with the id that `Uuid::new_v4` makes
  finish : Uuid → Call Uuid
  give_up : Call Uuid
  build : Call Uuid

-- Of calls, the last of which stands first: the name of the stream, the version and the flag.
module _ {Uuid : Type 0} where
  abbrev pub stream_set : List (Call Uuid) → Option Str
  stream_set [] = none
  stream_set (Call.build ∷ cs) = none
  stream_set (Call.stream_id s ∷ cs) = some s
  stream_set (_ ∷ cs) = stream_set cs

  abbrev pub version_set : List (Call Uuid) → Option ExpectedVersion
  version_set [] = none
  version_set (Call.build ∷ cs) = none
  version_set (Call.expected_version v ∷ cs) = some v
  version_set (_ ∷ cs) = version_set cs

  abbrev pub master_set : List (Call Uuid) → Option Bool
  master_set [] = none
  master_set (Call.build ∷ cs) = none
  master_set (Call.require_master r ∷ cs) = some r
  master_set (_ ∷ cs) = master_set cs

  -- Of the event that is being built.
  abbrev pub id_set : List (Call Uuid) → Option Uuid
  id_set [] = none
  id_set (Call.begin ∷ cs) = none
  id_set (Call.event_id u ∷ cs) = some u
  id_set (_ ∷ cs) = id_set cs

  abbrev pub type_set : List (Call Uuid) → Option Str
  type_set [] = none
  type_set (Call.begin ∷ cs) = none
  type_set (Call.event_type s ∷ cs) = some s
  type_set (_ ∷ cs) = type_set cs

  abbrev pub data_set : List (Call Uuid) → Option Bytes
  data_set [] = none
  data_set (Call.begin ∷ cs) = none
  data_set (Call.event_data s ∷ cs) = some s
  data_set (_ ∷ cs) = data_set cs

  abbrev pub data_type_set : List (Call Uuid) → Option ContentType
  data_type_set [] = none
  data_type_set (Call.begin ∷ cs) = none
  data_type_set (Call.data_content_type t ∷ cs) = some t
  data_type_set (_ ∷ cs) = data_type_set cs

  abbrev pub metadata_set : List (Call Uuid) → Option Bytes
  metadata_set [] = none
  metadata_set (Call.begin ∷ cs) = none
  metadata_set (Call.metadata s ∷ cs) = some s
  metadata_set (_ ∷ cs) = metadata_set cs

  abbrev pub metadata_type_set : List (Call Uuid) → Option ContentType
  metadata_type_set [] = none
  metadata_type_set (Call.begin ∷ cs) = none
  metadata_type_set (Call.metadata_content_type t ∷ cs) = some t
  metadata_type_set (_ ∷ cs) = metadata_type_set cs

module _ {Uuid Buf : Type 0} (c : Crates Uuid Buf) where
  -- The event that is finished behind the calls.
  abbrev pub event_asked : Uuid → List (Call Uuid) → NewEvent
  event_asked fresh cs = record {
    event_id = c.as_bytes (unwrap_or (id_set cs) fresh);
    event_type = unwrap_or (type_set cs) [];
    data_content_type = content_type_to_i32 (unwrap_or (data_type_set cs) bytes);
    metadata_content_type = content_type_to_i32 (unwrap_or (metadata_type_set cs) bytes);
    data_bytes = unwrap_or (data_set cs) [];
    metadata = metadata_set cs;
  }

  -- The events that were finished since the last build, in order.
  abbrev pub events_asked : List (Call Uuid) → List NewEvent
  events_asked [] = []
  events_asked (Call.build ∷ cs) = []
  events_asked (Call.finish fresh ∷ cs) = events_asked cs ++ (event_asked fresh cs ∷ [])
  events_asked (_ ∷ cs) = events_asked cs

  -- The request that is built behind the calls.
  abbrev pub request_asked : List (Call Uuid) → WriteEvents
  request_asked cs = record {
    event_stream_id = unwrap_or (stream_set cs) [];
    expected_version = expected_version_to_i32 (unwrap_or (version_set cs) any);
    events = events_asked cs;
    require_master = unwrap_or (master_set cs) false;
  }

  module _ {p : Protobuf} {E : Type 0} where
    abbrev pub call : {s t : State Uuid} → Step c p E s t → Call Uuid
    call (Step.stream_id b b' id ok_text e) = Call.stream_id id
    call (Step.expected_version b v k) = Call.expected_version v
    call (Step.require_master b r) = Call.require_master r
    call (Step.begin b) = Call.begin
    call (Step.event_id e id) = Call.event_id id
    call (Step.event_type e ty k) = Call.event_type ty
    call (Step.event_data e d k) = Call.event_data d
    call (Step.data_content_type e t) = Call.data_content_type t
    call (Step.metadata e m k) = Call.metadata m
    call (Step.metadata_content_type e t) = Call.metadata_content_type t
    call (Step.finish e fresh x b made size d) = Call.finish fresh
    call (Step.give_up e) = Call.give_up
    call (Step.build b b' m e) = Call.build

    -- The calls of a session, the last one first.
    abbrev pub calls : {s t : State Uuid} → Reach c p E s t → List (Call Uuid)
    calls here = []
    calls (next r st) = call st ∷ calls r
