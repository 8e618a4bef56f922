-- ===== src/Testclient/Asked.antt =====
-- The request that the command line of a write asks for, in testclient/src/main.rs and write.rs.
use eventstore_tcp.Prelude.{Bool, true, false, Str, Option, none, some, [], unwrap_or}
use eventstore_tcp.Prelude.Int.{ℤ, pos}
use eventstore_tcp.Version.{ContentType}
use eventstore_tcp.Crates.{Crates}
use eventstore_tcp.Message.NewEvent.{NewEvent}
use eventstore_tcp.Codec.{Package}
use eventstore_tcp.Builder.Package
use eventstore_tcp.Builder.WriteEvents
use eventstore_tcp.Testclient.Prepare.{WriteArgs}
use eventstore_tcp.Testclient.Names.{Names}

-- The content type that the flag asks for.
abbrev pub content_number : Bool → ℤ
content_number true = pos 1
content_number false = pos 0

-- The content type of the metadata: none was set where there is no metadata.
abbrev pub metadata_number : Bool → Option Str → ℤ
metadata_number json_flag (some x) = content_number json_flag
metadata_number json_flag none = pos 0

-- The event that the arguments ask for.
abbrev pub event_wanted : {Uuid Buf : Type 0} → Crates Uuid Buf → Uuid → WriteArgs → NewEvent
event_wanted c fresh args = record {
  event_id = c.as_bytes fresh;
  event_type = unwrap_or args.event_type [];
  data_content_type = content_number args.as_json;
  metadata_content_type = metadata_number args.as_json args.metadata;
  data_bytes = unwrap_or args.event_data [];
  metadata = args.metadata;
}

-- The content type of the metadata in the builder of the event.
metadata_type : ContentType → Option Str → Option ContentType
metadata_type t none = none
metadata_type t (some x) = some t
