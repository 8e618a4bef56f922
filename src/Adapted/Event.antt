-- ===== src/Adapted/Event.antt =====
-- src/adapted/read_event.rs, and the conversions of `ReadEventCompleted` in src/adapted/mod.rs.
use eventstore_tcp.Prelude.{Str, Option, none, some, Outcome, ok, err, panic, ◌>>=◌, [], ◌≡◌, refl}
use eventstore_tcp.Prelude.Int.{pos, negsuc}
use eventstore_tcp.Errors.{ErrorKind, missing_result_field, ResultStatusKind}
use eventstore_tcp.Message.Enums.{ReadEventResult}
use eventstore_tcp.Message.ResolvedIndexedEvent.{ResolvedIndexedEvent}
use eventstore_tcp.Message.ReadEventCompleted.{ReadEventCompleted}
use eventstore_tcp.Adapted.Keeps.{Result, success, failure, Keeps, Keeps-ok, Keeps-err}

pub data ReadEventError : Type 0 where
  not_found no_stream stream_deleted : ReadEventError
  error : Option Str → ReadEventError
  access_denied : ReadEventError

-- `From<(ReadEventResult, Option<Cow<str>>)>`, with its `unreachable!()`
unfoldable pub from_result : {E : Type 0} → ReadEventResult → Option Str → Outcome E ReadEventError
from_result ReadEventResult.success e = panic
from_result ReadEventResult.not_found e = ok not_found
from_result ReadEventResult.no_stream e = ok no_stream
from_result ReadEventResult.stream_deleted e = ok stream_deleted
from_result ReadEventResult.error e = ok (error e)
from_result ReadEventResult.access_denied e = ok access_denied

abbrev pub Rejected : Type 0
Rejected = ReadEventCompleted × ErrorKind

-- The check that there is a status, and the `match` on it.
on_status :
    ReadEventCompleted
    → Option ReadEventResult
    → Outcome Rejected (Result ResolvedIndexedEvent ReadEventError)
on_status msg none = err (msg, missing_result_field ResultStatusKind.read_event)
on_status msg (some ReadEventResult.success) = ok (success msg.event)
on_status msg (some other) = from_result other msg.error >>= λ f. ok (failure f)

-- `CustomTryFrom<raw::client_messages::ReadEventCompleted>`
unfoldable pub try_from :
    ReadEventCompleted → Outcome Rejected (Result ResolvedIndexedEvent ReadEventError)
unfolding on_status from_result
try_from msg = on_status msg msg.result

-- The event of a reply that has none.
abbrev pub no_event : ResolvedIndexedEvent
no_event = record {
  event = record {
    event_stream_id = [];
    event_number = negsuc 0;
    event_id = [];
    event_type = [];
    data_content_type = pos 0;
    metadata_content_type = pos 0;
    data_bytes = [];
    metadata = none;
    created = none;
    created_epoch = none;
  };
  link = none;
}

-- The status and the text of an error.
unfoldable pub into_result : ReadEventError → ReadEventResult × Option Str
into_result not_found = (ReadEventResult.not_found, none)
into_result no_stream = (ReadEventResult.no_stream, none)
into_result stream_deleted = (ReadEventResult.stream_deleted, none)
into_result (error x) = (ReadEventResult.error, x)
into_result access_denied = (ReadEventResult.access_denied, none)

-- `as_raw` of an event, and of an error
unfoldable pub as_raw : Result ResolvedIndexedEvent ReadEventError → ReadEventCompleted
unfolding into_result
as_raw (success e) = record { result = some ReadEventResult.success; event = e; error = none }
as_raw (failure f) =
    let (res, msg) = into_result f in record { result = some res; event = no_event; error = msg }

-- The result of reading an event, an event or any error, is written as a raw message that is
-- converted back to it.
pub try_from-as_raw : (r : Result ResolvedIndexedEvent ReadEventError) → try_from (as_raw r) ≡ ok r
unfolding try_from as_raw
try_from-as_raw (success e) = refl
try_from-as_raw (failure (error x)) = refl
try_from-as_raw (failure not_found) = refl
try_from-as_raw (failure no_stream) = refl
try_from-as_raw (failure stream_deleted) = refl
try_from-as_raw (failure access_denied) = refl

on_status-Keeps :
    (msg : ReadEventCompleted) (o : Option ReadEventResult) → Keeps msg (on_status msg o)
unfolding on_status from_result
on_status-Keeps msg none = Keeps-err _
on_status-Keeps msg (some ReadEventResult.success) = Keeps-ok _
on_status-Keeps msg (some ReadEventResult.not_found) = Keeps-ok _
on_status-Keeps msg (some ReadEventResult.no_stream) = Keeps-ok _
on_status-Keeps msg (some ReadEventResult.stream_deleted) = Keeps-ok _
on_status-Keeps msg (some ReadEventResult.error) = Keeps-ok _
on_status-Keeps msg (some ReadEventResult.access_denied) = Keeps-ok _

-- Whatever error the conversion of the reply returns, it gives the reply back as it was.
pub read_event_keeps :
    (msg m : ReadEventCompleted) (e : ErrorKind) → try_from msg ≡ err (m, e) → m ≡ msg
unfolding try_from
read_event_keeps msg m e = on_status-Keeps msg msg.result m e
