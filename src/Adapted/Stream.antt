-- ===== src/Adapted/Stream.antt =====
-- src/adapted/read_stream.rs, and the conversions of `ReadStreamEventsCompleted` in
-- src/adapted/mod.rs.
pub mod Laws
pub mod Refusals
use eventstore_tcp.Prelude.{
  Bool, true, false, Str, Option, none, some, Outcome, ok, err, panic, stuck, ◌>>=◌, map_err, List,
  [], ◌&&◌, if◌then◌else◌,
}
use eventstore_tcp.Prelude.Int.{ℤ, negsuc, is_neg}
use eventstore_tcp.Errors.{ErrorKind, missing_result_field, ResultStatusKind}
use eventstore_tcp.Version.{
  StreamVersion, EventNumber, exact, try_from_i32, version_to_i32, event_number_to_i32,
}
use eventstore_tcp.Message.Enums.{ReadStreamResult}
use eventstore_tcp.Message.ResolvedIndexedEvent.{ResolvedIndexedEvent}
use eventstore_tcp.Message.ReadStreamEventsCompleted.{ReadStreamEventsCompleted}
use eventstore_tcp.Raw.{ReadDirection, forward, backward}
use eventstore_tcp.Adapted.Keeps.{Result, success, failure}

pub record ReadStreamCompleted : Type 0 where
  pub events : List ResolvedIndexedEvent
  pub next_page : Option EventNumber
  pub last_event_number : StreamVersion
  pub end_of_stream : Bool
  pub last_commit_position : ℤ

pub data ReadStreamError : Type 0 where
  no_stream stream_deleted not_modified : ReadStreamError
  error : Option Str → ReadStreamError
  access_denied : ReadStreamError

-- `From<(ReadStreamResult, Option<Cow<str>>)>`, with its `unreachable!()`
unfoldable pub from_result :
    {E : Type 0} → ReadStreamResult → Option Str → Outcome E ReadStreamError
from_result ReadStreamResult.success e = panic
from_result ReadStreamResult.no_stream e = ok no_stream
from_result ReadStreamResult.stream_deleted e = ok stream_deleted
from_result ReadStreamResult.not_modified e = ok not_modified
from_result ReadStreamResult.error e = ok (error e)
from_result ReadStreamResult.access_denied e = ok access_denied

abbrev pub Rejected : Type 0
Rejected = (ReadDirection × ReadStreamEventsCompleted) × ErrorKind

abbrev is_backward : ReadDirection → Bool
is_backward forward = false
is_backward backward = true

-- `next_page`: none behind the start of the stream when reading backward.
unfoldable pub next_page_of : ReadDirection → ℤ → Outcome ErrorKind (Option EventNumber)
next_page_of dir next =
    if is_backward dir && is_neg next
    then ok none
    else (try_from_i32 next >>= λ v. ok (some (exact v)))

-- The `match` on the status.
by_status :
    ReadStreamEventsCompleted
    → Option EventNumber
    → StreamVersion
    → ReadStreamResult
    → Outcome Rejected (Result ReadStreamCompleted ReadStreamError)
by_status msg next last ReadStreamResult.success = ok (
    success (record {
      events = msg.events;
      next_page = next;
      last_event_number = last;
      end_of_stream = msg.is_end_of_stream;
      last_commit_position = msg.last_commit_position;
    }))
by_status msg next last other = from_result other msg.error >>= λ f. ok (failure f)

-- The check that there is a status; both event numbers are converted before it is looked at.
on_status :
    ReadDirection
    → ReadStreamEventsCompleted
    → Option ReadStreamResult
    → Outcome Rejected (Result ReadStreamCompleted ReadStreamError)
unfolding by_status
on_status dir msg none = err ((dir, msg), missing_result_field ResultStatusKind.read_stream)
on_status dir msg (some status) = do
  next ← map_err (λ e. ((dir, msg), e)) (next_page_of dir msg.next_event_number)
  last ← map_err (λ e. ((dir, msg), e)) (try_from_i32 msg.last_event_number)
  by_status msg next last status

-- `CustomTryFrom<(ReadDirection, raw::client_messages::ReadStreamEventsCompleted)>`
unfoldable pub try_from :
    ReadDirection
    → ReadStreamEventsCompleted
    → Outcome Rejected (Result ReadStreamCompleted ReadStreamError)
unfolding on_status by_status
try_from dir msg = on_status dir msg msg.result

-- `self.next_page.map(|x| x.into()).unwrap_or(-1)`
unfoldable pub next_page_to_i32 : Option EventNumber → ℤ
next_page_to_i32 none = negsuc 0
next_page_to_i32 (some n) = event_number_to_i32 n

-- The status and the text of an error.
unfoldable pub into_result : ReadStreamError → ReadStreamResult × Option Str
into_result no_stream = (ReadStreamResult.no_stream, none)
into_result stream_deleted = (ReadStreamResult.stream_deleted, none)
into_result not_modified = (ReadStreamResult.not_modified, none)
into_result (error msg) = (ReadStreamResult.error, msg)
into_result access_denied = (ReadStreamResult.access_denied, none)

-- `as_raw` of a page, and of an error
unfoldable pub completed_as_raw : ReadStreamCompleted → ReadStreamEventsCompleted
completed_as_raw x = record {
  events = x.events;
  result = some ReadStreamResult.success;
  next_event_number = next_page_to_i32 x.next_page;
  last_event_number = version_to_i32 x.last_event_number;
  is_end_of_stream = x.end_of_stream;
  last_commit_position = x.last_commit_position;
  error = none;
}

unfoldable pub error_as_raw : ReadStreamError → ReadStreamEventsCompleted
unfolding into_result
error_as_raw f =
    let (status, text) = into_result f in
    record {
      events = [];
      result = some status;
      next_event_number = negsuc 0;
      last_event_number = negsuc 0;
      is_end_of_stream = false;
      last_commit_position = negsuc 0;
      error = text;
    }
