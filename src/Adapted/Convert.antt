-- ===== src/Adapted/Convert.antt =====
-- `AdaptedMessage` of src/adapted/mod.rs, and its conversions from and to `RawMessage`.
pub mod Laws
use eventstore_tcp.Prelude.{
  Bool, Bytes, Str, from_utf8, Option, none, some, Outcome, ok, err, panic, stuck, ◌>>=◌,
}
use eventstore_tcp.Errors.{
  ErrorKind, invalid_utf8, unsupported_discriminator, unimplemented_conversion,
}
use eventstore_tcp.Message.WriteEvents.{WriteEvents}
use eventstore_tcp.Message.ReadEvent.{ReadEvent}
use eventstore_tcp.Message.ReadStreamEvents.{ReadStreamEvents}
use eventstore_tcp.Message.ReadAllEvents.{ReadAllEvents}
use eventstore_tcp.Message.NotHandled.{NotHandled}
use eventstore_tcp.Message.ResolvedIndexedEvent.{ResolvedIndexedEvent}
use eventstore_tcp.Raw.{ReadDirection, RawMessage}
use eventstore_tcp.Adapted.Keeps.{Result, success, failure}
use eventstore_tcp.Adapted.Writes
use eventstore_tcp.Adapted.Writes.{WriteEventsCompleted, WriteEventsFailure}
use eventstore_tcp.Adapted.Event
use eventstore_tcp.Adapted.Event.{ReadEventError}
use eventstore_tcp.Adapted.Stream
use eventstore_tcp.Adapted.Stream.{ReadStreamCompleted, ReadStreamError}
use eventstore_tcp.Adapted.All
use eventstore_tcp.Adapted.All.{ReadAllCompleted, ReadAllError}

-- `BadRequest` and `NotAuthenticated` hold the text of their newtypes; `NotHandled` its placeholder.
pub data AdaptedMessage : Type 0 where
  heartbeat_request heartbeat_response ping pong : AdaptedMessage
  write_events : WriteEvents → AdaptedMessage
  write_events_completed : Result WriteEventsCompleted WriteEventsFailure → AdaptedMessage
  read_event : ReadEvent → AdaptedMessage
  read_event_completed : Result ResolvedIndexedEvent ReadEventError → AdaptedMessage
  read_stream_events : ReadDirection → ReadStreamEvents → AdaptedMessage
  read_stream_events_completed :
      ReadDirection → Result ReadStreamCompleted ReadStreamError → AdaptedMessage
  read_all_events : ReadDirection → ReadAllEvents → AdaptedMessage
  read_all_events_completed : ReadDirection → Result ReadAllCompleted ReadAllError → AdaptedMessage
  bad_request : Str → AdaptedMessage
  not_handled : Str → AdaptedMessage
  authenticate authenticated : AdaptedMessage
  not_authenticated : Str → AdaptedMessage

abbrev pub Rejected : Type 0
Rejected = RawMessage × ErrorKind

-- `into_or_rebuild!`: the message of an error becomes a raw message again.
abbrev pub into_or_rebuild :
    {M A : Type 0}
    → (M → RawMessage)
    → (A → AdaptedMessage)
    → Outcome (M × ErrorKind) A
    → Outcome Rejected AdaptedMessage
into_or_rebuild orig var (ok x) = ok (var x)
into_or_rebuild orig var (err (m, e)) = err (orig m, e)
into_or_rebuild orig var panic = panic
into_or_rebuild orig var stuck = stuck

-- `into_str_or_rebuild!`
abbrev pub into_str_or_rebuild :
    (Bytes → RawMessage)
    → (Str → AdaptedMessage)
    → Bytes
    → Option Str
    → Outcome Rejected AdaptedMessage
into_str_or_rebuild orig ctor bytes (some s) = ok (ctor s)
into_str_or_rebuild orig ctor bytes none = err (orig bytes, invalid_utf8)

-- `CustomTryFrom<NotHandled>`
abbrev pub try_from_not_handled : NotHandled → Outcome (NotHandled × ErrorKind) AdaptedMessage
try_from_not_handled msg = err (msg, unimplemented_conversion)

-- `CustomTryFrom<RawMessage>`, with the flag for overflow checks
unfoldable pub try_from : Bool → RawMessage → Outcome Rejected AdaptedMessage
try_from checks RawMessage.heartbeat_request = ok heartbeat_request
try_from checks RawMessage.heartbeat_response = ok heartbeat_response
try_from checks RawMessage.ping = ok ping
try_from checks RawMessage.pong = ok pong
try_from checks (RawMessage.write_events e) = ok (write_events e)
try_from checks (RawMessage.write_events_completed e) =
    into_or_rebuild RawMessage.write_events_completed write_events_completed
      (Writes.try_from checks e)
try_from checks (RawMessage.read_event e) = ok (read_event e)
try_from checks (RawMessage.read_event_completed e) =
    into_or_rebuild RawMessage.read_event_completed read_event_completed (Event.try_from e)
try_from checks (RawMessage.read_stream_events dir e) = ok (read_stream_events dir e)
try_from checks (RawMessage.read_stream_events_completed dir e) =
    into_or_rebuild (λ x. RawMessage.read_stream_events_completed x.0 x.1)
      (read_stream_events_completed dir) (Stream.try_from dir e)
try_from checks (RawMessage.read_all_events dir e) = ok (read_all_events dir e)
try_from checks (RawMessage.read_all_events_completed dir e) =
    All.try_from e >>= λ x. ok (read_all_events_completed dir x)
try_from checks (RawMessage.bad_request bytes) =
    into_str_or_rebuild RawMessage.bad_request bad_request bytes (from_utf8 bytes)
try_from checks (RawMessage.not_handled e) =
    into_or_rebuild RawMessage.not_handled (λ x. x) (try_from_not_handled e)
try_from checks RawMessage.authenticate = ok authenticate
try_from checks RawMessage.authenticated = ok authenticated
try_from checks (RawMessage.not_authenticated reason) =
    into_str_or_rebuild RawMessage.not_authenticated not_authenticated reason (from_utf8 reason)
try_from checks (RawMessage.unsupported d bytes) =
    err (RawMessage.unsupported d bytes, unsupported_discriminator d)
try_from checks unimpl = err (unimpl, unimplemented_conversion)

-- `as_raw`; that of a page of all events and of `NotHandled` is `unimplemented!()`.
unfoldable pub as_raw : {E : Type 0} → Bool → AdaptedMessage → Outcome E RawMessage
as_raw checks heartbeat_request = ok RawMessage.heartbeat_request
as_raw checks heartbeat_response = ok RawMessage.heartbeat_response
as_raw checks ping = ok RawMessage.ping
as_raw checks pong = ok RawMessage.pong
as_raw checks authenticate = ok RawMessage.authenticate
as_raw checks authenticated = ok RawMessage.authenticated
as_raw checks (write_events we) = ok (RawMessage.write_events we)
as_raw checks (write_events_completed (success body)) =
    Writes.completed_as_raw checks body >>= λ x. ok (RawMessage.write_events_completed x)
as_raw checks (write_events_completed (failure f)) =
    ok (RawMessage.write_events_completed (Writes.failure_as_raw f))
as_raw checks (read_event re) = ok (RawMessage.read_event re)
as_raw checks (read_event_completed r) = ok (RawMessage.read_event_completed (Event.as_raw r))
as_raw checks (read_stream_events dir rse) = ok (RawMessage.read_stream_events dir rse)
as_raw checks (read_stream_events_completed dir (success body)) =
    ok (RawMessage.read_stream_events_completed dir (Stream.completed_as_raw body))
as_raw checks (read_stream_events_completed dir (failure f)) =
    ok (RawMessage.read_stream_events_completed dir (Stream.error_as_raw f))
as_raw checks (read_all_events dir rae) = ok (RawMessage.read_all_events dir rae)
as_raw checks (read_all_events_completed dir r) = panic
as_raw checks (bad_request msg) = ok (RawMessage.bad_request msg)
as_raw checks (not_handled info) = panic
as_raw checks (not_authenticated msg) = ok (RawMessage.not_authenticated msg)
