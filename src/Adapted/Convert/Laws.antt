-- ===== src/Adapted/Convert/Laws.antt =====
-- Lemmas on the conversions between `AdaptedMessage` and `RawMessage` of src/adapted/mod.rs.
use eventstore_tcp.Prelude.{
  Bool, Bytes, Str, IsUtf8, from_utf8, from_utf8_valid, Option, none, some, Outcome, ok, err, panic,
  stuck, ◌≡◌, refl,
}
use eventstore_tcp.Errors.{ErrorKind}
use eventstore_tcp.Raw.{RawMessage}
use eventstore_tcp.Adapted.Keeps.{success, failure, Keeps, Keeps-ok, Keeps-err, Keeps->>=}
use eventstore_tcp.Adapted.Writes
use eventstore_tcp.Adapted.Writes.Laws.{
  IsCompleted, try_from-completed_as_raw, try_from-failure_as_raw,
}
use eventstore_tcp.Adapted.Writes.Refusals.{try_from_keeps}
use eventstore_tcp.Adapted.Event
use eventstore_tcp.Adapted.Stream
use eventstore_tcp.Adapted.Stream.Laws.{IsPage, try_from-completed_as_raw_page}
use eventstore_tcp.Adapted.Stream.Refusals.{read_stream_keeps}
use eventstore_tcp.Adapted.All
use eventstore_tcp.Adapted.All.Laws.{try_from-Keeps as page-Keeps}
use eventstore_tcp.Adapted.Convert.{
  AdaptedMessage, write_events, write_events_completed, read_event, read_event_completed,
  read_stream_events, read_stream_events_completed, read_all_events, read_all_events_completed,
  bad_request, not_handled, not_authenticated, heartbeat_request, heartbeat_response, ping, pong,
  authenticate, authenticated, Rejected, into_or_rebuild, into_str_or_rebuild, try_from, as_raw,
}

-- The messages that a raw message can hold in full: numbers are in range, texts are UTF-8, and the next
-- page is an exact number. The error of a read of a stream, a page of all events and `NotHandled` are
-- not among them.
abbrev pub IsLossless : AdaptedMessage → Type 0
IsLossless (write_events_completed (success x)) = IsCompleted x
IsLossless (read_stream_events_completed dir (success x)) = IsPage dir x
IsLossless (read_stream_events_completed dir (failure f)) = ⊥
IsLossless (read_all_events_completed dir r) = ⊥
IsLossless (bad_request msg) = IsUtf8 msg
IsLossless (not_handled info) = ⊥
IsLossless (not_authenticated msg) = IsUtf8 msg
IsLossless _ = Unit

-- Every adapted message but the error of a read of a stream, a page of all events and `NotHandled` is
-- written as a raw message, without a panic, that is converted back to it, if a completed write has
-- its versions and its positions in their documented ranges, a page of a stream has its last version
-- in range and an exact next page in range, or no next one behind the start when it was read backward,
-- and the text of `BadRequest` or `NotAuthenticated` is UTF-8.
pub try_from-as_raw_message :
    (checks : Bool) (m : AdaptedMessage)
    → IsLossless m
    → (raw : RawMessage) × (as_raw {E = Rejected} checks m ≡ ok raw) × (try_from checks raw ≡ ok m)
unfolding try_from as_raw
try_from-as_raw_message checks heartbeat_request h = (_, refl, refl)
try_from-as_raw_message checks heartbeat_response h = (_, refl, refl)
try_from-as_raw_message checks ping h = (_, refl, refl)
try_from-as_raw_message checks pong h = (_, refl, refl)
try_from-as_raw_message checks (write_events x) h = (_, refl, refl)
try_from-as_raw_message checks (write_events_completed (success x)) h =
    let (msg, written, back) = try_from-completed_as_raw {E = Rejected} checks x h in
    (RawMessage.write_events_completed msg, rw written, rw back)
try_from-as_raw_message checks (write_events_completed (failure f)) h = (
  RawMessage.write_events_completed (Writes.failure_as_raw f),
  refl,
  rw (try_from-failure_as_raw checks f),
)
try_from-as_raw_message checks (read_event x) h = (_, refl, refl)
try_from-as_raw_message checks (read_event_completed r) h =
    (RawMessage.read_event_completed (Event.as_raw r), refl, rw (Event.try_from-as_raw r))
try_from-as_raw_message checks (read_stream_events dir x) h = (_, refl, refl)
try_from-as_raw_message checks (read_stream_events_completed dir (success x)) h = (
  RawMessage.read_stream_events_completed dir (Stream.completed_as_raw x),
  refl,
  rw (try_from-completed_as_raw_page dir x h),
)
try_from-as_raw_message checks (read_stream_events_completed dir (failure f)) h = absurd h
try_from-as_raw_message checks (read_all_events dir x) h = (_, refl, refl)
try_from-as_raw_message checks (read_all_events_completed dir r) h = absurd h
try_from-as_raw_message checks (bad_request s) h =
    (RawMessage.bad_request s, refl, rw (from_utf8_valid s h))
try_from-as_raw_message checks (not_handled info) h = absurd h
try_from-as_raw_message checks authenticate h = (_, refl, refl)
try_from-as_raw_message checks authenticated h = (_, refl, refl)
try_from-as_raw_message checks (not_authenticated s) h =
    (RawMessage.not_authenticated s, refl, rw (from_utf8_valid s h))

Keeps-rebuild :
    {M A : Type 0} (orig : M → RawMessage) (var : A → AdaptedMessage) (x : M)
    (o : Outcome (M × ErrorKind) A)
    → Keeps x o
    → Keeps (orig x) (into_or_rebuild orig var o)
Keeps-rebuild orig var x (ok a) h = Keeps-ok (var a)
Keeps-rebuild orig var x (err (m, e)) h = let same : m ≡ x = h m e refl in rw same (Keeps-err e)
Keeps-rebuild orig var x panic h = λ m e eq. cc
Keeps-rebuild orig var x stuck h = λ m e eq. cc

Keeps-str :
    (orig : Bytes → RawMessage) (ctor : Str → AdaptedMessage) (bytes : Bytes) (o : Option Str)
    → Keeps (orig bytes) (into_str_or_rebuild orig ctor bytes o)
Keeps-str orig ctor bytes none = Keeps-err _
Keeps-str orig ctor bytes (some s) = Keeps-ok (ctor s)

try_from-Keeps : (checks : Bool) (raw : RawMessage) → Keeps raw (try_from checks raw)
unfolding try_from
try_from-Keeps checks RawMessage.heartbeat_request = Keeps-ok _
try_from-Keeps checks RawMessage.heartbeat_response = Keeps-ok _
try_from-Keeps checks RawMessage.ping = Keeps-ok _
try_from-Keeps checks RawMessage.pong = Keeps-ok _
try_from-Keeps checks (RawMessage.write_events x) = Keeps-ok _
try_from-Keeps checks (RawMessage.write_events_completed x) =
    Keeps-rebuild RawMessage.write_events_completed write_events_completed x _
      (try_from_keeps checks x)
try_from-Keeps checks (RawMessage.delete_stream x) = Keeps-err _
try_from-Keeps checks (RawMessage.delete_stream_completed x) = Keeps-err _
try_from-Keeps checks (RawMessage.read_event x) = Keeps-ok _
try_from-Keeps checks (RawMessage.read_event_completed x) =
    Keeps-rebuild RawMessage.read_event_completed read_event_completed x _
      (Event.read_event_keeps x)
try_from-Keeps checks (RawMessage.read_stream_events dir x) = Keeps-ok _
try_from-Keeps checks (RawMessage.read_stream_events_completed dir x) =
    Keeps-rebuild (λ p. RawMessage.read_stream_events_completed p.0 p.1)
      (read_stream_events_completed dir) (dir, x) _ (read_stream_keeps dir x)
try_from-Keeps checks (RawMessage.read_all_events dir x) = Keeps-ok _
try_from-Keeps checks (RawMessage.read_all_events_completed dir x) =
    Keeps->>= (All.try_from x) _ (page-Keeps x) (λ r. Keeps-ok _)
try_from-Keeps checks (RawMessage.bad_request x) =
    Keeps-str RawMessage.bad_request bad_request x (from_utf8 x)
try_from-Keeps checks (RawMessage.not_handled x) = Keeps-err _
try_from-Keeps checks RawMessage.authenticate = Keeps-ok _
try_from-Keeps checks RawMessage.authenticated = Keeps-ok _
try_from-Keeps checks (RawMessage.not_authenticated x) =
    Keeps-str RawMessage.not_authenticated not_authenticated x (from_utf8 x)
try_from-Keeps checks (RawMessage.unsupported d x) = Keeps-err _

-- Whatever raw message is refused, and with whatever error, comes back as it was.
pub try_from_rebuilds :
    (checks : Bool) (raw m : RawMessage) (e : ErrorKind)
    → try_from checks raw ≡ err (m, e)
    → m ≡ raw
try_from_rebuilds checks raw m e = try_from-Keeps checks raw m e
