-- ===== src/Builder/Laws.antt =====
-- What `ReadStreamEventsBuilder` of src/builder.rs builds.
use eventstore_tcp.Prelude.{
  true, false, some, Str, none, ok, panic, ◌<◌, ◌≡◌, arith, unwrap, unwrap_or, >>=-eq-ok,
}
use eventstore_tcp.Prelude.Int.{pos}
use eventstore_tcp.Version.{EventNumber, event_number_to_i32}
use eventstore_tcp.Version.Wire.{IsNumber}
use eventstore_tcp.Protobuf.{Protobuf}
use eventstore_tcp.Protobuf.Laws.{IsText}
use eventstore_tcp.Protobuf.Loop.{OptAll}
use eventstore_tcp.Message.ReadStreamEvents.{ReadStreamEvents}
use eventstore_tcp.Raw.{RawMessage, ReadDirection, read_stream_events}
use eventstore_tcp.Raw.Validity.{IsValid}
use eventstore_tcp.Builder.Ranges.{IsI32-event_number_to_i32, OptAll-unwrap, checked_id-same}
use eventstore_tcp.Builder.Package.{checked_id}
use eventstore_tcp.Builder.ReadStream.{
  ReadStreamEventsBuilder, build_command, build_message, set_stream_id, set_from_event_number,
}

-- What was set of the request is in range: the text is UTF-8, the number of the first event fits, and
-- the count is a `u8`.
pub record InRange (b : ReadStreamEventsBuilder) : Type 0 where
  pub stream : OptAll IsText b.event_stream_id
  pub number : OptAll IsNumber b.from_event_number
  pub count : unwrap_or b.max_count 10 < 256

-- The request and the builder that is left, from a build that returned.
built :
    {E : Type 0} (b b' : ReadStreamEventsBuilder) (cmd : ReadStreamEvents)
    → build_command {E = E} b ≡ ok (cmd, b')
    → (id : Str) × (n : EventNumber) × (unwrap {E = E} b.event_stream_id ≡ ok id)
      × (unwrap {E = E} b.from_event_number ≡ ok n)
      × (cmd ≡ record {
        event_stream_id = id;
        from_event_number = event_number_to_i32 n;
        max_count = pos (unwrap_or b.max_count 10);
        resolve_link_tos = unwrap_or b.resolve_link_tos true;
        require_master = unwrap_or b.require_master false;
      })
      × (b' ≡ record b { event_stream_id = none; from_event_number = none })
unfolding build_command
built b b' cmd e =
    let (id, got, e1) = >>=-eq-ok (unwrap b.event_stream_id) _ e in
    let (n, got', e2) = >>=-eq-ok (unwrap b.from_event_number) _ e1 in (id, n, got, got', cc, cc)

-- Whatever request a builder builds has its text and its numbers in range, if what was set is in range.
pub build_message-IsValid :
    {E : Type 0} (p : Protobuf) (b b' : ReadStreamEventsBuilder) (m : RawMessage)
    → InRange b
    → build_message {E = E} b ≡ ok (m, b')
    → IsValid p m
unfolding build_message
build_message-IsValid {E = E} p b b' m h e =
    let (dir, got, e1) = >>=-eq-ok (unwrap b.direction) _ e in
    let ((cmd, b1), got', e2) = >>=-eq-ok (build_command b) _ e1 in
    let (id, n, gi, gn, made, left) = built b b1 cmd got' in
    let same : m ≡ read_stream_events dir cmd = cc in
    rw (same, made)
      (record {
        event_stream_id = OptAll-unwrap IsText b.event_stream_id id h.stream gi;
        from_event_number =
            IsI32-event_number_to_i32 n (OptAll-unwrap IsNumber b.from_event_number n h.number gn);
        max_count = omega (arith, h.count);
      })

-- Building moves the stream and the first event out of the builder, and nothing else: a builder that
-- has built a request panics when it is asked for another before both are set again, and when they
-- are, it builds the request for them in the same direction and with the same settings.
pub build_message_twice :
    {E : Type 0} (b b' b'' : ReadStreamEventsBuilder) (m : RawMessage) (s : Str) (n : EventNumber)
    → build_message {E = E} b ≡ ok (m, b')
    → set_stream_id {E = E} s b' ≡ ok b''
    → (build_message {E = E} b' ≡ panic)
      × (build_message {E = E} b'' ≡ panic)
      × (build_message {E = E} (set_from_event_number n b') ≡ panic)
      × (dir : ReadDirection) × (cmd : ReadStreamEvents) × (m ≡ read_stream_events dir cmd)
      × (build_message {E = E} (set_from_event_number n b'')
          ≡ ok (
            read_stream_events dir
                (record cmd { event_stream_id = s; from_event_number = event_number_to_i32 n }),
            b',
          ))
unfolding build_message build_command set_stream_id set_from_event_number
build_message_twice {E = E} b b' b'' m s n e named =
    let (dir, got, e1) = >>=-eq-ok (unwrap b.direction) _ e in
    let ((cmd, b1), got', e2) = >>=-eq-ok (build_command b) _ e1 in
    let (id, k, gi, gn, made, left) = built b b1 cmd got' in
    let same : b' ≡ record b { event_stream_id = none; from_event_number = none } = cc in
    let (s', got_s, e3) = >>=-eq-ok (checked_id s) _ named in
    let same_s = checked_id-same s s' got_s in
    let same'' : b'' ≡ record b { event_stream_id = some s; from_event_number = none } = cc in
    (rw (same, got), rw (same'', got), rw (same, got), dir, cmd, cc, rw (same'', got, same, made))
