-- ===== src/Builder/Reuse.antt =====
-- What the builders of src/builder.rs for ReadEvent, DeleteStream and ReadAllEvents build, and what
-- is left in them for the next request.
use eventstore_tcp.Prelude.{
  ℕ, true, false, Str, none, some, ok, panic, ◌<◌, ◌≡◌, refl, arith, unwrap, unwrap_or, >>=-eq-ok,
  Outcome, err, stuck, ◌>>=◌,
}
use eventstore_tcp.Prelude.Int.{pos}
use eventstore_tcp.Version.{
  EventNumber, ExpectedVersion, event_number_to_i32, expected_version_to_i32,
}
use eventstore_tcp.Version.Wire.{IsNumber, IsExpected}
use eventstore_tcp.Position.{LogPosition, into_i64}
use eventstore_tcp.Position.Laws.{IsPosition}
use eventstore_tcp.Protobuf.{Protobuf}
use eventstore_tcp.Protobuf.Laws.{IsText}
use eventstore_tcp.Protobuf.Loop.{OptAll}
use eventstore_tcp.Raw.{RawMessage, ReadDirection, read_event, delete_stream, read_all_events}
use eventstore_tcp.Raw.Validity.{IsValid}
use eventstore_tcp.Builder.Package.{checked_id}
use eventstore_tcp.Builder.Ranges.{
  IsI32-event_number_to_i32, IsI32-expected_version_to_i32, IsI64-into_i64, OptAll-unwrap,
}
use eventstore_tcp.Builder.ReadEvent
use eventstore_tcp.Builder.ReadEvent.{ReadEventBuilder}
use eventstore_tcp.Builder.Delete
use eventstore_tcp.Builder.Delete.{DeleteStreamBuilder}
use eventstore_tcp.Builder.ReadAll
use eventstore_tcp.Builder.ReadAll.{ReadAllEventsBuilder}

-- The request of a read of one event and the builder that is left, from a build that returned.
built_read_event :
    {E : Type 0} (b b' : ReadEventBuilder) (m : RawMessage)
    → ReadEvent.build_message {E = E} b ≡ ok (m, b')
    → (id : Str) × (n : EventNumber) × (unwrap {E = E} b.event_stream_id ≡ ok id)
      × (unwrap {E = E} b.event_number ≡ ok n)
      × (m
          ≡ read_event (record {
            event_stream_id = id;
            event_number = event_number_to_i32 n;
            resolve_link_tos = unwrap_or b.resolve_link_tos true;
            require_master = unwrap_or b.require_master false;
          }))
      × (b' ≡ ReadEvent.new)
unfolding ReadEvent.build_message ReadEvent.build_command
built_read_event b b' m e =
    let ((cmd, b1), got, e1) = >>=-eq-ok (ReadEvent.build_command b) _ e in
    let (id, gi, e2) = >>=-eq-ok (unwrap b.event_stream_id) _ got in
    let (n, gn, e3) = >>=-eq-ok (unwrap b.event_number) _ e2 in (id, n, gi, gn, cc, cc)

-- A read of one event that was built has its text and its number in range, if what was set is in range, and the
-- builder is left as a new one.
pub read_event_message-IsValid :
    {E : Type 0} (p : Protobuf) (b b' : ReadEventBuilder) (m : RawMessage)
    → OptAll IsText b.event_stream_id
    → OptAll IsNumber b.event_number
    → ReadEvent.build_message {E = E} b ≡ ok (m, b')
    → IsValid p m × (b' ≡ ReadEvent.new)
read_event_message-IsValid p b b' m text number e =
    let (id, n, gi, gn, same, left) = built_read_event b b' m e in
    (
      rw same (record {
        event_stream_id = OptAll-unwrap IsText b.event_stream_id id text gi;
        event_number =
            IsI32-event_number_to_i32 n (OptAll-unwrap IsNumber b.event_number n number gn);
      }),
      left,
    )

built_delete :
    {E : Type 0} (b b' : DeleteStreamBuilder) (m : RawMessage)
    → Delete.build_message {E = E} b ≡ ok (m, b')
    → (id : Str) × (v : ExpectedVersion) × (unwrap {E = E} b.event_stream_id ≡ ok id)
      × (unwrap {E = E} b.expected_version ≡ ok v)
      × (m
          ≡ delete_stream (record {
            event_stream_id = id;
            expected_version = expected_version_to_i32 v;
            require_master = unwrap_or b.require_master false;
            hard_delete = some (unwrap_or b.hard_delete false);
          }))
      × (b' ≡ record b { event_stream_id = none; expected_version = none })
unfolding Delete.build_message
built_delete b b' m e =
    let (id, gi, e2) = >>=-eq-ok (unwrap b.event_stream_id) _ e in
    let (v, gv, e3) = >>=-eq-ok (unwrap b.expected_version) _ e2 in (id, v, gi, gv, cc, cc)

-- A request to delete a stream that was built is in range, if what was set is.
pub delete_message-IsValid :
    {E : Type 0} (p : Protobuf) (b b' : DeleteStreamBuilder) (m : RawMessage)
    → OptAll IsText b.event_stream_id
    → OptAll IsExpected b.expected_version
    → Delete.build_message {E = E} b ≡ ok (m, b')
    → IsValid p m
delete_message-IsValid p b b' m text version e =
    let (id, v, gi, gv, same, left) = built_delete b b' m e in
    rw same (record {
      event_stream_id = OptAll-unwrap IsText b.event_stream_id id text gi;
      expected_version =
          IsI32-expected_version_to_i32 v
            (OptAll-unwrap IsExpected b.expected_version v version gv);
    })

-- Setting a stream and a version, and building.
abbrev refill :
    {E : Type 0}
    → Str
    → ExpectedVersion
    → DeleteStreamBuilder
    → Outcome E (RawMessage × DeleteStreamBuilder)
refill id v b = do
  b' ← Delete.set_stream_id id b
  Delete.build_message (Delete.set_expected_version v b')

refill-same :
    {E : Type 0} (o : Outcome E Str) (b : DeleteStreamBuilder) (v : ExpectedVersion)
    → ((o >>= λ s. ok (record b { event_stream_id = some s; expected_version = none })) >>= λ b'.
        Delete.build_message {E = E} (Delete.set_expected_version v b'))
      ≡ ((o >>= λ s. ok (record b { event_stream_id = some s })) >>= λ b'.
          Delete.build_message {E = E} (Delete.set_expected_version v b'))
unfolding Delete.set_expected_version
refill-same (ok s) b v = refl
refill-same (err x) b v = refl
refill-same panic b v = refl
refill-same stuck b v = refl

-- A DeleteStreamBuilder that built a request panics when it is asked for another, and when it is given
-- a stream and a version again it builds the request that it would have built of them before, with
-- the same two flags.
pub delete_keeps_flags :
    {E : Type 0} (b b' : DeleteStreamBuilder) (m : RawMessage) (id : Str) (v : ExpectedVersion)
    → Delete.build_message {E = E} b ≡ ok (m, b')
    → (Delete.build_message {E = E} b' ≡ panic) × (refill {E = E} id v b' ≡ refill id v b)
unfolding Delete.build_message Delete.set_stream_id
delete_keeps_flags b b' m id v e =
    let (i, w, gi, gv, same, left) = built_delete b b' m e in
    (rw left, rw left (refill-same (checked_id id) b v))

built_read_all :
    {E : Type 0} (b b' : ReadAllEventsBuilder) (m : RawMessage)
    → ReadAll.build_message {E = E} b ≡ ok (m, b')
    → (dir : ReadDirection) × (commit : LogPosition) × (prepare : LogPosition) × (count : ℕ)
      × (unwrap {E = E} b.commit_position ≡ ok commit)
      × (unwrap {E = E} b.prepare_position ≡ ok prepare)
      × (unwrap {E = E} b.max_count ≡ ok count)
      × (m
          ≡ read_all_events dir (record {
            commit_position = into_i64 commit;
            prepare_position = into_i64 prepare;
            max_count = pos count;
            resolve_link_tos = unwrap_or b.resolve_link_tos true;
            require_master = unwrap_or b.require_master true;
          }))
      × (b' ≡ record b { direction = none })
unfolding ReadAll.build_message
built_read_all b b' m e =
    let (dir, gd, e1) = >>=-eq-ok (unwrap b.direction) _ e in
    let (commit, gc, e2) = >>=-eq-ok (unwrap b.commit_position) _ e1 in
    let (prepare, gp, e3) = >>=-eq-ok (unwrap b.prepare_position) _ e2 in
    let (count, gn, e4) = >>=-eq-ok (unwrap b.max_count) _ e3 in
    (dir, commit, prepare, count, gc, gp, gn, cc, cc)

-- A read of all events that was built has its numbers in range, if the positions and the count, a
-- `u8`, are in range.
pub read_all_message-IsValid :
    {E : Type 0} (p : Protobuf) (b b' : ReadAllEventsBuilder) (m : RawMessage)
    → OptAll IsPosition b.commit_position
    → OptAll IsPosition b.prepare_position
    → OptAll (λ n. n < 256) b.max_count
    → ReadAll.build_message {E = E} b ≡ ok (m, b')
    → IsValid p m
read_all_message-IsValid p b b' m commit_ok prepare_ok count_ok e =
    let (dir, commit, prepare, count, gc, gp, gn, same, left) = built_read_all b b' m e in
    let small = OptAll-unwrap (λ n. n < 256) b.max_count count count_ok gn in
    rw same (record {
      commit_position =
          IsI64-into_i64 commit (OptAll-unwrap IsPosition b.commit_position commit commit_ok gc);
      prepare_position =
          IsI64-into_i64 prepare
            (OptAll-unwrap IsPosition b.prepare_position prepare prepare_ok gp);
      max_count = omega (arith, small);
    })

-- A ReadAllEventsBuilder that built a request panics when it is asked for another, and once it has a
-- direction again, and nothing else, it builds what it would have built in that direction before.
pub read_all_keeps :
    {E : Type 0} (b b' : ReadAllEventsBuilder) (m : RawMessage) (dir : ReadDirection)
    → ReadAll.build_message {E = E} b ≡ ok (m, b')
    → (ReadAll.build_message {E = E} b' ≡ panic)
      × (ReadAll.build_message {E = E} (ReadAll.set_direction dir b')
          ≡ ReadAll.build_message (ReadAll.set_direction dir b))
unfolding ReadAll.build_message ReadAll.set_direction
read_all_keeps b b' m dir e =
    let (d, commit, prepare, count, gc, gp, gn, same, left) = built_read_all b b' m e in
    (rw left, rw left)
