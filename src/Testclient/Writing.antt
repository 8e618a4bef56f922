-- ===== src/Testclient/Writing.antt =====
-- From the command lines of a write and of a deletion in testclient/src/main.rs to their requests.
use eventstore_tcp.Prelude.{
  Str, Option, none, some, ok, unwrap, All, ◌<◌, ◌^◌, ◌≡◌, >>=-eq-ok, if◌then◌else◌,
}
use eventstore_tcp.Version.{ContentType, json, bytes}
use eventstore_tcp.Auth.{UsernamePassword}
use eventstore_tcp.Protobuf.{Protobuf}
use eventstore_tcp.Protobuf.Laws.{IsText, Fits}
use eventstore_tcp.Protobuf.Loop.{OptAll}
use eventstore_tcp.Crates.{Crates, IsCrates}
use eventstore_tcp.Message.NewEvent
use eventstore_tcp.Message.NewEvent.{NewEvent}
use eventstore_tcp.Raw.Validity.{IsValid}
use eventstore_tcp.Codec.{Package}
use eventstore_tcp.Builder.Package
use eventstore_tcp.Builder.Ranges.{checked_id-same, OptAll-unwrap}
use eventstore_tcp.Builder.Delete
use eventstore_tcp.Builder.Delete.{DeleteStreamBuilder}
use eventstore_tcp.Builder.Reuse.{delete_message-IsValid}
use eventstore_tcp.Builder.WriteEvents
use eventstore_tcp.Builder.WriteEvents.{WriteEventsBuilder, NewEventBuilder}
use eventstore_tcp.Builder.WriteEvents.Laws.{
  InRangeEvent, built-IsValid, done_sizes, empty-InRange, set_stream_id-InRange,
}
use eventstore_tcp.Testclient.Prepare.{
  WriteArgs, prepare_write, with_metadata, version_of, DeleteArgs, prepare_delete,
}
use eventstore_tcp.Testclient.Commands.{
  Config, Write, write_request, Delete as DeleteCommand, delete_request,
}
use eventstore_tcp.Testclient.Ranges.{version_of-IsExpected}

delete_packaged :
    {E Uuid : Type 0} (fresh : Uuid) (cred : Option UsernamePassword) (b b' : DeleteStreamBuilder)
    (pkg : Package Uuid)
    → Delete.build_package {E = E} fresh cred none b ≡ ok (pkg, b')
    → (b'' : DeleteStreamBuilder) × (Delete.build_message {E = E} b ≡ ok (pkg.message, b''))
unfolding Delete.build_package Package.build_package
delete_packaged fresh cred b b' pkg e =
    let ((msg, b''), got, e1) = >>=-eq-ok (Delete.build_message b) _ e in
    let message : pkg.message ≡ msg = cc in (b'', rw message got)

delete_sent :
    {E Uuid : Type 0} (fresh : Uuid) (config : Config) (b : DeleteStreamBuilder)
    (left : DeleteCommand) (pkg : Package Uuid)
    → delete_request {E = E} fresh config (record { builder = some b }) ≡ ok (pkg, left)
    → (b' : DeleteStreamBuilder) × (Delete.build_message {E = E} b ≡ ok (pkg.message, b'))
unfolding delete_request
delete_sent fresh config b left pkg e =
    let ((pkg', b1), got, e1) =
      >>=-eq-ok (Delete.build_package fresh config.credentials none b) _ e in
    let same : pkg ≡ pkg' = cc in rw same (delete_packaged fresh config.credentials b b1 pkg' got)

-- The request of a deletion has its text and its number in range, if the name of the stream is a text.
pub delete_command-IsValid :
    {E Uuid : Type 0} (p : Protobuf) (fresh : Uuid) (config : Config) (args : DeleteArgs)
    (b : DeleteStreamBuilder) (left : DeleteCommand) (pkg : Package Uuid)
    → OptAll IsText args.stream_id
    → prepare_delete {E = E} args ≡ ok b
    → delete_request {E = E} fresh config (record { builder = some b }) ≡ ok (pkg, left)
    → IsValid p pkg.message
unfolding prepare_delete Delete.set_stream_id Delete.set_expected_version Delete.set_hard_delete
    Delete.set_require_master
delete_command-IsValid p fresh config args b left pkg text prepared sent =
    let (id, g1, e1) = >>=-eq-ok (unwrap args.stream_id) _ prepared in
    let (b1, g2, e2) = >>=-eq-ok (Delete.set_stream_id id Delete.new) _ e1 in
    let (s, gs, es) = >>=-eq-ok (Package.checked_id id) _ g2 in
    let same_id = checked_id-same id s gs in
    let (arg, g3, e3) = >>=-eq-ok (unwrap args.expected_version) _ e2 in
    let (version, g4, e4) = >>=-eq-ok (version_of arg) _ e3 in
    let (b', built) = delete_sent fresh config b left pkg sent in
    let stream : b.event_stream_id ≡ some id = cc in
    let expected : b.expected_version ≡ some version = cc in
    delete_message-IsValid p b b' pkg.message
      (rw stream (OptAll-unwrap IsText args.stream_id id text g1))
      (rw expected (version_of-IsExpected arg version g4)) built

write_packaged :
    {E Uuid : Type 0} (fresh : Uuid) (cred : Option UsernamePassword) (b b' : WriteEventsBuilder)
    (pkg : Package Uuid)
    → WriteEvents.build_package {E = E} fresh cred none b ≡ ok (pkg, b')
    → (b'' : WriteEventsBuilder) × (WriteEvents.build_message {E = E} b ≡ ok (pkg.message, b''))
unfolding WriteEvents.build_package Package.build_package
write_packaged fresh cred b b' pkg e =
    let ((msg, b''), got, e1) = >>=-eq-ok (WriteEvents.build_message b) _ e in
    let message : pkg.message ≡ msg = cc in (b'', rw message got)

pub write_sent :
    {E Uuid : Type 0} (fresh : Uuid) (config : Config) (b : WriteEventsBuilder) (left : Write)
    (pkg : Package Uuid)
    → write_request {E = E} fresh config (record { builder = some b }) ≡ ok (pkg, left)
    → (b' : WriteEventsBuilder) × (WriteEvents.build_message {E = E} b ≡ ok (pkg.message, b'))
unfolding write_request
write_sent fresh config b left pkg e =
    let ((pkg', b1), got, e1) =
      >>=-eq-ok (WriteEvents.build_package fresh config.credentials none b) _ e in
    let same : pkg ≡ pkg' = cc in rw same (write_packaged fresh config.credentials b b1 pkg' got)

-- The arguments of a write that are texts, and blocks that a length can tell.
pub record IsWritable (args : WriteArgs) : Type 0 where
  pub stream_id : OptAll IsText args.stream_id
  pub event_type : OptAll IsText args.event_type
  pub event_data : OptAll Fits args.event_data
  pub metadata : OptAll Fits args.metadata

with_metadata-InRange :
    {Uuid : Type 0} (p : Protobuf) (t : ContentType) (arg : Option Str) (e : NewEventBuilder Uuid)
    → OptAll Fits arg
    → InRangeEvent p e
    → InRangeEvent p (with_metadata t arg e)
unfolding with_metadata WriteEvents.set_metadata WriteEvents.set_metadata_content_type
with_metadata-InRange p t none e fits h = h
with_metadata-InRange p t (some m) e fits h = record {
  parent = h.parent;
  event_type = h.event_type;
  data_bytes = h.data_bytes;
  metadata = fits;
}

-- The request of a write has its texts, lengths and numbers in range, if its arguments are texts and
-- blocks in range, and the event that they make can be told by a length.
pub write_command-IsValid :
    {E Uuid Buf : Type 0} {c : Crates Uuid Buf} (q : IsCrates c) (p : Protobuf) (fresh : Uuid)
    (config : Config) (args : WriteArgs) (b : WriteEventsBuilder) (left : Write)
    (pkg : Package Uuid)
    → IsWritable args
    → prepare_write {E = E} c fresh args ≡ ok b
    → All (λ x. NewEvent.get_size p x < 2 ^ 31) b.events
    → write_request {E = E} fresh config (record { builder = some b }) ≡ ok (pkg, left)
    → IsValid p pkg.message
unfolding prepare_write WriteEvents.set_expected_version WriteEvents.set_require_master
    WriteEvents.new_event WriteEvents.set_data WriteEvents.set_data_content_type
    WriteEvents.set_event_type
write_command-IsValid {c = c} q p fresh config args b left pkg set prepared sizes sent =
    let content_type = if args.as_json then json else bytes in
    let (id, g1, e1) = >>=-eq-ok (unwrap args.stream_id) _ prepared in
    let (b1, g2, e2) = >>=-eq-ok (WriteEvents.set_stream_id id WriteEvents.new) _ e1 in
    let (arg, g3, e3) = >>=-eq-ok (unwrap args.expected_version) _ e2 in
    let (version, g4, e4) = >>=-eq-ok (version_of arg) _ e3 in
    let (d, g5, e5) = >>=-eq-ok (unwrap args.event_data) _ e4 in
    let (ty, g6, e6) = >>=-eq-ok (unwrap args.event_type) _ e5 in
    let (b', built) = write_sent fresh config b left pkg sent in
    let named = OptAll-unwrap IsText args.stream_id id set.stream_id g1 in
    let started = set_stream_id-InRange p WriteEvents.new b1 id (empty-InRange p) named g2 in
    built-IsValid p b b' pkg.message
      (done_sizes p q fresh _ b
        (with_metadata-InRange p content_type args.metadata _ set.metadata (record {
          parent = record {
            stream = started.stream;
            version = version_of-IsExpected arg version g4;
            events = started.events;
          };
          event_type = OptAll-unwrap IsText args.event_type ty set.event_type g6;
          data_bytes = OptAll-unwrap Fits args.event_data d set.event_data g5;
          metadata = tt;
        }))
        sizes e6)
      built
