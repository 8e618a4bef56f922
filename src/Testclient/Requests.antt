-- ===== src/Testclient/Requests.antt =====
-- The request that `ReadMode::into_request` of testclient/src/read.rs sends, for every mode, count and
-- stream.
use eventstore_tcp.Prelude.{
  ℕ, Str, Option, none, some, ok, ◌<◌, ◌≡◌, >>=-eq-ok, ◌==◌, Bool-cases, inl, inr,
}
use eventstore_tcp.Auth.{UsernamePassword}
use eventstore_tcp.Protobuf.{Protobuf}
use eventstore_tcp.Protobuf.Laws.{IsText}
use eventstore_tcp.Raw.{ReadDirection}
use eventstore_tcp.Raw.Validity.{IsValid}
use eventstore_tcp.Codec.{Package}
use eventstore_tcp.Builder.Package
use eventstore_tcp.Builder.Ranges.{checked_id-same, checked_count-same}
use eventstore_tcp.Builder.ReadEvent
use eventstore_tcp.Builder.ReadEvent.{ReadEventBuilder}
use eventstore_tcp.Builder.ReadStream
use eventstore_tcp.Builder.ReadStream.{ReadStreamEventsBuilder}
use eventstore_tcp.Builder.ReadAll
use eventstore_tcp.Builder.ReadAll.{ReadAllEventsBuilder}
use eventstore_tcp.Builder.Reuse.{read_event_message-IsValid, read_all_message-IsValid}
use eventstore_tcp.Builder.Laws.{InRange, build_message-IsValid}
use eventstore_tcp.Testclient.Parse.{eq_str}
use eventstore_tcp.Testclient.Read.{
  Position, ReadMode, direction_of, position_in, count_in, all_stream, one_event, all_events,
  stream_events, into_request, into_event_number, into_log_position,
}
use eventstore_tcp.Testclient.Ranges.{
  IsReadPosition, ok-subst, into_event_number-IsNumber, into_log_position-IsPosition,
}

max_count_set :
    {E : Type 0} (count : ℕ) (b b' : ReadAllEventsBuilder)
    → ReadAll.set_max_count {E = E} count b ≡ ok b'
    → b' ≡ record b { max_count = some count }
unfolding ReadAll.set_max_count
max_count_set count b b' e =
    let (n, gn, en) = >>=-eq-ok (Package.checked_count count) _ e in
    let same_count = checked_count-same count n gn in cc

all_events_message :
    {E Uuid : Type 0} (fresh : Uuid) (cred : Option UsernamePassword) (b b' : ReadAllEventsBuilder)
    (pkg : Package Uuid)
    → ReadAll.build_package {E = E} fresh cred none b ≡ ok (pkg, b')
    → (b'' : ReadAllEventsBuilder) × (ReadAll.build_message {E = E} b ≡ ok (pkg.message, b''))
unfolding ReadAll.build_package Package.build_package
all_events_message fresh cred b b' pkg e =
    let ((msg, b''), gm, e1) = >>=-eq-ok (ReadAll.build_message b) _ e in
    let message : pkg.message ≡ msg = cc in (b'', rw message gm)

module _ {E Uuid : Type 0} (p : Protobuf) (fresh : Uuid) (cred : Option UsernamePassword) where
  one_event-IsValid :
      (id : Str) (position : Position) (pkg : Package Uuid)
      → IsText id
      → IsReadPosition position
      → one_event {E = E} fresh id cred position ≡ ok pkg
      → IsValid p pkg.message
  unfolding one_event ReadEvent.set_stream_id ReadEvent.set_event_number
      ReadEvent.set_resolve_link_tos ReadEvent.set_require_master ReadEvent.build_package
      Package.build_package
  one_event-IsValid id position pkg text range e =
      let (b1, g1, e1) = >>=-eq-ok (ReadEvent.set_stream_id id ReadEvent.new) _ e in
      let (s, gs, es) = >>=-eq-ok (Package.checked_id id) _ g1 in
      let same_id = checked_id-same id s gs in
      let (number, gn, e2) = >>=-eq-ok (into_event_number position) _ e1 in
      let ((pkg', b'), gp, e3) = >>=-eq-ok (ReadEvent.build_package fresh cred none _) _ e2 in
      let ((msg, b''), gm, e4) = >>=-eq-ok (ReadEvent.build_message _) _ gp in
      let fields : b1 ≡ record (ReadEvent.new) { event_stream_id = some id } = cc in
      let message : pkg.message ≡ msg = cc in
      rw message
        (read_event_message-IsValid p _ b'' msg (rw fields text)
          (into_event_number-IsNumber position number range gn) gm).0

  all_events-IsValid :
      (dir : ReadDirection) (position : Position) (count : ℕ) (pkg : Package Uuid)
      → IsReadPosition position
      → count < 256
      → all_events {E = E} fresh cred dir position count ≡ ok pkg
      → IsValid p pkg.message
  unfolding all_events ReadAll.set_direction ReadAll.set_positions
  all_events-IsValid dir position count pkg range small e =
      let ((commit, prepare), gc, e1) = >>=-eq-ok (into_log_position position) _ e in
      let b1 = ReadAll.set_positions commit prepare (ReadAll.set_direction dir ReadAll.new) in
      let (b2, g2, e2) = >>=-eq-ok (ReadAll.set_max_count count b1) _ e1 in
      let fields = max_count_set count b1 b2 g2 in
      let ((pkg', b'), gp, e3) = >>=-eq-ok (ReadAll.build_package fresh cred none b2) _ e2 in
      let (b'', gm) = all_events_message fresh cred b2 b' pkg' gp in
      let (commit_ok, prepare_ok) = into_log_position-IsPosition position commit prepare range gc in
      ok-subst (λ x. IsValid p x.message) pkg' pkg e3
        (read_all_message-IsValid p b2 b'' pkg'.message (rw fields commit_ok) (rw fields prepare_ok)
          (rw fields small) gm)

  stream_events-IsValid :
      (id : Str) (dir : ReadDirection) (position : Position) (count : ℕ) (pkg : Package Uuid)
      → IsText id
      → IsReadPosition position
      → count < 256
      → stream_events {E = E} fresh id cred dir position count ≡ ok pkg
      → IsValid p pkg.message
  unfolding stream_events ReadStream.set_direction ReadStream.set_stream_id
      ReadStream.set_from_event_number ReadStream.set_max_count ReadStream.build_package
      Package.build_package
  stream_events-IsValid id dir position count pkg text range small e =
      let (b1, g1, e1) =
        >>=-eq-ok (ReadStream.set_stream_id id (ReadStream.set_direction dir ReadStream.new)) _ e in
      let (s, gs, es) = >>=-eq-ok (Package.checked_id id) _ g1 in
      let same_id = checked_id-same id s gs in
      let (number, gn, e2) = >>=-eq-ok (into_event_number position) _ e1 in
      let (b2, g2, e3) =
        >>=-eq-ok (ReadStream.set_max_count count (ReadStream.set_from_event_number number b1)) _
          e2 in
      let (n, gc, en) = >>=-eq-ok (Package.checked_count count) _ g2 in
      let same_count = checked_count-same count n gc in
      let ((pkg', b'), gp, e4) = >>=-eq-ok (ReadStream.build_package fresh cred none b2) _ e3 in
      let ((msg, b''), gm, e5) = >>=-eq-ok (ReadStream.build_message b2) _ gp in
      let fields : b2 ≡ record (ReadStream.new) {
        direction = some dir;
        event_stream_id = some id;
        from_event_number = some number;
        max_count = some count;
      } =
        cc in
      let message : pkg.message ≡ msg = cc in
      let numbered = into_event_number-IsNumber position number range gn in
      let set : InRange b2 =
        rw fields (record { stream = text; number = numbered; count = small }) in
      rw message (build_message-IsValid p b2 b'' msg set gm)

  -- Whatever request a read sends, in every mode, of every count and from every position, it can be
  -- sent and read back, if the stream is a text and the position and the count, a `u8`, are in range.
  pub into_request-IsValid :
      (mode : ReadMode) (id : Str) (pkg : Package Uuid)
      → IsText id
      → IsReadPosition (position_in mode)
      → count_in mode < 256
      → into_request {E = E} fresh mode id cred ≡ ok pkg
      → IsValid p pkg.message
  unfolding into_request
  into_request-IsValid mode id pkg text range small e = elim (Bool-cases (count_in mode == 1)) [
    | inl one ↦ one_event-IsValid id (position_in mode) pkg text range (let h = rw one at e in h)
    | inr more ↦ elim (Bool-cases (eq_str id all_stream)) [
      | inl all ↦
          all_events-IsValid (direction_of mode) (position_in mode) (count_in mode) pkg range small
            (let h = rw (more, all) at e in h)
      | inr other ↦
          stream_events-IsValid id (direction_of mode) (position_in mode) (count_in mode) pkg text
            range small (let h = rw (more, other) at e in h)
    ]
  ]
