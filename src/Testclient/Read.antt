-- ===== src/Testclient/Read.antt =====
-- `Position`, `ReadMode` and `OutputMode` of testclient/src/read.rs, and the request of a read.
use eventstore_tcp.Prelude.{
  ℕ, true, false, Str, Option, none, some, Outcome, ok, err, panic, stuck, ◌>>=◌, unwrap, [], ◌∷◌,
  ◌^◌, ◌-◌, if◌then◌else◌, ◌==◌,
}
use eventstore_tcp.Version.{StreamVersion, EventNumber, try_from_u32}
use eventstore_tcp.Position.{LogPosition, from_i64}
use eventstore_tcp.Auth.{UsernamePassword}
use eventstore_tcp.Raw.{ReadDirection}
use eventstore_tcp.Codec.{Package}
use eventstore_tcp.Builder.ReadEvent
use eventstore_tcp.Builder.ReadStream
use eventstore_tcp.Builder.ReadAll
use eventstore_tcp.Testclient.Parse.{eq_str, split_comma, parse_unsigned, parse_i64}

pub data Position : Type 0 where
  first : Position
  exact : StreamVersion → Position
  log : LogPosition → LogPosition → Position
  last : Position

unfoldable pub into_log_position : {E : Type 0} → Position → Outcome E (LogPosition × LogPosition)
into_log_position (log a b) = ok (a, b)
into_log_position first = ok (LogPosition.first, LogPosition.first)
into_log_position last = ok (LogPosition.last, LogPosition.last)
into_log_position (exact v) = panic

unfoldable pub into_event_number : {E : Type 0} → Position → Outcome E EventNumber
into_event_number first = ok EventNumber.first
into_event_number (exact x) = ok (EventNumber.exact x)
into_event_number last = ok EventNumber.last
into_event_number (log commit prepare) = panic

-- `Result::unwrap` and `Result::expect`
unfoldable pub expect : {E F A : Type 0} → Outcome F A → Outcome E A
expect (ok a) = ok a
expect (err e) = panic
expect panic = panic
expect stuck = stuck

abbrev pub first_name : Str
first_name = 102 ∷ 105 ∷ 114 ∷ 115 ∷ 116 ∷ []

abbrev pub last_name : Str
last_name = 108 ∷ 97 ∷ 115 ∷ 116 ∷ []

-- The arm of `From<&str>` for a name that is neither: two pieces are a position in the log, and what
-- stands behind a second comma is not looked at.
unfoldable pub log_or_number : {E : Type 0} → Str → Str × Option Str → Outcome E Position
unfolding expect
log_or_number x (a, some rest) = do
  i ← unwrap (parse_i64 a)
  commit ← from_i64 i
  j ← unwrap (parse_i64 (split_comma rest).0)
  prepare ← from_i64 j
  ok (log commit prepare)
log_or_number x (a, none) = do
  num ← unwrap (parse_unsigned (2 ^ 32 - 1) x)
  v ← expect (try_from_u32 num)
  ok (exact v)

-- `From<&str> for Position`
unfoldable pub position_of : {E : Type 0} → Str → Outcome E Position
unfolding log_or_number
position_of s =
    if eq_str s first_name
    then ok first
    else if eq_str s last_name
    then ok last
    else log_or_number s (split_comma s)

pub data ReadMode : Type 0 where
  forward_once : Position → ℕ → ReadMode
  backward : Position → ℕ → ReadMode

unfoldable pub direction_of : ReadMode → ReadDirection
direction_of (forward_once position count) = ReadDirection.forward
direction_of (backward position count) = ReadDirection.backward

abbrev pub position_in : ReadMode → Position
position_in (forward_once position count) = position
position_in (backward position count) = position

abbrev pub count_in : ReadMode → ℕ
count_in (forward_once position count) = count
count_in (backward position count) = count

-- "$all"
abbrev pub all_stream : Str
all_stream = 36 ∷ 97 ∷ 108 ∷ 108 ∷ []

module _ {E Uuid : Type 0} (fresh : Uuid) where
  -- The arm for a count of one.
  unfoldable pub one_event : Str → Option UsernamePassword → Position → Outcome E (Package Uuid)
  one_event stream_id cred position = do
    b1 ← ReadEvent.set_stream_id stream_id ReadEvent.new
    number ← into_event_number position
    let b2 = ReadEvent.set_event_number number b1
    let b3 = ReadEvent.set_require_master false (ReadEvent.set_resolve_link_tos true b2)
    (pkg, _) ← ReadEvent.build_package fresh cred none b3
    ok pkg

  unfoldable pub all_events :
      Option UsernamePassword → ReadDirection → Position → ℕ → Outcome E (Package Uuid)
  all_events cred dir position count = do
    (commit, prepare) ← into_log_position position
    let b1 = ReadAll.set_positions commit prepare (ReadAll.set_direction dir ReadAll.new)
    b2 ← ReadAll.set_max_count count b1
    (pkg, _) ← ReadAll.build_package fresh cred none b2
    ok pkg

  unfoldable pub stream_events :
      Str → Option UsernamePassword → ReadDirection → Position → ℕ → Outcome E (Package Uuid)
  stream_events stream_id cred dir position count = do
    b1 ← ReadStream.set_stream_id stream_id (ReadStream.set_direction dir ReadStream.new)
    number ← into_event_number position
    b2 ← ReadStream.set_max_count count (ReadStream.set_from_event_number number b1)
    (pkg, _) ← ReadStream.build_package fresh cred none b2
    ok pkg

  -- `ReadMode::into_request`
  unfoldable pub into_request : ReadMode → Str → Option UsernamePassword → Outcome E (Package Uuid)
  into_request mode stream_id cred =
      if count_in mode == 1
      then one_event stream_id cred (position_in mode)
      else if eq_str stream_id all_stream
      then all_events cred (direction_of mode) (position_in mode) (count_in mode)
      else stream_events stream_id cred (direction_of mode) (position_in mode) (count_in mode)
