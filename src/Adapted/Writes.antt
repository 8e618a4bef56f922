-- ===== src/Adapted/Writes.antt =====
-- src/adapted/write_events.rs, and the conversions of `WriteEventsCompleted` in src/adapted/mod.rs.
pub mod Laws
pub mod Refusals
use eventstore_tcp.Prelude.{
  ℕ, zero, suc, Bool, true, false, Option, none, some, Outcome, ok, err, panic, stuck, ◌>>=◌,
  map_err, ◌+◌, ◌-◌, ◌^◌, ◌==◌, if◌then◌else◌, ltb,
}
use eventstore_tcp.Prelude.Int.{ℤ, pos, negsuc}
use eventstore_tcp.Errors.{
  ErrorKind, missing_result_field, write_events_invalid_transaction, ResultStatusKind,
}
use eventstore_tcp.Version.{StreamVersion, try_from_i32, version_to_i32}
use eventstore_tcp.Position.{LogPosition, from_i64, into_i64}
use eventstore_tcp.Message.Enums.{OperationResult}
use eventstore_tcp.Adapted.Keeps.{Result, success, failure}
use eventstore_tcp.Message.WriteEventsCompleted.{WriteEventsCompleted as RawCompleted}

-- `Range<StreamVersion>`
pub record VersionRange : Type 0 where
  pub start : StreamVersion
  pub end : StreamVersion

pub record WriteEventsCompleted : Type 0 where
  pub event_numbers : VersionRange
  pub prepare_position : Option LogPosition
  pub commit_position : Option LogPosition

pub data WriteEventsFailure : Type 0 where
  prepare_timeout commit_timeout forward_timeout : WriteEventsFailure
  wrong_expected_version stream_deleted access_denied : WriteEventsFailure

unfoldable pub is_transient : WriteEventsFailure → Bool
is_transient prepare_timeout = true
is_transient commit_timeout = true
is_transient forward_timeout = true
is_transient _ = false

-- `From<OperationResult>`, with its `unreachable!()`
unfoldable pub from_operation_result : {E : Type 0} → OperationResult → Outcome E WriteEventsFailure
from_operation_result OperationResult.success = panic
from_operation_result OperationResult.invalid_transaction = panic
from_operation_result OperationResult.prepare_timeout = ok prepare_timeout
from_operation_result OperationResult.commit_timeout = ok commit_timeout
from_operation_result OperationResult.forward_timeout = ok forward_timeout
from_operation_result OperationResult.wrong_expected_version = ok wrong_expected_version
from_operation_result OperationResult.stream_deleted = ok stream_deleted
from_operation_result OperationResult.access_denied = ok access_denied

-- `Into<OperationResult>`
unfoldable pub into_operation_result : WriteEventsFailure → OperationResult
into_operation_result prepare_timeout = OperationResult.prepare_timeout
into_operation_result commit_timeout = OperationResult.commit_timeout
into_operation_result forward_timeout = OperationResult.forward_timeout
into_operation_result wrong_expected_version = OperationResult.wrong_expected_version
into_operation_result stream_deleted = OperationResult.stream_deleted
into_operation_result access_denied = OperationResult.access_denied

-- `i + 1` on an `i32`: at `i32::max_value()` it panics with overflow checks, and wraps without.
unfoldable pub succ_i32 : {E : Type 0} → Bool → ℤ → Outcome E ℤ
succ_i32 checks (pos n) =
    if n == 2 ^ 31 - 1
    then (if checks then panic else ok (negsuc (2 ^ 31 - 1)))
    else ok (pos (n + 1))
succ_i32 checks (negsuc zero) = ok (pos 0)
succ_i32 checks (negsuc (suc n)) = ok (negsuc n)

-- `i - 1` on an `i32`.
unfoldable pub pred_i32 : {E : Type 0} → Bool → ℤ → Outcome E ℤ
pred_i32 checks (pos zero) = ok (negsuc 0)
pred_i32 checks (pos (suc n)) = ok (pos n)
pred_i32 checks (negsuc n) =
    if n == 2 ^ 31 - 1
    then (if checks then panic else ok (pos (2 ^ 31 - 1)))
    else ok (negsuc (n + 1))

unfoldable pub range_from_parts : Bool → ℤ → ℤ → Outcome ErrorKind VersionRange
range_from_parts checks start end = do
  first ← try_from_i32 start
  next ← succ_i32 checks end
  last ← try_from_i32 next
  ok (record { start = first; end = last })

unfoldable pub range_to_parts : {E : Type 0} → Bool → VersionRange → Outcome E (ℤ × ℤ)
range_to_parts checks r = do
  let start = version_to_i32 r.start
  end ← pred_i32 checks (version_to_i32 r.end)
  ok (start, end)

-- `position.map(|x| x.into())`, from and to `i64`
unfoldable pub map_from_i64 : {E : Type 0} → Option ℤ → Outcome E (Option LogPosition)
map_from_i64 none = ok none
map_from_i64 (some i) = from_i64 i >>= λ p. ok (some p)

unfoldable pub map_into_i64 : Option LogPosition → Option ℤ
map_into_i64 none = none
map_into_i64 (some p) = some (into_i64 p)

-- The error of a conversion keeps the message that was to be converted.
abbrev pub Rejected : Type 0
Rejected = RawCompleted × ErrorKind

-- The arm `Success`.
completed : Bool → RawCompleted → Outcome Rejected WriteEventsCompleted
completed checks msg = do
  range ←
      map_err (λ e. (msg, e)) (range_from_parts checks msg.first_event_number msg.last_event_number)
  prepare ← map_from_i64 msg.prepare_position
  commit ← map_from_i64 msg.commit_position
  ok (record { event_numbers = range; prepare_position = prepare; commit_position = commit })

-- The `match` on the status.
by_status :
    Bool
    → RawCompleted
    → OperationResult
    → Outcome Rejected (Result WriteEventsCompleted WriteEventsFailure)
by_status checks msg OperationResult.success = completed checks msg >>= λ x. ok (success x)
by_status checks msg OperationResult.invalid_transaction =
    err (msg, write_events_invalid_transaction)
by_status checks msg other = from_operation_result other >>= λ f. ok (failure f)

-- The check that there is a status.
on_status :
    Bool
    → RawCompleted
    → Option OperationResult
    → Outcome Rejected (Result WriteEventsCompleted WriteEventsFailure)
unfolding by_status
on_status checks msg none = err (msg, missing_result_field ResultStatusKind.write_events)
on_status checks msg (some status) = by_status checks msg status

-- `CustomTryFrom<raw::client_messages::WriteEventsCompleted>`
unfoldable pub try_from :
    Bool → RawCompleted → Outcome Rejected (Result WriteEventsCompleted WriteEventsFailure)
unfolding on_status by_status completed
try_from checks msg = on_status checks msg msg.result

-- `as_raw` of a completed write, and of a failed one
unfoldable pub completed_as_raw :
    {E : Type 0} → Bool → WriteEventsCompleted → Outcome E RawCompleted
completed_as_raw checks x = do
  (start, end) ← range_to_parts checks x.event_numbers
  ok (record {
    result = some OperationResult.success;
    message = none;
    first_event_number = start;
    last_event_number = end;
    prepare_position = map_into_i64 x.prepare_position;
    commit_position = map_into_i64 x.commit_position;
  })

unfoldable pub failure_as_raw : WriteEventsFailure → RawCompleted
failure_as_raw f = record {
  result = some (into_operation_result f);
  message = none;
  first_event_number = negsuc 0;
  last_event_number = negsuc 0;
  prepare_position = none;
  commit_position = none;
}
