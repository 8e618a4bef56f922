-- ===== src/Adapted/Writes/Refusals.antt =====
-- What the conversion of `WriteEventsCompleted` of src/adapted/mod.rs gives back with an error.
use eventstore_tcp.Prelude.{Bool, Option, none, some, err, ◌≡◌}
use eventstore_tcp.Prelude.Int.{ℤ}
use eventstore_tcp.Errors.{ErrorKind}
use eventstore_tcp.Position.{from_i64}
use eventstore_tcp.Message.Enums.{OperationResult}
use eventstore_tcp.Message.WriteEventsCompleted.{WriteEventsCompleted as RawCompleted}
use eventstore_tcp.Adapted.Keeps.{
  success, Keeps, Keeps-ok, Keeps-err, Keeps->>=, Keeps-map_err, Keeps-from_i64,
}
use eventstore_tcp.Adapted.Writes.{
  success, from_operation_result, range_from_parts, map_from_i64, on_status, by_status, completed,
  try_from,
}

module _ {M : Type 0} {msg : M} where
  Keeps-map_from_i64 : (o : Option ℤ) → Keeps msg (map_from_i64 o)
  unfolding map_from_i64
  Keeps-map_from_i64 none = Keeps-ok none
  Keeps-map_from_i64 (some i) = Keeps->>= (from_i64 i) _ (Keeps-from_i64 i) (λ p. Keeps-ok (some p))

completed-Keeps : (checks : Bool) (msg : RawCompleted) → Keeps msg (completed checks msg)
unfolding completed
completed-Keeps checks msg =
    Keeps->>= _ _
      (Keeps-map_err (range_from_parts checks msg.first_event_number msg.last_event_number))
      (λ range.
        Keeps->>= _ _ (Keeps-map_from_i64 msg.prepare_position) (λ prepare.
          Keeps->>= _ _ (Keeps-map_from_i64 msg.commit_position) (λ commit. Keeps-ok _)))

by_status-Keeps :
    (checks : Bool) (msg : RawCompleted) (status : OperationResult)
    → Keeps msg (by_status checks msg status)
unfolding by_status from_operation_result
by_status-Keeps checks msg OperationResult.success =
    Keeps->>= (completed checks msg) _ (completed-Keeps checks msg) (λ x. Keeps-ok (success x))
by_status-Keeps checks msg OperationResult.invalid_transaction = Keeps-err _
by_status-Keeps checks msg OperationResult.prepare_timeout = Keeps-ok _
by_status-Keeps checks msg OperationResult.commit_timeout = Keeps-ok _
by_status-Keeps checks msg OperationResult.forward_timeout = Keeps-ok _
by_status-Keeps checks msg OperationResult.wrong_expected_version = Keeps-ok _
by_status-Keeps checks msg OperationResult.stream_deleted = Keeps-ok _
by_status-Keeps checks msg OperationResult.access_denied = Keeps-ok _

on_status-Keeps :
    (checks : Bool) (msg : RawCompleted) (o : Option OperationResult)
    → Keeps msg (on_status checks msg o)
unfolding on_status
on_status-Keeps checks msg none = Keeps-err _
on_status-Keeps checks msg (some status) = by_status-Keeps checks msg status

-- Whatever error the conversion of a raw response to a write returns, it gives the message back as
-- it was.
pub try_from_keeps :
    (checks : Bool) (msg m : RawCompleted) (e : ErrorKind)
    → try_from checks msg ≡ err (m, e)
    → m ≡ msg
unfolding try_from
try_from_keeps checks msg m e = on_status-Keeps checks msg msg.result m e
