-- ===== src/Adapted/Writes/Laws.antt =====
-- Lemmas on the conversions of `WriteEventsCompleted` of src/adapted/mod.rs.
use eventstore_tcp.Prelude.{
  ℕ, zero, suc, Bool, true, false, Option, none, some, ok, err, panic, ◌-◌, ◌^◌, ◌<◌, ◌≡◌, refl,
  arith, >>=-eq-ok,
}
use eventstore_tcp.Prelude.Int.{ℤ, pos, negsuc, IsI64, as_i32_small}
use eventstore_tcp.Errors.{ErrorKind, invalid_stream_version}
use eventstore_tcp.Version.{try_from_i32, version_to_i32}
use eventstore_tcp.Version.Bounds.{IsVersion, try_from_i32-version_to_i32}
use eventstore_tcp.Position.{LogPosition, from_i64}
use eventstore_tcp.Position.Laws.{IsPosition, from_i64-into_i64, into_i64-from_i64}
use eventstore_tcp.Message.Enums.{OperationResult}
use eventstore_tcp.Message.WriteEventsCompleted.{WriteEventsCompleted as RawCompleted}
use eventstore_tcp.Adapted.Keeps.{success, failure}
use eventstore_tcp.Adapted.Writes.{
  VersionRange, WriteEventsCompleted, WriteEventsFailure, from_operation_result,
  into_operation_result, succ_i32, pred_i32, range_from_parts, range_to_parts, map_from_i64,
  map_into_i64, on_status, by_status, completed, try_from, completed_as_raw, failure_as_raw,
}

abbrev pub IsPositionOpt : Option LogPosition → Type 0
IsPositionOpt none = Unit
IsPositionOpt (some p) = IsPosition p

abbrev pub IsI64Opt : Option ℤ → Type 0
IsI64Opt none = Unit
IsI64Opt (some i) = IsI64 i

-- A result whose versions and positions are in their documented ranges.
pub record IsCompleted (x : WriteEventsCompleted) : Type 0 where
  pub start : IsVersion x.event_numbers.start
  pub end : IsVersion x.event_numbers.end
  pub prepare : IsPositionOpt x.prepare_position
  pub commit : IsPositionOpt x.commit_position

succ-pred_i32 :
    {E : Type 0} (checks : Bool) (n : ℕ)
    → n < 2 ^ 31
    → (i : ℤ) × (pred_i32 {E = E} checks (pos n) ≡ ok i)
      × (succ_i32 {E = ErrorKind} checks i ≡ ok (pos n))
unfolding pred_i32 succ_i32
succ-pred_i32 checks zero h = (negsuc 0, refl, refl)
succ-pred_i32 checks (suc n) h = (pos n, refl, ground arith)

range_back :
    {E : Type 0} (checks : Bool) (r : VersionRange)
    → IsVersion r.start
    → IsVersion r.end
    → (s e : ℤ) × (range_to_parts {E = E} checks r ≡ ok (s, e))
      × (range_from_parts checks s e ≡ ok r)
unfolding range_from_parts range_to_parts
range_back {E = E} checks r hs he =
    let (i, back, on) = succ-pred_i32 {E = E} checks r.end.value he in
    let wire : version_to_i32 r.end ≡ pos r.end.value =
      unfold version_to_i32 in as_i32_small r.end.value he in
    let number : try_from_i32 (pos r.end.value) ≡ ok r.end =
      rw wire at (try_from_i32-version_to_i32 r.end he) in
    (
      version_to_i32 r.start,
      i,
      rw (wire, back),
      rw (try_from_i32-version_to_i32 r.start hs, on, number),
    )

position_back :
    {E : Type 0} (o : Option LogPosition)
    → IsPositionOpt o
    → map_from_i64 {E = E} (map_into_i64 o) ≡ ok o
unfolding map_from_i64 map_into_i64
position_back none h = refl
position_back (some p) h = rw (from_i64-into_i64 p h)

position_kept :
    {E : Type 0} (o : Option ℤ) (p : Option LogPosition)
    → IsI64Opt o
    → map_from_i64 {E = E} o ≡ ok p
    → (map_into_i64 p ≡ o) × IsPositionOpt p
unfolding map_from_i64 map_into_i64
position_kept none none h e = (refl, tt)
position_kept none (some p) h e = cc
position_kept {E = E} (some i) p h e =
    let (x, got, made) = >>=-eq-ok (from_i64 {E = E} i) (λ y. ok (some y)) e in
    let (same, fits) = into_i64-from_i64 i x h got in
    let is : p ≡ some x = cc in rw is (rw same, fits)

-- A completed write in the documented ranges is written as a raw message, without a panic, that is
-- converted back to it, with overflow checks and without.
pub try_from-completed_as_raw :
    {E : Type 0} (checks : Bool) (x : WriteEventsCompleted)
    → IsCompleted x
    → (msg : RawCompleted) × (completed_as_raw {E = E} checks x ≡ ok msg)
      × (try_from checks msg ≡ ok (success x))
unfolding completed_as_raw try_from on_status by_status completed
try_from-completed_as_raw {E = E} checks x h =
    let (s, e, parts, range) = range_back {E = E} checks x.event_numbers h.start h.end in
    (
      record {
        result = some OperationResult.success;
        message = none;
        first_event_number = s;
        last_event_number = e;
        prepare_position = map_into_i64 x.prepare_position;
        commit_position = map_into_i64 x.commit_position;
      },
      rw parts,
      rw (
        range,
        position_back x.prepare_position h.prepare,
        position_back x.commit_position h.commit,
      ),
    )

-- Every failure of a write is written as a raw message that is converted back to it.
pub try_from-failure_as_raw :
    (checks : Bool) (f : WriteEventsFailure) → try_from checks (failure_as_raw f) ≡ ok (failure f)
unfolding try_from on_status by_status failure_as_raw into_operation_result from_operation_result
try_from-failure_as_raw checks WriteEventsFailure.prepare_timeout = refl
try_from-failure_as_raw checks _ = refl

-- A write whose last event number is `i32::max_value()` makes `range_from_parts` add one to it: with
-- overflow checks the conversion panics, without them it refuses the message with the wrapped number.
pub try_from-last_max :
    (msg : RawCompleted) (n : ℕ)
    → n < 2 ^ 31
    → msg.result ≡ some OperationResult.success
    → msg.first_event_number ≡ pos n
    → msg.last_event_number ≡ pos (2 ^ 31 - 1)
    → (try_from true msg ≡ panic)
      × (try_from false msg ≡ err (msg, invalid_stream_version (negsuc (2 ^ 31 - 1))))
unfolding try_from on_status by_status completed range_from_parts try_from_i32 succ_i32
try_from-last_max msg n h status start end = (rw (status, start, end), rw (status, start, end))
