-- ===== src/Builder/Ranges.antt =====
-- The ranges of what builders of src/builder.rs convert to the numbers of the wire.
use eventstore_tcp.Prelude.{
  ℕ, Bool, true, false, Str, assert, ◌>>◌, Option, none, some, ok, ◌≡◌, arith, unwrap, unwrap_or,
}
use eventstore_tcp.Prelude.Int.{IsI32, IsI64, as_i32_small, as_i64_small}
use eventstore_tcp.Version.{
  EventNumber, ExpectedVersion, any, no_stream, ContentType, bytes, json, event_number_to_i32,
  expected_version_to_i32, content_type_to_i32,
}
use eventstore_tcp.Version.Wire.{IsNumber, IsExpected}
use eventstore_tcp.Builder.Package.{checked_id, checked_count}
use eventstore_tcp.Position.{LogPosition, into_i64}
use eventstore_tcp.Position.Laws.{IsPosition}
use eventstore_tcp.Protobuf.Loop.{OptAll}

pub IsI32-event_number_to_i32 : (n : EventNumber) → IsNumber n → IsI32 (event_number_to_i32 n)
unfolding event_number_to_i32
IsI32-event_number_to_i32 EventNumber.first h = omega arith
IsI32-event_number_to_i32 (EventNumber.exact v) h = rw (as_i32_small v.value h) h
IsI32-event_number_to_i32 EventNumber.last h = omega arith

pub IsI32-expected_version_to_i32 :
    (v : ExpectedVersion) → IsExpected v → IsI32 (expected_version_to_i32 v)
unfolding expected_version_to_i32
IsI32-expected_version_to_i32 any h = omega arith
IsI32-expected_version_to_i32 no_stream h = omega arith
IsI32-expected_version_to_i32 (ExpectedVersion.exact v) h = rw (as_i32_small v.value h) h

pub IsI32-content_type_to_i32 : (t : ContentType) → IsI32 (content_type_to_i32 t)
unfolding content_type_to_i32
IsI32-content_type_to_i32 bytes = omega arith
IsI32-content_type_to_i32 json = omega arith

pub IsI64-into_i64 : (p : LogPosition) → IsPosition p → IsI64 (into_i64 p)
unfolding into_i64
IsI64-into_i64 LogPosition.first h = omega arith
IsI64-into_i64 (LogPosition.exact n) h = rw (as_i64_small n h.1) h.1
IsI64-into_i64 LogPosition.last h = omega arith

pub OptAll-unwrap :
    {E A : Type 0} (P : A → Type 0) (o : Option A) (a : A)
    → OptAll P o
    → unwrap {E = E} o ≡ ok a
    → P a
OptAll-unwrap P none a h e = cc
OptAll-unwrap P (some x) a h e = let same : a ≡ x = cc in rw same h

pub OptAll-unwrap_or :
    {A : Type 0} (P : A → Type 0) (o : Option A) (d : A) → OptAll P o → P d → P (unwrap_or o d)
OptAll-unwrap_or P none d h k = k
OptAll-unwrap_or P (some x) d h k = h

assert_then : {E A : Type 0} (t : Bool) (a s : A) → (assert {E = E} t >> ok a) ≡ ok s → s ≡ a
assert_then true a s e = cc
assert_then false a s e = cc

-- A check that passes returns what it was given.
pub checked_id-same : {E : Type 0} (id s : Str) → checked_id {E = E} id ≡ ok s → s ≡ id
unfolding checked_id
checked_id-same id s e = assert_then _ id s e

pub checked_count-same : {E : Type 0} (count n : ℕ) → checked_count {E = E} count ≡ ok n → n ≡ count
unfolding checked_count
checked_count-same count n e = assert_then _ count n e
