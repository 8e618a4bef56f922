-- ===== src/Example/Numbers.antt =====
-- The theorems on versions and the result of a write, at concrete numbers.
use eventstore_tcp.Prelude.{
  ℕ, ok, true, false, none, some, err, panic, ◌-◌, ◌^◌, ◌≡◌, ◌≢◌, refl, arith,
}
use eventstore_tcp.Prelude.Int.{ℤ, pos, negsuc}
use eventstore_tcp.Errors.{invalid_stream_version}
use eventstore_tcp.Version.{try_from_u32, try_from_i32}
use eventstore_tcp.Version.Bounds.{try_from_u32-try_from_i32}
use eventstore_tcp.Message.Enums.{OperationResult}
use eventstore_tcp.Message.WriteEventsCompleted.{WriteEventsCompleted as RawCompleted}
use eventstore_tcp.Adapted.Writes.{try_from}
use eventstore_tcp.Adapted.Writes.Laws.{try_from-last_max}

abbrev largest : ℕ
largest = 2147483647

try_from_u32-try_from_i32_example :
    (largest ≢ 2 ^ 31 - 1
      → (try_from_u32 largest ≡ ok (record { value = largest }))
        × (try_from_i32 (pos largest) ≡ ok (record { value = largest })))
    × (largest ≡ 2 ^ 31 - 1
        → (try_from_u32 largest ≡ err (invalid_stream_version (pos largest)))
          × (try_from_i32 (pos largest) ≡ ok (record { value = largest })))
try_from_u32-try_from_i32_example = try_from_u32-try_from_i32 largest (omega arith)

abbrev reply : ℤ → ℤ → OperationResult → RawCompleted
reply start end status = record {
  result = some status;
  message = none;
  first_event_number = start;
  last_event_number = end;
  prepare_position = none;
  commit_position = none;
}

abbrev full_reply : RawCompleted
full_reply = reply (pos 0) (pos (2 ^ 31 - 1)) OperationResult.success

try_from-last_max_example :
    (try_from true full_reply ≡ panic)
    × (try_from false full_reply ≡ err (full_reply, invalid_stream_version (negsuc (2 ^ 31 - 1))))
try_from-last_max_example = try_from-last_max full_reply 0 (omega arith) refl refl refl
