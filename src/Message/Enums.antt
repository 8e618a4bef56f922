-- ===== src/Message/Enums.antt =====
-- The result enumerations of src/raw/client_messages.rs and their wire numbers. A number that is
-- none of them is read as the first variant, the `Default`.
use eventstore_tcp.Prelude.{Bool, true, false, ◌≡◌, refl, ◌==◌, if◌then◌else◌, arith}
use eventstore_tcp.Prelude.Int.{ℤ, pos, negsuc, IsI32}

pub data OperationResult : Type 0 where
  success prepare_timeout commit_timeout forward_timeout wrong_expected_version stream_deleted
        invalid_transaction access_denied :
      OperationResult

-- `From<i32>`
unfoldable pub operation_result_from_i32 : ℤ → OperationResult
operation_result_from_i32 (pos n) =
    if n == 0
    then OperationResult.success
    else if n == 1
    then OperationResult.prepare_timeout
    else if n == 2
    then OperationResult.commit_timeout
    else if n == 3
    then OperationResult.forward_timeout
    else if n == 4
    then OperationResult.wrong_expected_version
    else if n == 5
    then OperationResult.stream_deleted
    else if n == 6
    then OperationResult.invalid_transaction
    else if n == 7
    then OperationResult.access_denied
    else OperationResult.success
operation_result_from_i32 (negsuc n) = OperationResult.success

-- `e as i32`
unfoldable pub operation_result_to_i32 : OperationResult → ℤ
operation_result_to_i32 OperationResult.success = pos 0
operation_result_to_i32 OperationResult.prepare_timeout = pos 1
operation_result_to_i32 OperationResult.commit_timeout = pos 2
operation_result_to_i32 OperationResult.forward_timeout = pos 3
operation_result_to_i32 OperationResult.wrong_expected_version = pos 4
operation_result_to_i32 OperationResult.stream_deleted = pos 5
operation_result_to_i32 OperationResult.invalid_transaction = pos 6
operation_result_to_i32 OperationResult.access_denied = pos 7

pub operation_result_inverse :
    (e : OperationResult)
    → (operation_result_from_i32 (operation_result_to_i32 e) ≡ e)
      × IsI32 (operation_result_to_i32 e)
unfolding operation_result_from_i32 operation_result_to_i32
operation_result_inverse OperationResult.success = (refl, omega arith)
operation_result_inverse _ = (refl, omega arith)

pub data ReadEventResult : Type 0 where
  success not_found no_stream stream_deleted error access_denied : ReadEventResult

-- `From<i32>`
unfoldable pub read_event_result_from_i32 : ℤ → ReadEventResult
read_event_result_from_i32 (pos n) =
    if n == 0
    then ReadEventResult.success
    else if n == 1
    then ReadEventResult.not_found
    else if n == 2
    then ReadEventResult.no_stream
    else if n == 3
    then ReadEventResult.stream_deleted
    else if n == 4
    then ReadEventResult.error
    else if n == 5
    then ReadEventResult.access_denied
    else ReadEventResult.success
read_event_result_from_i32 (negsuc n) = ReadEventResult.success

-- `e as i32`
unfoldable pub read_event_result_to_i32 : ReadEventResult → ℤ
read_event_result_to_i32 ReadEventResult.success = pos 0
read_event_result_to_i32 ReadEventResult.not_found = pos 1
read_event_result_to_i32 ReadEventResult.no_stream = pos 2
read_event_result_to_i32 ReadEventResult.stream_deleted = pos 3
read_event_result_to_i32 ReadEventResult.error = pos 4
read_event_result_to_i32 ReadEventResult.access_denied = pos 5

pub read_event_result_inverse :
    (e : ReadEventResult)
    → (read_event_result_from_i32 (read_event_result_to_i32 e) ≡ e)
      × IsI32 (read_event_result_to_i32 e)
unfolding read_event_result_from_i32 read_event_result_to_i32
read_event_result_inverse ReadEventResult.success = (refl, omega arith)
read_event_result_inverse _ = (refl, omega arith)

pub data ReadStreamResult : Type 0 where
  success no_stream stream_deleted not_modified error access_denied : ReadStreamResult

-- `From<i32>`
unfoldable pub read_stream_result_from_i32 : ℤ → ReadStreamResult
read_stream_result_from_i32 (pos n) =
    if n == 0
    then ReadStreamResult.success
    else if n == 1
    then ReadStreamResult.no_stream
    else if n == 2
    then ReadStreamResult.stream_deleted
    else if n == 3
    then ReadStreamResult.not_modified
    else if n == 4
    then ReadStreamResult.error
    else if n == 5
    then ReadStreamResult.access_denied
    else ReadStreamResult.success
read_stream_result_from_i32 (negsuc n) = ReadStreamResult.success

-- `e as i32`
unfoldable pub read_stream_result_to_i32 : ReadStreamResult → ℤ
read_stream_result_to_i32 ReadStreamResult.success = pos 0
read_stream_result_to_i32 ReadStreamResult.no_stream = pos 1
read_stream_result_to_i32 ReadStreamResult.stream_deleted = pos 2
read_stream_result_to_i32 ReadStreamResult.not_modified = pos 3
read_stream_result_to_i32 ReadStreamResult.error = pos 4
read_stream_result_to_i32 ReadStreamResult.access_denied = pos 5

pub read_stream_result_inverse :
    (e : ReadStreamResult)
    → (read_stream_result_from_i32 (read_stream_result_to_i32 e) ≡ e)
      × IsI32 (read_stream_result_to_i32 e)
unfolding read_stream_result_from_i32 read_stream_result_to_i32
read_stream_result_inverse ReadStreamResult.success = (refl, omega arith)
read_stream_result_inverse _ = (refl, omega arith)

pub data ReadAllResult : Type 0 where
  success not_modified error access_denied : ReadAllResult

-- `From<i32>`
unfoldable pub read_all_result_from_i32 : ℤ → ReadAllResult
read_all_result_from_i32 (pos n) =
    if n == 0
    then ReadAllResult.success
    else if n == 1
    then ReadAllResult.not_modified
    else if n == 2
    then ReadAllResult.error
    else if n == 3
    then ReadAllResult.access_denied
    else ReadAllResult.success
read_all_result_from_i32 (negsuc n) = ReadAllResult.success

-- `e as i32`
unfoldable pub read_all_result_to_i32 : ReadAllResult → ℤ
read_all_result_to_i32 ReadAllResult.success = pos 0
read_all_result_to_i32 ReadAllResult.not_modified = pos 1
read_all_result_to_i32 ReadAllResult.error = pos 2
read_all_result_to_i32 ReadAllResult.access_denied = pos 3

pub read_all_result_inverse :
    (e : ReadAllResult)
    → (read_all_result_from_i32 (read_all_result_to_i32 e) ≡ e) × IsI32 (read_all_result_to_i32 e)
unfolding read_all_result_from_i32 read_all_result_to_i32
read_all_result_inverse ReadAllResult.success = (refl, omega arith)
read_all_result_inverse _ = (refl, omega arith)

pub data NotHandledReason : Type 0 where
  not_ready too_busy not_master : NotHandledReason

-- `From<i32>`
unfoldable pub not_handled_reason_from_i32 : ℤ → NotHandledReason
not_handled_reason_from_i32 (pos n) =
    if n == 0
    then NotHandledReason.not_ready
    else if n == 1
    then NotHandledReason.too_busy
    else if n == 2
    then NotHandledReason.not_master
    else NotHandledReason.not_ready
not_handled_reason_from_i32 (negsuc n) = NotHandledReason.not_ready

-- `e as i32`
unfoldable pub not_handled_reason_to_i32 : NotHandledReason → ℤ
not_handled_reason_to_i32 NotHandledReason.not_ready = pos 0
not_handled_reason_to_i32 NotHandledReason.too_busy = pos 1
not_handled_reason_to_i32 NotHandledReason.not_master = pos 2

pub not_handled_reason_inverse :
    (e : NotHandledReason)
    → (not_handled_reason_from_i32 (not_handled_reason_to_i32 e) ≡ e)
      × IsI32 (not_handled_reason_to_i32 e)
unfolding not_handled_reason_from_i32 not_handled_reason_to_i32
not_handled_reason_inverse NotHandledReason.not_ready = (refl, omega arith)
not_handled_reason_inverse _ = (refl, omega arith)

-- `result == ReadAllResult::Success`
abbrev pub is_read_all_success : ReadAllResult → Bool
is_read_all_success ReadAllResult.success = true
is_read_all_success _ = false

pub read_all_default :
    (r : ReadAllResult) → is_read_all_success r ≡ true → r ≡ ReadAllResult.success
read_all_default ReadAllResult.success h = refl
read_all_default _ h = cc
