-- ===== src/Errors.antt =====
-- The error enumerations of src/lib.rs (`errors`), and the `io::Error`s that the codec makes.
use eventstore_tcp.Prelude.{ℕ}
use eventstore_tcp.Prelude.Int.{ℤ}

-- Where a result field can be missing.
pub data ResultStatusKind : Type 0 where
  write_events read_event read_stream : ResultStatusKind

-- `invalid_utf8` is the foreign link; the position inside its `Utf8Error` is left out.
pub data ErrorKind : Type 0 where
  invalid_utf8 : ErrorKind
  invalid_flags : ℕ → ErrorKind
  missing_result_field : ResultStatusKind → ErrorKind
  invalid_stream_version : ℤ → ErrorKind
  invalid_event_number : ℤ → ErrorKind
  invalid_log_position : ℤ → ErrorKind
  unsupported_discriminator : ℕ → ErrorKind
  unimplemented_conversion : ErrorKind
  write_events_invalid_transaction : ErrorKind

-- The reasons behind an `InvalidData` error of the codec.
pub data InvalidData : Type 0 where
  length_is_too_small not_utf8 : InvalidData

-- `other` is `Into<io::Error>` for `ErrorKind`; `from_crate` is an error that the protobuf crate
-- turned into an `io::Error`, told apart by a number.
pub data IoError : Type 0 where
  unexpected_eof : IoError
  invalid_data : InvalidData → IoError
  other : ErrorKind → IoError
  from_crate : ℕ → IoError
