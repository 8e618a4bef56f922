-- ===== src/Version.antt =====
-- src/stream_version.rs, src/event_number.rs, src/expected_version.rs and src/content_type.rs.
pub mod Bounds
pub mod Wire
use eventstore_tcp.Prelude.{ℕ, Outcome, ok, err, ◌-◌, ◌^◌, ltb, if◌then◌else◌}
use eventstore_tcp.Prelude.Int.{ℤ, pos, negsuc, is_neg, as_i32, as_u32}
use eventstore_tcp.Errors.{ErrorKind, invalid_stream_version}

-- `StreamVersion(u32)`
pub record StreamVersion : Type 0 where
  pub value : ℕ

pub data EventNumber : Type 0 where
  first : EventNumber
  exact : StreamVersion → EventNumber
  last : EventNumber

pub data ExpectedVersion : Type 0 where
  any no_stream : ExpectedVersion
  exact : StreamVersion → ExpectedVersion

pub data ContentType : Type 0 where
  bytes json : ContentType

-- `i32::max_value() as u32`
abbrev pub i32_max : ℕ
i32_max = 2 ^ 31 - 1

-- `From<StreamVersion> for i32`
unfoldable pub version_to_i32 : StreamVersion → ℤ
unfolding as_i32
version_to_i32 v = as_i32 v.value

-- `TryFrom<u32>`
unfoldable pub try_from_u32 : ℕ → Outcome ErrorKind StreamVersion
try_from_u32 ver =
    if ltb ver i32_max
    then ok (record { value = ver })
    else err (invalid_stream_version (as_i32 ver))

-- `TryFrom<i32>`
unfoldable pub try_from_i32 : ℤ → Outcome ErrorKind StreamVersion
try_from_i32 ver =
    if is_neg ver then err (invalid_stream_version ver) else ok (record { value = as_u32 ver })

-- `From<EventNumber> for i32`
unfoldable pub event_number_to_i32 : EventNumber → ℤ
unfolding version_to_i32
event_number_to_i32 first = pos 0
event_number_to_i32 (EventNumber.exact x) = version_to_i32 x
event_number_to_i32 last = negsuc 0

-- `From<ExpectedVersion> for i32`
unfoldable pub expected_version_to_i32 : ExpectedVersion → ℤ
unfolding version_to_i32
expected_version_to_i32 any = negsuc 1
expected_version_to_i32 no_stream = negsuc 0
expected_version_to_i32 (ExpectedVersion.exact ver) = version_to_i32 ver

-- `From<ContentType> for i32`
unfoldable pub content_type_to_i32 : ContentType → ℤ
content_type_to_i32 bytes = pos 0
content_type_to_i32 json = pos 1
