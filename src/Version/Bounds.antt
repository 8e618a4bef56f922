-- ===== src/Version/Bounds.antt =====
-- Which numbers the two conversions into `StreamVersion` accept, and the round trips through `i32`.
use eventstore_tcp.Prelude.{◌≢◌, ℕ, ◌-◌, ◌^◌, ◌<◌, ◌≡◌, refl, ok, err, arith}
use eventstore_tcp.Errors.{invalid_stream_version}
use eventstore_tcp.Prelude.Int.{ℤ, pos, negsuc, IsI32, as_i32, as_u32}
use eventstore_tcp.Version.{StreamVersion, version_to_i32, try_from_u32, try_from_i32}

-- What the type is documented to hold: 0 to `i32::max_value`.
abbrev pub IsVersion : StreamVersion → Type 0
IsVersion v = v.value < 2 ^ 31

-- An `i32` that `TryFrom<i32>` accepts comes back from the version that it gave, and that version
-- is in the documented range.
pub version_to_i32-try_from_i32 :
    (i : ℤ) (v : StreamVersion)
    → IsI32 i
    → try_from_i32 i ≡ ok v
    → (version_to_i32 v ≡ i) × IsVersion v
unfolding version_to_i32 try_from_i32 as_i32 as_u32
version_to_i32-try_from_i32 (pos n) v h e = (ground arith, ground arith)
version_to_i32-try_from_i32 (negsuc n) v h e = cc

-- Every version of the documented range is written as a non-negative `i32` that `TryFrom<i32>`
-- reads back.
pub try_from_i32-version_to_i32 :
    (v : StreamVersion) → IsVersion v → try_from_i32 (version_to_i32 v) ≡ ok v
unfolding version_to_i32 try_from_i32 as_i32 as_u32
try_from_i32-version_to_i32 v h = ground arith

-- Of the numbers that a version can hold, the two conversions make the same of all but the largest:
-- that one `TryFrom<i32>` accepts and `TryFrom<u32>` refuses.
pub try_from_u32-try_from_i32 :
    (n : ℕ)
    → n < 2 ^ 31
    → (n ≢ 2 ^ 31 - 1
        → (try_from_u32 n ≡ ok (record { value = n }))
          × (try_from_i32 (pos n) ≡ ok (record { value = n })))
      × (n ≡ 2 ^ 31 - 1
          → (try_from_u32 n ≡ err (invalid_stream_version (pos n)))
            × (try_from_i32 (pos n) ≡ ok (record { value = n })))
unfolding try_from_u32 try_from_i32 as_u32 as_i32
try_from_u32-try_from_i32 n h = (λ ne. (ground arith, ground arith), λ m. (rw m refl, rw m refl))
