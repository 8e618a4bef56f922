-- ===== src/Version/Wire.antt =====
-- The wire numbers of `EventNumber` and `ExpectedVersion`: which values share one.
use eventstore_tcp.Prelude.{◌≡◌, ◌⊎◌, arith}
use eventstore_tcp.Prelude.Int.{as_i32}
use eventstore_tcp.Version.{
  EventNumber, ExpectedVersion, first, any, event_number_to_i32, expected_version_to_i32,
}
use eventstore_tcp.Version.Bounds.{IsVersion}

abbrev pub IsExpected : ExpectedVersion → Type 0
IsExpected (ExpectedVersion.exact v) = IsVersion v
IsExpected _ = Unit

abbrev pub IsNumber : EventNumber → Type 0
IsNumber (EventNumber.exact v) = IsVersion v
IsNumber _ = Unit

-- Two expected versions with the same wire number are the same expectation.
pub expected_version_to_i32_injective :
    (a b : ExpectedVersion)
    → IsExpected a
    → IsExpected b
    → expected_version_to_i32 a ≡ expected_version_to_i32 b
    → a ≡ b
unfolding expected_version_to_i32 as_i32
expected_version_to_i32_injective any any ha hb e = ground arith
expected_version_to_i32_injective _ _ ha hb e = ground arith

-- Two event numbers with the same wire number are the same, but that `First` and `Exact(0)` share
-- the number 0.
pub event_number_to_i32_injective :
    (a b : EventNumber)
    → IsNumber a
    → IsNumber b
    → event_number_to_i32 a ≡ event_number_to_i32 b
    → (a ≡ b)
      ⊎ ((a ≡ first) × (b ≡ EventNumber.exact (record { value = 0 })))
      ⊎ ((a ≡ EventNumber.exact (record { value = 0 })) × (b ≡ first))
unfolding event_number_to_i32 as_i32
event_number_to_i32_injective first first ha hb e = ground arith
event_number_to_i32_injective _ _ ha hb e = ground arith
