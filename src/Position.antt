-- ===== src/Position.antt =====
-- `LogPosition` of src/lib.rs.
pub mod Laws
use eventstore_tcp.Prelude.{
  ℕ, zero, suc, ◌-◌, ◌^◌, Option, none, some, Outcome, ok, err, panic, ltb, if◌then◌else◌,
}
use eventstore_tcp.Prelude.Int.{ℤ, pos, negsuc, as_i64, as_u64}
use eventstore_tcp.Errors.{ErrorKind, invalid_log_position}

pub data LogPosition : Type 0 where
  first : LogPosition
  exact : ℕ → LogPosition
  last : LogPosition

-- `CustomTryFrom<i64>`; the error keeps the refused value.
unfoldable pub try_from : ℤ → Outcome (ℤ × ErrorKind) LogPosition
unfolding as_u64
try_from (pos zero) = ok first
try_from (pos (suc n)) = ok (exact (as_u64 (pos (suc n))))
try_from (negsuc zero) = ok last
try_from (negsuc (suc n)) = err (negsuc (suc n), invalid_log_position (negsuc (suc n)))

-- `from_i64_opt` is `try_from(pos).ok()`.
unfoldable pub from_i64_opt : ℤ → Option LogPosition
unfolding try_from
from_i64_opt p = elim (try_from p) [ ok x ↦ some x | _ ↦ none ]

-- `From<i64>`
unfoldable pub from_i64 : {E : Type 0} → ℤ → Outcome E LogPosition
unfolding from_i64_opt
from_i64 val = elim (from_i64_opt val) [ some x ↦ ok x | none ↦ panic ]

-- `Into<i64>`
unfoldable pub into_i64 : LogPosition → ℤ
unfolding as_i64
into_i64 first = pos 0
into_i64 (exact x) = as_i64 x
into_i64 last = negsuc 0

-- `from_opt`, on a `u64`
unfoldable pub from_opt : ℕ → Option LogPosition
from_opt zero = some first
from_opt (suc n) = if ltb (suc n) (2 ^ 63 - 1) then some (exact (suc n)) else none
