-- ===== src/Prelude/Hex.antt =====
-- `{:02x}` of a byte and `{:x}` of a number: lower case digits, as text.
use eventstore_tcp.Prelude.Tests.{ltb, if◌then◌else◌}
use eventstore_tcp.Prelude.Text.{Bytes}
use Prim.Native.Nat.{ℕ, zero, suc, ◌+◌, ◌/◌, ◌%◌}
use mathlib.Core.List.{[], ◌∷◌, ◌++◌}

unfoldable pub hex_digit : ℕ → ℕ
hex_digit n = if ltb n 10 then n + 48 else n + 87

unfoldable pub hex_byte : ℕ → Bytes
unfolding hex_digit
hex_byte b = hex_digit (b / 16) ∷ hex_digit (b % 16) ∷ []

-- The digits of `n`; `fuel` is one more than `n`, so that there is no end of it before the last digit.
unfoldable pub hex_number : ℕ → ℕ → Bytes
hex_number zero n = []
hex_number (suc fuel) n =
    let higher = hex_number fuel (n / 16) in
    if ltb n 16 then hex_digit n ∷ [] else higher ++ (hex_digit (n % 16) ∷ [])
