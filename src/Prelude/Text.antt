-- ===== src/Prelude/Text.antt =====
-- Bytes and UTF-8 text. A `str` is the list of its bytes; `from_utf8` is the standard library's
-- check: lead bytes 0xc2 to 0xf4, no overlong form, no surrogate, nothing above U+10FFFF.
use Prim.Native.Nat.{ℕ, zero, suc, ◌<◌}
use mathlib.Core.Path.{◌≡◌}
use mathlib.Core.Bool.{Bool, true, false, ◌&&◌}
use mathlib.Core.List.{List, [], ◌∷◌}
use mathlib.Core.Option.{Option, none, some}
use native.Mathlib.Omega.{arith}
use eventstore_tcp.Prelude.Tests.{ltb, leb, ◌==◌, if◌then◌else◌}

abbrev pub Bytes : Type 0
Bytes = List ℕ

abbrev pub Str : Type 0
Str = List ℕ

abbrev pub IsByte : ℕ → Type 0
IsByte b = b < 256

-- What may follow: `left` continuation bytes, the next one between `low` and `high`.
pub record Utf8State : Type 0 where
  pub left : ℕ
  pub low : ℕ
  pub high : ℕ

abbrev pub utf8_start : Utf8State
utf8_start = record { left = 0; low = 0x80; high = 0xbf }

abbrev utf8_after : ℕ → ℕ → ℕ → Option Utf8State
utf8_after n lo hi = some (record { left = n; low = lo; high = hi })

utf8_lead : ℕ → Option Utf8State
utf8_lead b =
    if ltb b 0x80
    then some utf8_start
    else if leb 0xc2 b && leb b 0xdf
    then utf8_after 1 0x80 0xbf
    else if b == 0xe0
    then utf8_after 2 0xa0 0xbf
    else if b == 0xed
    then utf8_after 2 0x80 0x9f
    else if leb 0xe1 b && leb b 0xef
    then utf8_after 2 0x80 0xbf
    else if b == 0xf0
    then utf8_after 3 0x90 0xbf
    else if leb 0xf1 b && leb b 0xf3
    then utf8_after 3 0x80 0xbf
    else if b == 0xf4
    then utf8_after 3 0x80 0x8f
    else none

utf8_next : ℕ → Utf8State → ℕ → Option Utf8State
utf8_next zero s b = utf8_lead b
utf8_next (suc n) s b = if leb s.low b && leb b s.high then utf8_after n 0x80 0xbf else none

unfoldable pub utf8_step : Utf8State → ℕ → Option Utf8State
unfolding utf8_lead utf8_next
utf8_step s b = utf8_next s.left s b

unfoldable pub utf8_run : Utf8State → Bytes → Bool
unfolding utf8_step
utf8_run s [] = s.left == 0
utf8_run s (b ∷ bs) = elim (utf8_step s b) [ none ↦ false | some t ↦ utf8_run t bs ]

unfoldable pub utf8_valid : Bytes → Bool
unfolding utf8_run
utf8_valid bs = utf8_run utf8_start bs

abbrev pub IsUtf8 : Bytes → Type 0
IsUtf8 bs = utf8_valid bs ≡ true

-- `String::from_utf8` and `str::from_utf8`
unfoldable pub from_utf8 : Bytes → Option Str
from_utf8 bs = if utf8_valid bs then some bs else none

pub from_utf8_valid : (s : Bytes) → IsUtf8 s → from_utf8 s ≡ some s
unfolding from_utf8
from_utf8_valid s h = rw h

pub from_utf8-eq-some : (s : Bytes) (t : Str) → from_utf8 s ≡ some t → (t ≡ s) × IsUtf8 s
unfolding from_utf8
from_utf8-eq-some s t h = ground arith
