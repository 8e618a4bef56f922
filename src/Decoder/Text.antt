-- ===== src/Decoder/Text.antt =====
-- What decoder/src/main.rs calls of `str` of the standard library.
use eventstore_tcp.Prelude.{
  ℕ, zero, suc, Bool, Bytes, Str, Option, none, some, Outcome, ok, ◌>>=◌, unwrap, List, [], ◌∷◌,
  map, length, ◌==◌, if◌then◌else◌,
}
use mathlib.Core.List.{reverse}

-- The characters of Unicode's `White_Space`, as the bytes of their UTF-8.
abbrev pub white : List Bytes
white =
    (9 ∷ [])
    ∷ (10 ∷ [])
    ∷ (11 ∷ [])
    ∷ (12 ∷ [])
    ∷ (13 ∷ [])
    ∷ (32 ∷ [])
    ∷ (0xc2 ∷ 0x85 ∷ [])
    ∷ (0xc2 ∷ 0xa0 ∷ [])
    ∷ (0xe1 ∷ 0x9a ∷ 0x80 ∷ [])
    ∷ (0xe2 ∷ 0x80 ∷ 0x80 ∷ [])
    ∷ (0xe2 ∷ 0x80 ∷ 0x81 ∷ [])
    ∷ (0xe2 ∷ 0x80 ∷ 0x82 ∷ [])
    ∷ (0xe2 ∷ 0x80 ∷ 0x83 ∷ [])
    ∷ (0xe2 ∷ 0x80 ∷ 0x84 ∷ [])
    ∷ (0xe2 ∷ 0x80 ∷ 0x85 ∷ [])
    ∷ (0xe2 ∷ 0x80 ∷ 0x86 ∷ [])
    ∷ (0xe2 ∷ 0x80 ∷ 0x87 ∷ [])
    ∷ (0xe2 ∷ 0x80 ∷ 0x88 ∷ [])
    ∷ (0xe2 ∷ 0x80 ∷ 0x89 ∷ [])
    ∷ (0xe2 ∷ 0x80 ∷ 0x8a ∷ [])
    ∷ (0xe2 ∷ 0x80 ∷ 0xa8 ∷ [])
    ∷ (0xe2 ∷ 0x80 ∷ 0xa9 ∷ [])
    ∷ (0xe2 ∷ 0x80 ∷ 0xaf ∷ [])
    ∷ (0xe2 ∷ 0x81 ∷ 0x9f ∷ [])
    ∷ (0xe3 ∷ 0x80 ∷ 0x80 ∷ [])
    ∷ []

strip_prefix : Bytes → Bytes → Option Bytes
strip_prefix [] s = some s
strip_prefix (b ∷ bs) [] = none
strip_prefix (b ∷ bs) (x ∷ s) = let rest = strip_prefix bs s in if b == x then rest else none

strip_one : List Bytes → Bytes → Option Bytes
unfolding strip_prefix
strip_one [] s = none
strip_one (w ∷ ws) s = elim (strip_prefix w s) [ some r ↦ some r | none ↦ strip_one ws s ]

-- At most `n` characters of `ws` are taken off the front.
unfoldable pub strip_all : ℕ → List Bytes → Bytes → Bytes
unfolding strip_one
strip_all zero ws s = s
strip_all (suc n) ws s = elim (strip_one ws s) [ some r ↦ strip_all n ws r | none ↦ s ]

-- `str::trim`: the front, and the back, whose characters read backwards.
unfoldable pub trim : Str → Str
unfolding strip_all
trim s =
    let front = strip_all (length s) white s in
    reverse (strip_all (length front) (map reverse white) (reverse front))

last_byte : Bytes → Option ℕ
last_byte [] = none
last_byte (b ∷ []) = some b
last_byte (b ∷ x ∷ s) = last_byte (x ∷ s)

-- `line.chars().last().unwrap() == ','`: the last character of UTF-8 text is a comma if its last byte
-- is that of a comma.
unfoldable pub ends_with_comma : {E : Type 0} → Str → Outcome E Bool
unfolding last_byte
ends_with_comma s = do last ← unwrap (last_byte s); ok (last == 44)
