-- ===== src/Raw/Hexdump.antt =====
-- `Hexdump` of src/raw/mod.rs: the debug view of bytes, as the text that is written. `prefix_len`, a
-- decimal logarithm in floating point, is a parameter: the width of the offset before a line.
pub mod Laws
use eventstore_tcp.Prelude.{
  ℕ, zero, suc, Bool, true, false, Bytes, Option, none, some, Outcome, ok, ◌>>=◌, unwrap, List, [],
  ◌∷◌, ◌++◌, ◌+◌, ◌-◌, ◌^◌, panic, ◌*◌, ◌/◌, ◌%◌, ◌≤◌, ◌<◌, ◌≡◌, ◌&&◌, refl, arith, length, ltb,
  leb, ◌==◌, if◌then◌else◌,
}
use eventstore_tcp.Prelude.Hex.{hex_byte, hex_number}

unfoldable pub byte_at : ℕ → Bytes → Option ℕ
byte_at i [] = none
byte_at zero (b ∷ s) = some b
byte_at (suc i) (b ∷ s) = byte_at i s

-- A subtraction of `usize`s, with overflow checks or without.
unfoldable pub usize_sub : {E : Type 0} → Bool → ℕ → ℕ → Outcome E ℕ
usize_sub checks m n =
    if ltb m n then (if checks then panic else ok ((2 ^ 64 + m) - n)) else ok (m - n)

unfoldable pub zeros : ℕ → Bytes
zeros zero = []
zeros (suc n) = 48 ∷ zeros n

-- `{:01$x}`
unfoldable pub padded : ℕ → ℕ → Bytes
unfolding zeros
padded width n = let digits = hex_number (suc n) n in zeros (width - length digits) ++ digits

-- The character of a byte in the column of text.
unfoldable pub ascii : ℕ → ℕ
ascii b = if leb 0x20 b && ltb b 0x7e then b else 46

-- What stands before a byte.
unfoldable pub before_byte : ℕ → ℕ → Bytes → Bytes
before_byte prefix_len count out =
    if count % 16 == 0 then out ++ (48 ∷ 120 ∷ padded prefix_len count) ++ (58 ∷ 32 ∷ []) else out

-- The blanks in place of the bytes that are missing in the last line, of `left` rounds from `i` on.
unfoldable pub blanks : ℕ → ℕ → Bytes → Bytes
blanks zero i out = out
blanks (suc left) i out =
    blanks left (suc i) (out ++ (32 ∷ 32 ∷ (if i % 4 == 0 then 32 ∷ 32 ∷ [] else 32 ∷ [])))

-- The flag is that for overflow checks.
module _ {E : Type 0} (checks : Bool) (bytes : Bytes) where
  -- The loop of `format_ascii`, of `left` rounds from `i` on.
  unfoldable pub ascii_loop : ℕ → ℕ → ℕ → ℕ → Bytes → Outcome E Bytes
  unfolding byte_at ascii usize_sub
  ascii_loop zero i last char_count out = ok out
  ascii_loop (suc left) i last char_count out = do
    b ← unwrap (byte_at i bytes)
    let shown = out ++ (ascii b ∷ [])
    bound ← usize_sub checks last 1
    let spaced = if ltb i bound && (suc char_count % 8 == 0) then shown ++ (32 ∷ []) else shown
    ascii_loop left (suc i) last (suc char_count) spaced

  unfoldable pub format_ascii : ℕ → ℕ → Bytes → Outcome E Bytes
  unfolding ascii_loop
  format_ascii start last out = ascii_loop (last - start) start last 0 out

  -- " | ", the text of the bytes from `start` on, and the end of the line.
  unfoldable pub end_line : ℕ → ℕ → Bytes → Outcome E Bytes
  end_line start last out = do
    shown ← format_ascii start last (out ++ (32 ∷ 124 ∷ 32 ∷ []))
    ok (shown ++ (10 ∷ []))

  -- What follows a byte, when `count` are written.
  unfoldable pub after_byte : Bool → ℕ → Bytes → Outcome E Bytes
  after_byte is_last count out =
      if count % 16 == 0
      then (do start ← usize_sub checks count 16; end_line start count out)
      else if is_last
      then ok out
      else if count % 4 == 0
      then ok (out ++ (32 ∷ 32 ∷ []))
      else ok (out ++ (32 ∷ []))

  -- The loop over the bytes, of which `count` are written.
  unfoldable pub write_bytes : ℕ → Bytes → ℕ → Bytes → Outcome E (ℕ × Bytes)
  write_bytes prefix_len [] count out = ok (count, out)
  write_bytes prefix_len (b ∷ rest) count out = do
    let written = before_byte prefix_len count out ++ hex_byte b
    last_index ← usize_sub checks (length bytes) 1
    next ← after_byte (count == last_index) (suc count) written
    write_bytes prefix_len rest (suc count) next

  unfoldable pub last_line : ℕ → Bytes → Outcome E Bytes
  last_line count out =
      if ltb 0 (count % 16)
      then (do
        missing ← usize_sub checks 16 (count % 16)
        let offset = count % 4
        let last = missing + offset
        start ← usize_sub checks count (count % 16)
        end_line start count (blanks (last - offset) offset out))
      else ok out

  -- `Debug::fmt`
  unfoldable pub dump : ℕ → Outcome E Bytes
  dump prefix_len = do (count, out) ← write_bytes prefix_len bytes 0 []; last_line count out
