-- ===== src/Raw/Hexdump/Laws.antt =====
-- That the hexdump of src/raw/mod.rs never reads outside of the bytes, and how many lines it has.
use eventstore_tcp.Prelude.{
  ℕ, zero, suc, Bool, true, false, Bytes, some, Outcome, ok, [], ◌∷◌, ◌++◌, ◌+◌, ◌-◌, ◌/◌, ◌%◌, ◌≤◌,
  ◌<◌, ◌≡◌, ◌&&◌, refl, sym, ◌∙◌, arith, length, ltb, ◌==◌, if◌then◌else◌, Bool-cases, inl, inr,
  le→not_ltb, ◌≤◌,
}
use eventstore_tcp.Prelude.Hex.{hex_digit, hex_byte, hex_number}
use eventstore_tcp.Raw.Hexdump.{
  byte_at, usize_sub, zeros, padded, ascii, before_byte, blanks, ascii_loop, format_ascii, end_line,
  after_byte, write_bytes, last_line, dump,
}

-- The ends of lines in a text.
unfoldable pub lines : Bytes → ℕ
lines [] = 0
lines (b ∷ s) = let rest = lines s in if b == 10 then suc rest else rest

lines-append : (s t : Bytes) → lines (s ++ t) ≡ lines s + lines t
unfolding lines
lines-append [] t = omega arith
lines-append (b ∷ s) t = elim (Bool-cases (b == 10)) [
  | inl e ↦ rw (e, lines-append s t) (omega arith)
  | inr e ↦ rw (e, lines-append s t)
]

digit_line : (n : ℕ) → (hex_digit n == 10) ≡ false
unfolding hex_digit
digit_line n = ground arith

hex_byte-lines : (b : ℕ) → lines (hex_byte b) ≡ 0
unfolding hex_byte lines
hex_byte-lines b = rw (digit_line (b / 16), digit_line (b % 16))

hex_number-lines : (fuel n : ℕ) → lines (hex_number fuel n) ≡ 0
unfolding hex_number lines
hex_number-lines zero n = refl
hex_number-lines (suc fuel) n = elim (Bool-cases (ltb n 16)) [
  | inl e ↦ rw (e, digit_line n)
  | inr e ↦ rw (e, lines-append, hex_number-lines fuel (n / 16), digit_line (n % 16))
]

zeros-lines : (n : ℕ) → lines (zeros n) ≡ 0
unfolding zeros lines
zeros-lines zero = refl
zeros-lines (suc n) = zeros-lines n

padded-lines : (width n : ℕ) → lines (padded width n) ≡ 0
unfolding padded
padded-lines width n =
    rw (
      lines-append,
      zeros-lines (width - length (hex_number (suc n) n)),
      hex_number-lines (suc n) n,
    )

ascii_line : (b : ℕ) → (ascii b == 10) ≡ false
unfolding ascii
ascii_line b = ground arith

before_byte-lines :
    (width count : ℕ) (out : Bytes) → lines (before_byte width count out) ≡ lines out
unfolding before_byte lines
before_byte-lines width count out = elim (Bool-cases (count % 16 == 0)) [
  | inl e ↦ rw (e, lines-append, lines-append, padded-lines width count) (omega arith)
  | inr e ↦ rw e
]

blanks-lines : (left i : ℕ) (out : Bytes) → lines (blanks left i out) ≡ lines out
unfolding blanks lines
blanks-lines zero i out = refl
blanks-lines (suc left) i out = elim (Bool-cases (i % 4 == 0)) [
  | inl e ↦ rw (e, blanks-lines left (suc i), lines-append) (omega arith)
  | inr e ↦ rw (e, blanks-lines left (suc i), lines-append) (omega arith)
]

-- In range, a byte is there.
byte_at-total : (i : ℕ) (s : Bytes) → i < length s → (b : ℕ) × (byte_at i s ≡ some b)
unfolding byte_at
byte_at-total i [] h = absurd (omega (arith, h))
byte_at-total zero (b ∷ s) h = (b, refl)
byte_at-total (suc i) (b ∷ s) h = byte_at-total i s (omega (arith, h))

shown-lines : (b : ℕ) (out : Bytes) → lines (out ++ (ascii b ∷ [])) ≡ lines out
unfolding lines
shown-lines b out = rw (lines-append, ascii_line b) (omega arith)

blank-lines : (out : Bytes) → lines (out ++ (32 ∷ [])) ≡ lines out
unfolding lines
blank-lines out = rw lines-append (omega arith)

-- Where nothing is borrowed, a subtraction is that of the numbers.
usize_sub-le :
    {E : Type 0} (checks : Bool) (m n : ℕ) → n ≤ m → usize_sub {E = E} checks m n ≡ ok (m - n)
unfolding usize_sub
usize_sub-le checks m n h = rw (le→not_ltb m n h)

abbrev new_line : ℕ → ℕ
new_line count = if count % 16 == 0 then 1 else 0

full_line : (count : ℕ) → 0 < count → (count % 16 == 0) ≡ true → 16 ≤ count
full_line count h e = ground arith

next_block : (count : ℕ) → count / 16 + new_line (suc count) ≡ suc count / 16
next_block count = ground arith

round_up_more : (n : ℕ) → ltb 0 (n % 16) ≡ true → n / 16 + 1 ≡ (n + 15) / 16
round_up_more n h = ground arith

round_up_even : (n : ℕ) → ltb 0 (n % 16) ≡ false → n / 16 ≡ (n + 15) / 16
round_up_even n h = ground arith

module _ {E : Type 0} (checks : Bool) (bytes : Bytes) where
  -- What ends with `n` more lines than `out`.
  abbrev Ends : ℕ → Bytes → Outcome E Bytes → Type 0
  Ends n out o = (out' : Bytes) × (o ≡ ok out') × (lines out' ≡ lines out + n)

  ascii_loop-total :
      (left i last char_count : ℕ) (out : Bytes)
      → i + left ≤ length bytes
      → i + left ≤ last
      → Ends 0 out (ascii_loop checks bytes left i last char_count out)
  unfolding ascii_loop
  ascii_loop-total zero i last char_count out h k = (out, refl, omega arith)
  ascii_loop-total (suc left) i last char_count out h k =
      let (b, got) = byte_at-total i bytes (omega (arith, h)) in
      let shown = out ++ (ascii b ∷ []) in
      let bound = usize_sub-le {E = E} checks last 1 (omega (arith, k)) in
      elim (Bool-cases (ltb i (last - 1) && (suc char_count % 8 == 0))) [
        | inl e ↦
            let (out', ends, same) =
              ascii_loop-total left (suc i) last (suc char_count) (shown ++ (32 ∷ []))
                (omega (arith, h)) (omega (arith, k)) in
            (out', rw (got, bound, e) ends, same ∙ rw (blank-lines shown, shown-lines b out))
        | inr e ↦
            let (out', ends, same) =
              ascii_loop-total left (suc i) last (suc char_count) shown (omega (arith, h))
                (omega (arith, k)) in
            (out', rw (got, bound, e) ends, same ∙ rw (shown-lines b out))
      ]

  end_line-total :
      (start last : ℕ) (out : Bytes)
      → start ≤ last
      → last ≤ length bytes
      → Ends 1 out (end_line checks bytes start last out)
  unfolding end_line format_ascii lines
  end_line-total start last out h k =
      let (out', ends, same) =
        ascii_loop-total (last - start) start last 0 (out ++ (32 ∷ 124 ∷ 32 ∷ []))
          (omega (arith, h, k)) (omega (arith, h)) in
      (
        out' ++ (10 ∷ []),
        rw ends,
        rw lines-append (omega (arith, same, lines-append out (32 ∷ 124 ∷ 32 ∷ []))),
      )

  after_byte-total :
      (is_last : Bool) (count : ℕ) (out : Bytes)
      → 0 < count
      → count ≤ length bytes
      → Ends (new_line count) out (after_byte checks bytes is_last count out)
  unfolding after_byte lines
  after_byte-total is_last count out some_byte h = elim (Bool-cases (count % 16 == 0)) [
    | inl e ↦
        rw (e, usize_sub-le {E = E} checks count 16 (full_line count some_byte e))
          (end_line-total (count - 16) count out (omega arith) h)
    | inr e ↦ elim (Bool-cases is_last) [
      | inl l ↦ rw (e, l) (out, refl, omega arith)
      | inr l ↦ elim (Bool-cases (count % 4 == 0)) [
        | inl g ↦ rw (e, l, g) (_, refl, rw lines-append (omega arith))
        | inr g ↦ rw (e, l, g) (_, refl, rw lines-append (omega arith))
      ]
    ]
  ]

  write_bytes-total :
      (width : ℕ) (rest : Bytes) (count : ℕ) (out : Bytes)
      → count + length rest ≡ length bytes
      → lines out ≡ count / 16
      → (out' : Bytes) × (write_bytes {E = E} checks bytes width rest count out
          ≡ ok (length bytes, out'))
        × (lines out' ≡ length bytes / 16)
  unfolding write_bytes
  write_bytes-total width [] count out h k =
      let same : count ≡ length bytes = omega (arith, h) in rw (sym same) (out, refl, k)
  write_bytes-total width (b ∷ rest) count out h k =
      let written = before_byte width count out ++ hex_byte b in
      let (out1, e1, n1) =
        after_byte-total (count == length bytes - 1) (suc count) written (omega arith)
          (omega (arith, h)) in
      let index = usize_sub-le {E = E} checks (length bytes) 1 (omega (arith, h)) in
      let same : lines written ≡ lines out =
        rw (lines-append, before_byte-lines width count out, hex_byte-lines b) (omega arith) in
      let counted : lines out1 ≡ suc count / 16 = n1 ∙ rw (same, k) (next_block count) in
      let (out2, e2, n2) =
        write_bytes-total width rest (suc count) out1 (omega (arith, h)) counted in
      (out2, rw (index, e1, e2), n2)

  -- A hexdump of any bytes ends without a panic, with overflow checks and without: no byte outside of
  -- them is looked at and no subtraction goes below zero. It has a line for every sixteen bytes, and
  -- one for those that are left over.
  pub dump-lines :
      (prefix_len : ℕ)
      → (out : Bytes) × (dump {E = E} checks bytes prefix_len ≡ ok out)
        × (lines out ≡ (length bytes + 15) / 16)
  unfolding dump last_line lines
  dump-lines prefix_len =
      let (out, e, n) = write_bytes-total prefix_len bytes 0 [] (omega arith) (omega arith) in
      elim (Bool-cases (ltb 0 (length bytes % 16))) [
        | inl more ↦
            let offset = length bytes % 4 in
            let last = (16 - length bytes % 16) + offset in
            let (out', e', n') =
              end_line-total (length bytes - length bytes % 16) (length bytes)
                (blanks (last - offset) offset out) (omega arith) (omega arith) in
            (
              out',
              rw
                  (
                    e,
                    more,
                    usize_sub-le {E = E} checks 16 (length bytes % 16) (omega arith),
                    usize_sub-le {E = E} checks (length bytes) (length bytes % 16) (omega arith),
                  )
                  e',
              n'
                  ∙ rw (blanks-lines (last - offset) offset out, n)
                      (round_up_more (length bytes) more),
            )
        | inr none_left ↦ (out, rw (e, none_left), n ∙ round_up_even (length bytes) none_left)
      ]
