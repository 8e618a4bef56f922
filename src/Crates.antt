-- ===== src/Crates.antt =====
-- What the codec calls of the crates byteorder, bitflags, uuid and bytes, as a parameter, and what
-- it relies on of them. `Uuid` is uuid's type, `Buf` is `BytesMut`.
use eventstore_tcp.Prelude.{
  ℕ, Bool, true, false, Bytes, Option, none, some, Outcome, ok, err, panic, [], ◌∷◌, ◌++◌, ◌+◌, ◌^◌,
  ◌≤◌, ◌<◌, ◌≡◌, length, drop,
}
use eventstore_tcp.Errors.{IoError, unexpected_eof}

-- The constants of `TcpFlags`, a `u8` of flags.
abbrev pub flag_none : ℕ
flag_none = 0x00

abbrev pub flag_authenticated : ℕ
flag_authenticated = 0x01

pub record Crates (Uuid Buf : Type 0) : Type 0 where
  -- byteorder: little endian; a read leaves the rest of the input, a write gives its bytes.
  pub read_u8 : Bytes → Outcome IoError (ℕ × Bytes)
  pub read_u32 : Bytes → Outcome IoError (ℕ × Bytes)
  pub write_u8 : ℕ → Bytes
  pub write_u32 : ℕ → Bytes
  -- bitflags: `TcpFlags::from_bits`, `bits`, `contains`, `insert`
  pub from_bits : ℕ → Option ℕ
  pub bits : ℕ → ℕ
  pub contains : ℕ → ℕ → Bool
  pub insert : ℕ → ℕ → ℕ
  -- uuid
  pub uuid_from_bytes : Bytes → Option Uuid
  pub as_bytes : Uuid → Bytes
  -- bytes: what a buffer holds, how much it can still take, and the two changes
  pub view : Buf → Bytes
  pub remaining_mut : Buf → ℕ
  pub split_to : ℕ → Buf → Buf
  pub put_slice : Bytes → Buf → Outcome IoError Buf

pub record IsCrates {Uuid Buf : Type 0} (c : Crates Uuid Buf) : Type 0 where
  pub read_u8_nil : c.read_u8 [] ≡ err unexpected_eof
  pub read_u8_cons : (b : ℕ) (r : Bytes) → c.read_u8 (b ∷ r) ≡ ok (b, r)
  pub write_u8_byte : (b : ℕ) → b < 256 → c.write_u8 b ≡ b ∷ []
  pub write_u32_size : (n : ℕ) → length (c.write_u32 n) ≡ 4
  pub read_u32_back : (n : ℕ) (r : Bytes) → n < 2 ^ 32 → c.read_u32 (c.write_u32 n ++ r) ≡ ok (n, r)
  pub read_u32_four :
      (s : Bytes) → length s ≡ 4 → (n : ℕ) × (n < 2 ^ 32) × (c.read_u32 s ≡ ok (n, []))
  pub from_bits_none : c.from_bits flag_none ≡ some flag_none
  pub from_bits_authenticated : c.from_bits flag_authenticated ≡ some flag_authenticated
  pub from_bits_other : (n : ℕ) → flag_authenticated < n → c.from_bits n ≡ none
  pub bits_lem : (f : ℕ) → c.bits f ≡ f
  pub contains_none : c.contains flag_none flag_authenticated ≡ false
  pub contains_authenticated : c.contains flag_authenticated flag_authenticated ≡ true
  pub insert_none : c.insert flag_none flag_authenticated ≡ flag_authenticated
  pub as_bytes_size : (u : Uuid) → length (c.as_bytes u) ≡ 16
  pub uuid_back : (u : Uuid) → c.uuid_from_bytes (c.as_bytes u) ≡ some u
  pub uuid_sixteen :
      (s : Bytes) → length s ≡ 16 → (u : Uuid) × (c.uuid_from_bytes s ≡ some u) × (c.as_bytes u ≡ s)
  pub split_to_view :
      (n : ℕ) (b : Buf) → n ≤ length (c.view b) → c.view (c.split_to n b) ≡ drop n (c.view b)
  pub put_slice_fits :
      (s : Bytes) (b : Buf)
      → length s ≤ c.remaining_mut b
      → (b' : Buf) × (c.put_slice s b ≡ ok b') × (c.view b' ≡ c.view b ++ s)
  pub put_slice_full :
      (s : Bytes) (b : Buf) → c.remaining_mut b < length s → c.put_slice s b ≡ panic
  pub put_slice_room :
      (s : Bytes) (b b' : Buf)
      → c.put_slice s b ≡ ok b'
      → c.remaining_mut b ≡ length s + c.remaining_mut b'
