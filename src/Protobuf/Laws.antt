-- ===== src/Protobuf/Laws.antt =====
-- What the message code relies on of `quick_protobuf`: each read undoes its write whatever follows,
-- the sizes are those of what is written, and a read goes forward.
use eventstore_tcp.Prelude.{
  ℕ, Bool, true, false, Bytes, Str, IsUtf8, ok, stuck, [], ◌∷◌, ◌++◌, ◌+◌, ◌^◌, ◌≤◌, ◌<◌, ◌≡◌, ◌≢◌,
  length,
}
use eventstore_tcp.Prelude.Int.{ℤ, IsI32, IsI64, as_u64}
use eventstore_tcp.Protobuf.{Rd, Protobuf, bool_to_u64}

-- A block whose length the crate can write.
abbrev pub Fits : Bytes → Type 0
Fits s = length s < 2 ^ 31

abbrev pub IsText : Str → Type 0
IsText s = IsUtf8 s × Fits s

-- A read that ends and does not go back.
pub record IsForward {A : Type 0} (rd : Rd A) : Type 0 where
  pub ends : (r : Bytes) → (rd r).0 ≢ stuck
  pub onward : (r : Bytes) → length (rd r).1 ≤ length r

pub record IsProtobuf (p : Protobuf) : Type 1 where
  pub eof_nil : p.is_eof [] ≡ true
  pub eof_cons : (b : ℕ) (r : Bytes) → p.is_eof (b ∷ r) ≡ false
  pub next_tag_back :
      (t : ℕ) (v r : Bytes) → t < 128 → p.next_tag (p.write_with_tag t v ++ r) ≡ (ok t, v ++ r)
  pub bytes_back : (s r : Bytes) → Fits s → p.read_bytes (p.write_bytes s ++ r) ≡ (ok s, r)
  pub string_back : (s r : Bytes) → IsText s → p.read_string (p.write_string s ++ r) ≡ (ok s, r)
  pub int32_back : (i : ℤ) (r : Bytes) → IsI32 i → p.read_int32 (p.write_int32 i ++ r) ≡ (ok i, r)
  pub int64_back : (i : ℤ) (r : Bytes) → IsI64 i → p.read_int64 (p.write_int64 i ++ r) ≡ (ok i, r)
  pub bool_back : (b : Bool) (r : Bytes) → p.read_bool (p.write_bool b ++ r) ≡ (ok b, r)
  pub enum_back :
      (E : Type 0) (from : ℤ → E) (i : ℤ) (r : Bytes)
      → IsI32 i
      → p.read_enum E from (p.write_enum i ++ r) ≡ (ok (from i), r)
  pub message_back :
      (M : Type 0) (f : Rd M) (m : M) (s r : Bytes)
      → Fits s
      → f s ≡ (ok m, [])
      → p.read_message M f (p.write_message (length s) s ++ r) ≡ (ok m, r)
  pub tag_size : (t : ℕ) (v : Bytes) → t < 128 → length (p.write_with_tag t v) ≡ 1 + length v
  pub bytes_size : (s : Bytes) → length (p.write_bytes s) ≡ p.sizeof_len (length s)
  pub string_size : (s : Bytes) → length (p.write_string s) ≡ p.sizeof_len (length s)
  pub int32_size : (i : ℤ) → length (p.write_int32 i) ≡ p.sizeof_varint (as_u64 i)
  pub int64_size : (i : ℤ) → length (p.write_int64 i) ≡ p.sizeof_varint (as_u64 i)
  pub bool_size : (b : Bool) → length (p.write_bool b) ≡ p.sizeof_varint (bool_to_u64 b)
  pub enum_size : (i : ℤ) → length (p.write_enum i) ≡ p.sizeof_varint (as_u64 i)
  pub message_size :
      (n : ℕ) (s : Bytes) → length s ≡ n → length (p.write_message n s) ≡ p.sizeof_len n
  pub next_tag_forward : IsForward p.next_tag
  pub next_tag_onward : (r r' : Bytes) (t : ℕ) → p.next_tag r ≡ (ok t, r') → length r' < length r
  pub bytes_forward : IsForward p.read_bytes
  pub string_forward : IsForward p.read_string
  pub int32_forward : IsForward p.read_int32
  pub int64_forward : IsForward p.read_int64
  pub bool_forward : IsForward p.read_bool
  pub enum_forward : (E : Type 0) (from : ℤ → E) → IsForward (p.read_enum E from)
  pub message_forward : (M : Type 0) (f : Rd M) → IsForward f → IsForward (p.read_message M f)
  pub unknown_forward : (t : ℕ) → IsForward (p.read_unknown t)
