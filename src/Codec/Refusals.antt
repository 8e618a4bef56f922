-- ===== src/Codec/Refusals.antt =====
-- What `decode_inner` of src/codec.rs refuses.
use eventstore_tcp.Prelude.{
  ℕ, Bytes, err, [], ◌∷◌, ok, ◌+◌, ◌≤◌, ◌<◌, ◌≡◌, length, take, drop, le→not_ltb, arith,
}
use eventstore_tcp.Errors.{other, invalid_flags}
use eventstore_tcp.Protobuf.{Protobuf}
use eventstore_tcp.Crates.{Crates, IsCrates}
use eventstore_tcp.Codec.{decode, decode_body, decode_header, checked_flags}

module _ {Uuid Buf : Type 0} {c : Crates Uuid Buf} (q : IsCrates c) (p : Protobuf) where
  -- A frame that is there in full and has any flag but `FLAG_AUTHENTICATED` set is refused as
  -- `InvalidFlags`, whatever follows the flags, and stays in the buffer.
  pub decode_bad_flags :
      (buf : Buf) (len d f : ℕ) (rest : Bytes)
      → c.read_u32 (take 4 (c.view buf)) ≡ ok (len, [])
      → 18 ≤ len
      → len + 4 ≤ length (c.view buf)
      → take len (drop 4 (c.view buf)) ≡ d ∷ f ∷ rest
      → 1 < f
      → decode c p buf ≡ (err (other (invalid_flags f)), buf)
  unfolding decode decode_body decode_header checked_flags
  decode_bad_flags buf len d f rest prefix big there inside bad = rw (
    le→not_ltb (length (c.view buf)) 22 (omega arith),
    prefix,
    le→not_ltb len 18 big,
    le→not_ltb (length (c.view buf)) (len + 4) there,
    inside,
    q.read_u8_cons d (f ∷ rest),
    q.read_u8_cons f rest,
    q.from_bits_other f bad,
  )
