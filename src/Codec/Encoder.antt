-- ===== src/Codec/Encoder.antt =====
-- `Encoder::encode` of src/codec.rs on a buffer, and the decoder behind it.
use eventstore_tcp.Prelude.{
  Bool, some, ok, panic, [], ◌++◌, ◌+◌, ◌^◌, ◌≤◌, ◌<◌, ◌≡◌, length, ◌∙◌, append-nil,
}
use eventstore_tcp.Protobuf.{Protobuf}
use eventstore_tcp.Protobuf.Laws.{IsProtobuf}
use eventstore_tcp.Crates.{Crates, IsCrates}
use eventstore_tcp.Codec.{Package, decode, encode}
use eventstore_tcp.Codec.Frame.{frame, body, IsValid, encode_parts-frame}
use eventstore_tcp.Codec.RoundTrip.{decode-frame}

module _ {Uuid Buf : Type 0} {c : Crates Uuid Buf} (q : IsCrates c) (p : Protobuf) where
  pub encode-put_slice :
      (checks : Bool) (pkg : Package Uuid) (buf : Buf)
      → 4 + length (body c p pkg) < 2 ^ 32
      → encode c p checks pkg buf ≡ c.put_slice (frame c p pkg) buf
  unfolding encode
  encode-put_slice checks pkg buf fits = rw (encode_parts-frame q p checks pkg fits)

  -- A package that fits a frame is put behind what the buffer holds, as its frame, if the buffer
  -- has the room for it.
  pub encode-frame :
      (checks : Bool) (pkg : Package Uuid) (buf : Buf)
      → 4 + length (body c p pkg) < 2 ^ 32
      → length (frame c p pkg) ≤ c.remaining_mut buf
      → (buf' : Buf) × (encode c p checks pkg buf ≡ ok buf')
        × (c.view buf' ≡ c.view buf ++ frame c p pkg)
  encode-frame checks pkg buf fits room =
      let (buf', put, holds) = q.put_slice_fits (frame c p pkg) buf room in
      (buf', encode-put_slice checks pkg buf fits ∙ put, holds)

  -- If the buffer has too little room for the frame, encoding the package panics.
  pub encode_full :
      (checks : Bool) (pkg : Package Uuid) (buf : Buf)
      → 4 + length (body c p pkg) < 2 ^ 32
      → c.remaining_mut buf < length (frame c p pkg)
      → encode c p checks pkg buf ≡ panic
  encode_full checks pkg buf fits full =
      encode-put_slice checks pkg buf fits ∙ q.put_slice_full (frame c p pkg) buf full

module _ {Uuid Buf : Type 0} {c : Crates Uuid Buf} (q : IsCrates c) {p : Protobuf} where
  module _ (pb : IsProtobuf p) where
    -- A valid package that is encoded into an empty buffer with room for it is decoded from that
    -- buffer again, which is then empty.
    pub decode-encode :
        (checks : Bool) (pkg : Package Uuid) (buf : Buf)
        → IsValid c p pkg
        → c.view buf ≡ []
        → length (frame c p pkg) ≤ c.remaining_mut buf
        → (full drained : Buf) × (encode c p checks pkg buf ≡ ok full)
          × (decode c p full ≡ (ok (some pkg), drained))
          × (c.view drained ≡ [])
    decode-encode checks pkg buf v empty room =
        let (full, encoded, holds) = encode-frame q p checks pkg buf v.size room in
        let start : c.view full ≡ frame c p pkg ++ [] = holds ∙ rw (empty, append-nil) in
        let (drained, decoded, left) = decode-frame q pb pkg full [] v start in
        (full, drained, encoded, decoded, left)
