-- ===== src/Codec/Sender.antt =====
-- Packages that `Encoder::encode` of src/codec.rs puts into one buffer, one after the other.
use eventstore_tcp.Prelude.{
  Bool, Outcome, ok, ◌>>=◌, List, [], ◌∷◌, ◌++◌, ◌≤◌, ◌≡◌, refl, length, All, append_assoc,
  append-nil, length-append, arith, sym, ◌∙◌,
}
use eventstore_tcp.Errors.{IoError}
use eventstore_tcp.Protobuf.{Protobuf}
use eventstore_tcp.Crates.{Crates, IsCrates}
use eventstore_tcp.Codec.{Package, encode}
use eventstore_tcp.Codec.Frame.{frame, IsValid}
use eventstore_tcp.Codec.Encoder.{encode-put_slice}
use eventstore_tcp.Codec.Pending.{frames}

module _ {Uuid Buf : Type 0} (c : Crates Uuid Buf) (p : Protobuf) where
  -- One call of the encoder for each package.
  unfoldable pub encode_each : Bool → List (Package Uuid) → Buf → Outcome IoError Buf
  encode_each checks [] buf = ok buf
  encode_each checks (pkg ∷ pkgs) buf = do
    buf' ← encode c p checks pkg buf
    encode_each checks pkgs buf'

module _ {Uuid Buf : Type 0} {c : Crates Uuid Buf} (q : IsCrates c) (p : Protobuf) where
  -- Valid packages whose frames fit into the room of a buffer are put behind what it holds as their
  -- frames, in order.
  pub encode_each-frames :
      (checks : Bool) (pkgs : List (Package Uuid)) (buf : Buf)
      → All (IsValid c p) pkgs
      → length (frames c p pkgs) ≤ c.remaining_mut buf
      → (buf' : Buf) × (encode_each c p checks pkgs buf ≡ ok buf')
        × (c.view buf' ≡ c.view buf ++ frames c p pkgs)
  unfolding encode_each frames
  encode_each-frames checks [] buf v h = (buf, refl, sym (append-nil (c.view buf)))
  encode_each-frames checks (pkg ∷ pkgs) buf (v, vs) h =
      let size = length-append (frame c p pkg) (frames c p pkgs) in
      let (buf1, put, holds) = q.put_slice_fits (frame c p pkg) buf (omega (arith, size, h)) in
      let left = q.put_slice_room (frame c p pkg) buf buf1 put in
      let (buf2, more, holds') =
        encode_each-frames checks pkgs buf1 vs (omega (arith, size, h, left)) in
      (
        buf2,
        rw (encode-put_slice q p checks pkg buf v.size, put) more,
        holds' ∙ rw (holds, append_assoc),
      )
