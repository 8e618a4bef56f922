-- ===== src/Client.antt =====
-- `Separator` of src/client.rs: the transport that pairs a package with its correlation id. The
-- connection and the matching of responses to requests are the work of tokio_proto.
use eventstore_tcp.Prelude.{
  Bool, true, Option, none, some, Outcome, ok, err, panic, stuck, ◌>>◌, [], ◌≤◌, ◌≡◌, length,
}
use eventstore_tcp.Errors.{IoError}
use eventstore_tcp.Protobuf.{Protobuf}
use eventstore_tcp.Protobuf.Laws.{IsProtobuf}
use eventstore_tcp.Crates.{Crates, IsCrates}
use eventstore_tcp.Codec
use eventstore_tcp.Codec.{Package}
use eventstore_tcp.Codec.Frame.{frame, IsValid}
use eventstore_tcp.Codec.Encoder
use eventstore_tcp.Prelude.{assert}

module _ {Uuid Buf : Type 0} (c : Crates Uuid Buf) (p : Protobuf) where
  -- `map(|x| x.map(|x| (x.correlation_id, x)))`
  paired : Outcome IoError (Option (Package Uuid)) → Outcome IoError (Option (Uuid × Package Uuid))
  paired (ok none) = ok none
  paired (ok (some x)) = ok (some (x.correlation_id, x))
  paired (err e) = err e
  paired panic = panic
  paired stuck = stuck

  unfoldable pub decode : Buf → Outcome IoError (Option (Uuid × Package Uuid)) × Buf
  unfolding paired
  decode buf = let (x, buf') = Codec.decode c p buf in (paired x, buf')

  -- `eq` is the comparison of two ids in `assert_eq!`.
  unfoldable pub encode :
      (Uuid → Uuid → Bool) → Bool → Uuid × Package Uuid → Buf → Outcome IoError Buf
  encode eq checks (id, pkg) buf = do
    assert (eq id pkg.correlation_id)
    Codec.encode c p checks pkg buf

  -- `RequestIdSource::next`
  unfoldable pub next : Package Uuid → Uuid
  next pkg = pkg.correlation_id

module _ {Uuid Buf : Type 0} {c : Crates Uuid Buf} (q : IsCrates c) {p : Protobuf} where
  module _ (pb : IsProtobuf p) where
    -- A request that is sent under the id that `next` gives it comes out of the transport's decoder
    -- paired with that id, when the ids are compared by a reflexive test and the buffer is empty and
    -- has the room.
    pub decode-encode-next :
        (eq : Uuid → Uuid → Bool) (checks : Bool) (pkg : Package Uuid) (buf : Buf)
        → ((id : Uuid) → eq id id ≡ true)
        → IsValid c p pkg
        → c.view buf ≡ []
        → length (frame c p pkg) ≤ c.remaining_mut buf
        → (full drained : Buf) × (encode c p eq checks (next c p pkg, pkg) buf ≡ ok full)
          × (decode c p full ≡ (ok (some (next c p pkg, pkg)), drained))
          × (c.view drained ≡ [])
    unfolding encode decode next
    decode-encode-next eq checks pkg buf same v empty room =
        let (full, drained, encoded, decoded, left) =
          Encoder.decode-encode q pb checks pkg buf v empty room in
        (full, drained, rw (same pkg.correlation_id) encoded, rw decoded, left)
