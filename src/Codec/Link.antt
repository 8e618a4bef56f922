-- ===== src/Codec/Link.antt =====
-- A connection that carries frames, seen from the decoder of src/codec.rs: what has been sent and has
-- not arrived, the buffer, and the packages that came out. The transport appends what arrives to the
-- buffer, in pieces of any size, and calls the decoder whenever it likes.
pub mod Laws
pub mod Progress
use eventstore_tcp.Prelude.{Bytes, Option, none, some, ok, List, [], ◌∷◌, ◌++◌, ◌≡◌}
use eventstore_tcp.Protobuf.{Protobuf}
use eventstore_tcp.Crates.{Crates}
use eventstore_tcp.Codec.{Package, decode}

module _ {Uuid Buf : Type 0} (c : Crates Uuid Buf) (p : Protobuf) where
  pub record Link : Type 0 where
    pub buffer : Buf
    pub in_flight : Bytes
    pub delivered : List (Package Uuid)

  pub data Step (s t : Link) : Type 0 where
    arrive :
        (chunk : Bytes)
        → s.in_flight ≡ chunk ++ t.in_flight
        → c.view t.buffer ≡ c.view s.buffer ++ chunk
        → t.delivered ≡ s.delivered
        → Step s t
    deliver :
        (pkg : Package Uuid)
        → decode c p s.buffer ≡ (ok (some pkg), t.buffer)
        → t.in_flight ≡ s.in_flight
        → t.delivered ≡ s.delivered ++ (pkg ∷ [])
        → Step s t
    wait :
        decode c p s.buffer ≡ (ok none, t.buffer)
        → t.in_flight ≡ s.in_flight
        → t.delivered ≡ s.delivered
        → Step s t

  pub data Reach (s : Link) : Link → Type 0 where
    here : Reach s s
    next : {t u : Link} → Reach s t → Step t u → Reach s u
