-- ===== src/Codec/Link/Progress.antt =====
-- A connection can always be run on until everything that was sent has come out.
use eventstore_tcp.Prelude.{
  Bytes, List, [], ◌∷◌, ◌++◌, append_assoc, ◌≡◌, refl, append-nil, inl, inr, sym, ◌∙◌,
}
use eventstore_tcp.Protobuf.{Protobuf}
use eventstore_tcp.Protobuf.Laws.{IsProtobuf}
use eventstore_tcp.Crates.{Crates, IsCrates}
use eventstore_tcp.Codec.{Package}
use eventstore_tcp.Codec.Pending.{short_frame, decode-Next}
use eventstore_tcp.Codec.Link.{Link, arrive, deliver, Reach, here, next}
use eventstore_tcp.Codec.Link.Laws.{IsStart, Balanced, Reach-Balanced}

module _ {Uuid Buf : Type 0} {c : Crates Uuid Buf} {p : Protobuf} where
  Reach-trans : {s t u : Link c p} → Reach c p s t → Reach c p t u → Reach c p s u
  Reach-trans r here = r
  Reach-trans r (next r' st) = next (Reach-trans r r') st

module _ {Uuid Buf : Type 0} {c : Crates Uuid Buf} (q : IsCrates c) {p : Protobuf} where
  module _ (pb : IsProtobuf p) {sent : List (Package Uuid)} where
    drain :
        (pending : List (Package Uuid)) (t : Link c p)
        → Balanced c p sent t pending
        → t.in_flight ≡ []
        → (u : Link c p) × Reach c p t u × (u.in_flight ≡ []) × (u.delivered ≡ sent)
    drain [] t b i = (t, here, i, sym (append-nil t.delivered) ∙ b.split)
    drain (x ∷ rest) t b i =
        elim (decode-Next q pb t.buffer t.in_flight (x ∷ rest) b.valid b.bytes) [
          | inl (buf', n, left) ↦
              let t' : Link c p = record {
                buffer = buf';
                in_flight = t.in_flight;
                delivered = t.delivered ++ (x ∷ []);
              } in
              let b' : Balanced c p sent t' rest = record {
                valid = b.valid.1;
                split = rw append_assoc b.split;
                bytes = left;
              } in
              let (u, r, i', d) = drain rest t' b' i in
              (u, Reach-trans (next here (deliver x n refl refl)) r, i', d)
          | inr (n, less) ↦ absurd (short_frame c p t.buffer t.in_flight x rest i b.bytes less)
        ]

    -- Where a buffer can grow by any bytes, a connection on which valid packages were sent can, from
    -- wherever it has got to, be run on until all of them have come out.
    pub delivers :
        {s t : Link c p}
        → ((b : Buf) (chunk : Bytes) → (b' : Buf) × (c.view b' ≡ c.view b ++ chunk))
        → IsStart c p sent s
        → Reach c p s t
        → (u : Link c p) × Reach c p t u × (u.in_flight ≡ []) × (u.delivered ≡ sent)
    delivers {s} {t} grow h r =
        let (pending, b) = Reach-Balanced q pb h r in
        let (buf', holds) = grow t.buffer t.in_flight in
        let t' : Link c p = record { buffer = buf'; in_flight = []; delivered = t.delivered } in
        let b' : Balanced c p sent t' pending = record {
          valid = b.valid;
          split = b.split;
          bytes = rw (holds, append-nil) b.bytes;
        } in
        let (u, r', i, d) = drain pending t' b' refl in
        (
          u,
          Reach-trans (next here (arrive t.in_flight (sym (append-nil t.in_flight)) holds refl)) r',
          i,
          d,
        )
