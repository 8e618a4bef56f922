-- ===== src/Codec/Link/Laws.antt =====
-- What comes out of a connection on which valid packages were sent.
use eventstore_tcp.Prelude.{
  Option, none, some, Outcome, ok, List, [], ◌∷◌, ◌++◌, ◌≡◌, All, append_assoc, append-nil, inl,
  inr, sym, ◌∙◌, ap,
}
use eventstore_tcp.Errors.{IoError}
use eventstore_tcp.Protobuf.{Protobuf}
use eventstore_tcp.Protobuf.Laws.{IsProtobuf}
use eventstore_tcp.Crates.{Crates, IsCrates}
use eventstore_tcp.Codec.{Package, decode}
use eventstore_tcp.Codec.Frame.{IsValid}
use eventstore_tcp.Codec.Pending.{frames, Next, none_keeps, decode_total, short_frame, decode-Next}
use eventstore_tcp.Codec.Link.{Link, Step, arrive, deliver, wait, Reach, here, next}

module _ {Uuid Buf : Type 0} (c : Crates Uuid Buf) (p : Protobuf) where
  -- Nothing has arrived of the frames of `sent`.
  pub record IsStart (sent : List (Package Uuid)) (s : Link c p) : Type 0 where
    pub valid : All (IsValid c p) sent
    pub empty : c.view s.buffer ≡ []
    pub in_flight : s.in_flight ≡ frames c p sent
    pub delivered : s.delivered ≡ []

  -- The packages sent are those delivered and those pending, whose frames stand in the buffer and
  -- behind it.
  pub record Balanced (sent : List (Package Uuid)) (s : Link c p) (pending : List (Package Uuid))
      : Type 0 where
    pub valid : All (IsValid c p) pending
    pub split : s.delivered ++ pending ≡ sent
    pub bytes : c.view s.buffer ++ s.in_flight ≡ frames c p pending

module _ {Uuid Buf : Type 0} {c : Crates Uuid Buf} (q : IsCrates c) {p : Protobuf} where
  module _ (pb : IsProtobuf p) {sent : List (Package Uuid)} where
    pub deliver-Balanced :
        (s t : Link c p) (pkg : Package Uuid) (pending : List (Package Uuid))
        → Balanced c p sent s pending
        → Next c p s.buffer s.in_flight pending
        → decode c p s.buffer ≡ (ok (some pkg), t.buffer)
        → t.in_flight ≡ s.in_flight
        → t.delivered ≡ s.delivered ++ (pkg ∷ [])
        → (rest : List (Package Uuid)) × Balanced c p sent t rest
    deliver-Balanced s t pkg [] b n got i d = let e = ap (λ x. x.0) (sym n ∙ got) in cc
    deliver-Balanced s t pkg (x ∷ rest) b (inr (n, less)) got i d =
        let e = ap (λ x. x.0) (sym n ∙ got) in cc
    deliver-Balanced s t pkg (x ∷ rest) b (inl (buf', n, left)) got i d =
        let e : ◌≡◌ {A = Outcome IoError (Option (Package Uuid)) × Buf} (ok (some x), buf')
            (ok (some pkg), t.buffer) =
          sym n ∙ got in
        let same : pkg ≡ x = cc in
        let buffer : t.buffer ≡ buf' = cc in
        (
          rest,
          record {
            valid = b.valid.1;
            split = rw (d, same, append_assoc) b.split;
            bytes = rw (buffer, i) left;
          },
        )

    Step-Balanced :
        (s t : Link c p) (pending : List (Package Uuid))
        → Balanced c p sent s pending
        → Step c p s t
        → (rest : List (Package Uuid)) × Balanced c p sent t rest
    Step-Balanced s t pending b (arrive chunk i v d) = (
      pending,
      record {
        valid = b.valid;
        split = rw d b.split;
        bytes = rw (v, append_assoc) (ap (λ x. c.view s.buffer ++ x) (sym i) ∙ b.bytes);
      },
    )
    Step-Balanced s t pending b (deliver pkg got i d) =
        deliver-Balanced s t pkg pending b
          (decode-Next q pb s.buffer s.in_flight pending b.valid b.bytes) got i d
    Step-Balanced s t pending b (wait got i d) =
        let same =
          none_keeps c p s.buffer s.in_flight pending t.buffer
            (decode-Next q pb s.buffer s.in_flight pending b.valid b.bytes) got in
        (pending, record { valid = b.valid; split = rw d b.split; bytes = rw (same, i) b.bytes })

    pub Reach-Balanced :
        {s t : Link c p}
        → IsStart c p sent s
        → Reach c p s t
        → (pending : List (Package Uuid)) × Balanced c p sent t pending
    Reach-Balanced {s} h here = (
      sent,
      record { valid = h.valid; split = rw h.delivered; bytes = rw (h.empty, h.in_flight) },
    )
    Reach-Balanced h (next {t} {u} r st) =
        let (pending, b) = Reach-Balanced h r in Step-Balanced t u pending b st

    -- Of packages that were sent as their frames, in whatever pieces the bytes arrive and whenever the
    -- decoder is called, those that came out are the first ones sent, in order.
    pub delivered_first :
        {s t : Link c p}
        → IsStart c p sent s
        → Reach c p s t
        → (pending : List (Package Uuid)) × (t.delivered ++ pending ≡ sent)
    delivered_first h r = let (pending, b) = Reach-Balanced h r in (pending, b.split)

    -- However far such a connection has got, decoding its buffer neither fails nor panics.
    pub decode_never_fails :
        {s t : Link c p}
        → IsStart c p sent s
        → Reach c p s t
        → (o : Option (Package Uuid)) × (buf : Buf) × (decode c p t.buffer ≡ (ok o, buf))
    decode_never_fails {s} {t} h r =
        let (pending, b) = Reach-Balanced h r in
        decode_total c p t.buffer t.in_flight pending
          (decode-Next q pb t.buffer t.in_flight pending b.valid b.bytes)

    quiet :
        (t : Link c p) (pending : List (Package Uuid))
        → Balanced c p sent t pending
        → Next c p t.buffer t.in_flight pending
        → t.in_flight ≡ []
        → (decode c p t.buffer).0 ≡ ok none
        → t.delivered ≡ sent
    quiet t [] b n i e = sym (append-nil t.delivered) ∙ b.split
    quiet t (x ∷ rest) b (inl (buf', n, left)) i e = let e' = sym (ap (λ y. y.0) n) ∙ e in cc
    quiet t (x ∷ rest) b (inr (n, less)) i e =
        absurd (short_frame c p t.buffer t.in_flight x rest i b.bytes less)

    -- When everything has arrived and the decoder asks for more, every package sent has come out.
    pub delivered_all :
        {s t : Link c p}
        → IsStart c p sent s
        → Reach c p s t
        → t.in_flight ≡ []
        → (decode c p t.buffer).0 ≡ ok none
        → t.delivered ≡ sent
    delivered_all {s} {t} h r i e =
        let (pending, b) = Reach-Balanced h r in
        quiet t pending b (decode-Next q pb t.buffer t.in_flight pending b.valid b.bytes) i e
