-- ===== src/Codec/Pending.antt =====
-- `decode_inner` of src/codec.rs on a buffer that holds the start of a row of frames.
use eventstore_tcp.Prelude.{
  Bytes, Option, none, some, ok, List, [], ◌∷◌, ◌++◌, ◌<◌, ◌≡◌, ◌≢◌, ◌⊎◌, refl, length, All,
  append-split, length-append, arith, ltb, Bool-cases, inl, inr, sym, ◌∙◌, ap,
}
use eventstore_tcp.Protobuf.{Protobuf}
use eventstore_tcp.Protobuf.Laws.{IsProtobuf}
use eventstore_tcp.Crates.{Crates, IsCrates}
use eventstore_tcp.Codec.{Package, decode}
use eventstore_tcp.Codec.Frame.{frame, IsValid}
use eventstore_tcp.Codec.RoundTrip.{decode-frame, decode_partial}

module _ {Uuid Buf : Type 0} (c : Crates Uuid Buf) (p : Protobuf) where
  -- The frames of packages that are sent one after the other.
  unfoldable pub frames : List (Package Uuid) → Bytes
  frames [] = []
  frames (pkg ∷ pkgs) = frame c p pkg ++ frames pkgs

  -- What decoding does where `later` stands behind the buffer and both hold the frames of `pending`:
  -- the first package comes out, or its frame is not there in full.
  abbrev pub Next : Buf → Bytes → List (Package Uuid) → Type 0
  Next buf later [] = decode c p buf ≡ (ok none, buf)
  Next buf later (pkg ∷ pkgs) =
      ((buf' : Buf) × (decode c p buf ≡ (ok (some pkg), buf'))
        × (c.view buf' ++ later ≡ frames pkgs))
      ⊎ ((decode c p buf ≡ (ok none, buf)) × (length (c.view buf) < length (frame c p pkg)))

  decode_empty : (buf : Buf) → c.view buf ≡ [] → decode c p buf ≡ (ok none, buf)
  unfolding decode
  decode_empty buf e = rw e

module _ {Uuid Buf : Type 0} (c : Crates Uuid Buf) (p : Protobuf) where
  pub none_keeps :
      (buf : Buf) (later : Bytes) (pending : List (Package Uuid)) (buf' : Buf)
      → Next c p buf later pending
      → decode c p buf ≡ (ok none, buf')
      → buf' ≡ buf
  none_keeps buf later [] buf' n got = ap (λ x. x.1) (sym got ∙ n)
  none_keeps buf later (x ∷ rest) buf' (inr (n, less)) got = ap (λ x. x.1) (sym got ∙ n)
  none_keeps buf later (x ∷ rest) buf' (inl (b, n, left)) got =
      let e = ap (λ x. x.0) (sym n ∙ got) in cc

  pub decode_total :
      (buf : Buf) (later : Bytes) (pending : List (Package Uuid))
      → Next c p buf later pending
      → (o : Option (Package Uuid)) × (buf' : Buf) × (decode c p buf ≡ (ok o, buf'))
  decode_total buf later [] n = (none, buf, n)
  decode_total buf later (x ∷ rest) (inl (buf', n, left)) = (some x, buf', n)
  decode_total buf later (x ∷ rest) (inr (n, less)) = (none, buf, n)

  -- With nothing behind the buffer the first frame pending is there in full.
  pub short_frame :
      (buf : Buf) (later : Bytes) (x : Package Uuid) (rest : List (Package Uuid))
      → later ≡ []
      → c.view buf ++ later ≡ frames c p (x ∷ rest)
      → ¬ (length (c.view buf) < length (frame c p x))
  unfolding frames
  short_frame buf later x rest none_later e less = omega (
    arith,
    ap length (ap (λ y. c.view buf ++ y) (sym none_later) ∙ e),
    length-append (c.view buf) [],
    length-append (frame c p x) (frames c p rest),
  )

empty_front : {A : Type 0} (xs ys : List A) → xs ++ ys ≡ [] → xs ≡ []
empty_front [] ys e = refl
empty_front (x ∷ xs) ys e = cc

module _ {Uuid Buf : Type 0} {c : Crates Uuid Buf} (q : IsCrates c) {p : Protobuf} where
  module _ (pb : IsProtobuf p) where
    pub decode-Next :
        (buf : Buf) (later : Bytes) (pending : List (Package Uuid))
        → All (IsValid c p) pending
        → c.view buf ++ later ≡ frames c p pending
        → Next c p buf later pending
    unfolding frames
    decode-Next buf later [] h e = decode_empty c p buf (empty_front (c.view buf) later e)
    decode-Next buf later (pkg ∷ pkgs) (v, vs) e =
        elim (Bool-cases (ltb (length (c.view buf)) (length (frame c p pkg)))) [
          | inl short ↦
              let less : length (c.view buf) < length (frame c p pkg) = ground arith in
              let (m, front, back) =
                append-split (c.view buf) later (frame c p pkg) (frames c p pkgs) e (omega arith) in
              let some_missing : m ≢ [] = λ none_missing.
                omega
                  (arith, ap length front, ap length none_missing, length-append (c.view buf) m) in
              inr (decode_partial q pb pkg buf m v (sym front) some_missing, less)
          | inr long ↦
              let (m, front, back) =
                append-split (frame c p pkg) (frames c p pkgs) (c.view buf) later (sym e)
                  (ground arith) in
              let (buf', decoded, left) = decode-frame q pb pkg buf m v front in
              inl (buf', decoded, rw left (sym back))
        ]
