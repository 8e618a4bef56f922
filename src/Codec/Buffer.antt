-- ===== src/Codec/Buffer.antt =====
-- What `decode_inner` of src/codec.rs does to its buffer, whatever bytes the buffer holds.
use eventstore_tcp.Prelude.{
  ℕ, Bytes, Option, none, some, Outcome, ok, err, panic, stuck, ◌++◌, ◌+◌, ◌≤◌, ◌≡◌, ◌≢◌, ◌⊎◌, inl,
  inr, refl, length, take, drop, length-append, take-append, drop-append, length-drop, arith, ltb,
  Bool-cases, le→not_ltb,
}
use eventstore_tcp.Errors.{IoError}
use eventstore_tcp.Protobuf.{Protobuf}
use eventstore_tcp.Crates.{Crates}
use eventstore_tcp.Raw.{RawMessage}
use eventstore_tcp.Auth.{UsernamePassword}
use eventstore_tcp.Codec.{Package, decode, decode_frame, take_frame}

module _ {Uuid Buf : Type 0} (c : Crates Uuid Buf) where
  -- Either a package is returned and the buffer loses the prefix of four bytes and as many bytes as the
  -- prefix tells, at least 18, which are all there, or none is and the buffer is what it was.
  abbrev pub Takes : Buf → Outcome IoError (Option (Package Uuid)) × Buf → Type 0
  Takes buf x =
      ((pkg : Package Uuid) × (len : ℕ) × (rest : Bytes) × (c.read_u32 (take 4 (c.view buf))
          ≡ ok (len, rest))
        × (x ≡ (ok (some pkg), c.split_to (4 + len) buf))
        × (18 ≤ len)
        × (4 + len ≤ length (c.view buf)))
      ⊎ ((x.1 ≡ buf) × ((pkg : Package Uuid) → x.0 ≢ ok (some pkg)))

  Takes-take_frame :
      (len : ℕ) (rest : Bytes) (buf : Buf)
      (o : Outcome IoError (Uuid × Option UsernamePassword × RawMessage))
      → c.read_u32 (take 4 (c.view buf)) ≡ ok (len, rest)
      → 18 ≤ len
      → 4 + len ≤ length (c.view buf)
      → Takes buf (take_frame c (4 + len) buf o)
  unfolding take_frame
  Takes-take_frame len rest buf (ok (id, a, m)) told lo hi = inl (_, len, rest, told, refl, lo, hi)
  Takes-take_frame len rest buf (err e) told lo hi = inr (refl, λ pkg h. cc)
  Takes-take_frame len rest buf panic told lo hi = inr (refl, λ pkg h. cc)
  Takes-take_frame len rest buf stuck told lo hi = inr (refl, λ pkg h. cc)

module _ {Uuid Buf : Type 0} (c : Crates Uuid Buf) (p : Protobuf) where
  Takes-decode_frame :
      (buf : Buf) (r : Outcome IoError (ℕ × Bytes))
      → c.read_u32 (take 4 (c.view buf)) ≡ r
      → Takes c buf (decode_frame c p buf r)
  unfolding decode_frame
  Takes-decode_frame buf (ok (len, r)) told = elim (Bool-cases (ltb len 18)) [
    | inl small ↦ rw small (inr (refl, λ pkg h. cc))
    | inr big ↦ elim (Bool-cases (ltb (length (c.view buf)) (len + 4))) [
      | inl short ↦ rw (big, short) (inr (refl, λ pkg h. cc))
      | inr whole ↦
          rw (big, whole) (Takes-take_frame c len r buf _ told (ground arith) (ground arith))
    ]
  ]
  Takes-decode_frame buf (err e) told = inr (refl, λ pkg h. cc)
  Takes-decode_frame buf panic told = inr (refl, λ pkg h. cc)
  Takes-decode_frame buf stuck told = inr (refl, λ pkg h. cc)

  -- On any buffer, decoding either returns a package and takes the frame that the buffer begins with
  -- off its front, a prefix of four bytes and as many bytes as the prefix tells, at least 18, which
  -- are all there, or returns no package, but none, an error or a panic, and leaves the buffer as it
  -- was.
  pub decode-Takes : (buf : Buf) → Takes c buf (decode c p buf)
  unfolding decode
  decode-Takes buf = elim (Bool-cases (ltb (length (c.view buf)) 22)) [
    | inl short ↦ rw short (inr (refl, λ pkg h. cc))
    | inr long ↦ rw long (Takes-decode_frame buf (c.read_u32 (take 4 (c.view buf))) refl)
  ]

  take_frame_result :
      (n m : ℕ) (buf buf' : Buf) (o : Outcome IoError (Uuid × Option UsernamePassword × RawMessage))
      → (take_frame c n buf o).0 ≡ (take_frame c m buf' o).0
  unfolding take_frame
  take_frame_result n m buf buf' (ok (id, a, x)) = refl
  take_frame_result n m buf buf' (err e) = refl
  take_frame_result n m buf buf' panic = refl
  take_frame_result n m buf buf' stuck = refl

  decode_frame_stable :
      (buf more : Buf) (rest : Bytes) (r : Outcome IoError (ℕ × Bytes))
      → c.view more ≡ c.view buf ++ rest
      → 4 ≤ length (c.view buf)
      → (decode_frame c p buf r).0 ≢ ok none
      → (decode_frame c p more r).0 ≡ (decode_frame c p buf r).0
  unfolding decode_frame
  decode_frame_stable buf more rest (ok (len, r)) e enough ne = elim (Bool-cases (ltb len 18)) [
    | inl small ↦ rw small
    | inr big ↦ elim (Bool-cases (ltb (length (c.view buf)) (len + 4))) [
      | inl short ↦ absurd (ne (rw (big, short)))
      | inr whole ↦
          let fits : len + 4 ≤ length (c.view buf) = ground arith in
          let longer : len + 4 ≤ length (c.view more) =
            rw e (omega (arith, length-append (c.view buf) rest)) in
          let cut : take len (drop 4 (c.view more)) ≡ take len (drop 4 (c.view buf)) =
            rw (e, drop-append 4 (c.view buf) rest enough)
              (take-append len (drop 4 (c.view buf)) rest
                (omega (arith, length-drop 4 (c.view buf)))) in
          rw (big, whole, le→not_ltb (length (c.view more)) (len + 4) longer, cut)
            (take_frame_result (4 + len) (4 + len) more buf _)
    ]
  ]
  decode_frame_stable buf more rest (err x) e enough ne = refl
  decode_frame_stable buf more rest panic e enough ne = refl
  decode_frame_stable buf more rest stuck e enough ne = refl

  -- Once decoding a buffer returns a package or fails, more bytes behind what the buffer holds do
  -- not change that result.
  pub decode_stable :
      (buf more : Buf) (rest : Bytes)
      → c.view more ≡ c.view buf ++ rest
      → (decode c p buf).0 ≢ ok none
      → (decode c p more).0 ≡ (decode c p buf).0
  unfolding decode
  decode_stable buf more rest e ne = elim (Bool-cases (ltb (length (c.view buf)) 22)) [
    | inl short ↦ absurd (ne (rw short))
    | inr long ↦
        let enough : 22 ≤ length (c.view buf) = ground arith in
        let longer : 22 ≤ length (c.view more) =
          rw e (omega (arith, length-append (c.view buf) rest)) in
        let same : take 4 (c.view more) ≡ take 4 (c.view buf) =
          rw e (take-append 4 (c.view buf) rest (omega arith)) in
        let ne' : (decode_frame c p buf (c.read_u32 (take 4 (c.view buf)))).0 ≢ ok none =
          rw long at ne in
        rw (long, le→not_ltb (length (c.view more)) 22 longer, same)
          (decode_frame_stable buf more rest (c.read_u32 (take 4 (c.view buf))) e (omega arith) ne')
  ]
