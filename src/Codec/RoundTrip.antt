-- ===== src/Codec/RoundTrip.antt =====
-- `decode_inner` of src/codec.rs on a buffer with a frame in front, whole or in part.
use eventstore_tcp.Prelude.{
  ℕ, Bytes, Option, none, some, ok, [], ◌∷◌, ◌++◌, ◌+◌, ◌≤◌, ◌<◌, ◌≡◌, refl, length, take, drop,
  length-append, take_all, drop_all, append_assoc, arith, ltb, le→not_ltb, lt→ltb, ap, sym, ◌∙◌,
  append-nil, ◌≢◌, Bool-cases, inl, inr, take-append,
}
use eventstore_tcp.Protobuf.{Protobuf}
use eventstore_tcp.Protobuf.Laws.{IsProtobuf}
use eventstore_tcp.Crates.{Crates, IsCrates, flag_authenticated}
use eventstore_tcp.Auth.{UsernamePassword}
use eventstore_tcp.Auth.Laws
use eventstore_tcp.Auth.Laws.{read_exact-append}
use eventstore_tcp.Raw
use eventstore_tcp.Raw.RoundTrip
use eventstore_tcp.Codec.{Package, decode_header, decode_body, decode, checked_flags, credentials}
use eventstore_tcp.Codec.Frame.{flag_byte, IsAuth, credentials_of, header, body, frame, IsValid}

length_pos : (s : Bytes) → s ≢ [] → 0 < length s
length_pos [] ne = absurd (ne refl)
length_pos (b ∷ s) ne = omega arith

flag_byte_small : (a : Option UsernamePassword) → flag_byte a < 256
flag_byte_small none = omega arith
flag_byte_small (some a) = omega arith

module _ {Uuid Buf : Type 0} {c : Crates Uuid Buf} (q : IsCrates c) where
  read_flags :
      (a : Option UsernamePassword)
      → checked_flags (flag_byte a) (c.from_bits (flag_byte a)) ≡ ok (flag_byte a)
  unfolding checked_flags
  read_flags none = rw q.from_bits_none
  read_flags (some a) = rw q.from_bits_authenticated

  read_credentials :
      (a : Option UsernamePassword) (r : Bytes)
      → IsAuth a
      → credentials c (c.contains (flag_byte a) flag_authenticated) (credentials_of c a ++ r)
        ≡ ok (a, r)
  unfolding credentials
  read_credentials none r h = rw q.contains_none
  read_credentials (some a) r h =
      rw (q.contains_authenticated, (Laws.decode-encode_credentials q a r h).0)

  -- The header takes 18 bytes, and those of the credentials.
  pub length-header :
      (pkg : Package Uuid)
      → Raw.discriminator pkg.message < 256
      → length (header c pkg) ≡ 18 + length (credentials_of c pkg.authentication)
  unfolding header
  length-header pkg byte =
      rw
        (
          q.write_u8_byte (Raw.discriminator pkg.message) byte,
          q.write_u8_byte (flag_byte pkg.authentication) (flag_byte_small pkg.authentication),
          length-append,
        )
        (omega (arith, q.as_bytes_size pkg.correlation_id))

  decode_header-append :
      (pkg : Package Uuid) (rest : Bytes)
      → IsAuth pkg.authentication
      → Raw.discriminator pkg.message < 256
      → decode_header c (header c pkg ++ rest)
        ≡ ok (
          Raw.discriminator pkg.message,
          pkg.correlation_id,
          pkg.authentication,
          length (header c pkg),
        )
  unfolding decode_header
  decode_header-append pkg rest auth byte =
      rw
        (
          shape,
          q.write_u8_byte (Raw.discriminator pkg.message) byte,
          q.read_u8_cons (Raw.discriminator pkg.message) _,
          q.write_u8_byte (flag_byte pkg.authentication) (flag_byte_small pkg.authentication),
          q.read_u8_cons (flag_byte pkg.authentication) _,
          read_flags pkg.authentication,
          read_exact-append 16 (c.as_bytes pkg.correlation_id) _
              (q.as_bytes_size pkg.correlation_id),
          q.uuid_back pkg.correlation_id,
          read_credentials pkg.authentication rest auth,
        )
        (ap
          (λ (n : ℕ). ok (Raw.discriminator pkg.message, pkg.correlation_id, pkg.authentication, n))
          (omega (
            arith,
            length-header pkg byte,
            q.as_bytes_size pkg.correlation_id,
            length-append (c.as_bytes pkg.correlation_id)
                (credentials_of c pkg.authentication ++ rest),
            length-append (credentials_of c pkg.authentication) rest,
          )))
    where
      shape :
          header c pkg ++ rest
          ≡ c.write_u8 (Raw.discriminator pkg.message)
            ++ (c.write_u8 (flag_byte pkg.authentication)
                ++ (c.as_bytes pkg.correlation_id ++ (credentials_of c pkg.authentication ++ rest)))
      shape = unfold header in simp append_assoc

module _ {Uuid Buf : Type 0} {c : Crates Uuid Buf} (q : IsCrates c) {p : Protobuf} where
  module _ (pb : IsProtobuf p) where
    decode_body_lem :
        (pkg : Package Uuid)
        → IsValid c p pkg
        → decode_body c p (body c p pkg) ≡ ok (pkg.correlation_id, pkg.authentication, pkg.message)
    unfolding decode_body body
    decode_body_lem pkg v = rw (
      decode_header-append q pkg (Raw.encode p pkg.message) v.authentication v.discriminator,
      drop_all (header c pkg) (Raw.encode p pkg.message) (length (header c pkg)) refl,
      RoundTrip.decode-encode_raw pb pkg.message v.message,
    )

    length-body : (pkg : Package Uuid) → IsValid c p pkg → 18 ≤ length (body c p pkg)
    unfolding body
    length-body pkg v = omega (
      arith,
      length-append (header c pkg) (Raw.encode p pkg.message),
      length-header q pkg v.discriminator,
    )

    -- The parts of a buffer that starts with a frame.
    frame_parts :
        (pkg : Package Uuid) (s rest : Bytes)
        → IsValid c p pkg
        → s ≡ frame c p pkg ++ rest
        → (length s ≡ 4 + length (body c p pkg) + length rest)
          × (c.read_u32 (take 4 s) ≡ ok (length (body c p pkg), []))
          × (take (length (body c p pkg)) (drop 4 s) ≡ body c p pkg)
          × (drop (4 + length (body c p pkg)) s ≡ rest)
    unfolding frame
    frame_parts pkg s rest v e =
        let b = body c p pkg in
        let w = c.write_u32 (length b) in
        let w_size : length w ≡ 4 = q.write_u32_size (length b) in
        let frame_size : length (w ++ b) ≡ 4 + length b =
          omega (arith, length-append w b, w_size) in
        let flat : s ≡ w ++ (b ++ rest) = e ∙ append_assoc w b rest in
        let prefix : c.read_u32 w ≡ ok (length b, []) =
          rw append-nil at (q.read_u32_back (length b) [] (omega arith)) in
        (
          rw e (omega (arith, length-append (w ++ b) rest, frame_size)),
          rw (flat, take_all w (b ++ rest) 4 w_size) prefix,
          rw (flat, drop_all w (b ++ rest) 4 w_size) (take_all b rest (length b) refl),
          rw e (drop_all (w ++ b) rest (4 + length b) frame_size),
        )

    -- A buffer that starts with the frame of a valid package is decoded to that package, and what
    -- the buffer then holds is what stood behind the frame.
    pub decode-frame :
        (pkg : Package Uuid) (buf : Buf) (rest : Bytes)
        → IsValid c p pkg
        → c.view buf ≡ frame c p pkg ++ rest
        → (buf' : Buf) × (decode c p buf ≡ (ok (some pkg), buf')) × (c.view buf' ≡ rest)
    unfolding decode
    decode-frame pkg buf rest v e =
        let (size, prefix, inside, behind) = frame_parts pkg (c.view buf) rest v e in
        let long = length-body pkg v in
        (
          c.split_to (4 + length (body c p pkg)) buf,
          rw (
            le→not_ltb (length (c.view buf)) 22 (omega arith),
            prefix,
            le→not_ltb (length (body c p pkg)) 18 long,
            le→not_ltb (length (c.view buf)) (length (body c p pkg) + 4) (omega arith),
            inside,
            decode_body_lem pkg v,
          ),
          q.split_to_view (4 + length (body c p pkg)) buf (omega arith) ∙ behind,
        )

    -- Of a frame that has not arrived in full nothing is decoded, and the buffer is left as it is.
    pub decode_partial :
        (pkg : Package Uuid) (buf : Buf) (missing : Bytes)
        → IsValid c p pkg
        → c.view buf ++ missing ≡ frame c p pkg
        → missing ≢ []
        → decode c p buf ≡ (ok none, buf)
    unfolding decode
    decode_partial pkg buf missing v e ne =
        let (size, prefix, inside, behind) =
          frame_parts pkg (c.view buf ++ missing) [] v (e ∙ sym (append-nil (frame c p pkg))) in
        elim (Bool-cases (ltb (length (c.view buf)) 22)) [
          | inl short ↦ rw short
          | inr long ↦
              let same = take-append 4 (c.view buf) missing (ground arith) in
              let short' : length (c.view buf) < length (body c p pkg) + 4 =
                omega (arith, size, length-append (c.view buf) missing, length_pos missing ne) in
              rw (
                long,
                sym same,
                prefix,
                le→not_ltb (length (body c p pkg)) 18 (length-body pkg v),
                lt→ltb (length (c.view buf)) (length (body c p pkg) + 4) short',
              )
        ]
