-- ===== src/Codec/Frame.antt =====
-- The bytes of a frame, described apart from the code, for `encode_parts` of src/codec.rs.
use eventstore_tcp.Prelude.{
  ℕ, Bool, Bytes, Option, none, some, ok, [], ◌++◌, ◌+◌, ◌%◌, ◌^◌, ◌<◌, ◌≡◌, length, drop,
  length-append, drop_all, append_assoc, arith, ◌>>=◌,
}
use eventstore_tcp.Errors.{IoError}
use eventstore_tcp.Protobuf.{Protobuf}
use eventstore_tcp.Crates.{Crates, IsCrates, flag_none, flag_authenticated}
use eventstore_tcp.Auth
use eventstore_tcp.Auth.{UsernamePassword}
use eventstore_tcp.Auth.Laws
use eventstore_tcp.Raw
use eventstore_tcp.Raw.Validity
use eventstore_tcp.Codec.{Package, encode_parts, credential_bytes, flags_of, sub_u32}

abbrev pub flag_byte : Option UsernamePassword → ℕ
flag_byte none = flag_none
flag_byte (some a) = flag_authenticated

abbrev pub IsAuth : Option UsernamePassword → Type 0
IsAuth none = Unit
IsAuth (some a) = Laws.IsValid a

module _ {Uuid Buf : Type 0} (c : Crates Uuid Buf) where
  abbrev pub credentials_of : Option UsernamePassword → Bytes
  credentials_of none = []
  credentials_of (some a) = (Auth.encode c a).0

  -- What stands in front of the message.
  unfoldable pub header : Package Uuid → Bytes
  header pkg =
      c.write_u8 (Raw.discriminator pkg.message)
      ++ (c.write_u8 (flag_byte pkg.authentication)
          ++ (c.as_bytes pkg.correlation_id ++ credentials_of pkg.authentication))

module _ {Uuid Buf : Type 0} (c : Crates Uuid Buf) (p : Protobuf) where
  unfoldable pub body : Package Uuid → Bytes
  body pkg = header c pkg ++ Raw.encode p pkg.message

  unfoldable pub frame : Package Uuid → Bytes
  frame pkg = c.write_u32 (length (body pkg)) ++ body pkg

  -- A package that can be sent: its parts are valid, and the length prefix can tell its size.
  pub record IsValid (pkg : Package Uuid) : Type 0 where
    pub authentication : IsAuth pkg.authentication
    pub message : Validity.IsValid p pkg.message
    pub discriminator : Raw.discriminator pkg.message < 256
    pub size : 4 + length (body pkg) < 2 ^ 32

module _ {Uuid Buf : Type 0} {c : Crates Uuid Buf} (q : IsCrates c) where
  flags_byte : (a : Option UsernamePassword) → c.bits (flags_of c a) ≡ flag_byte a
  unfolding flags_of
  flags_byte none = q.bits_lem flag_none
  flags_byte (some a) = rw q.insert_none (q.bits_lem flag_authenticated)

  written_credentials :
      (a : Option UsernamePassword)
      → credential_bytes c (c.contains (flags_of c a) flag_authenticated) a
        ≡ ok (credentials_of c a)
  unfolding credential_bytes flags_of
  written_credentials none = rw q.contains_none
  written_credentials (some a) = rw (q.insert_none, q.contains_authenticated)

sub_u32_four : (checks : Bool) (n : ℕ) → sub_u32 {E = IoError} checks (4 + n) 4 ≡ ok n
unfolding sub_u32
sub_u32_four checks n = ground arith

module _ {Uuid Buf : Type 0} {c : Crates Uuid Buf} (q : IsCrates c) where
  -- The length prefix is written over the placeholder.
  sealed :
      (checks : Bool) (b : Bytes)
      → 4 + length b < 2 ^ 32
      → (sub_u32 {E = IoError} checks (length (c.write_u32 0 ++ b) % 2 ^ 32) 4 >>= λ len.
          ok (c.write_u32 len ++ drop 4 (c.write_u32 0 ++ b)))
        ≡ ok (c.write_u32 (length b) ++ b)
  sealed checks b fits =
      let size : length (c.write_u32 0 ++ b) % 2 ^ 32 ≡ 4 + length b =
        omega (arith, length-append (c.write_u32 0) b, q.write_u32_size 0) in
      rw (size, sub_u32_four checks (length b), drop_all (c.write_u32 0) b 4 (q.write_u32_size 0))

module _ {Uuid Buf : Type 0} {c : Crates Uuid Buf} (q : IsCrates c) (p : Protobuf) where
  -- With or without overflow checks a package that fits is encoded to its frame.
  pub encode_parts-frame :
      (checks : Bool) (pkg : Package Uuid)
      → 4 + length (body c p pkg) < 2 ^ 32
      → encode_parts c p checks pkg.correlation_id pkg.authentication pkg.message
        ≡ ok (frame c p pkg)
  unfolding encode_parts frame
  encode_parts-frame checks pkg fits =
      rw (written_credentials q pkg.authentication, flags_byte q pkg.authentication, regroup pkg)
        (sealed q checks (body c p pkg) fits)
    where
      regroup :
          (pkg : Package Uuid)
          → (c.write_u32 0
                ++ (c.write_u8 (Raw.discriminator pkg.message)
                    ++ (c.write_u8 (flag_byte pkg.authentication)
                        ++ c.as_bytes pkg.correlation_id)))
              ++ (credentials_of c pkg.authentication ++ Raw.encode p pkg.message)
            ≡ c.write_u32 0 ++ body c p pkg
      regroup pkg = unfold body header in simp append_assoc
