-- ===== src/Auth/Laws.antt =====
-- Lemmas on `UsernamePassword` of src/auth.rs.
use eventstore_tcp.Prelude.{
  ℕ, Bytes, Str, IsUtf8, IsByte, from_utf8, from_utf8_valid, from_utf8-eq-some, length-take,
  Outcome, ok, err, >>=-eq-ok, [], ◌∷◌, ◌++◌, ◌%◌, ◌≤◌, ◌<◌, ◌≡◌, refl, Option-cases, length, take,
  drop, length-append, take_all, drop_all, take-append-drop, append_assoc, arith, All,
  All-append_right, ltb, Bool-cases, inl, inr, le→not_ltb,
}
use eventstore_tcp.Errors.{IoError, unexpected_eof}
use eventstore_tcp.Crates.{Crates, IsCrates}
use eventstore_tcp.Auth.{UsernamePassword, read_exact, new, decode_text, decode, encode}

-- Both texts are UTF-8, and their lengths fit the length bytes.
pub record IsValid (a : UsernamePassword) : Type 0 where
  pub username_utf8 : IsUtf8 a.username
  pub password_utf8 : IsUtf8 a.password
  pub username_fits : length a.username < 256
  pub password_fits : length a.password < 256

-- Credentials that `new` makes of two UTF-8 texts are valid and hold those texts.
pub new-IsValid :
    {E : Type 0} (u p : Str) (a : UsernamePassword)
    → IsUtf8 u
    → IsUtf8 p
    → new {E = E} u p ≡ ok a
    → IsValid a × (a.username ≡ u) × (a.password ≡ p)
unfolding new
new-IsValid u p a hu hp e = ground arith

-- `read_exact` takes the bytes that it is asked for, and leaves those behind them.
pub read_exact-append : (n : ℕ) (s r : Bytes) → length s ≡ n → read_exact n (s ++ r) ≡ ok (s, r)
unfolding read_exact
read_exact-append n s r e = rw (
  le→not_ltb (length (s ++ r)) n (omega (arith, length-append s r)),
  take_all s r n e,
  drop_all s r n e,
)

module _ {Uuid Buf : Type 0} {c : Crates Uuid Buf} (q : IsCrates c) where
  decode_text-append :
      (s r : Bytes)
      → IsUtf8 s
      → length s < 256
      → decode_text c (c.write_u8 (length s % 256) ++ (s ++ r)) ≡ ok (s, r)
  unfolding decode_text
  decode_text-append s r utf8 fits =
      let small : length s % 256 ≡ length s = omega arith in
      rw (
        small,
        q.write_u8_byte (length s) fits,
        q.read_u8_cons (length s) (s ++ r),
        read_exact-append (length s) s r refl,
        from_utf8_valid s utf8,
      )

  byte_size : (n : ℕ) → length (c.write_u8 (n % 256)) ≡ 1
  byte_size n = rw (q.write_u8_byte (n % 256) (omega arith))

  -- Valid credentials are read back from what was written, and whatever follows is left; the count
  -- that `encode` returns is the number of bytes written.
  pub decode-encode_credentials :
      (a : UsernamePassword) (r : Bytes)
      → IsValid a
      → (decode c ((encode c a).0 ++ r) ≡ ok (a, r)) × ((encode c a).1 ≡ length (encode c a).0)
  unfolding decode encode
  decode-encode_credentials a r v = (
    rw (
      append_assoc,
      append_assoc,
      append_assoc,
      decode_text-append a.username _ v.username_utf8 v.username_fits,
      decode_text-append a.password r v.password_utf8 v.password_fits,
    ),
    rw (length-append, length-append, length-append)
        (omega (arith, byte_size (length a.username), byte_size (length a.password))),
  )

  taken_text :
      (b : ℕ) (bs s r : Bytes)
      → b < 256
      → b ≤ length bs
      → s ≡ take b bs
      → r ≡ drop b bs
      → (c.write_u8 (length s % 256) ++ (s ++ r) ≡ b ∷ bs) × (length s < 256)
  taken_text b bs s r lt fits es er =
      let size : length (take b bs) ≡ b = omega (arith, length-take b bs) in
      let small : b % 256 ≡ b = omega arith in
      rw (es, er, size, small, q.write_u8_byte b lt, take-append-drop b bs) (refl, lt)

  -- A text is read from the bytes that it would be written as.
  write-decode_text :
      (b : ℕ) (bs s r : Bytes)
      → b < 256
      → decode_text c (b ∷ bs) ≡ ok (s, r)
      → (c.write_u8 (length s % 256) ++ (s ++ r) ≡ b ∷ bs) × IsUtf8 s × (length s < 256)
  unfolding decode_text
  write-decode_text b bs s r lt e = elim (Bool-cases (ltb (length bs) b)) [
    | inl short ↦ let e' = rw (q.read_u8_cons b bs, short) at e in cc
    | inr enough ↦ elim (Option-cases (from_utf8 (take b bs))) [
      | inl bad ↦ let e' = rw (q.read_u8_cons b bs, enough, bad) at e in cc
      | inr (t, good) ↦
          let e' = rw (q.read_u8_cons b bs, enough, good) at e in
          let (same, utf8) = from_utf8-eq-some (take b bs) t good in
          let es : s ≡ take b bs = cc in
          let er : r ≡ drop b bs = cc in
          let (whole, size) = taken_text b bs s r lt (ground arith) es er in
          (whole, rw es utf8, size)
    ]
  ]

  decode_text_nil : decode_text c [] ≡ err unexpected_eof
  unfolding decode_text
  decode_text_nil = rw q.read_u8_nil

  -- The same of any bytes.
  decode_text_bytes :
      (buf s r : Bytes)
      → All IsByte buf
      → decode_text c buf ≡ ok (s, r)
      → (c.write_u8 (length s % 256) ++ (s ++ r) ≡ buf) × IsUtf8 s × (length s < 256) × All IsByte r
  decode_text_bytes [] s r h e = cc decode_text_nil
  decode_text_bytes (b ∷ bs) s r h e =
      let (whole, utf8, size) = write-decode_text b bs s r h.0 e in
      let one : (c.write_u8 (length s % 256) ++ s) ++ r ≡ b ∷ bs = rw append_assoc whole in
      (whole, utf8, size, All-append_right IsByte (c.write_u8 (length s % 256) ++ s) r (rw one h))

  both_texts :
      (buf u r1 p r : Bytes)
      → All IsByte buf
      → decode_text c buf ≡ ok (u, r1)
      → decode_text c r1 ≡ ok (p, r)
      → ((encode c (record { username = u; password = p })).0 ++ r ≡ buf)
        × IsValid (record { username = u; password = p })
  unfolding encode
  both_texts buf u r1 p r h e e' =
      let (whole, utf8, size, rest) = decode_text_bytes buf u r1 h e in
      let (whole', utf8', size', _) = decode_text_bytes r1 p r rest e' in
      (
        rw (append_assoc, append_assoc, append_assoc, whole') whole,
        record {
          username_utf8 = utf8;
          password_utf8 = utf8';
          username_fits = size;
          password_fits = size';
        },
      )

  -- Credentials are read from the bytes that they would be written as, and are valid; no other
  -- bytes stand for them.
  pub encode-decode_credentials :
      (buf : Bytes) (a : UsernamePassword) (r : Bytes)
      → All IsByte buf
      → decode c buf ≡ ok (a, r)
      → ((encode c a).0 ++ r ≡ buf) × IsValid a
  unfolding decode encode
  encode-decode_credentials buf a r bytes e =
      let ((u, r1), got, e1) = >>=-eq-ok (decode_text c buf) _ e in
      let ((p, r2), got', e2) = >>=-eq-ok (decode_text c r1) _ e1 in
      made u p r2 (both_texts buf u r1 p r2 bytes got got') e2
    where
      made :
          (u p r2 : Bytes)
          → (((encode c (record { username = u; password = p })).0 ++ r2 ≡ buf)
              × IsValid (record { username = u; password = p }))
          → ◌≡◌ {A = Outcome IoError (UsernamePassword × Bytes)}
              (ok (record { username = u; password = p }, r2))
              (ok (a, r))
          → ((encode c a).0 ++ r ≡ buf) × IsValid a
      made u p r2 h e2 =
          let ea : a ≡ record { username = u; password = p } = cc in
          let er : r ≡ r2 = cc in rw (ea, er) h
