-- ===== src/Codec/Ends.antt =====
-- That `decode_inner` of src/codec.rs ends on every buffer.
use eventstore_tcp.Prelude.{
  ℕ, Bool, true, false, Bytes, Str, Option, none, some, Outcome, ok, err, panic, stuck, ◌>>=◌,
  unwrap, [], ◌∷◌, ◌+◌, ◌≤◌, ◌≡◌, ◌≢◌, length, take, drop, length-take, from_utf8, ltb, Bool-cases,
  inl, inr, arith,
}
use eventstore_tcp.Errors.{IoError}
use eventstore_tcp.Protobuf.{Protobuf}
use eventstore_tcp.Protobuf.Laws.{IsProtobuf}
use eventstore_tcp.Crates.{Crates, IsCrates, flag_authenticated}
use eventstore_tcp.Raw
use eventstore_tcp.Raw.{RawMessage}
use eventstore_tcp.Raw.Decode
use eventstore_tcp.Auth
use eventstore_tcp.Auth.{UsernamePassword, read_exact, decode_text}
use eventstore_tcp.Codec.{
  decode, decode_frame, decode_body, decode_header, take_frame, checked_flags, credentials,
}

-- A chain of steps that end ends.
pub >>=-ne-stuck :
    {E A B : Type 0} (o : Outcome E A) (f : A → Outcome E B)
    → o ≢ stuck
    → ((a : A) → f a ≢ stuck)
    → (o >>= f) ≢ stuck
>>=-ne-stuck (ok a) f h k e = k a e
>>=-ne-stuck (err x) f h k e = cc
>>=-ne-stuck panic f h k e = cc
>>=-ne-stuck stuck f h k e = absurd (h (cc))

pub unwrap-ne-stuck : {E A : Type 0} (o : Option A) → unwrap {E = E} o ≢ stuck
unwrap-ne-stuck (some a) e = cc
unwrap-ne-stuck none e = cc

read_exact-ne-stuck : (n : ℕ) (r : Bytes) → read_exact n r ≢ stuck
unfolding read_exact
read_exact-ne-stuck n r = elim (Bool-cases (ltb (length r) n)) [
  | inl short ↦ rw short (λ e. cc)
  | inr enough ↦ rw enough (λ e. cc)
]

checked_flags-ne-stuck : (n : ℕ) (o : Option ℕ) → checked_flags n o ≢ stuck
unfolding checked_flags
checked_flags-ne-stuck n none e = cc
checked_flags-ne-stuck n (some f) e = cc

text_of-ne-stuck : (o : Option Str) → Auth.text_of o ≢ stuck
unfolding Auth.text_of
text_of-ne-stuck none e = cc
text_of-ne-stuck (some t) e = cc

module _ {Uuid Buf : Type 0} {c : Crates Uuid Buf} (q : IsCrates c) where
  read_u8-ne-stuck : (s : Bytes) → c.read_u8 s ≢ stuck
  read_u8-ne-stuck [] = rw (q.read_u8_nil) (λ e. cc)
  read_u8-ne-stuck (b ∷ s) = rw (q.read_u8_cons b s) (λ e. cc)

  decode_text-ne-stuck : (s : Bytes) → decode_text c s ≢ stuck
  unfolding decode_text
  decode_text-ne-stuck s = >>=-ne-stuck (c.read_u8 s) _ (read_u8-ne-stuck s) (λ x.
      >>=-ne-stuck (read_exact x.0 x.1) _ (read_exact-ne-stuck x.0 x.1) (λ y.
        >>=-ne-stuck (Auth.text_of (from_utf8 y.0)) _ (text_of-ne-stuck (from_utf8 y.0))
          (λ t e. cc)))

  credentials-ne-stuck : (b : Bool) (r : Bytes) → credentials c b r ≢ stuck
  unfolding credentials Auth.decode
  credentials-ne-stuck true r =
      >>=-ne-stuck (Auth.decode c r) _
        (>>=-ne-stuck (decode_text c r) _ (decode_text-ne-stuck r)
          (λ x. >>=-ne-stuck (decode_text c x.1) _ (decode_text-ne-stuck x.1) (λ y e. cc)))
        (λ x e. cc)
  credentials-ne-stuck false r = λ e. cc

  decode_header-ne-stuck : (s : Bytes) → decode_header c s ≢ stuck
  unfolding decode_header
  decode_header-ne-stuck s = >>=-ne-stuck (c.read_u8 s) _ (read_u8-ne-stuck s) (λ d.
      >>=-ne-stuck (c.read_u8 d.1) _ (read_u8-ne-stuck d.1) (λ f.
        >>=-ne-stuck (checked_flags f.0 (c.from_bits f.0)) _
          (checked_flags-ne-stuck f.0 (c.from_bits f.0))
          (λ flags. >>=-ne-stuck (read_exact 16 f.1) _ (read_exact-ne-stuck 16 f.1) (λ u.
            >>=-ne-stuck (unwrap (c.uuid_from_bytes u.0)) _
              (unwrap-ne-stuck (c.uuid_from_bytes u.0))
              (λ id.
                >>=-ne-stuck (credentials c (c.contains flags flag_authenticated) u.1) _
                  (credentials-ne-stuck (c.contains flags flag_authenticated) u.1) (λ a e. cc))))))

  module _ {p : Protobuf} (pb : IsProtobuf p) where
    decode_body-ne-stuck : (s : Bytes) → decode_body c p s ≢ stuck
    unfolding decode_body
    decode_body-ne-stuck s = >>=-ne-stuck (decode_header c s) _ (decode_header-ne-stuck s) (λ h.
        >>=-ne-stuck (Raw.decode p h.0 (drop h.3 s)) _ (Decode.decode-ne-stuck pb h.0 (drop h.3 s))
          (λ m e. cc))

    take_frame-ne-stuck :
        (n : ℕ) (buf : Buf) (o : Outcome IoError (Uuid × Option UsernamePassword × RawMessage))
        → o ≢ stuck
        → (take_frame c n buf o).0 ≢ stuck
    unfolding take_frame
    take_frame-ne-stuck n buf (ok (id, a, m)) h e = cc
    take_frame-ne-stuck n buf (err x) h e = cc
    take_frame-ne-stuck n buf panic h e = cc
    take_frame-ne-stuck n buf stuck h e = absurd (h (cc))

    -- No loop of the decoder runs out of its fuel, whatever the buffer holds.
    pub decode-ne-stuck : (buf : Buf) → (decode c p buf).0 ≢ stuck
    unfolding decode decode_frame
    decode-ne-stuck buf = elim (Bool-cases (ltb (length (c.view buf)) 22)) [
      | inl short ↦ rw short (λ e. cc)
      | inr long ↦
          let four : length (take 4 (c.view buf)) ≡ 4 =
            omega (arith, length-take 4 (c.view buf), enough buf long) in
          let (len, fits, told) = q.read_u32_four (take 4 (c.view buf)) four in
          elim (Bool-cases (ltb len 18)) [
            | inl small ↦ rw (long, told, small) (λ e. cc)
            | inr big ↦ elim (Bool-cases (ltb (length (c.view buf)) (len + 4))) [
              | inl part ↦ rw (long, told, big, part) (λ e. cc)
              | inr whole ↦
                  rw (long, told, big, whole)
                    (take_frame-ne-stuck (4 + len) buf _
                      (decode_body-ne-stuck (take len (drop 4 (c.view buf)))))
            ]
          ]
    ]
      where
        enough : (b : Buf) → ltb (length (c.view b)) 22 ≡ false → 22 ≤ length (c.view b)
        enough b h = ground arith
