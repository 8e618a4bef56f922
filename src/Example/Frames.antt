-- ===== src/Example/Frames.antt =====
-- The theorems on frames, credentials and the transport, at a request with credentials.
use eventstore_tcp.Prelude.{
  Bool, true, Bytes, none, some, ok, err, [], ◌∷◌, ◌++◌, ◌≡◌, ◌≢◌, refl, arith, length, take, drop,
  take-append-drop, ◌&◌, sym, ap, ◌∙◌, utf8_valid, from_utf8,
}
use eventstore_tcp.Errors.{other, invalid_flags}
use eventstore_tcp.Auth.{UsernamePassword}
use eventstore_tcp.Auth
use eventstore_tcp.Auth.Laws
use eventstore_tcp.Message.ReadEvent
use eventstore_tcp.Raw
use eventstore_tcp.Client
use eventstore_tcp.Codec.{decode, encode}
use eventstore_tcp.Codec.Frame.{body, frame, header}
use eventstore_tcp.Codec.RoundTrip.{decode-frame, decode_partial}
use eventstore_tcp.Codec.Encoder.{decode-encode}
use eventstore_tcp.Codec.Buffer.{Takes, decode-Takes, decode_stable}
use eventstore_tcp.Codec.Refusals.{decode_bad_flags}
use eventstore_tcp.Example.Wire.{wire, wire-IsProtobuf}
use eventstore_tcp.Example.Kit.{kit, kit-IsCrates, Id16, Buffer}
use eventstore_tcp.Example.Sample.{
  user, sample, user-IsValid, sample-IsValid, received, empty_buffer, frame_size,
}

decode-encode_example :
    (full drained : Buffer) × (encode kit wire true sample empty_buffer ≡ ok full)
    × (decode kit wire full ≡ (ok (some sample), drained))
    × (kit.view drained ≡ [])
decode-encode_example =
    decode-encode kit-IsCrates wire-IsProtobuf true sample empty_buffer sample-IsValid refl
      frame_size

decode-frame_example :
    (buf' : Buffer) × (decode kit wire received ≡ (ok (some sample), buf'))
    × (kit.view buf' ≡ 9 ∷ [])
decode-frame_example =
    decode-frame kit-IsCrates wire-IsProtobuf sample received (9 ∷ []) sample-IsValid refl

abbrev half : Buffer
half = record { held = take 10 (frame kit wire sample); room = 0 }

missing : drop 10 (frame kit wire sample) ≢ []
unfolding frame body header Raw.encode Raw.discriminator Auth.encode ReadEvent.write_message
missing e = cc

decode_partial_example : decode kit wire half ≡ (ok none, half)
decode_partial_example =
    decode_partial kit-IsCrates wire-IsProtobuf sample half (drop 10 (frame kit wire sample))
      sample-IsValid (take-append-drop 10 (frame kit wire sample)) missing

abbrev whole : Buffer
whole = record { held = frame kit wire sample ++ []; room = 0 }

whole_decodes : (decode kit wire whole).0 ≢ ok none
whole_decodes h =
    let (b, e, left) =
      decode-frame kit-IsCrates wire-IsProtobuf sample whole [] sample-IsValid refl in
    let e' : ok none ≡ ok (some sample) = sym h ∙ ap (λ x. x.0) e in cc

abbrev longer : Buffer
longer = record { held = (frame kit wire sample ++ []) ++ (9 ∷ []); room = 0 }

decode_stable_example : (decode kit wire longer).0 ≡ (decode kit wire whole).0
decode_stable_example = decode_stable kit wire whole longer (9 ∷ []) refl whole_decodes

decode-Takes_example : Takes kit received (decode kit wire received)
decode-Takes_example = decode-Takes kit wire received

abbrev odd_flags : Buffer
odd_flags = record {
  held =
      18 ∷ 0 ∷ 0 ∷ 0 ∷ 1 ∷ 4 ∷ 1 ∷ 2 ∷ 3 ∷ 4 ∷ 5 ∷ 6 ∷ 7 ∷ 8 ∷ 9 ∷ 10 ∷ 11 ∷ 12 ∷ 13 ∷ 14 ∷ 15 ∷ 16
      ∷ [];
  room = 0;
}

decode_bad_flags_example : decode kit wire odd_flags ≡ (err (other (invalid_flags 4)), odd_flags)
decode_bad_flags_example =
    decode_bad_flags kit-IsCrates wire odd_flags 18 1 4 (drop 6 odd_flags.held) refl (omega arith)
      (omega arith) refl (omega arith)

decode-encode_credentials_example :
    (Auth.decode kit ((Auth.encode kit user).0 ++ (7 ∷ [])) ≡ ok (user, 7 ∷ []))
    × ((Auth.encode kit user).1 ≡ length (Auth.encode kit user).0)
decode-encode_credentials_example =
    Laws.decode-encode_credentials kit-IsCrates user (7 ∷ []) user-IsValid

abbrev user_bytes : Bytes
user_bytes = 2 ∷ 97 ∷ 98 ∷ 2 ∷ 195 ∷ 164 ∷ 7 ∷ []

user_bytes_decoded : Auth.decode kit user_bytes ≡ ok (user, 7 ∷ [])
unfolding Auth.decode Auth.decode_text Auth.read_exact from_utf8 utf8_valid
user_bytes_decoded = refl

encode-decode_credentials_example :
    ((Auth.encode kit user).0 ++ (7 ∷ []) ≡ user_bytes) × Laws.IsValid user
encode-decode_credentials_example =
    Laws.encode-decode_credentials kit-IsCrates user_bytes user (7 ∷ [])
      (omega arith
        & omega arith
        & omega arith
        & omega arith
        & omega arith
        & omega arith
        & omega arith
        & tt)
      user_bytes_decoded

abbrev all_equal : Id16 → Id16 → Bool
all_equal a b = true

decode-encode-next_example :
    (full drained : Buffer) × (Client.encode kit wire all_equal true
        (Client.next kit wire sample, sample)
        empty_buffer
      ≡ ok full)
    × (Client.decode kit wire full ≡ (ok (some (Client.next kit wire sample, sample)), drained))
    × (kit.view drained ≡ [])
decode-encode-next_example =
    Client.decode-encode-next kit-IsCrates wire-IsProtobuf all_equal true sample empty_buffer
      (λ i. refl) sample-IsValid refl frame_size
